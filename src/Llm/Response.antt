-- ===== src/Llm/Response.antt =====
-- src/llm/openai.rs: `parse_response_body` and `parse_finish_reason`.
pub mod Reasons
pub mod RoundTrip
use animus_rs.Prelude.{
  ℕ, ◌^◌, ◌%◌, Option, none, some, List, [], ◌∷◌, ◌++◌, map, Text, lit, text_eq, is_empty, Result,
  ok, err, ok_or, unwrap_or, ◌>>=◌, if◌then◌else◌,
}
use animus_rs.Json.{JsonLib}
use animus_rs.Llm.Types.{ContentBlock, StopReason, Usage, CompletionResponse, LlmError}

-- `n as u32`
abbrev pub as_u32 : ℕ → ℕ
as_u32 n = n % 2 ^ 32

pub parse_finish_reason : Text → StopReason
parse_finish_reason reason =
    if text_eq reason (lit "stop")
    then StopReason.end_turn
    else if text_eq reason (lit "length")
    then StopReason.max_tokens
    else if text_eq reason (lit "tool_calls")
    then StopReason.tool_use
    else StopReason.other reason

module _ (j : JsonLib) where
  open j use {Value, null, index, first, as_str, as_array, as_u64, from_str, object}

  -- A text that is there and not empty becomes a block.
  pub text_block : (Text → ContentBlock Value) → Option Text → List (ContentBlock Value)
  text_block block none = []
  text_block block (some s) = if is_empty s then [] else block s ∷ []

  -- `serde_json::from_str(s).unwrap_or(json!({}))`
  pub input_or_empty : Text → Value
  input_or_empty s = elim (from_str s) [ ok v ↦ v | err e ↦ object [] ]

  pub tool_block : Value → ContentBlock Value
  tool_block tc =
      let id = unwrap_or [] (as_str (index tc (lit "id"))) in
      let function = index tc (lit "function") in
      let name = unwrap_or [] (as_str (index function (lit "name"))) in
      let arguments = unwrap_or (lit "{}") (as_str (index function (lit "arguments"))) in
      ContentBlock.tool_use id name (input_or_empty arguments)

  pub tool_blocks : Option (List Value) → List (ContentBlock Value)
  tool_blocks none = []
  tool_blocks (some calls) = map tool_block calls

  pub message_content : Value → List (ContentBlock Value)
  message_content message =
      text_block ContentBlock.thinking (as_str (index message (lit "reasoning_content")))
      ++ (text_block ContentBlock.text (as_str (index message (lit "content")))
          ++ tool_blocks (as_array (index message (lit "tool_calls"))))

  pub token_count : Value → Text → ℕ
  token_count json field = as_u32 (unwrap_or 0 (as_u64 (index (index json (lit "usage")) field)))

  pub parse_response_body : Value → Result LlmError (CompletionResponse Value)
  parse_response_body json = do
    choice ←
        ok_or (LlmError.stream (lit "No choices in response")) (first (index json (lit "choices")))
    ok (record {
      content = message_content (index choice (lit "message"));
      stop_reason =
          parse_finish_reason
            (unwrap_or (lit "stop") (as_str (index choice (lit "finish_reason"))));
      usage = record {
        input_tokens = token_count json (lit "prompt_tokens");
        output_tokens = token_count json (lit "completion_tokens");
      };
    })
