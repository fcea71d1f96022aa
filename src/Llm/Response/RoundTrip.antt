-- ===== src/Llm/Response/RoundTrip.antt =====
-- What the client of src/llm/openai.rs sends as an assistant message, it reads back from a
-- response that holds that message.
use animus_rs.Prelude.{
  ℕ, ◌^◌, ◌<◌, ◌≡◌, refl, ap, ◌∙◌, List, [], ◌∷◌, ◌++◌, map, Text, lit, newline, is_empty, join, ok,
  if◌then◌else◌, text_eq, arith, none, some,
}
use animus_rs.Json.{JsonLib, lookup}
use animus_rs.Llm.Types.{ContentBlock, StopReason}
use animus_rs.Llm.Request.{tool_call, assistant_message}
use animus_rs.Llm.Request.Wire.{
  block_texts, block_calls, call_value, call_entries, assistant_wire,
  assistant_message-assistant_wire,
}
use animus_rs.Llm.Response.{
  as_u32, parse_finish_reason, text_block, input_or_empty, tool_block, tool_blocks, message_content,
  token_count, parse_response_body,
}
use animus_rs.Llm.Response.Reasons.{Means, parse_finish_reason-Means}

module _ (j : JsonLib) where
  open j use {
    Value, null, number, string, array, object, index, first, as_str, as_array, as_u64, from_str,
    to_string,
  }

  -- The arguments of every tool call are printed as text that parses to them.
  abbrev pub ArgumentsPrint : List (ContentBlock Value) → Type 0
  ArgumentsPrint [] = Unit
  ArgumentsPrint (ContentBlock.tool_use id name input ∷ blocks) =
      (from_str (to_string input) ≡ ok input) × ArgumentsPrint blocks
  ArgumentsPrint (ContentBlock.text s ∷ blocks) = ArgumentsPrint blocks
  ArgumentsPrint (ContentBlock.thinking s ∷ blocks) = ArgumentsPrint blocks

  -- A response with one choice.
  abbrev pub response_value : Value → Text → ℕ → ℕ → Value
  response_value message reason prompt_tokens completion_tokens = object (
      (
        lit "choices",
        array (object ((lit "message", message) ∷ (lit "finish_reason", string reason) ∷ []) ∷ []),
      )
      ∷ (
        lit "usage",
        object (
            (lit "prompt_tokens", number prompt_tokens)
            ∷ (lit "completion_tokens", number completion_tokens)
            ∷ []),
      )
      ∷ [])

  -- The block of a text that is not empty.
  abbrev pub block_of : Text → List (ContentBlock Value)
  block_of s = if is_empty s then [] else ContentBlock.text s ∷ []

  string_entry : (v : Value) (key s : Text) → index v key ≡ string s → as_str (index v key) ≡ some s
  string_entry v key s e = ap as_str e ∙ j.as_str-string s

  null_entry : (v : Value) (key : Text) → index v key ≡ null → as_str (index v key) ≡ none
  null_entry v key e = ap as_str e ∙ j.as_str-null

  tool_block_of :
      (tc function : Value) (id name arguments : Text) (input : Value)
      → as_str (index tc (lit "id")) ≡ some id
      → index tc (lit "function") ≡ function
      → as_str (index function (lit "name")) ≡ some name
      → as_str (index function (lit "arguments")) ≡ some arguments
      → from_str arguments ≡ ok input
      → tool_block j tc ≡ ContentBlock.tool_use id name input
  unfolding tool_block input_or_empty
  tool_block_of tc function id name arguments input p q r s e =
      rw (p, q, r, s) (rw (e, input_or_empty))

  tool_block-tool_call :
      (id name : Text) (input : Value)
      → from_str (to_string input) ≡ ok input
      → tool_block j (tool_call j id name input) ≡ ContentBlock.tool_use id name input
  unfolding tool_call lookup text_eq
  tool_block-tool_call id name input e =
      tool_block_of (tool_call j id name input) _ id name (to_string input) input
        (string_entry _ _ id (j.index-object _ _)) (j.index-object _ _)
        (string_entry _ _ name (j.index-object _ _))
        (string_entry _ _ (to_string input) (j.index-object _ _)) e

  tool_calls_back :
      (content : List (ContentBlock Value))
      → ArgumentsPrint content
      → map (tool_block j) (map (call_value j) (block_calls content)) ≡ block_calls content
  tool_calls_back [] h = refl
  tool_calls_back (ContentBlock.text s ∷ blocks) h = tool_calls_back blocks h
  tool_calls_back (ContentBlock.thinking s ∷ blocks) h = tool_calls_back blocks h
  tool_calls_back (ContentBlock.tool_use id name input ∷ blocks) h =
      rw (tool_block-tool_call id name input h.0)
        (ap (◌∷◌ (ContentBlock.tool_use id name input)) (tool_calls_back blocks h.1))

  tool_blocks_of_entry :
      (calls : List Value) (v : Value)
      → index v (lit "tool_calls") ≡ (if is_empty calls then null else array calls)
      → tool_blocks j (as_array (index v (lit "tool_calls"))) ≡ map (tool_block j) calls
  unfolding tool_blocks
  tool_blocks_of_entry [] v e = rw (e, j.as_array-null)
  tool_blocks_of_entry (x ∷ calls) v e = rw (e, j.as_array-array)

  text_block_of_entry :
      (s : Text) (v : Value) (key : Text)
      → index v key ≡ (if is_empty s then null else string s)
      → text_block j ContentBlock.text (as_str (index v key)) ≡ block_of s
  unfolding text_block
  text_block_of_entry [] v key e = rw (null_entry v key e)
  text_block_of_entry (c ∷ s) v key e = rw (string_entry v key (c ∷ s) e)

  -- The three entries that are read of a message.
  entries_back :
      (s : Text) (calls : List Value)
      → let v = object (
          (lit "role", string (lit "assistant"))
          ∷ ((if is_empty s then [] else (lit "content", string s) ∷ [])
              ++ call_entries j calls)) in
        (index v (lit "reasoning_content") ≡ null)
        × (index v (lit "content") ≡ (if is_empty s then null else string s))
        × (index v (lit "tool_calls") ≡ (if is_empty calls then null else array calls))
  unfolding lookup text_eq
  entries_back [] [] = (j.index-object _ _, j.index-object _ _, j.index-object _ _)
  entries_back [] (x ∷ calls) = (j.index-object _ _, j.index-object _ _, j.index-object _ _)
  entries_back (c ∷ s) [] = (j.index-object _ _, j.index-object _ _, j.index-object _ _)
  entries_back (c ∷ s) (x ∷ calls) = (j.index-object _ _, j.index-object _ _, j.index-object _ _)

  message_content-assistant_wire :
      (content : List (ContentBlock Value))
      → ArgumentsPrint content
      → message_content j (assistant_wire j content)
        ≡ block_of (join (newline ∷ []) (block_texts content)) ++ block_calls content
  unfolding message_content text_block
  message_content-assistant_wire content h =
      let (no_thinking, texts, calls) =
        entries_back (join (newline ∷ []) (block_texts content))
          (map (call_value j) (block_calls content)) in
      let thinking = null_entry _ _ no_thinking in
      let text = text_block_of_entry (join (newline ∷ []) (block_texts content)) _ _ texts in
      let tools =
        tool_blocks_of_entry (map (call_value j) (block_calls content)) _ calls
        ∙ tool_calls_back content h in
      λ i. text_block j ContentBlock.thinking (thinking i) ++ (text i ++ tools i)

  number_entry :
      (v : Value) (key : Text) (n : ℕ)
      → n < 2 ^ 64
      → index v key ≡ number n
      → as_u64 (index v key) ≡ some n
  number_entry v key n h e = ap as_u64 e ∙ j.as_u64-number n h

  first_entry :
      (json choice : Value) (key : Text)
      → index json key ≡ array (choice ∷ [])
      → first (index json key) ≡ some choice
  first_entry json choice key e = ap first e ∙ j.first-array _

  parse_response_body_of :
      (json choice message usage : Value) (content : List (ContentBlock Value)) (reason : Text)
      (p c : ℕ)
      → first (index json (lit "choices")) ≡ some choice
      → index choice (lit "message") ≡ message
      → message_content j message ≡ content
      → as_str (index choice (lit "finish_reason")) ≡ some reason
      → index json (lit "usage") ≡ usage
      → as_u64 (index usage (lit "prompt_tokens")) ≡ some p
      → as_u64 (index usage (lit "completion_tokens")) ≡ some c
      → parse_response_body j json
        ≡ ok (record {
          content = content;
          stop_reason = parse_finish_reason reason;
          usage = record { input_tokens = as_u32 p; output_tokens = as_u32 c };
        })
  unfolding parse_response_body token_count
  parse_response_body_of json choice message usage content reason p c e f g h k l m =
      rw e (rw (f, g, h, k) (rw (l, m)))

  -- An assistant message that is sent, and comes back as the message of a response, is read back
  -- as its texts joined by line breaks, if that is not empty, and its tool calls in order with
  -- their arguments; its thinking is gone. The stop reason is what the reason of the response stands
  -- for, and the token counts are those of the response. The arguments have to print as text that parses to them, and the counts fit 32 bits.
  pub parse_response_body-assistant_message :
      (content : List (ContentBlock Value)) (reason : Text) (prompt_tokens completion_tokens : ℕ)
      → ArgumentsPrint content
      → prompt_tokens < 2 ^ 32
      → completion_tokens < 2 ^ 32
      → (meaning : StopReason) × Means reason meaning
        × (parse_response_body j
              (response_value (assistant_message j content) reason prompt_tokens completion_tokens)
            ≡ ok (record {
              content = block_of (join (newline ∷ []) (block_texts content)) ++ block_calls content;
              stop_reason = meaning;
              usage = record { input_tokens = prompt_tokens; output_tokens = completion_tokens };
            }))
  unfolding lookup text_eq
  parse_response_body-assistant_message content reason p c h hp hc = (
    parse_finish_reason reason,
    parse_finish_reason-Means reason,
    parse_response_body_of _ _ _ _ _ reason p c (first_entry _ _ _ (j.index-object _ _))
          (j.index-object _ _)
          (ap (message_content j) (assistant_message-assistant_wire j content)
            ∙ message_content-assistant_wire content h)
          (string_entry _ _ reason (j.index-object _ _)) (j.index-object _ _)
          (number_entry _ _ p (omega arith) (j.index-object _ _))
          (number_entry _ _ c (omega arith) (j.index-object _ _))
        ∙ ground arith,
  )
