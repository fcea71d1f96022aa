-- ===== src/Llm/Stream.antt =====
-- src/llm/openai.rs: `complete_stream`, from the reply to the response and the events that it sends.
pub mod Reply
pub mod Complete
pub mod Conserve
pub mod Contents
pub mod Thinking
use animus_rs.Prelude.{
  ℕ, ◌==◌, Bool, true, Option, none, some, List, [], ◌∷◌, ◌++◌, Text, lit, text_eq, is_empty,
  Result, ok, err, unwrap_or, ◌>>=◌, if◌then◌else◌,
}
use animus_rs.Json.{JsonLib, index_first}
use animus_rs.Llm.Types.{
  ContentBlock, StopReason, Usage, CompletionRequest, CompletionResponse, StreamEvent, LlmError,
}
use animus_rs.Llm.Sse
use animus_rs.Llm.Sse.{SseEvent, SseParser, feed}
use animus_rs.Llm.Http.{HttpResponse, is_success, too_many_requests, retry_after_secs}
use animus_rs.Llm.Response.{as_u32, parse_finish_reason, input_or_empty}
use animus_rs.Llm.Request.{build_request_body}

-- The local variables of the loop, and the events sent to `tx` so far.
pub record Stream (V : Type 0) : Type 0 where
  pub content_blocks : List (ContentBlock V)
  pub current_thinking : Text
  pub current_text : Text
  pub current_tool_id : Text
  pub current_tool_name : Text
  pub current_tool_args : Text
  pub stop_reason : StopReason
  pub usage : Usage
  pub sent : List StreamEvent

abbrev pub initial : {V : Type 0} → Stream V
initial = record {
  content_blocks = [];
  current_thinking = [];
  current_text = [];
  current_tool_id = [];
  current_tool_name = [];
  current_tool_args = [];
  stop_reason = StopReason.end_turn;
  usage = record { input_tokens = 0; output_tokens = 0 };
  sent = [];
}

module _ {V : Type 0} where
  abbrev pub send : StreamEvent → Stream V → Stream V
  send event s = record s { sent = s.sent ++ event ∷ [] }

  pub flush_thinking : Stream V → Stream V
  flush_thinking s = if is_empty s.current_thinking then s else record s {
    content_blocks = s.content_blocks ++ ContentBlock.thinking s.current_thinking ∷ [];
    current_thinking = [];
  }

  pub flush_text : Stream V → Stream V
  flush_text s = if is_empty s.current_text then s else record s {
    content_blocks = s.content_blocks ++ ContentBlock.text s.current_text ∷ [];
    current_text = [];
  }

module _ (j : JsonLib) where
  open j use {Value, index, get, as_str, as_array, as_u64, from_str}

  pub flush_tool : Stream Value → Stream Value
  flush_tool s = if is_empty s.current_tool_id then s else record s {
    content_blocks =
        s.content_blocks
        ++ ContentBlock.tool_use s.current_tool_id s.current_tool_name
            (input_or_empty j s.current_tool_args)
          ∷ [];
    current_tool_id = [];
    current_tool_name = [];
    current_tool_args = [];
  }

  -- The branch of the end marker.
  pub on_done : Stream Value → Stream Value
  on_done s = send StreamEvent.done (flush_tool (flush_text (flush_thinking s)))

  abbrev pub choice_of : Value → Value
  choice_of chunk = index_first j (index chunk (lit "choices"))

  pub take_reason : Option Text → Stream Value → Stream Value
  take_reason none s = s
  take_reason (some reason) s = record s { stop_reason = parse_finish_reason reason }

  pub take_input : Option ℕ → Stream Value → Stream Value
  take_input none s = s
  take_input (some n) s = record s {
    usage = record { input_tokens = as_u32 n; output_tokens = s.usage.output_tokens };
  }

  pub take_output : Option ℕ → Stream Value → Stream Value
  take_output none s = s
  take_output (some n) s = record s {
    usage = record { input_tokens = s.usage.input_tokens; output_tokens = as_u32 n };
  }

  pub take_usage : Option Value → Stream Value → Stream Value
  take_usage none s = s
  take_usage (some u) s =
      take_output (as_u64 (index u (lit "completion_tokens")))
        (take_input (as_u64 (index u (lit "prompt_tokens"))) s)

  pub take_thinking : Option Text → Stream Value → Stream Value
  take_thinking none s = s
  take_thinking (some thinking) s =
      send (StreamEvent.thinking_delta thinking)
        (record s { current_thinking = s.current_thinking ++ thinking })

  pub take_text : Option Text → Stream Value → Stream Value
  take_text none s = s
  take_text (some text) s =
      send (StreamEvent.text_delta text) (record s { current_text = s.current_text ++ text })

  -- A tool call that starts.
  pub start_tool : Option Text → Text → Stream Value → Stream Value
  start_tool none name s = s
  start_tool (some id) name s =
      send (StreamEvent.tool_start id name)
        (record (flush_tool s) { current_tool_id = id; current_tool_name = name })

  -- A fragment of its arguments.
  pub take_args : Option Text → Stream Value → Stream Value
  take_args none s = s
  take_args (some args) s =
      send (StreamEvent.tool_input_delta s.current_tool_id args)
        (record s { current_tool_args = s.current_tool_args ++ args })

  pub take_tool : Value → Stream Value → Stream Value
  take_tool tc s =
      let function = index tc (lit "function") in
      take_args (as_str (index function (lit "arguments"))) (
        start_tool (as_str (index tc (lit "id")))
          (unwrap_or [] (as_str (index function (lit "name")))) s)

  pub take_tools : List Value → Stream Value → Stream Value
  take_tools [] s = s
  take_tools (tc ∷ calls) s = take_tools calls (take_tool tc s)

  -- The body of the loop for one event that parses.
  pub take_chunk : Value → Stream Value → Stream Value
  take_chunk chunk s =
      let delta = index (choice_of chunk) (lit "delta") in
      take_tools (unwrap_or [] (as_array (index delta (lit "tool_calls")))) (
        take_text (as_str (index delta (lit "content"))) (
          take_thinking (as_str (index delta (lit "reasoning_content"))) (
            take_usage (get chunk (lit "usage"))
              (take_reason (as_str (index (choice_of chunk) (lit "finish_reason"))) s))))

  -- An event that is no JSON is skipped.
  pub take_data : Result Text Value → Stream Value → Stream Value
  take_data (ok chunk) s = take_chunk chunk s
  take_data (err e) s = s

  -- The loop over the events of one chunk, which the end marker leaves.
  pub take_events : List SseEvent → Stream Value → Stream Value
  take_events [] s = s
  take_events (event ∷ events) s =
      let rest = take_events events (take_data (from_str event.data_text) s) in
      if text_eq event.data_text (lit "[DONE]") then on_done s else rest

  module _ (from_utf8_lossy : List ℕ → Text) where
    -- The loop over the chunks. An error of the transport ends it.
    pub read_chunks :
        List (Result Text (List ℕ))
        → SseParser
        → Stream Value
        → Result LlmError (Stream Value) × List StreamEvent
    read_chunks [] parser s = (ok s, s.sent)
    read_chunks (err e ∷ chunks) parser s = (err (LlmError.http e), s.sent)
    read_chunks (ok chunk ∷ chunks) parser s =
        let (events, parser') = feed parser (from_utf8_lossy chunk) in
        read_chunks chunks parser' (take_events events s)

    abbrev pub response_of : Stream Value → CompletionResponse Value
    response_of s = record {
      content = s.content_blocks;
      stop_reason = s.stop_reason;
      usage = s.usage;
    }

    -- What is done with the reply, and the events sent.
    unfoldable pub stream_response :
        HttpResponse → Result LlmError (CompletionResponse Value) × List StreamEvent
    stream_response resp =
        let (read, sent) = read_chunks resp.chunks Sse.new initial in
        if resp.status == too_many_requests
        then (err (LlmError.rate_limited (retry_after_secs resp)), [])
        else if is_success resp.status
        then (read >>= (λ s. ok (response_of s)), sent)
        else (
          err (LlmError.api resp.status (elim resp.body [ ok message ↦ message | err e ↦ [] ])),
          [],
        )

    -- `post url api_key body` is the reply to the one request that is made.
    unfoldable pub complete_stream :
        (post : Text → Text → Value → Result Text HttpResponse) (base_url api_key : Text)
        → CompletionRequest Value j.Float
        → Result LlmError (CompletionResponse Value) × List StreamEvent
    complete_stream post base_url api_key request =
        elim (post (base_url ++ lit "/chat/completions") api_key
          (build_request_body j request true)) [
            | err e ↦ (err (LlmError.http e), [])
            | ok resp ↦ stream_response resp
          ]
