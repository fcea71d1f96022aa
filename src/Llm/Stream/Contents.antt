-- ===== src/Llm/Stream/Contents.antt =====
-- The text that src/llm/openai.rs sends while a stream runs, told from the events that arrive.
use animus_rs.Prelude.{
  ◌≡◌, refl, ap, ◌∙◌, sym, List, [], ◌∷◌, ◌++◌, append_assoc, append-nil, Text, lit, Result, ok,
  err, Option, none, some, unwrap_or, ℕ, arith,
}
use animus_rs.Json.{JsonLib}
use animus_rs.Llm.Types.{StreamEvent}
use animus_rs.Llm.Sse.{SseEvent}
use animus_rs.Llm.Stream.{
  Stream, initial, send, choice_of, flush_thinking, flush_text, flush_tool, on_done, take_reason,
  take_input, take_output, take_usage, take_thinking, take_text, start_tool, take_args, take_tool,
  take_tools, take_chunk, take_data, take_events,
}
use animus_rs.Llm.Stream.Conserve.{texts_sent, texts_sent-append}
use animus_rs.Llm.Stream.Complete.{NoneDone, final, take_events_cons}

module _ (j : JsonLib) where
  open j use {Value, index, get, as_str, as_array, as_u64, from_str}

  -- The field `choices[0].delta.content` of the JSON of an event, where it is a text.
  abbrev pub content_in : Result Text Value → Text
  content_in (ok chunk) =
      unwrap_or [] (as_str (index (index (choice_of j chunk) (lit "delta")) (lit "content")))
  content_in (err e) = []

  abbrev pub contents : List SseEvent → Text
  contents [] = []
  contents (event ∷ events) = content_in (from_str event.data_text) ++ contents events

  abbrev Quiet : (Stream Value → Stream Value) → Type 0
  Quiet f = (s : Stream Value) → texts_sent (f s).sent ≡ texts_sent s.sent

  send-Quiet : (event : StreamEvent) → texts_sent (event ∷ []) ≡ [] → Quiet (send event)
  send-Quiet event q s = texts_sent-append s.sent (event ∷ []) ∙ (rw q (append-nil _))

  flush_thinking-Quiet : Quiet flush_thinking
  unfolding flush_thinking
  flush_thinking-Quiet s = ground arith

  flush_text-Quiet : Quiet flush_text
  unfolding flush_text
  flush_text-Quiet s = ground arith

  flush_tool-Quiet : Quiet (flush_tool j)
  unfolding flush_tool
  flush_tool-Quiet s = ground arith

  on_done-Quiet : Quiet (on_done j)
  unfolding on_done
  on_done-Quiet s =
      let a : Stream Value = flush_thinking s in
      let b : Stream Value = flush_text a in
      send-Quiet StreamEvent.done refl (flush_tool j b)
      ∙ flush_tool-Quiet b
      ∙ flush_text-Quiet a
      ∙ flush_thinking-Quiet s

  take_reason-Quiet : (o : Option Text) → Quiet (take_reason j o)
  unfolding take_reason
  take_reason-Quiet none s = refl
  take_reason-Quiet (some reason) s = refl

  take_input-Quiet : (o : Option ℕ) → Quiet (take_input j o)
  unfolding take_input
  take_input-Quiet none s = refl
  take_input-Quiet (some n) s = refl

  take_output-Quiet : (o : Option ℕ) → Quiet (take_output j o)
  unfolding take_output
  take_output-Quiet none s = refl
  take_output-Quiet (some n) s = refl

  take_usage-Quiet : (o : Option Value) → Quiet (take_usage j o)
  unfolding take_usage
  take_usage-Quiet none s = refl
  take_usage-Quiet (some u) s =
      let input : Option ℕ = as_u64 (index u (lit "prompt_tokens")) in
      take_output-Quiet (as_u64 (index u (lit "completion_tokens"))) (take_input j input s)
      ∙ take_input-Quiet input s

  take_thinking-Quiet : (o : Option Text) → Quiet (take_thinking j o)
  unfolding take_thinking
  take_thinking-Quiet none s = refl
  take_thinking-Quiet (some t) s =
      send-Quiet (StreamEvent.thinking_delta t) refl
        (record s { current_thinking = s.current_thinking ++ t })

  start_tool-Quiet : (o : Option Text) (name : Text) → Quiet (start_tool j o name)
  unfolding start_tool
  start_tool-Quiet none name s = refl
  start_tool-Quiet (some id) name s =
      send-Quiet (StreamEvent.tool_start id name) refl
        (record (flush_tool j s) { current_tool_id = id; current_tool_name = name })
      ∙ flush_tool-Quiet s

  take_args-Quiet : (o : Option Text) → Quiet (take_args j o)
  unfolding take_args
  take_args-Quiet none s = refl
  take_args-Quiet (some args) s =
      send-Quiet (StreamEvent.tool_input_delta s.current_tool_id args) refl
        (record s { current_tool_args = s.current_tool_args ++ args })

  take_tools-Quiet : (calls : List Value) → Quiet (take_tools j calls)
  unfolding take_tools take_tool
  take_tools-Quiet [] s = refl
  take_tools-Quiet (tc ∷ calls) s =
      let function = index tc (lit "function") in
      let name : Text = unwrap_or [] (as_str (index function (lit "name"))) in
      let begun : Stream Value = start_tool j (as_str (index tc (lit "id"))) name s in
      let args : Option Text = as_str (index function (lit "arguments")) in
      take_tools-Quiet calls (take_args j args begun)
      ∙ take_args-Quiet args begun
      ∙ start_tool-Quiet (as_str (index tc (lit "id"))) name s

  take_text-sent :
      (o : Option Text) (s : Stream Value)
      → texts_sent (take_text j o s).sent ≡ texts_sent s.sent ++ unwrap_or [] o
  unfolding take_text
  take_text-sent none s = sym (append-nil _)
  take_text-sent (some t) s =
      texts_sent-append s.sent (StreamEvent.text_delta t ∷ [])
      ∙ ap (◌++◌ (texts_sent s.sent)) (append-nil t)

  take_data-sent :
      (r : Result Text Value) (s : Stream Value)
      → texts_sent (take_data j r s).sent ≡ texts_sent s.sent ++ content_in r
  unfolding take_data take_chunk
  take_data-sent (err e) s = sym (append-nil _)
  take_data-sent (ok chunk) s =
      let delta : Value = index (choice_of j chunk) (lit "delta") in
      let reason : Option Text = as_str (index (choice_of j chunk) (lit "finish_reason")) in
      let thinking : Option Text = as_str (index delta (lit "reasoning_content")) in
      let text : Option Text = as_str (index delta (lit "content")) in
      let a : Stream Value = take_reason j reason s in
      let b : Stream Value = take_usage j (get chunk (lit "usage")) a in
      let c : Stream Value = take_thinking j thinking b in
      take_tools-Quiet (unwrap_or [] (as_array (index delta (lit "tool_calls"))))
        (take_text j text c)
      ∙ take_text-sent text c
      ∙ ap (λ (t : Text). t ++ unwrap_or [] text)
          (take_thinking-Quiet thinking b
            ∙ take_usage-Quiet (get chunk (lit "usage")) a
            ∙ take_reason-Quiet reason s)

  take_events-sent :
      (events : List SseEvent) (s : Stream Value)
      → NoneDone events
      → texts_sent (take_events j events s).sent ≡ texts_sent s.sent ++ contents events
  take_events-sent [] s h = unfold take_events in sym (append-nil _)
  take_events-sent (event ∷ events) s (p, h) =
      ap (λ (t : Stream Value). texts_sent t.sent) (take_events_cons j event events s p)
      ∙ take_events-sent events (take_data j (from_str event.data_text) s) h
      ∙ ap (λ t. t ++ contents events) (take_data-sent (from_str event.data_text) s)
      ∙ append_assoc (texts_sent s.sent) (content_in (from_str event.data_text)) (contents events)

  -- What a whole stream sends is the text of its events.
  pub final-sent :
      (lossy : List ℕ → Text) (events : List SseEvent)
      → NoneDone events
      → texts_sent (final j lossy events).sent ≡ contents events
  final-sent lossy events h =
      on_done-Quiet (take_events j events initial) ∙ take_events-sent events initial h
