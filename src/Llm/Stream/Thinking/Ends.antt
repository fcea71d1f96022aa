-- ===== src/Llm/Stream/Thinking/Ends.antt =====
-- src/llm/openai.rs: the thinking of a response is that of the deltas that are sent before the end.
use animus_rs.Prelude.{
  ◌≡◌, refl, ◌∙◌, List, [], ◌∷◌, ◌++◌, append_assoc, append-nil, arith, Text, is_empty, Result, ok,
  err, Option, none, some, Bool-cases, inl, inr, ℕ,
}
use animus_rs.Json.{JsonLib}
use animus_rs.Llm.Types.{StreamEvent}
use animus_rs.Llm.Sse.{SseEvent}
use animus_rs.Llm.Stream.{
  Stream, initial, flush_thinking, flush_text, flush_tool, on_done, take_reason, take_input,
  take_output, take_usage, take_thinking, take_text, start_tool, take_args, take_tool, take_tools,
  take_chunk, take_data, take_events,
}
use animus_rs.Llm.Stream.Complete.{NoneDone, final}
use animus_rs.Llm.Stream.Thinking.{
  Thinks, Unended, Unended-snoc, flush_text-Thinks, flush_text-current_thinking,
  flush_thinking-Thinks, flush_thinking-current_thinking, send_quiet, thoughts_of,
  thoughts_of-append, thoughts_sent, thoughts_sent-snoc,
}

module _ (j : JsonLib) where
  open j use {Value, from_str}

  flush_tool-Thinks : (s : Stream Value) → Thinks s → Thinks (flush_tool j s)
  unfolding flush_tool
  flush_tool-Thinks s h = elim (Bool-cases (is_empty s.current_tool_id)) [
    | inl e ↦ rw e h
    | inr e ↦
        rw e (record {
          balance = rw thoughts_of-append (rw append-nil h.balance);
          unended = h.unended;
        })
  ]

  flush_tool-current_thinking :
      (s : Stream Value) → (flush_tool j s).current_thinking ≡ s.current_thinking
  unfolding flush_tool
  flush_tool-current_thinking s = ground arith

  take_reason-Thinks : (o : Option Text) (s : Stream Value) → Thinks s → Thinks (take_reason j o s)
  unfolding take_reason
  take_reason-Thinks none s h = h
  take_reason-Thinks (some reason) s h = record { balance = h.balance; unended = h.unended }

  take_usage-Thinks : (o : Option Value) (s : Stream Value) → Thinks s → Thinks (take_usage j o s)
  unfolding take_usage
  take_usage-Thinks none s h = h
  take_usage-Thinks (some u) s h = outputs _ _ (inputs _ s h)
    where
      inputs : (o : Option ℕ) (s : Stream Value) → Thinks s → Thinks (take_input j o s)
      inputs none s h = unfold take_input in h
      inputs (some n) s h = unfold take_input in record { balance = h.balance; unended = h.unended }

      outputs : (o : Option ℕ) (s : Stream Value) → Thinks s → Thinks (take_output j o s)
      outputs none s h = unfold take_output in h
      outputs (some n) s h =
          unfold take_output in record { balance = h.balance; unended = h.unended }

  take_thinking-Thinks :
      (o : Option Text) (s : Stream Value) → Thinks s → Thinks (take_thinking j o s)
  unfolding take_thinking
  take_thinking-Thinks none s h = h
  take_thinking-Thinks (some t) s h = record {
    balance =
        rw thoughts_sent-snoc
          (rw (h.balance) (append_assoc (thoughts_of s.content_blocks) s.current_thinking t));
    unended = Unended-snoc s.sent (StreamEvent.thinking_delta t) h.unended refl;
  }

  take_text-Thinks : (o : Option Text) (s : Stream Value) → Thinks s → Thinks (take_text j o s)
  unfolding take_text
  take_text-Thinks none s h = h
  take_text-Thinks (some t) s h =
      send_quiet (StreamEvent.text_delta t) (record s { current_text = s.current_text ++ t }) refl
        refl (record { balance = h.balance; unended = h.unended })

  take_tool-Thinks : (tc : Value) (s : Stream Value) → Thinks s → Thinks (take_tool j tc s)
  unfolding take_tool
  take_tool-Thinks tc s h = args _ _ (start _ _ s h)
    where
      start :
          (o : Option Text) (name : Text) (s : Stream Value)
          → Thinks s
          → Thinks (start_tool j o name s)
      start none name s h = unfold start_tool in h
      start (some id) name s h =
          unfold start_tool in
          (send_quiet (StreamEvent.tool_start id name)
            (record (flush_tool j s) { current_tool_id = id; current_tool_name = name }) refl refl
            (record {
              balance = (flush_tool-Thinks s h).balance;
              unended = (flush_tool-Thinks s h).unended;
            }))

      args : (o : Option Text) (s : Stream Value) → Thinks s → Thinks (take_args j o s)
      args none s h = unfold take_args in h
      args (some a) s h =
          unfold take_args in
          (send_quiet (StreamEvent.tool_input_delta s.current_tool_id a)
            (record s { current_tool_args = s.current_tool_args ++ a }) refl refl
            (record { balance = h.balance; unended = h.unended }))

  take_tools-Thinks :
      (calls : List Value) (s : Stream Value) → Thinks s → Thinks (take_tools j calls s)
  unfolding take_tools
  take_tools-Thinks [] s h = h
  take_tools-Thinks (tc ∷ calls) s h =
      take_tools-Thinks calls (take_tool j tc s) (take_tool-Thinks tc s h)

  take_data-Thinks :
      (r : Result Text Value) (s : Stream Value) → Thinks s → Thinks (take_data j r s)
  unfolding take_data take_chunk
  take_data-Thinks (err e) s h = h
  take_data-Thinks (ok chunk) s h = take_tools-Thinks _ _ (
      take_text-Thinks _ _
        (take_thinking-Thinks _ _ (take_usage-Thinks _ _ (take_reason-Thinks _ s h))))

  take_events-Thinks :
      (events : List SseEvent) (s : Stream Value)
      → NoneDone events
      → Thinks s
      → Thinks (take_events j events s)
  unfolding take_events
  take_events-Thinks [] s n h = h
  take_events-Thinks (event ∷ events) s n h =
      rw (n.0) (take_events-Thinks events _ n.1 (take_data-Thinks _ s h))

  -- The thinking and the text of what is sent: deltas, and the end behind them.
  pub record Ends (s : Stream Value) : Type 0 where
    pub deltas : List StreamEvent
    pub unended : Unended deltas
    pub ended : s.sent ≡ deltas ++ StreamEvent.done ∷ []
    pub balance : thoughts_sent deltas ≡ thoughts_of s.content_blocks

  on_done-Ends : (s : Stream Value) → Thinks s → Ends (on_done j s)
  unfolding on_done
  on_done-Ends s h =
      let t = flush_tool j (flush_text (flush_thinking s)) in
      let kept = flush_tool-Thinks _ (flush_text-Thinks _ (flush_thinking-Thinks s h)) in
      let empty : t.current_thinking ≡ [] =
        flush_tool-current_thinking (flush_text (flush_thinking s))
        ∙ flush_text-current_thinking (flush_thinking s)
        ∙ flush_thinking-current_thinking s in
      record {
        deltas = t.sent;
        unended = kept.unended;
        ended = refl;
        balance = kept.balance ∙ rw empty (append-nil _);
      }

  -- A stream without an early end marker sends deltas and then the end, and the thinking in the
  -- deltas is that of the response.
  pub final-Ends :
      (lossy : List ℕ → Text) (events : List SseEvent)
      → NoneDone events
      → Ends (final j lossy events)
  final-Ends lossy events n =
      on_done-Ends _ (take_events-Thinks events initial n (record { balance = refl; unended = tt }))
