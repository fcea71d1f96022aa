-- ===== src/Llm/Stream/Conserve.antt =====
-- The text that src/llm/openai.rs sends while a stream runs is the text of the response.
use mathlib.Core.Path.{subst}
use animus_rs.Prelude.{
  ◌≡◌, refl, ap, List, [], ◌∷◌, ◌++◌, append_assoc, append-nil, concat, concat-append, Text, lit,
  text_eq, is_empty, Result, ok, err, Option, none, some, Bool-cases, inl, inr, ℕ,
}
use animus_rs.Json.{JsonLib}
use animus_rs.Llm.Types.{ContentBlock, StreamEvent}
use animus_rs.Llm.Sse.{SseEvent, SseParser, feed}
use animus_rs.Llm.Request.Wire.{block_texts}
use animus_rs.Llm.Stream.{
  Stream, send, flush_thinking, flush_text, flush_tool, on_done, take_reason, take_input,
  take_output, take_usage, take_thinking, take_text, start_tool, take_args, take_tool, take_tools,
  take_chunk, take_data, take_events, read_chunks,
}

abbrev pub texts_sent : List StreamEvent → Text
texts_sent [] = []
texts_sent (StreamEvent.text_delta s ∷ events) = s ++ texts_sent events
texts_sent (StreamEvent.thinking_delta s ∷ events) = texts_sent events
texts_sent (StreamEvent.tool_input_delta id s ∷ events) = texts_sent events
texts_sent (StreamEvent.tool_start id name ∷ events) = texts_sent events
texts_sent (StreamEvent.done ∷ events) = texts_sent events

pub texts_sent-append :
    (xs ys : List StreamEvent) → texts_sent (xs ++ ys) ≡ texts_sent xs ++ texts_sent ys
texts_sent-append [] ys = refl
texts_sent-append (StreamEvent.text_delta s ∷ xs) ys =
    rw (texts_sent-append xs ys) (rw append_assoc)
texts_sent-append (StreamEvent.thinking_delta s ∷ xs) ys = texts_sent-append xs ys
texts_sent-append (StreamEvent.tool_input_delta id s ∷ xs) ys = texts_sent-append xs ys
texts_sent-append (StreamEvent.tool_start id name ∷ xs) ys = texts_sent-append xs ys
texts_sent-append (StreamEvent.done ∷ xs) ys = texts_sent-append xs ys

module _ {V : Type 0} where
  abbrev pub text_of : List (ContentBlock V) → Text
  text_of blocks = concat (block_texts blocks)

  pub block_texts-append :
      (xs ys : List (ContentBlock V)) → block_texts (xs ++ ys) ≡ block_texts xs ++ block_texts ys
  block_texts-append [] ys = refl
  block_texts-append (ContentBlock.text s ∷ xs) ys = ap (◌∷◌ s) (block_texts-append xs ys)
  block_texts-append (ContentBlock.thinking s ∷ xs) ys = block_texts-append xs ys
  block_texts-append (ContentBlock.tool_use id name input ∷ xs) ys = block_texts-append xs ys

  pub text_of-append :
      (xs ys : List (ContentBlock V)) → text_of (xs ++ ys) ≡ text_of xs ++ text_of ys
  text_of-append xs ys = rw block_texts-append (concat-append (block_texts xs) (block_texts ys))

  -- The text sent is that of the blocks, then the text that waits for a flush.
  pub record Conserves (s : Stream V) : Type 0 where
    pub balance : texts_sent s.sent ≡ text_of s.content_blocks ++ s.current_text

  flush_thinking-Conserves : (s : Stream V) → Conserves s → Conserves (flush_thinking s)
  unfolding flush_thinking
  flush_thinking-Conserves s h = elim (Bool-cases (is_empty s.current_thinking)) [
    | inl e ↦ rw e h
    | inr e ↦ rw e (record { balance = rw text_of-append (rw append-nil h.balance) })
  ]

  flush_text-Conserves : (s : Stream V) → Conserves s → Conserves (flush_text s)
  unfolding flush_text
  flush_text-Conserves s h = elim (Bool-cases (is_empty s.current_text)) [
    | inl e ↦ rw e h
    | inr e ↦ rw e (record { balance = simp (text_of-append, append-nil) h.balance })
  ]

module _ (j : JsonLib) where
  open j use {Value, from_str}

  send_quiet :
      (event : StreamEvent) (s : Stream Value)
      → texts_sent (event ∷ []) ≡ []
      → Conserves s
      → Conserves (send event s)
  send_quiet event s q h = record {
    balance = rw texts_sent-append (rw q (rw append-nil h.balance));
  }

  flush_tool-Conserves : (s : Stream Value) → Conserves s → Conserves (flush_tool j s)
  unfolding flush_tool
  flush_tool-Conserves s h = elim (Bool-cases (is_empty s.current_tool_id)) [
    | inl e ↦ rw e h
    | inr e ↦ rw e (record { balance = simp (text_of-append, append-nil) h.balance })
  ]

  on_done-Conserves : (s : Stream Value) → Conserves s → Conserves (on_done j s)
  unfolding on_done
  on_done-Conserves s h =
      send_quiet StreamEvent.done _ refl
        (flush_tool-Conserves _ (flush_text-Conserves _ (flush_thinking-Conserves s h)))

  take_reason-Conserves :
      (o : Option Text) (s : Stream Value) → Conserves s → Conserves (take_reason j o s)
  unfolding take_reason
  take_reason-Conserves none s h = h
  take_reason-Conserves (some reason) s h = record { balance = h.balance }

  take_usage-Conserves :
      (o : Option Value) (s : Stream Value) → Conserves s → Conserves (take_usage j o s)
  unfolding take_usage
  take_usage-Conserves none s h = h
  take_usage-Conserves (some u) s h = outputs _ _ (inputs _ s h)
    where
      inputs : (o : Option ℕ) (s : Stream Value) → Conserves s → Conserves (take_input j o s)
      inputs none s h = unfold take_input in h
      inputs (some n) s h = unfold take_input in record { balance = h.balance }

      outputs : (o : Option ℕ) (s : Stream Value) → Conserves s → Conserves (take_output j o s)
      outputs none s h = unfold take_output in h
      outputs (some n) s h = unfold take_output in record { balance = h.balance }

  take_thinking-Conserves :
      (o : Option Text) (s : Stream Value) → Conserves s → Conserves (take_thinking j o s)
  unfolding take_thinking
  take_thinking-Conserves none s h = h
  take_thinking-Conserves (some t) s h =
      send_quiet (StreamEvent.thinking_delta t)
        (record s { current_thinking = s.current_thinking ++ t }) refl
        (record { balance = h.balance })

  take_text-Conserves :
      (o : Option Text) (s : Stream Value) → Conserves s → Conserves (take_text j o s)
  unfolding take_text
  take_text-Conserves none s h = h
  take_text-Conserves (some t) s h = record {
    balance =
        rw texts_sent-append
          (rw (h.balance) (rw append-nil (append_assoc (text_of s.content_blocks) _ t)));
  }

  take_tool-Conserves : (tc : Value) (s : Stream Value) → Conserves s → Conserves (take_tool j tc s)
  unfolding take_tool
  take_tool-Conserves tc s h = args _ _ (start _ _ s h)
    where
      start :
          (o : Option Text) (name : Text) (s : Stream Value)
          → Conserves s
          → Conserves (start_tool j o name s)
      start none name s h = unfold start_tool in h
      start (some id) name s h =
          unfold start_tool in
          (send_quiet (StreamEvent.tool_start id name)
            (record (flush_tool j s) { current_tool_id = id; current_tool_name = name }) refl
            (record { balance = (flush_tool-Conserves s h).balance }))

      args : (o : Option Text) (s : Stream Value) → Conserves s → Conserves (take_args j o s)
      args none s h = unfold take_args in h
      args (some a) s h =
          unfold take_args in
          (send_quiet (StreamEvent.tool_input_delta s.current_tool_id a)
            (record s { current_tool_args = s.current_tool_args ++ a }) refl
            (record { balance = h.balance }))

  take_tools-Conserves :
      (calls : List Value) (s : Stream Value) → Conserves s → Conserves (take_tools j calls s)
  unfolding take_tools
  take_tools-Conserves [] s h = h
  take_tools-Conserves (tc ∷ calls) s h =
      take_tools-Conserves calls (take_tool j tc s) (take_tool-Conserves tc s h)

  take_data-Conserves :
      (r : Result Text Value) (s : Stream Value) → Conserves s → Conserves (take_data j r s)
  unfolding take_data take_chunk
  take_data-Conserves (err e) s h = h
  take_data-Conserves (ok chunk) s h = take_tools-Conserves _ _ (
      take_text-Conserves _ _
        (take_thinking-Conserves _ _ (take_usage-Conserves _ _ (take_reason-Conserves _ s h))))

  pub take_events-Conserves :
      (events : List SseEvent) (s : Stream Value) → Conserves s → Conserves (take_events j events s)
  unfolding take_events
  take_events-Conserves [] s h = h
  take_events-Conserves (event ∷ events) s h =
      elim (Bool-cases (text_eq event.data_text (lit "[DONE]"))) [
        | inl e ↦ rw e (on_done-Conserves s h)
        | inr e ↦ rw e (take_events-Conserves events _ (take_data-Conserves _ s h))
      ]

  -- From a state in which the text sent is that of the blocks and the text that waits, whatever
  -- chunks arrive, a stream that ends without an error is again in such a state.
  pub read_chunks-Conserves :
      (from_utf8_lossy : List ℕ → Text) (chunks : List (Result Text (List ℕ))) (parser : SseParser)
      (s t : Stream Value)
      → Conserves s
      → (read_chunks j from_utf8_lossy chunks parser s).0 ≡ ok t
      → Conserves t
  unfolding read_chunks
  read_chunks-Conserves lossy [] parser s t h e =
      let same : s ≡ t = cc in subst (λ u. Conserves u) same h
  read_chunks-Conserves lossy (err x ∷ chunks) parser s t h e = cc
  read_chunks-Conserves lossy (ok chunk ∷ chunks) parser s t h e =
      let (events, parser') = feed parser (lossy chunk) in
      read_chunks-Conserves lossy chunks parser' (take_events j events s) t
        (take_events-Conserves events s h) e
