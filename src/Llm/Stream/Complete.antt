-- ===== src/Llm/Stream/Complete.antt =====
-- A whole stream of src/llm/openai.rs: what arrives between the first byte and the end marker.
use mathlib.Core.Path.{subst}
use animus_rs.Prelude.{
  ℕ, ◌≡◌, refl, sym, ap, ◌∙◌, Bool, false, List, [], ◌∷◌, ◌++◌, append-nil, map, concat, Text, lit,
  text_eq, ok, none, arith,
}
use animus_rs.Json.{JsonLib}
use animus_rs.Llm.Sse
use animus_rs.Llm.Sse.{SseEvent, SseParser, feed, feed_all}
use animus_rs.Llm.Sse.Chunks.{feed_all-concat, new-IsDrained}
use animus_rs.Llm.Stream.{
  Stream, initial, flush_thinking, flush_text, flush_tool, on_done, take_data, take_events,
  read_chunks,
}
use animus_rs.Llm.Stream.Conserve.{Conserves, texts_sent, text_of, take_events-Conserves}

abbrev pub is_done : SseEvent → Bool
is_done event = text_eq event.data_text (lit "[DONE]")

-- No event but the last may be the end marker.
abbrev pub DoneLast : List SseEvent → Type 0
DoneLast [] = Unit
DoneLast (event ∷ []) = Unit
DoneLast (event ∷ next ∷ events) = (is_done event ≡ false) × DoneLast (next ∷ events)

-- No event is the end marker.
abbrev pub NoneDone : List SseEvent → Type 0
NoneDone [] = Unit
NoneDone (event ∷ events) = (is_done event ≡ false) × NoneDone events

abbrev pub done_event : SseEvent
done_event = record { event_type = none; data_text = lit "[DONE]" }

DoneLast-concat : (events : List SseEvent) → NoneDone events → DoneLast (events ++ done_event ∷ [])
DoneLast-concat [] h = tt
DoneLast-concat (event ∷ []) h = (h.0, tt)
DoneLast-concat (event ∷ next ∷ events) h = (h.0, DoneLast-concat (next ∷ events) h.1)

DoneLast-right : (a b : List SseEvent) → DoneLast (a ++ b) → DoneLast b
DoneLast-right [] b h = h
DoneLast-right (event ∷ []) [] h = tt
DoneLast-right (event ∷ []) (next ∷ b) h = h.1
DoneLast-right (event ∷ next ∷ a) b h = DoneLast-right (next ∷ a) b h.1

module _ (j : JsonLib) where
  open j use {Value, from_str}

  pub take_events_cons :
      (event : SseEvent) (events : List SseEvent) (s : Stream Value)
      → is_done event ≡ false
      → take_events j (event ∷ events) s
        ≡ take_events j events (take_data j (from_str event.data_text) s)
  unfolding take_events
  take_events_cons event events s h = rw h

  take_events-append :
      (a b : List SseEvent) (s : Stream Value)
      → DoneLast (a ++ b)
      → take_events j (a ++ b) s ≡ take_events j b (take_events j a s)
  take_events-append [] b s h = unfold take_events in refl
  take_events-append (event ∷ []) [] s h = unfold take_events in refl
  take_events-append (event ∷ []) (next ∷ b) s h =
      take_events_cons event (next ∷ b) s h.0
      ∙ ap (take_events j (next ∷ b))
          (sym (take_events_cons event [] s h.0 ∙ (unfold take_events in refl)))
  take_events-append (event ∷ next ∷ a) b s h =
      take_events_cons event (next ∷ (a ++ b)) s h.0
      ∙ take_events-append (next ∷ a) b (take_data j (from_str event.data_text) s) h.1
      ∙ ap (take_events j b) (sym (take_events_cons event (next ∷ a) s h.0))

  module _ (lossy : List ℕ → Text) where
    -- Reading the chunks is taking the events of the whole stream, if the end marker comes last.
    read_chunks-feed_all :
        (chunks : List (List ℕ)) (parser : SseParser) (s : Stream Value)
        → DoneLast (feed_all parser (map lossy chunks)).0
        → read_chunks j lossy (map ok chunks) parser s ≡ (
          ok (take_events j (feed_all parser (map lossy chunks)).0 s),
          (take_events j (feed_all parser (map lossy chunks)).0 s).sent,
        )
    unfolding read_chunks feed_all
    read_chunks-feed_all [] parser s h = unfold take_events in refl
    read_chunks-feed_all (chunk ∷ chunks) parser s h =
        let (events, parser') = feed parser (lossy chunk) in
        let more = (feed_all parser' (map lossy chunks)).0 in
        read_chunks-feed_all chunks parser' (take_events j events s) (DoneLast-right events more h)
        ∙ ap (λ (t : Stream Value). (ok t, t.sent)) (sym (take_events-append events more s h))

    -- The state behind the end marker.
    abbrev pub final : List SseEvent → Stream Value
    final events = on_done j (take_events j events initial)

    take_events_done :
        (events : List SseEvent) (s : Stream Value)
        → NoneDone events
        → take_events j (events ++ done_event ∷ []) s ≡ on_done j (take_events j events s)
    take_events_done events s h =
        take_events-append events (done_event ∷ []) s (DoneLast-concat events h)
        ∙ (unfold take_events text_eq in refl)

    pub read_chunks-final :
        (events : List SseEvent) (chunks : List (List ℕ))
        → NoneDone events
        → (feed Sse.new (concat (map lossy chunks))).0 ≡ events ++ done_event ∷ []
        → read_chunks j lossy (map ok chunks) Sse.new initial
          ≡ (ok (final events), (final events).sent)
    read_chunks-final events chunks h e =
        let found : (feed_all Sse.new (map lossy chunks)).0 ≡ events ++ done_event ∷ [] =
          ap (λ (r : List SseEvent × SseParser). r.0)
            (feed_all-concat (map lossy chunks) Sse.new new-IsDrained)
          ∙ e in
        read_chunks-feed_all chunks Sse.new initial
          (subst DoneLast (sym found) (DoneLast-concat events h))
        ∙ ap (λ es. (ok (take_events j es initial), (take_events j es initial).sent)) found
        ∙ ap (λ (t : Stream Value). (ok t, t.sent)) (take_events_done events initial h)

    flush_text-current_text : (s : Stream Value) → (flush_text s).current_text ≡ []
    unfolding flush_text
    flush_text-current_text s = ground arith

    flush_tool-current_text : (s : Stream Value) → (flush_tool j s).current_text ≡ s.current_text
    unfolding flush_tool
    flush_tool-current_text s = ground arith

    final-current_text : (events : List SseEvent) → (final events).current_text ≡ []
    unfolding on_done
    final-current_text events =
        flush_tool-current_text _
        ∙ flush_text-current_text (flush_thinking (take_events j events initial))

    pub text_of-final :
        (events : List SseEvent)
        → NoneDone events
        → text_of (final events).content_blocks ≡ texts_sent (final events).sent
    text_of-final events h =
        let kept : Conserves (take_events j (events ++ done_event ∷ []) initial) =
          take_events-Conserves j (events ++ done_event ∷ []) initial (record { balance = refl }) in
        let kept' : Conserves (final events) =
          subst Conserves (take_events_done events initial h) kept in
        sym (kept'.balance ∙ rw (final-current_text events) (append-nil _))
