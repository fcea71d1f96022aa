-- ===== src/Llm/Stream/Thinking.antt =====
-- src/llm/openai.rs: the thinking that is sent while a stream runs, and that it sends no end before
-- the end marker.
pub mod Ends
use animus_rs.Prelude.{
  ◌≡◌, refl, sym, ap, ◌∙◌, Bool, true, false, List, [], ◌∷◌, ◌++◌, append_assoc, append-nil, arith,
  concat, Text, is_empty, Result, ok, err, Option, none, some, Bool-cases, inl, inr, ℕ,
}
use animus_rs.Json.{JsonLib}
use animus_rs.Llm.Types.{ContentBlock, StreamEvent}
use animus_rs.Llm.Sse.{SseEvent}
use animus_rs.Llm.Stream.{
  Stream, send, initial, flush_thinking, flush_text, flush_tool, on_done, take_reason, take_input,
  take_output, take_usage, take_thinking, take_text, start_tool, take_args, take_tool, take_tools,
  take_chunk, take_data, take_events,
}
use animus_rs.Llm.Stream.Complete.{NoneDone, final}

-- The thinking of an event, and that the event is not the end.
abbrev pub thought : StreamEvent → Text
thought (StreamEvent.thinking_delta s) = s
thought (StreamEvent.text_delta s) = []
thought (StreamEvent.tool_input_delta id s) = []
thought (StreamEvent.tool_start id name) = []
thought StreamEvent.done = []

abbrev pub is_end : StreamEvent → Bool
is_end (StreamEvent.thinking_delta s) = false
is_end (StreamEvent.text_delta s) = false
is_end (StreamEvent.tool_input_delta id s) = false
is_end (StreamEvent.tool_start id name) = false
is_end StreamEvent.done = true

abbrev pub thoughts_sent : List StreamEvent → Text
thoughts_sent [] = []
thoughts_sent (event ∷ events) = thought event ++ thoughts_sent events

abbrev pub Unended : List StreamEvent → Type 0
Unended [] = Unit
Unended (event ∷ events) = (is_end event ≡ false) × Unended events

pub thoughts_sent-snoc :
    (xs : List StreamEvent) (x : StreamEvent)
    → thoughts_sent (xs ++ x ∷ []) ≡ thoughts_sent xs ++ thought x
thoughts_sent-snoc [] x = append-nil (thought x)
thoughts_sent-snoc (y ∷ xs) x =
    ap (◌++◌ (thought y)) (thoughts_sent-snoc xs x)
    ∙ sym (append_assoc (thought y) (thoughts_sent xs) (thought x))

pub Unended-snoc :
    (xs : List StreamEvent) (x : StreamEvent)
    → Unended xs
    → is_end x ≡ false
    → Unended (xs ++ x ∷ [])
Unended-snoc [] x h e = (e, tt)
Unended-snoc (y ∷ xs) x h e = (h.0, Unended-snoc xs x h.1 e)

module _ {V : Type 0} where
  abbrev pub block_thoughts : List (ContentBlock V) → List Text
  block_thoughts [] = []
  block_thoughts (ContentBlock.text s ∷ blocks) = block_thoughts blocks
  block_thoughts (ContentBlock.thinking s ∷ blocks) = s ∷ block_thoughts blocks
  block_thoughts (ContentBlock.tool_use id name input ∷ blocks) = block_thoughts blocks

  abbrev pub thoughts_of : List (ContentBlock V) → Text
  thoughts_of blocks = concat (block_thoughts blocks)

  pub thoughts_of-append :
      (xs ys : List (ContentBlock V)) → thoughts_of (xs ++ ys) ≡ thoughts_of xs ++ thoughts_of ys
  thoughts_of-append [] ys = refl
  thoughts_of-append (ContentBlock.text s ∷ xs) ys = thoughts_of-append xs ys
  thoughts_of-append (ContentBlock.thinking s ∷ xs) ys =
      ap (◌++◌ s) (thoughts_of-append xs ys)
      ∙ sym (append_assoc s (thoughts_of xs) (thoughts_of ys))
  thoughts_of-append (ContentBlock.tool_use id name input ∷ xs) ys = thoughts_of-append xs ys

  -- The thinking sent is that of the blocks, then the thinking that waits; no end was sent.
  pub record Thinks (s : Stream V) : Type 0 where
    pub balance : thoughts_sent s.sent ≡ thoughts_of s.content_blocks ++ s.current_thinking
    pub unended : Unended s.sent

  pub flush_thinking-Thinks : (s : Stream V) → Thinks s → Thinks (flush_thinking s)
  unfolding flush_thinking
  flush_thinking-Thinks s h = elim (Bool-cases (is_empty s.current_thinking)) [
    | inl e ↦ rw e h
    | inr e ↦
        rw e (record {
          balance = simp (thoughts_of-append, append-nil) h.balance;
          unended = h.unended;
        })
  ]

  pub flush_text-Thinks : (s : Stream V) → Thinks s → Thinks (flush_text s)
  unfolding flush_text
  flush_text-Thinks s h = elim (Bool-cases (is_empty s.current_text)) [
    | inl e ↦ rw e h
    | inr e ↦
        rw e (record {
          balance = rw thoughts_of-append (rw append-nil h.balance);
          unended = h.unended;
        })
  ]

  pub flush_thinking-current_thinking : (s : Stream V) → (flush_thinking s).current_thinking ≡ []
  unfolding flush_thinking
  flush_thinking-current_thinking s = ground arith

  pub flush_text-current_thinking :
      (s : Stream V) → (flush_text s).current_thinking ≡ s.current_thinking
  unfolding flush_text
  flush_text-current_thinking s = ground arith

  -- An event without thinking, which is not the end.
  pub send_quiet :
      (event : StreamEvent) (s : Stream V)
      → thought event ≡ []
      → is_end event ≡ false
      → Thinks s
      → Thinks (send event s)
  send_quiet event s q e h = record {
    balance = rw thoughts_sent-snoc (rw q (rw append-nil h.balance));
    unended = Unended-snoc s.sent event h.unended e;
  }
