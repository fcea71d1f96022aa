-- ===== src/Llm/Sse/Chunks.antt =====
-- How the parser of src/llm/sse.rs treats a stream that arrives in pieces.
use animus_rs.Prelude.{
  ℕ, zero, suc, ◌+◌, ◌≤◌, ◌≡◌, refl, sym, ◌∙◌, inl, inr, none, some, List, [], ◌∷◌, ◌++◌,
  append_assoc, append-nil, length, take, drop, concat, Text, find, find_bound, find-append,
  Option-cases, length-append, length-drop, take-append, drop-append, arith,
}
use animus_rs.Llm.Sse.{SseEvent, SseParser, new, terminator, parse_block, drain, feed, feed_all}

abbrev Drained : Type 0
Drained = List SseEvent × Text

-- One round of the loop.
pub drain_step :
    (fuel : ℕ) (buffer : Text) (pos : ℕ)
    → find terminator buffer ≡ some pos
    → drain (suc fuel) buffer ≡ (
      parse_block (take pos buffer) ++ (drain fuel (drop (pos + 2) buffer)).0,
      (drain fuel (drop (pos + 2) buffer)).1,
    )
unfolding drain
drain_step fuel buffer pos h = rw (h, drain)

pub drain_stop :
    (fuel : ℕ) (buffer : Text) → find terminator buffer ≡ none → drain fuel buffer ≡ ([], buffer)
unfolding drain
drain_stop zero buffer h = refl
drain_stop (suc fuel) buffer h = rw (h, drain)

shorter :
    (buffer : Text) (pos fuel : ℕ)
    → find terminator buffer ≡ some pos
    → length buffer ≤ suc fuel
    → length (drop (pos + 2) buffer) ≤ fuel
shorter buffer pos fuel e h =
    omega (arith, find_bound terminator buffer pos e, length-drop (pos + 2) buffer)

-- Any fuel from the length of the buffer on gives the same result.
pub drain_fuel :
    (f g : ℕ) (buffer : Text)
    → length buffer ≤ f
    → length buffer ≤ g
    → drain f buffer ≡ drain g buffer
drain_fuel zero g [] h k =
    drain_stop zero [] (unfold find in refl) ∙ sym (drain_stop g [] (unfold find in refl))
drain_fuel zero g (c ∷ buffer) h k = absurd (omega arith)
drain_fuel (suc f) zero [] h k =
    drain_stop (suc f) [] (unfold find in refl) ∙ sym (drain_stop zero [] (unfold find in refl))
drain_fuel (suc f) zero (c ∷ buffer) h k = absurd (omega arith)
drain_fuel (suc f) (suc g) buffer h k = elim (Option-cases (find terminator buffer)) [
  | inl e ↦ drain_stop (suc f) buffer e ∙ sym (drain_stop (suc g) buffer e)
  | inr (pos, e) ↦
      let ih : drain f (drop (pos + 2) buffer) ≡ drain g (drop (pos + 2) buffer) =
        drain_fuel f g (drop (pos + 2) buffer) (shorter buffer pos f e h)
          (shorter buffer pos g e k) in
      drain_step f buffer pos e ∙ rw ih (sym (drain_step g buffer pos e))
]

-- With fuel enough nothing is left to take off, and the rest is no longer than the buffer.
pub drain_rest :
    (fuel : ℕ) (buffer : Text)
    → length buffer ≤ fuel
    → (find terminator (drain fuel buffer).1 ≡ none)
      × (length (drain fuel buffer).1 ≤ length buffer)
drain_rest zero [] h = (unfold find drain in refl, unfold drain in omega arith)
drain_rest zero (c ∷ buffer) h = absurd (omega arith)
drain_rest (suc fuel) buffer h = elim (Option-cases (find terminator buffer)) [
  | inl e ↦ rw (drain_stop (suc fuel) buffer e) (e, omega arith)
  | inr (pos, e) ↦
      let (stuck, bound) = drain_rest fuel (drop (pos + 2) buffer) (shorter buffer pos fuel e h) in
      rw (drain_step fuel buffer pos e) (stuck, omega (arith, bound, length-drop (pos + 2) buffer))
]

-- What `drain` makes of `a` followed by `b`, through the rest that `a` leaves.
abbrev resumed : ℕ → Text → Text → Drained
resumed fuel a b =
    let (events, rest) = drain fuel a in
    let (more, rest') = drain fuel (rest ++ b) in (events ++ more, rest')

pub drain-append :
    (fuel : ℕ) (a b : Text) → length (a ++ b) ≤ fuel → drain fuel (a ++ b) ≡ resumed fuel a b
drain-append zero a b h = unfold drain in refl
drain-append (suc fuel) a b h = elim (Option-cases (find terminator a)) [
  | inl e ↦ rw (drain_stop (suc fuel) a e)
  | inr (pos, e) ↦
      let a' : Text = drop (pos + 2) a in
      let bound : pos + 2 ≤ length a = omega (arith, find_bound terminator a pos e) in
      let enough : length (a' ++ b) ≤ fuel =
        omega (arith, length-append a b, length-append a' b, length-drop (pos + 2) a) in
      let rest_bound : length (drain fuel a').1 ≤ length a' =
        (drain_rest fuel a' (omega (arith, length-append a' b, enough))).1 in
      let refuel : drain fuel ((drain fuel a').1 ++ b) ≡ drain (suc fuel) ((drain fuel a').1 ++ b) =
        drain_fuel fuel (suc fuel) ((drain fuel a').1 ++ b)
          (omega (arith, length-append (drain fuel a').1 b, length-append a' b))
          (omega (arith, length-append (drain fuel a').1 b, length-append a' b)) in
      drain_step fuel (a ++ b) pos (find-append terminator a b pos e)
      ∙ rw (take-append pos a b (omega arith), drop-append (pos + 2) a b bound)
          (rw (drain-append fuel a' b enough)
            (rw (drain_step fuel a pos e) (rw refuel (rw append_assoc))))
]

-- The buffer holds no complete block.
abbrev pub IsDrained : SseParser → Type 0
IsDrained parser = find terminator parser.buffer ≡ none

pub new-IsDrained : IsDrained new
unfolding find
new-IsDrained = refl

pub feed-IsDrained : (parser : SseParser) (chunk : Text) → IsDrained (feed parser chunk).1
unfolding feed
feed-IsDrained parser chunk =
    (drain_rest (length (parser.buffer ++ chunk)) (parser.buffer ++ chunk) (omega arith)).0

pub feed-nil : (parser : SseParser) → IsDrained parser → feed parser [] ≡ ([], parser)
unfolding feed
feed-nil parser h = rw append-nil (rw (drain_stop (length parser.buffer) parser.buffer h))

-- Two chunks in turn give the events, and leave the buffer, of the two in one piece.
pub feed-append :
    (parser : SseParser) (a b : Text)
    → feed parser (a ++ b)
      ≡ ((feed parser a).0 ++ (feed (feed parser a).1 b).0, (feed (feed parser a).1 b).1)
unfolding feed
feed-append parser a b =
    let buffer : Text = parser.buffer ++ a in
    let whole : Text = buffer ++ b in
    let rest : Text = (drain (length buffer) buffer).1 in
    let refuel_a : drain (length whole) buffer ≡ drain (length buffer) buffer =
      drain_fuel (length whole) (length buffer) buffer (omega (arith, length-append buffer b))
        (omega arith) in
    let bound : length rest ≤ length buffer = (drain_rest (length buffer) buffer (omega arith)).1 in
    let refuel_b : drain (length whole) (rest ++ b) ≡ drain (length (rest ++ b)) (rest ++ b) =
      drain_fuel (length whole) (length (rest ++ b)) (rest ++ b)
        (omega (arith, bound, length-append buffer b, length-append rest b)) (omega arith) in
    rw (← append_assoc)
      (rw (drain-append (length whole) buffer b (omega arith)) (rw refuel_a (rw refuel_b)))

-- However a stream is cut into chunks, its events and the rest in the buffer are those of the
-- whole stream fed at once, from any parser that holds no complete block.
pub feed_all-concat :
    (chunks : List Text) (parser : SseParser)
    → IsDrained parser
    → feed_all parser chunks ≡ feed parser (concat chunks)
unfolding feed_all
feed_all-concat [] parser h = sym (feed-nil parser h)
feed_all-concat (chunk ∷ chunks) parser h =
    rw (feed_all-concat chunks (feed parser chunk).1 (feed-IsDrained parser chunk))
      (sym (feed-append parser chunk (concat chunks)))
