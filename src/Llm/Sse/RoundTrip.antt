-- ===== src/Llm/Sse/RoundTrip.antt =====
-- The parser of src/llm/sse.rs reads back what the encoder writes, however it is cut.
use animus_rs.Prelude.{
  ℕ, zero, suc, ◌+◌, ◌≡◌, ◌≢◌, refl, sym, ap, ◌∙◌, Option, none, some, List, [], ◌∷◌, false, ◌++◌,
  append-nil, length, concat, Text, newline, find, map, arith, split, join, join-split, split-join,
  split-ne-nil, is_empty, take-length, drop_all, length-append, lit,
}
use animus_rs.Llm.Sse.{
  SseEvent, SseParser, Fields, new, terminator, parse_block, drain, feed, feed_all, take_lines,
  is_blank,
}
use animus_rs.Llm.Sse.Chunks.{drain_step, drain_stop, feed_all-concat, new-IsDrained}
use animus_rs.Llm.Sse.Encode.{
  data_line, event_lines, lines_of, encode, encode_all, IsWritable, AllWritable, AllLines-AllAvoid,
  join_head, lines_of-AllLines, lines_of-ne-nil, find-terminator, take_line_event, take_lines_data,
}

abbrev start : Fields
start = record { event_type = none; data_lines = [] }

take_lines-lines_of :
    (event : SseEvent)
    → take_lines start (lines_of event)
      ≡ record { event_type = event.event_type; data_lines = split newline event.data_text }
unfolding take_lines
take_lines-lines_of event = go event.event_type
  where
    go :
        (name : Option Text)
        → take_lines start (event_lines name ++ map data_line (split newline event.data_text))
          ≡ record { event_type = name; data_lines = split newline event.data_text }
    go none = take_lines_data start (split newline event.data_text)
    go (some name) =
        ap (λ f. take_lines f (map data_line (split newline event.data_text)))
          (take_line_event start name)
        ∙ take_lines_data (record start { event_type = some name }) (split newline event.data_text)

-- A block that begins with `d` or `e` is not blank.
is_blank_data : (s : Text) → is_blank (b'd' ∷ s) ≡ false
unfolding is_blank
is_blank_data [] = refl
is_blank_data (b ∷ []) = refl
is_blank_data (b ∷ c ∷ s) = refl

is_blank_event : (s : Text) → is_blank (b'e' ∷ s) ≡ false
unfolding is_blank
is_blank_event [] = refl
is_blank_event (b ∷ []) = refl
is_blank_event (b ∷ c ∷ s) = refl

is_blank-data_lines :
    (lines : List Text) → lines ≢ [] → is_blank (join (newline ∷ []) (map data_line lines)) ≡ false
is_blank-data_lines [] ne = absurd (ne refl)
is_blank-data_lines (line ∷ lines) ne =
    ap is_blank (join_head (newline ∷ []) b'd' (lit "ata: " ++ line) (map data_line lines))
    ∙ is_blank_data _

is_blank-lines_of : (event : SseEvent) → is_blank (join (newline ∷ []) (lines_of event)) ≡ false
is_blank-lines_of event = go event.event_type
  where
    body : List Text
    body = map data_line (split newline event.data_text)

    go : (name : Option Text) → is_blank (join (newline ∷ []) (event_lines name ++ body)) ≡ false
    go none = is_blank-data_lines _ (split-ne-nil newline event.data_text)
    go (some name) =
        ap is_blank (join_head (newline ∷ []) b'e' (lit "vent: " ++ name) body) ∙ is_blank_event _

is_empty_ne : (lines : List Text) → lines ≢ [] → is_empty lines ≡ false
is_empty_ne [] ne = absurd (ne refl)
is_empty_ne (x ∷ lines) ne = refl

parse_block-lines_of :
    (event : SseEvent)
    → IsWritable event
    → parse_block (join (newline ∷ []) (lines_of event)) ≡ event ∷ []
unfolding parse_block
parse_block-lines_of event w = rw (is_blank-lines_of event) (
    rw
      (split-join newline (lines_of event) (lines_of-ne-nil event)
        (AllLines-AllAvoid _ (lines_of-AllLines event w)))
      (rw (take_lines-lines_of event) (
        rw (is_empty_ne _ (split-ne-nil newline event.data_text))
          (rw (join-split newline event.data_text)))))

feed-encode : (event : SseEvent) → IsWritable event → feed new (encode event) ≡ (event ∷ [], new)
unfolding feed
feed-encode event w = ap reply (go (length (block ++ terminator)) refl)
  where
    block : Text
    block = join (newline ∷ []) (lines_of event)

    found : find terminator (block ++ terminator) ≡ some (length block)
    found =
        rw append-nil at
          (find-terminator (lines_of event) [] (lines_of-ne-nil event) (lines_of-AllLines event w))

    reply : List SseEvent × Text → List SseEvent × SseParser
    reply (events, rest) = (events, record { buffer = rest })

    go :
        (n : ℕ)
        → length (block ++ terminator) ≡ n
        → drain n (block ++ terminator) ≡ (event ∷ [], [])
    go zero e = absurd (omega (arith, length-append block terminator))
    go (suc n) e =
        drain_step n (block ++ terminator) (length block) found
        ∙ rw (
          take-length block terminator,
          drop_all (length block + 2) (block ++ terminator)
              (omega (arith, length-append block terminator)),
          parse_block-lines_of event w,
          drain_stop n [] (unfold find in refl),
        )

feed_all-encodings :
    (events : List SseEvent) → AllWritable events → feed_all new (map encode events) ≡ (events, new)
unfolding feed_all
feed_all-encodings [] w = refl
feed_all-encodings (event ∷ events) w =
    rw (feed-encode event w.0) (rw (feed_all-encodings events w.1))

concat-encode : (events : List SseEvent) → concat (map encode events) ≡ encode_all events
concat-encode [] = refl
concat-encode (event ∷ events) = ap (λ t. encode event ++ t) (concat-encode events)

-- Events written on the wire come back in order, each with its type and its data, and leave an
-- empty buffer, for every way to cut the bytes into chunks. The type of an event must be one
-- line; its data may be any text, with line breaks.
pub feed_all-encode_all :
    (events : List SseEvent) (chunks : List Text)
    → AllWritable events
    → concat chunks ≡ encode_all events
    → feed_all new chunks ≡ (events, new)
feed_all-encode_all events chunks w e =
    feed_all-concat chunks new new-IsDrained
    ∙ ap (feed new) (e ∙ sym (concat-encode events))
    ∙ sym (feed_all-concat (map encode events) new new-IsDrained)
    ∙ feed_all-encodings events w
