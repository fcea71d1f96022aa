-- ===== src/Llm/Sse/Encode.antt =====
-- The wire format that the parser of src/llm/sse.rs reads, written by an encoder of its own, and
-- read back.
use animus_rs.Prelude.{
  ℕ, suc, ◌+◌, ◌≡◌, ◌≢◌, refl, ap, ◌∙◌, Option, none, some, List, [], ◌∷◌, false, ◌==◌, ◌++◌,
  append_assoc, append-nil, length, Text, lit, newline, find, map, arith, split, join, split-ne-nil,
  split-AllAvoid, Avoids, AllAvoid, length-append, starts_with, strip_prefix,
}
use animus_rs.Llm.Sse.{SseEvent, Fields, terminator, take_line, take_lines}

abbrev pub data_line : Text → Text
data_line line = lit "data: " ++ line

abbrev pub event_lines : Option Text → List Text
event_lines none = []
event_lines (some name) = (lit "event: " ++ name) ∷ []

-- The lines of an event: its type if it has one, and a `data` line for each line of its data.
abbrev pub lines_of : SseEvent → List Text
lines_of event = event_lines event.event_type ++ map data_line (split newline event.data_text)

abbrev pub encode : SseEvent → Text
encode event = join (newline ∷ []) (lines_of event) ++ terminator

abbrev pub encode_all : List SseEvent → Text
encode_all [] = []
encode_all (event ∷ events) = encode event ++ encode_all events

-- The type of an event is one line. Its data may be any text.
abbrev pub IsWritable : SseEvent → Type 0
IsWritable event = elim event.event_type [ none ↦ Unit | some name ↦ Avoids newline name ]

abbrev pub AllWritable : List SseEvent → Type 0
AllWritable [] = Unit
AllWritable (event ∷ events) = IsWritable event × AllWritable events

abbrev shifted : ℕ → Option ℕ → Option ℕ
shifted n none = none
shifted n (some pos) = some (n + pos)

find-Avoids :
    (s t : Text)
    → Avoids newline s
    → find terminator (s ++ t) ≡ shifted (length s) (find terminator t)
unfolding find starts_with
find-Avoids [] t h = ground arith
find-Avoids (c ∷ s) t h = ground (arith, find-Avoids s t h.1)

-- A line that begins with another byte than a newline.
abbrev pub IsLine : Text → Type 0
IsLine [] = ⊥
IsLine (c ∷ s) = Avoids newline (c ∷ s)

abbrev pub AllLines : List Text → Type 0
AllLines [] = Unit
AllLines (s ∷ rest) = IsLine s × AllLines rest

IsLine-Avoids : (s : Text) → IsLine s → Avoids newline s
IsLine-Avoids [] h = absurd h
IsLine-Avoids (c ∷ s) h = h

pub AllLines-AllAvoid : (lines : List Text) → AllLines lines → AllAvoid newline lines
AllLines-AllAvoid [] h = tt
AllLines-AllAvoid (s ∷ rest) h = (IsLine-Avoids s h.0, AllLines-AllAvoid rest h.1)

find_line_end :
    (c : ℕ) (s : Text)
    → (c == newline) ≡ false
    → find terminator (newline ∷ c ∷ s) ≡ shifted 1 (find terminator (c ∷ s))
unfolding find starts_with
find_line_end c s h = ground arith

pub join_head :
    (sep : Text) (c : ℕ) (t : Text) (more : List Text)
    → join sep ((c ∷ t) ∷ more) ≡ c ∷ join sep (t ∷ more)
unfolding join
join_head sep c t [] = refl
join_head sep c t (x ∷ more) = refl

-- The first empty line of joined lines is the one behind them.
pub find-terminator :
    (lines : List Text) (rest : Text)
    → lines ≢ []
    → AllLines lines
    → find terminator (join (newline ∷ []) lines ++ (terminator ++ rest))
      ≡ some (length (join (newline ∷ []) lines))
find-terminator [] rest ne h = absurd (ne refl)
find-terminator (s ∷ []) rest ne h =
    unfold join in
    (find-Avoids s (terminator ++ rest) (IsLine-Avoids s h.0)
      ∙ (unfold find starts_with in ground arith))
find-terminator (s ∷ [] ∷ more) rest ne h = absurd h.1.0
find-terminator (s ∷ (c ∷ t) ∷ more) rest ne h =
    let after : Text = join (newline ∷ []) (t ∷ more) in
    let ih : find terminator (c ∷ (after ++ (terminator ++ rest))) ≡ some (suc (length after)) =
      rw (join_head (newline ∷ []) c t more) at
        (find-terminator ((c ∷ t) ∷ more) rest (λ e. cc) h.1) in
    let joined : join (newline ∷ []) (s ∷ (c ∷ t) ∷ more) ≡ s ++ newline ∷ c ∷ after =
      unfold join in rw (join_head (newline ∷ []) c t more) in
    rw joined (
      rw append_assoc (
        find-Avoids s (newline ∷ c ∷ (after ++ (terminator ++ rest))) (IsLine-Avoids s h.0)
        ∙ ground (
          arith,
          ih,
          find_line_end c (after ++ (terminator ++ rest)),
          length-append s (newline ∷ c ∷ after),
        )))

data_lines-AllLines : (lines : List Text) → AllAvoid newline lines → AllLines (map data_line lines)
data_lines-AllLines [] h = tt
data_lines-AllLines (s ∷ rest) h =
    ((refl, (refl, (refl, (refl, (refl, (refl, h.0)))))), data_lines-AllLines rest h.1)

pub lines_of-AllLines : (event : SseEvent) → IsWritable event → AllLines (lines_of event)
lines_of-AllLines event w = go event.event_type w
  where
    body : AllLines (map data_line (split newline event.data_text))
    body = data_lines-AllLines _ (split-AllAvoid newline event.data_text)

    go :
        (name : Option Text)
        → IsWritable (record event { event_type = name })
        → AllLines (event_lines name ++ map data_line (split newline event.data_text))
    go none w = body
    go (some name) w = ((refl, (refl, (refl, (refl, (refl, (refl, (refl, w))))))), body)

map-ne-nil : (lines : List Text) → lines ≢ [] → map data_line lines ≢ []
map-ne-nil [] ne = absurd (ne refl)
map-ne-nil (s ∷ rest) ne = λ e. cc

pub lines_of-ne-nil : (event : SseEvent) → lines_of event ≢ []
lines_of-ne-nil event = go event.event_type
  where
    go :
        (name : Option Text)
        → event_lines name ++ map data_line (split newline event.data_text) ≢ []
    go none = map-ne-nil _ (split-ne-nil newline event.data_text)
    go (some name) = λ e. cc

pub take_line_event :
    (fields : Fields) (name : Text)
    → take_line fields (lit "event: " ++ name) ≡ record fields { event_type = some name }
unfolding take_line starts_with strip_prefix
take_line_event fields name = refl

take_line_data :
    (fields : Fields) (line : Text)
    → take_line fields (data_line line)
      ≡ record fields { data_lines = fields.data_lines ++ line ∷ [] }
unfolding take_line starts_with strip_prefix
take_line_data fields line = refl

pub take_lines_data :
    (fields : Fields) (lines : List Text)
    → take_lines fields (map data_line lines)
      ≡ record fields { data_lines = fields.data_lines ++ lines }
unfolding take_lines
take_lines_data fields [] = rw append-nil
take_lines_data fields (line ∷ lines) =
    ap (λ f. take_lines f (map data_line lines)) (take_line_data fields line)
    ∙ take_lines_data (record fields { data_lines = fields.data_lines ++ line ∷ [] }) lines
    ∙ rw append_assoc
