-- ===== src/Llm/Sse.antt =====
-- src/llm/sse.rs: the incremental parser of server-sent events.
pub mod Chunks
pub mod Encode
pub mod RoundTrip
use animus_rs.Prelude.{
  ℕ, zero, suc, ◌+◌, ◌==◌, if◌then◌else◌, Bool, true, false, ◌||◌, ◌&&◌, leb, Option, none, some,
  List, [], ◌∷◌, ◌++◌, length, take, drop, Text, lit, newline, is_empty, strip_prefix, starts_with,
  find, split, join,
}

pub record SseEvent : Type 0 where
  pub event_type : Option Text
  pub data_text : Text

pub record SseParser : Type 0 where
  pub buffer : Text

abbrev pub new : SseParser
new = record { buffer = [] }

-- The white space of Unicode in UTF-8, by the length of its encoding.
is_white1 : ℕ → Bool
is_white1 a = (leb 9 a && leb a 13) || a == 32

is_white2 : ℕ → ℕ → Bool
is_white2 a b = a == 0xc2 && (b == 0x85 || b == 0xa0)

is_white3 : ℕ → ℕ → ℕ → Bool
is_white3 a b c =
    (a == 0xe1 && b == 0x9a && c == 0x80)
    || (a == 0xe2
        && b == 0x80
        && ((leb 0x80 c && leb c 0x8a) || c == 0xa8 || c == 0xa9 || c == 0xaf))
    || (a == 0xe2 && b == 0x81 && c == 0x9f)
    || (a == 0xe3 && b == 0x80 && c == 0x80)

-- `s.trim().is_empty()`
pub is_blank : Text → Bool
unfolding is_white1 is_white2 is_white3
is_blank [] = true
is_blank (a ∷ []) = is_white1 a
is_blank (a ∷ b ∷ []) = let rest = is_blank (b ∷ []) in if is_white1 a then rest else is_white2 a b
is_blank (a ∷ b ∷ c ∷ s) =
    let rest1 = is_blank (b ∷ c ∷ s) in
    let rest2 = is_blank (c ∷ s) in
    let rest3 = is_blank s in
    if is_white1 a
    then rest1
    else if is_white2 a b
    then rest2
    else if is_white3 a b c
    then rest3
    else false

-- What the loop over the lines of a block has collected.
pub record Fields : Type 0 where
  pub event_type : Option Text
  pub data_lines : List Text

-- One line of a block.
pub take_line : Fields → Text → Fields
take_line fields line =
    if starts_with (lit ":") line then fields else elim (strip_prefix (lit "event: ") line) [
      | some value ↦ record fields { event_type = some value }
      | none ↦ elim (strip_prefix (lit "event:") line) [
        | some value ↦ record fields { event_type = some value }
        | none ↦ elim (strip_prefix (lit "data: ") line) [
          | some value ↦ record fields { data_lines = fields.data_lines ++ value ∷ [] }
          | none ↦ elim (strip_prefix (lit "data:") line) [
            | some value ↦ record fields { data_lines = fields.data_lines ++ value ∷ [] }
            | none ↦ fields
          ]
        ]
      ]
    ]

pub take_lines : Fields → List Text → Fields
take_lines fields [] = fields
take_lines fields (line ∷ lines) = take_lines (take_line fields line) lines

-- The body of the loop for one block: the events that it pushes, none or one.
pub parse_block : Text → List SseEvent
parse_block block =
    if is_blank block
    then []
    else (let fields =
          take_lines (record { event_type = none; data_lines = [] }) (split newline block) in
        if is_empty fields.data_lines
        then []
        else record {
          event_type = fields.event_type;
          data_text = join (newline ∷ []) fields.data_lines;
        }
          ∷ [])

abbrev pub terminator : Text
terminator = newline ∷ newline ∷ []

-- `while let Some(pos) = self.buffer.find("\n\n")`: the events and the buffer that is left. Each
-- round takes two bytes off the buffer at least, so its length is fuel enough.
pub drain : ℕ → Text → List SseEvent × Text
drain zero buffer = ([], buffer)
drain (suc fuel) buffer = elim (find terminator buffer) [
  | none ↦ ([], buffer)
  | some pos ↦
      let rest = drain fuel (drop (pos + 2) buffer) in
      (parse_block (take pos buffer) ++ rest.0, rest.1)
]

pub feed : SseParser → Text → List SseEvent × SseParser
feed parser chunk =
    let buffer = parser.buffer ++ chunk in
    let (events, rest) = drain (length buffer) buffer in (events, record { buffer = rest })

-- The chunks of a stream, one after the other, as `complete_stream` feeds them.
unfoldable pub feed_all : SseParser → List Text → List SseEvent × SseParser
feed_all parser [] = ([], parser)
feed_all parser (chunk ∷ chunks) =
    let (events, parser') = feed parser chunk in
    let (more, parser'') = feed_all parser' chunks in (events ++ more, parser'')
