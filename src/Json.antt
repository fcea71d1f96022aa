-- ===== src/Json.antt =====
-- What the program uses of `serde_json`: its values, how they are built and read, and the parser
-- and the printer. The crate is not part of the repository, so it is an interface: the operations
-- with the laws that its documentation states. `Json/Model.antt` shows that they can be met.
pub mod Model
use animus_rs.Prelude.{
  ℕ, ◌^◌, ◌<◌, ◌≡◌, Bool, Option, none, some, List, [], ◌∷◌, ◌++◌, Text, text_eq, Result,
  if◌then◌else◌,
}

-- The last entry for a key: `json!` inserts the entries in turn, and a later one replaces an
-- earlier one.
unfoldable pub lookup : {V : Type 0} → Text → List (Text × V) → Option V
lookup key [] = none
lookup key ((k, v) ∷ entries) = elim (lookup key entries) [
  | some w ↦ some w
  | none ↦ if text_eq k key then some v else none
]

abbrev pub or_null : {V : Type 0} → V → Option V → V
or_null null none = null
or_null null (some v) = v

abbrev pub head? : {V : Type 0} → List V → Option V
head? [] = none
head? (v ∷ vs) = some v

pub record JsonLib : Type 1 where
  pub Value : Type 0
  -- an `f64`
  pub Float : Type 0
  pub null : Value
  pub boolean : Bool → Value
  pub number : ℕ → Value
  pub float : Float → Value
  pub string : Text → Value
  pub array : List Value → Value
  -- `json!({ … })`
  pub object : List (Text × Value) → Value
  -- `v["key"]`, which is `Null` where there is no such entry
  pub index : Value → Text → Value
  -- `v["key"] = w`
  pub set : Value → Text → Value → Value
  -- `v.get("key")`
  pub get : Value → Text → Option Value
  -- `v.get(0)`; `v[0]` is `Null` where it is `none`
  pub first : Value → Option Value
  pub as_str : Value → Option Text
  pub as_array : Value → Option (List Value)
  pub as_u64 : Value → Option ℕ
  -- `serde_json::from_str`, with the message of its error
  pub from_str : Text → Result Text Value
  -- `to_string` and `to_string_pretty`
  pub to_string : Value → Text
  pub to_string_pretty : Value → Text
  pub index-object :
      (entries : List (Text × Value)) (key : Text)
      → index (object entries) key ≡ or_null null (lookup key entries)
  pub get-object :
      (entries : List (Text × Value)) (key : Text) → get (object entries) key ≡ lookup key entries
  pub set-object :
      (entries : List (Text × Value)) (key : Text) (v : Value)
      → set (object entries) key v ≡ object (entries ++ (key, v) ∷ [])
  pub first-array : (vs : List Value) → first (array vs) ≡ head? vs
  pub as_str-string : (s : Text) → as_str (string s) ≡ some s
  pub as_str-null : as_str null ≡ none
  pub as_array-array : (vs : List Value) → as_array (array vs) ≡ some vs
  pub as_array-null : as_array null ≡ none
  pub as_u64-number : (n : ℕ) → n < 2 ^ 64 → as_u64 (number n) ≡ some n
  pub as_u64-null : as_u64 null ≡ none

-- `v[0]`
abbrev pub index_first : (j : JsonLib) → j.Value → j.Value
index_first j v = or_null j.null (j.first v)
