-- ===== src/Json/Model.antt =====
-- Values that meet the laws of `JsonLib`, with the parser and the printer left open.
use animus_rs.Prelude.{
  ℕ, ◌≡◌, refl, ap, Bool, Option, none, some, List, [], ◌∷◌, ◌++◌, Text, Result,
}
use animus_rs.Json.{JsonLib, lookup, or_null, head?}

mutual
  pub data Value : Type 0 where
    null : Value
    boolean : Bool → Value
    number : ℕ → Value
    string : Text → Value
    array : Values → Value
    object : Entries → Value

  pub data Values : Type 0 where
    no_values : Values
    and_value : Value → Values → Values

  pub data Entries : Type 0 where
    no_entries : Entries
    and_entry : Text → Value → Entries → Entries

abbrev pub values_of : List Value → Values
values_of [] = no_values
values_of (v ∷ vs) = and_value v (values_of vs)

abbrev pub list_of : Values → List Value
list_of no_values = []
list_of (and_value v vs) = v ∷ list_of vs

abbrev pub entries_of : List (Text × Value) → Entries
entries_of [] = no_entries
entries_of ((k, v) ∷ es) = and_entry k v (entries_of es)

abbrev pub pairs_of : Entries → List (Text × Value)
pairs_of no_entries = []
pairs_of (and_entry k v es) = (k, v) ∷ pairs_of es

pub list_of-values_of : (vs : List Value) → list_of (values_of vs) ≡ vs
list_of-values_of [] = refl
list_of-values_of (v ∷ vs) = ap (◌∷◌ v) (list_of-values_of vs)

pub pairs_of-entries_of : (es : List (Text × Value)) → pairs_of (entries_of es) ≡ es
pairs_of-entries_of [] = refl
pairs_of-entries_of ((k, v) ∷ es) = ap (◌∷◌ (k, v)) (pairs_of-entries_of es)

pub entries_of-append :
    (es : List (Text × Value)) (k : Text) (v : Value)
    → entries_of (pairs_of (entries_of es) ++ (k, v) ∷ []) ≡ entries_of (es ++ (k, v) ∷ [])
entries_of-append es k v = rw (pairs_of-entries_of es) refl

abbrev pub get : Value → Text → Option Value
get (object es) key = lookup key (pairs_of es)
get _ key = none

abbrev pub index : Value → Text → Value
index v key = or_null null (get v key)

abbrev pub set : Value → Text → Value → Value
set (object es) key w = object (entries_of (pairs_of es ++ (key, w) ∷ []))
set v key w = v

abbrev pub first : Value → Option Value
first (array vs) = head? (list_of vs)
first _ = none

abbrev pub as_str : Value → Option Text
as_str (string s) = some s
as_str _ = none

abbrev pub as_array : Value → Option (List Value)
as_array (array vs) = some (list_of vs)
as_array _ = none

abbrev pub as_u64 : Value → Option ℕ
as_u64 (number n) = some n
as_u64 _ = none

-- The library with this parser and printer.
abbrev pub model : (Text → Result Text Value) → (Value → Text) → JsonLib
model from_str to_string = record {
  Value = Value;
  Float = ℕ;
  null = null;
  boolean = boolean;
  number = number;
  float = number;
  string = string;
  array = λ vs. array (values_of vs);
  object = λ es. object (entries_of es);
  index = index;
  set = set;
  get = get;
  first = first;
  as_str = as_str;
  as_array = as_array;
  as_u64 = as_u64;
  from_str = from_str;
  to_string = to_string;
  to_string_pretty = to_string;
  index-object = λ es key. ap (λ ps. or_null null (lookup key ps)) (pairs_of-entries_of es);
  get-object = λ es key. ap (lookup key) (pairs_of-entries_of es);
  set-object = λ es key v. ap object (entries_of-append es key v);
  first-array = λ vs. ap head? (list_of-values_of vs);
  as_str-string = λ s. refl;
  as_str-null = refl;
  as_array-array = λ vs. ap some (list_of-values_of vs);
  as_array-null = refl;
  as_u64-number = λ n h. refl;
  as_u64-null = refl;
}
