-- ===== src/Prelude/Bytes.antt =====
-- `String` and `&str` as lists of UTF-8 bytes, with the functions of `str` that the program calls.
use Prim.Native.Nat.{ℕ, zero, suc, ◌+◌, ◌≤◌}
use Prim.Native.Char.{code}
use Prim.Native.String.{String}
use mathlib.Core.Path.{◌≡◌, refl, ◌∙◌}
use mathlib.Core.Logic.{◌↔◌}
use mathlib.Core.Bool.{Bool, true, false, ◌&&◌}
use mathlib.Core.Option.{Option, none, some}
use mathlib.Core.List.{List, [], ◌∷◌, ◌++◌}
use native.Mathlib.Omega.{arith}
use animus_rs.Prelude.Tests.{◌==◌, if◌then◌else◌}
use animus_rs.Prelude.Lists.{length}

abbrev pub Text : Type 0
Text = List ℕ

-- The bytes of a literal of the source; every literal that is written this way is ASCII.
abbrev pub lit : String → Text
lit String.[] = []
lit (String.◌∷◌ c s) = code c ∷ lit s

abbrev pub newline : ℕ
newline = 10

unfoldable pub text_eq : Text → Text → Bool
text_eq [] [] = true
text_eq (x ∷ xs) (y ∷ ys) = (x == y) && text_eq xs ys
text_eq _ _ = false

pub text_eq_iff : (s t : Text) → (text_eq s t ≡ true) ↔ (s ≡ t)
unfolding text_eq
text_eq_iff (x ∷ xs) (y ∷ ys) = ground (arith, text_eq_iff xs ys)
text_eq_iff _ _ = ground arith

pub text_eq_self : (s : Text) → text_eq s s ≡ true
text_eq_self s = (text_eq_iff s s).1 refl

abbrev pub is_empty {ℓ} : {A : Type ℓ} → List A → Bool
is_empty [] = true
is_empty (x ∷ xs) = false

-- `str::strip_prefix`, the pattern first.
unfoldable pub strip_prefix : Text → Text → Option Text
strip_prefix [] s = some s
strip_prefix (p ∷ ps) [] = none
strip_prefix (p ∷ ps) (c ∷ s) = if p == c then strip_prefix ps s else none

-- `str::starts_with`, the pattern first.
unfoldable pub starts_with : Text → Text → Bool
starts_with [] s = true
starts_with (p ∷ ps) [] = false
starts_with (p ∷ ps) (c ∷ s) = (p == c) && starts_with ps s

-- `str::find`: the byte offset of the first match, the pattern first.
unfoldable pub find : Text → Text → Option ℕ
unfolding starts_with
find pat [] = if starts_with pat [] then some 0 else none
find pat (c ∷ s) =
    if starts_with pat (c ∷ s)
    then some 0
    else elim (find pat s) [ none ↦ none | some pos ↦ some (suc pos) ]

-- The first piece of a split, and the rest.
abbrev pub push_head : ℕ → List Text → List Text
push_head c [] = (c ∷ []) ∷ []
push_head c (line ∷ rest) = (c ∷ line) ∷ rest

-- `str::split` on one byte; the result is never empty.
unfoldable pub split : ℕ → Text → List Text
split sep [] = [] ∷ []
split sep (c ∷ s) = let rest = split sep s in if c == sep then [] ∷ rest else push_head c rest

-- `[String]::join`.
unfoldable pub join : Text → List Text → Text
join sep [] = []
join sep (s ∷ []) = s
join sep (s ∷ t ∷ rest) = s ++ (sep ++ join sep (t ∷ rest))

pub strip_prefix-append : (p s : Text) → strip_prefix p (p ++ s) ≡ some s
unfolding strip_prefix
strip_prefix-append [] s = refl
strip_prefix-append (c ∷ p) s = ground (arith, strip_prefix-append p s)

pub starts_with-length : (pat s : Text) → starts_with pat s ≡ true → length pat ≤ length s
unfolding starts_with
starts_with-length [] s h = omega arith
starts_with-length (p ∷ pat) [] h = cc
starts_with-length (p ∷ pat) (c ∷ s) h = ground (arith, starts_with-length pat s)

pub starts_with-append :
    (pat s t : Text) → length pat ≤ length s → starts_with pat (s ++ t) ≡ starts_with pat s
unfolding starts_with
starts_with-append [] s t h = refl
starts_with-append (p ∷ pat) [] t h = absurd (omega arith)
starts_with-append (p ∷ pat) (c ∷ s) t h = ground (arith, starts_with-append pat s t)

-- A match lies within the text.
pub find_bound : (pat s : Text) (pos : ℕ) → find pat s ≡ some pos → pos + length pat ≤ length s
unfolding find
find_bound pat [] pos h = ground (arith, starts_with-length pat [])
find_bound pat (c ∷ s) zero h =
    ground (arith, starts_with-length pat (c ∷ s), λ (m : ℕ). find_bound pat s m)
find_bound pat (c ∷ s) (suc pos) h = ground (arith, find_bound pat s pos)

find-nil : (t : Text) → find [] t ≡ some 0
unfolding find starts_with
find-nil [] = refl
find-nil (c ∷ t) = refl

-- What follows a text does not move its first match.
pub find-append : (pat s t : Text) (pos : ℕ) → find pat s ≡ some pos → find pat (s ++ t) ≡ some pos
unfolding find
find-append [] [] t pos h = find-nil t ∙ h
find-append (p ∷ pat) [] t pos h = unfold starts_with in cc
find-append pat (c ∷ s) t zero h = ground (
  arith,
  starts_with-append pat (c ∷ s) t,
  starts_with-length pat (c ∷ s),
  λ (m : ℕ). find_bound pat s m,
)
find-append pat (c ∷ s) t (suc pos) h =
    ground (arith, find-append pat s t pos, find_bound pat s pos, starts_with-append pat (c ∷ s) t)
