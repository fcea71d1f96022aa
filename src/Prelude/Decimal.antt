-- ===== src/Prelude/Decimal.antt =====
-- Decimal text of unsigned integers: `to_string` and `str::parse`.
use Prim.Native.Nat.{ℕ, zero, suc, ◌+◌, ◌-◌, ◌*◌, ◌/◌, ◌%◌, ◌<◌}
use mathlib.Core.Path.{◌≡◌}
use native.Mathlib.Omega.{arith}
use mathlib.Core.Bool.{◌&&◌}
use mathlib.Core.Option.{Option, none, some}
use mathlib.Core.List.{[], ◌∷◌}
use mathlib.Core.Logic.{inl, inr}
use animus_rs.Prelude.Tests.{◌==◌, leb, ltb, if◌then◌else◌, Bool-cases}
use animus_rs.Prelude.Bytes.{Text, newline}
use animus_rs.Prelude.Split.{Avoids}

-- The digits of `n` in front of `rest`; a number has at most as many digits as its value plus one.
show_digits : ℕ → ℕ → Text → Text
show_digits zero n rest = rest
show_digits (suc fuel) n rest =
    let rest' = (48 + n % 10) ∷ rest in
    let more = show_digits fuel (n / 10) rest' in if n / 10 == 0 then rest' else more

unfoldable pub decimal : ℕ → Text
unfolding show_digits
decimal n = show_digits (suc n) n []

-- The value of digits behind those read, while it stays below `limit`.
parse_digits : ℕ → ℕ → Text → Option ℕ
parse_digits limit n [] = some n
parse_digits limit n (c ∷ s) =
    let n' = n * 10 + (c - 48) in
    let rest = parse_digits limit n' s in
    if leb 48 c && leb c 57 && ltb n' limit then rest else none

nonempty_digits : ℕ → Text → Option ℕ
nonempty_digits limit [] = none
nonempty_digits limit (c ∷ s) = parse_digits limit 0 (c ∷ s)

-- `str::parse` into an unsigned type with values below `limit`; one leading `+` is accepted.
unfoldable pub parse_uint : ℕ → Text → Option ℕ
unfolding parse_digits nonempty_digits
parse_uint limit [] = none
parse_uint limit (c ∷ s) =
    if c == b'+' then nonempty_digits limit s else nonempty_digits limit (c ∷ s)

parse_digits_bound :
    (limit n : ℕ) (s : Text) (m : ℕ) → n < limit → parse_digits limit n s ≡ some m → m < limit
unfolding parse_digits
parse_digits_bound limit n [] m h e = ground arith
parse_digits_bound limit n (c ∷ s) m h e =
    ground (arith, parse_digits_bound limit (n * 10 + (c - 48)) s m)

nonempty_digits_bound :
    (limit : ℕ) (s : Text) (m : ℕ) → nonempty_digits limit s ≡ some m → m < limit
unfolding nonempty_digits parse_digits
nonempty_digits_bound limit (c ∷ s) m e =
    ground (arith, parse_digits_bound limit (0 * 10 + (c - 48)) s m)
nonempty_digits_bound limit [] m e = ground arith

-- A number that parses is in the range of its type.
pub parse_uint_bound : (limit : ℕ) (s : Text) (m : ℕ) → parse_uint limit s ≡ some m → m < limit
unfolding parse_uint
parse_uint_bound limit [] m e = ground arith
parse_uint_bound limit (c ∷ s) m e =
    ground (arith, nonempty_digits_bound limit s m, nonempty_digits_bound limit (c ∷ s) m)

show_digits-Avoids :
    (fuel n : ℕ) (rest : Text) → Avoids newline rest → Avoids newline (show_digits fuel n rest)
unfolding show_digits
show_digits-Avoids zero n rest h = h
show_digits-Avoids (suc fuel) n rest h = elim (Bool-cases (n / 10 == 0)) [
  | inl e ↦ rw e (ground arith, h)
  | inr e ↦ rw e (show_digits-Avoids fuel (n / 10) _ (ground arith, h))
]

-- A decimal text has no line feed.
pub decimal-Avoids : (n : ℕ) → Avoids newline (decimal n)
unfolding decimal
decimal-Avoids n = show_digits-Avoids (suc n) n [] tt
