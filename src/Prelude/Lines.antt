-- ===== src/Prelude/Lines.antt =====
-- `str::lines`, and the lines of texts that are put together.
use Prim.Native.Nat.{ℕ}
use mathlib.Core.Path.{◌≡◌, ap, ◌∙◌}
use mathlib.Core.Logic.{inl, inr}
use mathlib.Core.Bool.{Bool, true, not, ◌&&◌}
use mathlib.Core.List.{List, [], ◌∷◌, ◌++◌, append_assoc, map}
use native.Mathlib.Omega.{arith}
use animus_rs.Prelude.Tests.{◌==◌, if◌then◌else◌, Bool-cases}
use animus_rs.Prelude.Bytes.{Text, newline, is_empty, split, join}
use animus_rs.Prelude.Split.{Avoids, AllAvoid, split-append, split-AllAvoid}

-- A carriage return in front of a line feed belongs to the line's end.
unfoldable pub strip_cr : Text → Text
strip_cr [] = []
strip_cr (c ∷ []) = if c == 13 then [] else c ∷ []
strip_cr (c ∷ d ∷ s) = c ∷ strip_cr (d ∷ s)

-- Of the pieces between line feeds, the last one is a line only if it is not empty.
unfoldable pub lines_of : List Text → List Text
lines_of [] = []
lines_of (last ∷ []) = if is_empty last then [] else last ∷ []
lines_of (line ∷ next ∷ rest) = strip_cr line ∷ lines_of (next ∷ rest)

-- `str::lines`
abbrev pub lines : Text → List Text
lines s = lines_of (split newline s)

strip_cr-Avoids : (sep : ℕ) (s : Text) → Avoids sep s → Avoids sep (strip_cr s)
unfolding strip_cr
strip_cr-Avoids sep [] h = tt
strip_cr-Avoids sep (c ∷ []) h = elim (Bool-cases (c == 13)) [ inl e ↦ rw e tt | inr e ↦ rw e h ]
strip_cr-Avoids sep (c ∷ d ∷ s) h = (h.0, strip_cr-Avoids sep (d ∷ s) h.1)

lines_of-AllAvoid :
    (sep : ℕ) (pieces : List Text) → AllAvoid sep pieces → AllAvoid sep (lines_of pieces)
unfolding lines_of
lines_of-AllAvoid sep [] h = tt
lines_of-AllAvoid sep (last ∷ []) h = elim (Bool-cases (is_empty last)) [
  | inl e ↦ rw e tt
  | inr e ↦ rw e h
]
lines_of-AllAvoid sep (line ∷ next ∷ rest) h =
    (strip_cr-Avoids sep line h.0, lines_of-AllAvoid sep (next ∷ rest) h.1)

-- No line has a line feed.
pub lines-AllAvoid : (s : Text) → AllAvoid newline (lines s)
lines-AllAvoid s = lines_of-AllAvoid newline (split newline s) (split-AllAvoid newline s)

-- A test of `Avoids`.
abbrev pub avoids : ℕ → Text → Bool
avoids sep [] = true
avoids sep (c ∷ s) = not (c == sep) && avoids sep s

pub avoids-Avoids : (sep : ℕ) (s : Text) → avoids sep s ≡ true → Avoids sep s
avoids-Avoids sep [] h = tt
avoids-Avoids sep (c ∷ s) h = (ground arith, avoids-Avoids sep s (ground arith))

pub Avoids-append : (sep : ℕ) (s t : Text) → Avoids sep s → Avoids sep t → Avoids sep (s ++ t)
Avoids-append sep [] t h k = k
Avoids-append sep (c ∷ s) t h k = (h.0, Avoids-append sep s t h.1 k)

pub AllAvoid-map :
    (sep : ℕ) (prefix : Text) (lines : List Text)
    → Avoids sep prefix
    → AllAvoid sep lines
    → AllAvoid sep (map (◌++◌ prefix) lines)
AllAvoid-map sep prefix [] p h = tt
AllAvoid-map sep prefix (line ∷ lines) p h =
    (Avoids-append sep prefix line p h.0, AllAvoid-map sep prefix lines p h.1)

-- The lines that a block of joined lines has in front of another text; no line is one empty line.
pub split-join-append :
    (sep : ℕ) (lines : List Text) (t : Text)
    → AllAvoid sep lines
    → split sep (join (sep ∷ []) lines ++ sep ∷ t)
      ≡ (if is_empty lines then [] ∷ [] else lines) ++ split sep t
unfolding join
split-join-append sep [] t h = split-append sep [] t tt
split-join-append sep (s ∷ []) t h = split-append sep s t h.0
split-join-append sep (s ∷ u ∷ rest) t h =
    ap (split sep) (append_assoc s _ _)
    ∙ split-append sep s _ h.0
    ∙ ap (◌∷◌ s) (split-join-append sep (u ∷ rest) t h.1)
