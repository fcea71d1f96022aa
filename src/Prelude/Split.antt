-- ===== src/Prelude/Split.antt =====
-- Laws of `split` and `join`, and of a search for an empty line.
use Prim.Native.Nat.{ℕ}
use mathlib.Core.Path.{◌≡◌, refl, ap, ◌∙◌}
use mathlib.Core.Logic.{◌≢◌, ◌⊎◌, inl, inr}
use mathlib.Core.Bool.{true, false}
use mathlib.Core.List.{List, [], ◌∷◌, ◌++◌}
use native.Mathlib.Omega.{arith}
use animus_rs.Prelude.Tests.{◌==◌, if◌then◌else◌, Bool-cases}
use animus_rs.Prelude.Bytes.{Text, push_head, split, join}

-- No byte of the text is `sep`.
abbrev pub Avoids : ℕ → Text → Type 0
Avoids sep [] = Unit
Avoids sep (c ∷ s) = ((c == sep) ≡ false) × Avoids sep s

abbrev pub AllAvoid : ℕ → List Text → Type 0
AllAvoid sep [] = Unit
AllAvoid sep (line ∷ lines) = Avoids sep line × AllAvoid sep lines

pub split-ne-nil : (sep : ℕ) (s : Text) → split sep s ≢ []
unfolding split
split-ne-nil sep [] = λ e. cc
split-ne-nil sep (c ∷ s) = λ e. go (split sep s) (split-ne-nil sep s) (Bool-cases (c == sep)) e
  where
    push : (rest : List Text) → push_head c rest ≢ []
    push [] = λ e. cc
    push (x ∷ rest) = λ e. cc

    go :
        (rest : List Text)
        → rest ≢ []
        → ((c == sep) ≡ true) ⊎ ((c == sep) ≡ false)
        → (if c == sep then [] ∷ rest else push_head c rest) ≢ []
    go rest ne (inl h) = rw h (λ e. cc)
    go rest ne (inr h) = rw h (push rest)

join-push_head :
    (sep : Text) (c : ℕ) (rest : List Text)
    → rest ≢ []
    → join sep (push_head c rest) ≡ c ∷ join sep rest
unfolding join
join-push_head sep c [] h = absurd (h refl)
join-push_head sep c (x ∷ []) h = refl
join-push_head sep c (x ∷ y ∷ rest) h = refl

pub join-cons :
    (sep s : Text) (rest : List Text)
    → rest ≢ []
    → join sep (s ∷ rest) ≡ s ++ (sep ++ join sep rest)
unfolding join
join-cons sep s [] h = absurd (h refl)
join-cons sep s (x ∷ rest) h = refl

-- The pieces of a split joined again are the text.
pub join-split : (sep : ℕ) (s : Text) → join (sep ∷ []) (split sep s) ≡ s
unfolding split
join-split sep [] = unfold join in refl
join-split sep (c ∷ s) = elim (Bool-cases (c == sep)) [
  | inl h ↦ rw h (join-cons (sep ∷ []) [] _ (split-ne-nil sep s) ∙ ground (arith, join-split sep s))
  | inr h ↦
      rw h (join-push_head (sep ∷ []) c _ (split-ne-nil sep s) ∙ ap (◌∷◌ c) (join-split sep s))
]

pub split-AllAvoid : (sep : ℕ) (s : Text) → AllAvoid sep (split sep s)
unfolding split
split-AllAvoid sep [] = (tt, tt)
split-AllAvoid sep (c ∷ s) = elim (Bool-cases (c == sep)) [
  | inl h ↦ rw h (tt, split-AllAvoid sep s)
  | inr h ↦ rw h (push (split sep s) h (split-AllAvoid sep s))
]
  where
    push :
        (rest : List Text)
        → (c == sep) ≡ false
        → AllAvoid sep rest
        → AllAvoid sep (push_head c rest)
    push [] h a = ((h, tt), tt)
    push (x ∷ rest) h a = ((h, a.0), a.1)

pub split-Avoids : (sep : ℕ) (s : Text) → Avoids sep s → split sep s ≡ s ∷ []
unfolding split
split-Avoids sep [] h = refl
split-Avoids sep (c ∷ s) h = rw (h.0) (ap (push_head c) (split-Avoids sep s h.1))

pub split-append :
    (sep : ℕ) (s t : Text) → Avoids sep s → split sep (s ++ sep ∷ t) ≡ s ∷ split sep t
unfolding split
split-append sep [] t h = ground arith
split-append sep (c ∷ s) t h = rw (h.0) (ap (push_head c) (split-append sep s t h.1))

-- Splitting joined lines gives the lines back.
pub split-join :
    (sep : ℕ) (lines : List Text)
    → lines ≢ []
    → AllAvoid sep lines
    → split sep (join (sep ∷ []) lines) ≡ lines
unfolding join
split-join sep [] ne h = absurd (ne refl)
split-join sep (s ∷ []) ne h = split-Avoids sep s h.0
split-join sep (s ∷ t ∷ rest) ne h =
    split-append sep s (join (sep ∷ []) (t ∷ rest)) h.0
    ∙ ap (◌∷◌ s) (split-join sep (t ∷ rest) (λ e. cc) h.1)
