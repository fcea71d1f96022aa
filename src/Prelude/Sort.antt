-- ===== src/Prelude/Sort.antt =====
-- Sorting by a Boolean order, and the first rows of a sorted table: `ORDER BY … LIMIT n`.
pub mod Select
use Prim.Native.Nat.{ℕ, zero, suc, ◌≤◌}
use mathlib.Core.Path.{◌≡◌, refl}
use mathlib.Core.Logic.{◌⊎◌, inl, inr}
use mathlib.Core.Bool.{Bool, true, false}
use mathlib.Core.List.{List, [], ◌∷◌, ◌++◌, Perm}
use mathlib.Core.List.Perm
use native.Mathlib.Omega.{arith}
use animus_rs.Prelude.Tests.{if◌then◌else◌, Bool-cases}
use animus_rs.Prelude.Lists.{length, take, drop}

-- `before a b`: a may stand in front of b.
pub record Order {ℓ} (A : Type ℓ) : Type ℓ where
  pub before : A → A → Bool
  pub total : (a b : A) → before a b ≡ false → before b a ≡ true
  pub trans : (a b c : A) → before a b ≡ true → before b c ≡ true → before a c ≡ true

module _ {ℓ} {A : Type ℓ} where
  unfoldable pub rows_where : (A → Bool) → List A → List A
  rows_where test [] = []
  rows_where test (x ∷ xs) = let rest = rows_where test xs in if test x then x ∷ rest else rest

  insert_by : (A → A → Bool) → A → List A → List A
  insert_by before x [] = x ∷ []
  insert_by before x (y ∷ ys) =
      let rest = insert_by before x ys in if before x y then x ∷ y ∷ ys else y ∷ rest

  unfoldable pub sort_by : (A → A → Bool) → List A → List A
  unfolding insert_by
  sort_by before [] = []
  sort_by before (x ∷ xs) = insert_by before x (sort_by before xs)

  -- `SELECT … WHERE test ORDER BY before LIMIT n`
  abbrev pub page_of : (A → Bool) → (A → A → Bool) → ℕ → List A → List A
  page_of test before n rows = take n (sort_by before (rows_where test rows))

  abbrev pub AllAfter : (A → A → Bool) → A → List A → Type 0
  AllAfter before x [] = Unit
  AllAfter before x (y ∷ ys) = (before x y ≡ true) × AllAfter before x ys

  abbrev pub IsSorted : (A → A → Bool) → List A → Type 0
  IsSorted before [] = Unit
  IsSorted before (x ∷ xs) = AllAfter before x xs × IsSorted before xs

  insert_by-Perm :
      (before : A → A → Bool) (x : A) (ys : List A) → Perm (insert_by before x ys) (x ∷ ys)
  unfolding insert_by
  insert_by-Perm before x [] = Perm.rfl
  insert_by-Perm before x (y ∷ ys) = elim (Bool-cases (before x y)) [
    | inl e ↦ rw e Perm.rfl
    | inr e ↦ rw e (Perm.trans (Perm.cons y (insert_by-Perm before x ys)) (Perm.swap x y ys))
  ]

  pub sort_by-Perm : (before : A → A → Bool) (xs : List A) → Perm (sort_by before xs) xs
  unfolding sort_by
  sort_by-Perm before [] = Perm.rfl
  sort_by-Perm before (x ∷ xs) =
      Perm.trans (insert_by-Perm before x (sort_by before xs))
        (Perm.cons x (sort_by-Perm before xs))

  pub take-drop : (n : ℕ) (xs : List A) → take n xs ++ drop n xs ≡ xs
  take-drop zero xs = refl
  take-drop (suc n) [] = refl
  take-drop (suc n) (x ∷ xs) = cc (take-drop n xs)

  pub length-take-le : (n : ℕ) (xs : List A) → length (take n xs) ≤ n
  length-take-le zero xs = omega arith
  length-take-le (suc n) [] = omega arith
  length-take-le (suc n) (x ∷ xs) = omega (arith, length-take-le n xs)

  pub take_full : (n : ℕ) (xs : List A) → (length (take n xs) ≡ n) ⊎ (drop n xs ≡ [])
  take_full zero xs = inl refl
  take_full (suc n) [] = inr refl
  take_full (suc n) (x ∷ xs) = elim (take_full n xs) [
    | inl e ↦ inl (omega (arith, e))
    | inr e ↦ inr e
  ]

module _ {ℓ} {A : Type ℓ} (o : Order A) where
  open o use {before, total}

  AllAfter-trans :
      (x y : A) (ys : List A) → before x y ≡ true → AllAfter before y ys → AllAfter before x ys
  AllAfter-trans x y [] h a = tt
  AllAfter-trans x y (z ∷ ys) h a = (o.trans x y z h a.0, AllAfter-trans x y ys h a.1)

  insert_by-AllAfter :
      (x y : A) (ys : List A)
      → before y x ≡ true
      → AllAfter before y ys
      → AllAfter before y (insert_by before x ys)
  unfolding insert_by
  insert_by-AllAfter x y [] h a = (h, tt)
  insert_by-AllAfter x y (z ∷ ys) h a = elim (Bool-cases (before x z)) [
    | inl e ↦ rw e (h, a)
    | inr e ↦ rw e (a.0, insert_by-AllAfter x y ys h a.1)
  ]

  insert_by-IsSorted :
      (x : A) (ys : List A) → IsSorted before ys → IsSorted before (insert_by before x ys)
  unfolding insert_by
  insert_by-IsSorted x [] s = (tt, tt)
  insert_by-IsSorted x (y ∷ ys) s = elim (Bool-cases (before x y)) [
    | inl e ↦ rw e ((e, AllAfter-trans x y ys e s.0), s)
    | inr e ↦ rw e (insert_by-AllAfter x y ys (total x y e) s.0, insert_by-IsSorted x ys s.1)
  ]

  pub sort_by-IsSorted : (xs : List A) → IsSorted before (sort_by before xs)
  unfolding sort_by
  sort_by-IsSorted [] = tt
  sort_by-IsSorted (x ∷ xs) = insert_by-IsSorted x (sort_by before xs) (sort_by-IsSorted xs)
