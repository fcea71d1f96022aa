-- ===== src/Prelude/Sort/Select.antt =====
-- What a `SELECT … WHERE … ORDER BY … LIMIT n` answers, told by predicates of its own.
use Prim.Native.Nat.{ℕ, zero, suc, ◌≤◌}
use mathlib.Core.Path.{◌≡◌}
use mathlib.Core.Logic.{◌⊎◌, inl, inr}
use mathlib.Core.Bool.{Bool, true}
use mathlib.Core.List.{List, [], ◌∷◌, ◌++◌, Perm}
use mathlib.Core.List.Perm
use animus_rs.Prelude.Tests.{if◌then◌else◌, Bool-cases}
use animus_rs.Prelude.Lists.{length, take, drop}
use animus_rs.Prelude.Sort.{
  Order, rows_where, insert_by, sort_by, page_of, AllAfter, IsSorted, sort_by-Perm, take-drop,
  length-take-le, take_full, sort_by-IsSorted,
}

module _ {A : Type 0} where
  abbrev pub Each : (A → Type 0) → List A → Type 0
  Each Good [] = Unit
  Each Good (x ∷ xs) = Good x × Each Good xs

  -- Every element may stand in front of each that follows.
  abbrev pub Ordered : (A → A → Type 0) → List A → Type 0
  Ordered InFront [] = Unit
  Ordered InFront (x ∷ xs) = Each (InFront x) xs × Ordered InFront xs

  -- The rows are a page, a rest, and those rejected. The page and the rest are good and, one after the
  -- other, in order; the rejected are not good; the page has at most n rows, and fewer only if there
  -- is no rest.
  pub record IsSelection (Good : A → Type 0) (InFront : A → A → Type 0) (n : ℕ) (rows page : List A)
      : Type 0 where
    pub rest : List A
    pub rejected : List A
    pub all_rows : Perm ((page ++ rest) ++ rejected) rows
    pub page_good : Each Good page
    pub rest_good : Each Good rest
    pub rejected_bad : Each (λ a. Good a → ⊥) rejected
    pub ordered : Ordered InFront (page ++ rest)
    pub at_most : length page ≤ n
    pub complete : (length page ≡ n) ⊎ (rest ≡ [])

  take-Each : (Good : A → Type 0) (n : ℕ) (xs : List A) → Each Good xs → Each Good (take n xs)
  take-Each Good zero xs h = tt
  take-Each Good (suc n) [] h = tt
  take-Each Good (suc n) (x ∷ xs) (p, h) = (p, take-Each Good n xs h)

  drop-Each : (Good : A → Type 0) (n : ℕ) (xs : List A) → Each Good xs → Each Good (drop n xs)
  drop-Each Good zero xs h = h
  drop-Each Good (suc n) [] h = tt
  drop-Each Good (suc n) (x ∷ xs) (p, h) = drop-Each Good n xs h

  insert_by-Each :
      (Good : A → Type 0) (before : A → A → Bool) (x : A) (ys : List A)
      → Good x
      → Each Good ys
      → Each Good (insert_by before x ys)
  unfolding insert_by
  insert_by-Each Good before x [] p h = (p, tt)
  insert_by-Each Good before x (y ∷ ys) p (q, h) = elim (Bool-cases (before x y)) [
    | inl e ↦ rw e (p, (q, h))
    | inr e ↦ rw e (q, insert_by-Each Good before x ys p h)
  ]

  sort_by-Each :
      (Good : A → Type 0) (before : A → A → Bool) (xs : List A)
      → Each Good xs
      → Each Good (sort_by before xs)
  unfolding sort_by
  sort_by-Each Good before [] h = tt
  sort_by-Each Good before (x ∷ xs) (p, h) =
      insert_by-Each Good before x (sort_by before xs) p (sort_by-Each Good before xs h)

  AllAfter-Each :
      (before : A → A → Bool) (InFront : A → A → Type 0)
      → ((a b : A) → before a b ≡ true → InFront a b)
      → (x : A) (ys : List A) → AllAfter before x ys
      → Each (InFront x) ys
  AllAfter-Each before InFront front x [] h = tt
  AllAfter-Each before InFront front x (y ∷ ys) (p, h) =
      (front x y p, AllAfter-Each before InFront front x ys h)

  IsSorted-Ordered :
      (before : A → A → Bool) (InFront : A → A → Type 0)
      → ((a b : A) → before a b ≡ true → InFront a b)
      → (xs : List A) → IsSorted before xs
      → Ordered InFront xs
  IsSorted-Ordered before InFront front [] h = tt
  IsSorted-Ordered before InFront front (x ∷ xs) (p, h) =
      (AllAfter-Each before InFront front x xs p, IsSorted-Ordered before InFront front xs h)

  -- The rows that fail a test.
  rows_not : (A → Bool) → List A → List A
  rows_not test [] = []
  rows_not test (x ∷ xs) = let rest = rows_not test xs in if test x then rest else x ∷ rest

  perm_middle : (a : A) (xs ys : List A) → Perm (xs ++ a ∷ ys) (a ∷ (xs ++ ys))
  perm_middle a [] ys = Perm.rfl
  perm_middle a (x ∷ xs) ys =
      Perm.trans (Perm.cons x (perm_middle a xs ys)) (Perm.swap a x (xs ++ ys))

  rows_where-Perm :
      (test : A → Bool) (xs : List A) → Perm (rows_where test xs ++ rows_not test xs) xs
  unfolding rows_where rows_not
  rows_where-Perm test [] = Perm.rfl
  rows_where-Perm test (x ∷ xs) = elim (Bool-cases (test x)) [
    | inl e ↦ rw e (Perm.cons x (rows_where-Perm test xs))
    | inr e ↦ rw e (
        Perm.trans (perm_middle x (rows_where test xs) (rows_not test xs))
          (Perm.cons x (rows_where-Perm test xs)))
  ]

  rows_where-AllAfter :
      (test : A → Bool) (before : A → A → Bool) (x : A) (ys : List A)
      → AllAfter before x ys
      → AllAfter before x (rows_where test ys)
  unfolding rows_where
  rows_where-AllAfter test before x [] h = tt
  rows_where-AllAfter test before x (y ∷ ys) (p, h) = elim (Bool-cases (test y)) [
    | inl e ↦ rw e (p, rows_where-AllAfter test before x ys h)
    | inr e ↦ rw e (rows_where-AllAfter test before x ys h)
  ]

  pub rows_where-IsSorted :
      (test : A → Bool) (before : A → A → Bool) (xs : List A)
      → IsSorted before xs
      → IsSorted before (rows_where test xs)
  unfolding rows_where
  rows_where-IsSorted test before [] h = tt
  rows_where-IsSorted test before (x ∷ xs) (p, h) = elim (Bool-cases (test x)) [
    | inl e ↦ rw e (rows_where-AllAfter test before x xs p, rows_where-IsSorted test before xs h)
    | inr e ↦ rw e (rows_where-IsSorted test before xs h)
  ]

  module _ (test : A → Bool) (Good : A → Type 0) (sound : (a : A) → test a ≡ true → Good a)
      (exact : (a : A) → Good a → test a ≡ true) where
    rows_where-Each : (xs : List A) → Each Good (rows_where test xs)
    unfolding rows_where
    rows_where-Each [] = tt
    rows_where-Each (x ∷ xs) = elim (Bool-cases (test x)) [
      | inl e ↦ rw e (sound x e, rows_where-Each xs)
      | inr e ↦ rw e (rows_where-Each xs)
    ]

    rows_not-Each : (xs : List A) → Each (λ a. Good a → ⊥) (rows_not test xs)
    unfolding rows_not
    rows_not-Each [] = tt
    rows_not-Each (x ∷ xs) = elim (Bool-cases (test x)) [
      | inl e ↦ rw e (rows_not-Each xs)
      | inr e ↦ rw e ((λ good. cc (exact x good, e)), rows_not-Each xs)
    ]

    module _ (before : A → A → Bool) (InFront : A → A → Type 0)
        (front : (a b : A) → before a b ≡ true → InFront a b) where
      selection :
          (n : ℕ) (rows ys : List A)
          → Perm ys (rows_where test rows)
          → Each Good ys
          → IsSorted before ys
          → IsSelection Good InFront n rows (take n ys)
      selection n rows ys same good sorted = record {
        rest = drop n ys;
        rejected = rows_not test rows;
        all_rows =
            rw take-drop (
              Perm.trans (Perm.append_right (rows_not test rows) same) (rows_where-Perm test rows));
        page_good = take-Each Good n ys good;
        rest_good = drop-Each Good n ys good;
        rejected_bad = rows_not-Each rows;
        ordered = rw take-drop (IsSorted-Ordered before InFront front ys sorted);
        at_most = length-take-le n ys;
        complete = take_full n ys;
      }

      -- A page of rows that are sorted already.
      pub take-IsSelection :
          (n : ℕ) (rows : List A)
          → IsSorted before rows
          → IsSelection Good InFront n rows (take n (rows_where test rows))
      take-IsSelection n rows sorted =
          selection n rows (rows_where test rows) Perm.rfl (rows_where-Each rows)
            (rows_where-IsSorted test before rows sorted)

    pub page_of-IsSelection :
        (o : Order A) (InFront : A → A → Type 0)
        → ((a b : A) → o.before a b ≡ true → InFront a b)
        → (n : ℕ) (rows : List A) → IsSelection Good InFront n rows (page_of test o.before n rows)
    page_of-IsSelection o InFront front n rows =
        selection o.before InFront front n rows (sort_by o.before (rows_where test rows))
          (sort_by-Perm o.before (rows_where test rows))
          (sort_by-Each Good o.before (rows_where test rows) (rows_where-Each rows))
          (sort_by-IsSorted o (rows_where test rows))
