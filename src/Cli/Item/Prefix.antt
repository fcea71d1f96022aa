-- ===== src/Cli/Item/Prefix.antt =====
-- src/bin/animus.rs: which item the start of an id stands for.
use animus_rs.Prelude.{
  ◌≤◌, ◌≡◌, refl, sym, ap, ◌∙◌, inl, inr, Bool, true, false, Bool-cases, List, [], ◌∷◌, ◌++◌,
  length, Text, lit, starts_with-length, Result, ok, err, arith,
}
use animus_rs.Prelude.Sort.{rows_where, length-take-le}
use animus_rs.Work.Item.{Uuid, WorkId, WorkItem}
use animus_rs.Cli.Failure.{Failure}
use animus_rs.Cli.Prompt.{quoted}
use animus_rs.Cli.Work.{show_id}
use animus_rs.Cli.Item.{shown_with, the_one, find_by_prefix}

module _ {A : Type 0} (test : A → Bool) where
  -- No member passes the test.
  abbrev pub NonePass : List A → Type 0
  NonePass [] = Unit
  NonePass (x ∷ xs) = (test x ≡ false) × NonePass xs

  -- One member passes it, and no other.
  pub record OnePasses (x : A) (xs : List A) : Type 0 where
    pub front : List A
    pub back : List A
    pub whole : xs ≡ front ++ x ∷ back
    pub passes : test x ≡ true
    pub others : NonePass front × NonePass back

  rows_where-NonePass : (xs : List A) → rows_where test xs ≡ [] → NonePass xs
  unfolding rows_where
  rows_where-NonePass [] e = tt
  rows_where-NonePass (x ∷ xs) e = elim (Bool-cases (test x)) [
    | inl h ↦ absurd (ground arith)
    | inr h ↦ (h, rows_where-NonePass xs (ground arith))
  ]

  rows_where-OnePasses : (xs : List A) (y : A) → rows_where test xs ≡ y ∷ [] → OnePasses y xs
  unfolding rows_where
  rows_where-OnePasses [] y e = absurd (cc)
  rows_where-OnePasses (x ∷ xs) y e = elim (Bool-cases (test x)) [
    | inl h ↦
        let e' : x ∷ rows_where test xs ≡ y ∷ [] = rw h at e in
        let same : x ≡ y = cc in
        record {
          front = [];
          back = xs;
          whole = ap (λ z. z ∷ xs) same;
          passes = ap test (sym same) ∙ h;
          others = (tt, rows_where-NonePass xs (cc));
        }
    | inr h ↦
        let o = rows_where-OnePasses xs y (rw h at e) in
        record {
          front = x ∷ o.front;
          back = o.back;
          whole = ap (◌∷◌ x) o.whole;
          passes = o.passes;
          others = ((h, o.others.0), o.others.1);
        }
  ]

module _ {V : Type 0} (show_uuid : Uuid → Text) where
  -- What a prefix stands for: the id of the one item whose shown id starts with it. The prefix is
  -- then no longer than the shown id. Without such an item, or with several, there is an error.
  pub data Finds (prefix : Text) (items : List (WorkItem V)) : Result Failure WorkId → Type 0 where
    sole :
        (item : WorkItem V)
        → OnePasses (shown_with show_uuid prefix) item items
        → length prefix ≤ 8
        → Finds prefix items (ok item.id)
    unknown :
        NonePass (shown_with show_uuid prefix) items
        → Finds prefix items
            (err (Failure.bail (lit "no work item matching prefix " ++ quoted prefix)))
    ambiguous :
        (e : Text)
        → 2 ≤ length (rows_where (shown_with show_uuid prefix) items)
        → Finds prefix items (err (Failure.bail e))

  short_prefix :
      (prefix : Text) (item : WorkItem V)
      → shown_with show_uuid prefix item ≡ true
      → length prefix ≤ 8
  unfolding shown_with
  short_prefix prefix item h = omega (
    arith,
    starts_with-length prefix (show_id show_uuid item.id) h,
    length-take-le 8 (show_uuid item.id.uuid),
  )

  the_one-Finds :
      (prefix : Text) (items matches : List (WorkItem V))
      → rows_where (shown_with show_uuid prefix) items ≡ matches
      → Finds prefix items (the_one show_uuid prefix matches)
  unfolding the_one
  the_one-Finds prefix items [] e = unknown (rows_where-NonePass _ items e)
  the_one-Finds prefix items (item ∷ []) e =
      let o = rows_where-OnePasses (shown_with show_uuid prefix) items item e in
      sole item o (short_prefix prefix item o.passes)
  the_one-Finds prefix items (item ∷ more ∷ rest) e = ambiguous _ (rw e (omega arith))

  -- `work show` resolves a prefix to an item exactly if it is the only one listed whose shown id starts
  -- with the prefix; the prefix then has at most 8 bytes, so that a longer one never finds an item.
  pub find_by_prefix-Finds :
      (prefix : Text) (items : List (WorkItem V))
      → Finds prefix items (find_by_prefix show_uuid prefix items)
  unfolding find_by_prefix
  find_by_prefix-Finds prefix items = the_one-Finds prefix items _ refl
