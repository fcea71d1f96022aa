-- ===== src/Db/Table/Counts.antt =====
-- How many rows a test selects, after an insert and after an update.
use animus_rs.Prelude.{
  ℕ, suc, ◌+◌, ◌≤◌, ◌≡◌, refl, Bool, true, false, some, List, [], ◌∷◌, ◌++◌, if◌then◌else◌,
  Bool-cases, inl, inr, arith, ap, sym,
}
use animus_rs.Db.Table.{Row, select, update, affected, exists}

module _ {V : Type 0} where
  pub affected-append :
      (test : Row V → Bool) (rows : List (Row V)) (r : Row V)
      → affected test (rows ++ r ∷ []) ≡ affected test rows + (if test r then 1 else 0)
  unfolding affected
  affected-append test [] r = elim (Bool-cases (test r)) [ inl e ↦ rw e refl | inr e ↦ rw e refl ]
  affected-append test (s ∷ rows) r = elim (Bool-cases (test s)) [
    | inl e ↦ ground (arith, affected-append test rows r)
    | inr e ↦ rw e (affected-append test rows r)
  ]

  pub affected-none :
      (test : Row V → Bool) (rows : List (Row V))
      → exists test rows ≡ false
      → affected test rows ≡ 0
  unfolding affected exists select
  affected-none test [] h = refl
  affected-none test (s ∷ rows) h = elim (Bool-cases (test s)) [
    | inl e ↦ ground arith
    | inr e ↦ ground (arith, affected-none test rows)
  ]

  -- An update whose change selects no row that was not selected does not raise the count.
  pub affected-update :
      (test test' : Row V → Bool) (change : Row V → Row V) (rows : List (Row V))
      → ((r : Row V) → test' r ≡ true → test (change r) ≡ true → test r ≡ true)
      → affected test (update test' change rows) ≤ affected test rows
  unfolding affected update
  affected-update test test' change [] h = omega arith
  affected-update test test' change (r ∷ rows) h = elim (Bool-cases (test' r)) [
    | inl e ↦ elim (Bool-cases (test (change r))) [
      | inl e' ↦ ground (arith, affected-update test test' change rows h, h r e e')
      | inr e' ↦ ground (arith, affected-update test test' change rows h)
    ]
    | inr e ↦ ground (arith, affected-update test test' change rows h)
  ]

  pub select-first :
      (test : Row V → Bool) (s : Row V) (rows : List (Row V)) (r : Row V)
      → test s ≡ true
      → select test (s ∷ rows) ≡ some r
      → s ≡ r
  unfolding select
  select-first test s rows r e h = ground arith

  -- An update of other rows, which keeps the outcome of a test, leaves the row that it selects.
  pub select-update :
      (test test' : Row V → Bool) (change : Row V → Row V) (rows : List (Row V)) (r : Row V)
      → ((s : Row V) → test (change s) ≡ test s)
      → test' r ≡ false
      → select test rows ≡ some r
      → select test (update test' change rows) ≡ some r
  unfolding select update
  select-update test test' change (s ∷ rows) r same other h = elim (Bool-cases (test s)) [
    | inl e ↦
        let p = select-first test s rows r e h in
        let q : test' s ≡ false = rw p other in rw q (rw e (ap some p))
    | inr e ↦ elim (Bool-cases (test' s)) [
      | inl e' ↦ ground (arith, select-update test test' change rows r same other, same s)
      | inr e' ↦ ground (arith, select-update test test' change rows r same other)
    ]
  ]
  select-update test test' change [] r same other h = h

  pub select-append_some :
      (test : Row V → Bool) (rows : List (Row V)) (r new : Row V)
      → select test rows ≡ some r
      → select test (rows ++ new ∷ []) ≡ some r
  unfolding select
  select-append_some test [] r new h = ground arith
  select-append_some test (s ∷ rows) r new h = elim (Bool-cases (test s)) [
    | inl e ↦ ground arith
    | inr e ↦ ground (arith, select-append_some test rows r new)
  ]

  -- An update that hits the row that another test selects: the test selects the changed row.
  pub select-update_hit :
      (test test' : Row V → Bool) (change : Row V → Row V) (rows : List (Row V)) (r : Row V)
      → ((s : Row V) → test (change s) ≡ test s)
      → test' r ≡ true
      → select test rows ≡ some r
      → select test (update test' change rows) ≡ some (change r)
  unfolding select update
  select-update_hit test test' change [] r same hit h = ground arith
  select-update_hit test test' change (s ∷ rows) r same hit h = elim (Bool-cases (test s)) [
    | inl e ↦
        let p = select-first test s rows r e h in
        let q : test' s ≡ true = rw p hit in rw q (rw (same s) (rw e (ap (λ t. some (change t)) p)))
    | inr e ↦ elim (Bool-cases (test' s)) [
      | inl e' ↦
          rw e'
            (rw (same s) (rw e (select-update_hit test test' change rows r same hit (rw e at h))))
      | inr e' ↦ rw e' (rw e (select-update_hit test test' change rows r same hit (rw e at h)))
    ]
  ]

  pub affected-hit :
      (test test' : Row V → Bool) (rows : List (Row V)) (r : Row V)
      → select test rows ≡ some r
      → test' r ≡ true
      → (n : ℕ) × (affected test' rows ≡ suc n)
  unfolding affected select
  affected-hit test test' [] r h hit = ground arith
  affected-hit test test' (s ∷ rows) r h hit = elim (Bool-cases (test s)) [
    | inl e ↦
        let p = select-first test s rows r e h in
        let q : test' s ≡ true = rw p hit in (affected test' rows, rw q refl)
    | inr e ↦ elim (Bool-cases (test' s)) [
      | inl e' ↦ (affected test' rows, rw e' refl)
      | inr e' ↦ rw e' (affected-hit test test' rows r (rw e at h) hit)
    ]
  ]

  -- After an update that takes each row that it changes out of its own test, no row meets it.
  pub affected-moved :
      (test : Row V → Bool) (change : Row V → Row V) (rows : List (Row V))
      → ((r : Row V) → test (change r) ≡ false)
      → affected test (update test change rows) ≡ 0
  unfolding affected update
  affected-moved test change [] out = refl
  affected-moved test change (r ∷ rows) out = elim (Bool-cases (test r)) [
    | inl e ↦ rw e (rw (out r) (affected-moved test change rows out))
    | inr e ↦ rw e (rw e (affected-moved test change rows out))
  ]

  pub selected-test :
      (test : Row V → Bool) (rows : List (Row V)) (r : Row V)
      → select test rows ≡ some r
      → test r ≡ true
  unfolding select
  selected-test test [] r h = ground arith
  selected-test test (s ∷ rows) r h = elim (Bool-cases (test s)) [
    | inl e ↦ let p = select-first test s rows r e h in rw (sym p) e
    | inr e ↦ selected-test test rows r (rw e at h)
  ]
