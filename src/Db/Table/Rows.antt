-- ===== src/Db/Table/Rows.antt =====
-- The statements on the table `work_items` for a row that has just been inserted, and for the rows
-- that a statement does not select.
use animus_rs.Prelude.{
  ◌≡◌, refl, Bool, true, false, some, List, [], ◌∷◌, ◌++◌, Bool-cases, inl, inr, arith,
}
use animus_rs.Db.Table.{Row, select, has_id, update, exists, admits}

module _ {V : Type 0} where
  pub select-append :
      (test : Row V → Bool) (rows : List (Row V)) (r : Row V)
      → exists test rows ≡ false
      → test r ≡ true
      → select test (rows ++ r ∷ []) ≡ some r
  unfolding select exists
  select-append test [] r h t = rw t refl
  select-append test (s ∷ rows) r h t = elim (Bool-cases (test s)) [
    | inl e ↦ ground arith
    | inr e ↦ ground (arith, select-append test rows r)
  ]

  pub update-append :
      (test : Row V → Bool) (change : Row V → Row V) (rows : List (Row V)) (r : Row V)
      → exists test rows ≡ false
      → test r ≡ true
      → update test change (rows ++ r ∷ []) ≡ rows ++ change r ∷ []
  unfolding update exists select
  update-append test change [] r h t = rw t refl
  update-append test change (s ∷ rows) r h t = elim (Bool-cases (test s)) [
    | inl e ↦ ground arith
    | inr e ↦ ground (arith, update-append test change rows r)
  ]

  pub admits-fresh :
      (r : Row V) (rows : List (Row V)) → admits r rows ≡ true → exists (has_id r.id) rows ≡ false
  unfolding admits
  admits-fresh r rows h = ground arith
