-- ===== src/Db/Work/Taken.antt =====
-- What it means for the table of src/db/work.rs that an item no longer waits for a worker.
use animus_rs.Prelude.{
  ◌≡◌, refl, sym, ◌∙◌, true, false, some, List, [], ◌∷◌, ◌++◌, Text, text_eq, text_eq_iff, ==_iff,
  Bool-cases, inl, inr, arith, Bool,
}
use animus_rs.Work.State
use animus_rs.Work.State.{State, state_eq, can_transition_to}
use animus_rs.Work.State.Graph.{show_injective}
use animus_rs.Work.Item.{Uuid}
use animus_rs.Db.Table.{Row, select, has_id, update, affected, exists}
use animus_rs.Db.Table.Counts.{affected-append, affected-update}
use animus_rs.Db.Rows.{is_in}
use animus_rs.Db.Work.Steps.{IsMove}

module _ {V : Type 0} where
  -- The item is in the table, and in no row that waits for a worker.
  pub record IsTaken (id : Uuid) (rows : List (Row V)) : Type 0 where
    pub there : exists (has_id id) rows ≡ true
    pub not_queued : affected (is_in id (State.show State.queued)) rows ≡ 0

  exists-update :
      (test test' : Row V → Bool) (change : Row V → Row V) (rows : List (Row V))
      → ((r : Row V) → test (change r) ≡ test r)
      → exists test (update test' change rows) ≡ exists test rows
  unfolding exists select update
  exists-update test test' change [] same = refl
  exists-update test test' change (r ∷ rows) same = elim (Bool-cases (test' r)) [
    | inl e ↦ ground (arith, same r, exists-update test test' change rows same)
    | inr e ↦ ground (arith, exists-update test test' change rows same)
  ]

  pub select-exists :
      (test : Row V → Bool) (rows : List (Row V)) (r : Row V)
      → select test rows ≡ some r
      → exists test rows ≡ true
  unfolding exists
  select-exists test rows r h = rw (h, exists) refl

  pub update-none :
      (test : Row V → Bool) (change : Row V → Row V) (rows : List (Row V))
      → affected test rows ≡ 0
      → update test change rows ≡ rows
  unfolding affected update
  update-none test change [] h = refl
  update-none test change (r ∷ rows) h = elim (Bool-cases (test r)) [
    | inl e ↦ absurd (ground arith)
    | inr e ↦ ground (arith, update-none test change rows)
  ]

  exists-append :
      (test : Row V → Bool) (rows : List (Row V)) (r : Row V)
      → exists test rows ≡ true
      → exists test (rows ++ r ∷ []) ≡ true
  unfolding exists select
  exists-append test [] r h = cc
  exists-append test (s ∷ rows) r h = ground (arith, exists-append test rows r)

  enters_other :
      (id : Uuid) (to : State) (change : Row V → Row V)
      → IsMove to change
      → state_eq to State.queued ≡ false
      → (r : Row V) → is_in id (State.show State.queued) (change r) ≡ false
  unfolding is_in state_eq
  enters_other id to change m other r =
      elim (Bool-cases (text_eq (change r).state (State.show State.queued))) [
        | inl e ↦
            let same = (text_eq_iff (change r).state (State.show State.queued)).0 e in
            let queued : to ≡ State.queued =
              show_injective to State.queued (sym (m.new_state r) ∙ same) in
            cc (other, queued)
        | inr e ↦ ground arith
      ]

  -- A row that moves to a state other than `queued` waits for no worker.
  pub move-IsTaken :
      (id moving : Uuid) (from to : State) (change : Row V → Row V)
      → IsMove to change
      → state_eq to State.queued ≡ false
      → (rows : List (Row V)) → IsTaken id rows
      → IsTaken id (update (is_in moving (State.show from)) change rows)
  unfolding is_in
  move-IsTaken id moving from to change m other rows taken = record {
    there =
        rw
          (exists-update (has_id id) (is_in moving (State.show from)) change rows
            (λ r. rw (m.same_id r) refl))
          taken.there;
    not_queued =
        let le =
          affected-update (is_in id (State.show State.queued)) (is_in moving (State.show from))
            change rows (λ r _ e. cc (enters_other id to change m other r)) in
        omega (arith, le, taken.not_queued);
  }

  other_id :
      (id : Uuid) (state : Text) (rows : List (Row V)) (r : Row V)
      → exists (has_id r.id) rows ≡ false
      → exists (has_id id) rows ≡ true
      → is_in id state r ≡ false
  unfolding is_in
  other_id id state rows r fresh there = elim (Bool-cases (has_id id r)) [
    | inl e ↦ let same : r.id ≡ id = (==_iff r.id id).0 e in cc
    | inr e ↦ rw e refl
  ]

  -- A row with another id changes nothing.
  pub append-IsTaken :
      (id : Uuid) (rows : List (Row V)) (r : Row V)
      → exists (has_id r.id) rows ≡ false
      → IsTaken id rows
      → IsTaken id (rows ++ r ∷ [])
  unfolding is_in
  append-IsTaken id rows r fresh taken = record {
    there = exists-append (has_id id) rows r taken.there;
    not_queued = rw affected-append (
        rw (other_id id (State.show State.queued) rows r fresh taken.there)
          (omega (arith, taken.not_queued)));
  }
