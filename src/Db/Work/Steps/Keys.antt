-- ===== src/Db/Work/Steps/Keys.antt =====
-- What the steps of src/db/work.rs do to the ids and the dedup keys of a table.
use animus_rs.Prelude.{
  ℕ, ◌≤◌, ◌≡◌, refl, true, false, none, some, List, [], ◌∷◌, ◌++◌, Text, text_eq, text_eq_iff,
  ==_iff, Bool-cases, inl, inr, arith, sym, Option-cases,
}
use animus_rs.Work.State
use animus_rs.Work.State.{State, is_terminal, state_eq}
use animus_rs.Work.State.Graph.{◌⟶◌}
use animus_rs.Db.Work.Steps.Edges.{edge-Leaves}
use animus_rs.Work.Item.{Uuid, Time, NewWorkItem}
use animus_rs.Db.Table.{Row, is_active, has_key, holds_key, has_id, affected, exists}
use animus_rs.Db.Table.Counts.{affected-append, affected-none}
use animus_rs.Db.Rows.{new_row, merged_row, queue_row, is_in}
use animus_rs.Db.Work.Steps.{IsMove}

module _ {V : Type 0} where
  pub in-state : (id : Uuid) (state : Text) (r : Row V) → is_in id state r ≡ true → r.state ≡ state
  unfolding is_in
  in-state id state r e = ground (arith, text_eq_iff r.state state)

  -- The only key under which a new row can be active is its own, and that was free.
  pub holds_key-queued :
      (faculty key : Text) (id : Uuid) (now db_now : Time) (new : NewWorkItem V) (m : ℕ)
      (rows : List (Row V))
      → ((k : Text) → new.dedup_key ≡ some k → exists (holds_key new.faculty k) rows ≡ false)
      → holds_key faculty key (queue_row m db_now (new_row id now new)) ≡ true
      → exists (holds_key faculty key) rows ≡ false
  unfolding holds_key queue_row new_row has_key
  holds_key-queued faculty key id now db_now new m rows free h = elim (Option-cases new.dedup_key) [
    | inl none_given ↦ absurd (no_key none_given)
    | inr (k, given) ↦ rw (sym (same_faculty)) (rw (sym (same_key k given)) (free k given))
  ]
    where
      no_key : new.dedup_key ≡ none → ⊥
      no_key e = ground arith

      same_faculty : new.faculty ≡ faculty
      same_faculty = ground (arith, text_eq_iff new.faculty faculty)

      same_key : (k : Text) → new.dedup_key ≡ some k → k ≡ key
      same_key k e = ground (arith, text_eq_iff k key)

  pub merged_row-inactive :
      (faculty key : Text) (id : Uuid) (now : Time) (new : NewWorkItem V) (c : Uuid)
      → holds_key faculty key (merged_row id now new c) ≡ false
  unfolding holds_key is_active merged_row text_eq
  merged_row-inactive faculty key id now new c = refl

  pub unique_id-append :
      (rows : List (Row V)) (r : Row V)
      → exists (has_id r.id) rows ≡ false
      → ((i : Uuid) → affected (has_id i) rows ≤ 1)
      → (i : Uuid) → affected (has_id i) (rows ++ r ∷ []) ≤ 1
  unique_id-append rows r fresh h i = elim (Bool-cases (has_id i r)) [
    | inl e ↦ rw affected-append (rw e (rw (none_has e) (omega arith)))
    | inr e ↦ rw affected-append (rw e (omega (arith, h i)))
  ]
    where
      none_has : has_id i r ≡ true → affected (has_id i) rows ≡ 0
      none_has e = rw (sym ((==_iff r.id i).0 e)) (affected-none (has_id r.id) rows fresh)

  -- A row that has moved holds no key that it did not hold before.
  pub holds_key-move :
      (from to : State)
      → from ⟶ to
      → (id : Uuid) (change : Row V → Row V) → IsMove to change
      → (faculty key : Text) (r : Row V) → is_in id (State.show from) r ≡ true
      → holds_key faculty key (change r) ≡ true
      → holds_key faculty key r ≡ true
  unfolding holds_key
  holds_key-move from to edge id change m faculty key r e h =
      let l = edge-Leaves edge in
      ground (arith, l.active, in-state id (State.show from) r e, m.same_faculty r, m.same_key r)
