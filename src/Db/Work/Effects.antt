-- ===== src/Db/Work/Effects.antt =====
-- What the operations of src/db/work.rs that move an item leave of the table, for every way in which
-- their statements can fail.
use animus_rs.Prelude.{
  ℕ, zero, suc, ◌≡◌, refl, true, List, Text, Bool-cases, Option-cases, inl, inr,
}
use animus_rs.Json.{JsonLib}
use animus_rs.Work.State
use animus_rs.Work.State.{State, can_transition_to}
use animus_rs.Work.Item.{Uuid, Time, WorkId, Outcome}
use animus_rs.Db.Table.{Row, select, has_id, update, affected}
use animus_rs.Db.Pgmq.{Pgmq}
use animus_rs.Db.Session.{World}
use animus_rs.Db.Session.Rules.{bind_rule}
use animus_rs.Db.Rows.{validate_transition, transition_row, complete_row, fail_row, is_in}
use animus_rs.Db.Work.{
  get_work_item, moved, retired, transition_state, complete_work, fail_work, update_rows,
}

module _ (j : JsonLib) (P : Pgmq j.Value) (show_uuid : Uuid → Text) where
  open j use {Value}

  pub get_work_item-items :
      (id : WorkId) (w : World P) → (get_work_item j P show_uuid id w).1.items ≡ w.items
  unfolding get_work_item
  get_work_item-items id w =
      bind_rule (λ r. r.1.items ≡ w.items) _ _ _
        (λ fs. elim (Option-cases (select (has_id id.uuid) w.items)) [
          | inl e ↦ rw e refl
          | inr (r, e) ↦ rw e refl
        ])
        (λ e fs. refl)

  pub moved-items :
      (id : WorkId) (from to : State) (n : ℕ) (w : World P)
      → (moved j P show_uuid id from to n w).1.items ≡ w.items
  unfolding moved
  moved-items id from to zero w = refl
  moved-items id from to (suc n) w = get_work_item-items id _

  retired-items :
      (id : WorkId) (from to : State) (n : ℕ) (w : World P)
      → (retired j P show_uuid id from to n w).1.items ≡ w.items
  unfolding retired
  retired-items id from to zero w = refl
  retired-items id from to (suc n) w = get_work_item-items id _

  -- The table is as it was, or the rows of the item that were in the state `from` are changed, and
  -- that only if the life cycle has the edge.
  pub transition_state_rule :
      (Q : List (Row Value) → Type 0) (id : WorkId) (from to : State) (now : Time) (w : World P)
      → Q w.items
      → (can_transition_to from to ≡ true
          → Q (update (is_in id.uuid (State.show from)) (transition_row to now) w.items))
      → Q (transition_state j P show_uuid id from to now w).1.items
  unfolding transition_state update_rows validate_transition
  transition_state_rule Q id from to now w same changed =
      elim (Bool-cases (can_transition_to from to)) [
        | inl e ↦ rw e (
            bind_rule (λ r. Q r.1.items) _ _ _
              (λ fs.
                rw (moved-items id from to (affected (is_in id.uuid (State.show from)) w.items) _)
                  (changed e))
              (λ e fs. same))
        | inr e ↦ rw e same
      ]

  pub complete_work_rule :
      (Q : List (Row Value) → Type 0) (id : WorkId) (outcome : Outcome Value) (now : Time)
      (w : World P)
      → Q w.items
      → Q (update (is_in id.uuid (State.show State.running)) (complete_row now outcome) w.items)
      → Q (complete_work j P show_uuid id outcome now w).1.items
  unfolding complete_work update_rows validate_transition can_transition_to State.show
  complete_work_rule Q id outcome now w same changed =
      bind_rule (λ r. Q r.1.items) _ _ _
        (λ fs.
          rw
            (retired-items id State.running State.completed
              (affected (is_in id.uuid (State.show State.running)) w.items) _)
            changed)
        (λ e fs. same)

  pub fail_work_rule :
      (Q : List (Row Value) → Type 0) (id : WorkId) (error : Text) (ms : ℕ) (now : Time)
      (w : World P)
      → Q w.items
      → Q (update (is_in id.uuid (State.show State.running)) (fail_row now error ms) w.items)
      → Q (fail_work j P show_uuid id error ms now w).1.items
  unfolding fail_work update_rows validate_transition can_transition_to State.show
  fail_work_rule Q id error ms now w same changed =
      bind_rule (λ r. Q r.1.items) _ _ _
        (λ fs.
          rw
            (retired-items id State.running State.failed
              (affected (is_in id.uuid (State.show State.running)) w.items) _)
            changed)
        (λ e fs. same)
