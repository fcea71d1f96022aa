-- ===== src/Db/Work/Queues.antt =====
-- The changes of state of src/db/work.rs do not touch the message queues.
use animus_rs.Prelude.{ℕ, zero, suc, ◌≡◌, refl, Bool-cases, Option-cases, inl, inr, Text}
use animus_rs.Json.{JsonLib}
use animus_rs.Work.State.{State, can_transition_to}
use animus_rs.Work.Item.{Uuid, Time, WorkId, Outcome}
use animus_rs.Db.Table.{select, has_id}
use animus_rs.Db.Pgmq.{Pgmq}
use animus_rs.Db.Session.{World}
use animus_rs.Db.Session.Rules.{bind_rule}
use animus_rs.Db.Rows.{validate_transition}
use animus_rs.Db.Work.{
  update_rows, get_work_item, moved, retired, transition_state, complete_work, fail_work,
}

module _ (j : JsonLib) (P : Pgmq j.Value) (show_uuid : Uuid → Text) where
  open j use {Value}

  pub get_work_item-queues :
      (id : WorkId) (w : World P) → (get_work_item j P show_uuid id w).1.queues ≡ w.queues
  unfolding get_work_item
  get_work_item-queues id w =
      bind_rule (λ r. r.1.queues ≡ w.queues) _ _ _
        (λ fs. elim (Option-cases (select (has_id id.uuid) w.items)) [
          | inl e ↦ rw e refl
          | inr (r, e) ↦ rw e refl
        ])
        (λ e fs. refl)

  moved-queues :
      (id : WorkId) (from to : State) (n : ℕ) (w : World P)
      → (moved j P show_uuid id from to n w).1.queues ≡ w.queues
  unfolding moved
  moved-queues id from to zero w = refl
  moved-queues id from to (suc n) w = get_work_item-queues id _

  retired-queues :
      (id : WorkId) (from to : State) (n : ℕ) (w : World P)
      → (retired j P show_uuid id from to n w).1.queues ≡ w.queues
  unfolding retired
  retired-queues id from to zero w = refl
  retired-queues id from to (suc n) w = get_work_item-queues id _

  pub transition_state-queues :
      (id : WorkId) (from to : State) (now : Time) (w : World P)
      → (transition_state j P show_uuid id from to now w).1.queues ≡ w.queues
  unfolding transition_state update_rows validate_transition
  transition_state-queues id from to now w = elim (Bool-cases (can_transition_to from to)) [
    | inl e ↦ rw e (
        bind_rule (λ r. r.1.queues ≡ w.queues) _ _ _ (λ fs. moved-queues id from to _ _)
          (λ e fs. refl))
    | inr e ↦ rw e refl
  ]

  pub complete_work-queues :
      (id : WorkId) (outcome : Outcome Value) (now : Time) (w : World P)
      → (complete_work j P show_uuid id outcome now w).1.queues ≡ w.queues
  unfolding complete_work update_rows validate_transition can_transition_to
  complete_work-queues id outcome now w =
      bind_rule (λ r. r.1.queues ≡ w.queues) _ _ _ (λ fs. retired-queues id _ _ _ _) (λ e fs. refl)

  pub fail_work-queues :
      (id : WorkId) (error : Text) (ms : ℕ) (now : Time) (w : World P)
      → (fail_work j P show_uuid id error ms now w).1.queues ≡ w.queues
  unfolding fail_work update_rows validate_transition can_transition_to
  fail_work-queues id error ms now w =
      bind_rule (λ r. r.1.queues ≡ w.queues) _ _ _ (λ fs. retired-queues id _ _ _ _) (λ e fs. refl)
