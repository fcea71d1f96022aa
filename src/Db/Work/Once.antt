-- ===== src/Db/Work/Once.antt =====
-- That an item is claimed once, whatever any number of processes call in src/db/work.rs afterwards.
use animus_rs.Prelude.{
  ℕ, zero, suc, ◌≡◌, refl, true, false, Text, Result, ok, err, Bool-cases, Option-cases, inl, inr,
}
use animus_rs.Json.{JsonLib}
use animus_rs.Work.State
use animus_rs.Work.State.{State, state_eq, can_transition_to}
use animus_rs.Work.Item.{Uuid, Time, WorkId, WorkItem, NewWorkItem}
use animus_rs.Db.Table.{select, has_id, exists}
use animus_rs.Db.Pgmq.{Pgmq}
use animus_rs.Db.Session.{Error, World}
use animus_rs.Db.Session.Rules.{bind_rule}
use animus_rs.Db.Rows.{
  validate_transition, new_row, merged_row, queue_row, transition_row, complete_row, fail_row,
  is_in,
}
use animus_rs.Db.Work.{
  SubmitResult, created, merged, get_work_item, moved, transition_state, update_rows,
}
use animus_rs.Db.Work.Effects.{transition_state_rule, complete_work_rule, fail_work_rule}
use animus_rs.Db.Work.Submit.{queued_row}
use animus_rs.Db.Work.Submit.Atomic.{Promise, submit_work-Promise}
use animus_rs.Db.Work.Steps.{transition_row-IsMove, complete_row-IsMove, fail_row-IsMove}
use animus_rs.Db.Work.Transition.{transition_state-clears, transition_state-refused}
use animus_rs.Db.Work.Taken.{IsTaken, append-IsTaken, move-IsTaken, select-exists, update-none}
use animus_rs.Db.Work.Calls.{
  ◌↝◌, ◌↝*◌, submits, claims, starts, completes, fails, elsewhere, done, onward,
}

module _ (j : JsonLib) (P : Pgmq j.Value) (show_uuid : Uuid → Text) where
  open j use {Value}

  Promise-IsTaken :
      (taken : Uuid) (id : Uuid) (now db_now : Time) (new : NewWorkItem Value) (before : World P)
      (r : Result Error (SubmitResult Value)) (after : World P)
      → Promise j P show_uuid id now db_now new before (r, after)
      → IsTaken taken before.items
      → IsTaken taken after.items
  unfolding Promise queued_row queue_row merged_row new_row
  Promise-IsTaken taken id now db_now new before (ok (created item)) after (free, h, _) t =
      rw h.stored (append-IsTaken taken before.items _ h.fresh_id t)
  Promise-IsTaken taken id now db_now new before (ok (merged d c)) after (key, _, has, h) t =
      rw h.stored (append-IsTaken taken before.items _ h.fresh_id t)
  Promise-IsTaken taken id now db_now new before (err e) after (inl h) t = rw h.same_items t
  Promise-IsTaken taken id now db_now new before (err e) after (inr (free, h)) t =
      rw h.stored (append-IsTaken taken before.items _ h.fresh_id t)

  transition-IsTaken :
      (taken : Uuid) (id : WorkId) (from to : State) (now : Time) (w : World P)
      → state_eq to State.queued ≡ false
      → IsTaken taken w.items
      → IsTaken taken (transition_state j P show_uuid id from to now w).1.items
  transition-IsTaken taken id from to now w other t =
      transition_state_rule j P show_uuid (IsTaken taken) id from to now w t (λ _.
        move-IsTaken taken id.uuid from to (transition_row to now) (transition_row-IsMove to now)
          other w.items t)

  ↝-IsTaken :
      (taken : Uuid) {w w' : World P}
      → ◌↝◌ j P show_uuid w w'
      → IsTaken taken w.items
      → IsTaken taken w'.items
  unfolding state_eq
  ↝-IsTaken taken {w} (submits id now db_now new) t =
      Promise-IsTaken taken id now db_now new w _ _
        (submit_work-Promise j P show_uuid id now db_now new w) t
  ↝-IsTaken taken {w} (claims id now) t =
      transition-IsTaken taken id State.queued State.claimed now w refl t
  ↝-IsTaken taken {w} (starts id now) t =
      transition-IsTaken taken id State.claimed State.running now w refl t
  ↝-IsTaken taken {w} (completes id outcome now) t =
      complete_work_rule j P show_uuid (IsTaken taken) id outcome now w t (
        move-IsTaken taken id.uuid State.running State.completed (complete_row now outcome)
          (complete_row-IsMove now outcome) refl w.items t)
  ↝-IsTaken taken {w} (fails id error ms now) t =
      fail_work_rule j P show_uuid (IsTaken taken) id error ms now w t (
        move-IsTaken taken id.uuid State.running State.failed (fail_row now error ms)
          (fail_row-IsMove now error ms) refl w.items t)
  ↝-IsTaken taken (elsewhere same) t = rw same t

  ↝*-IsTaken :
      (taken : Uuid) {w w' : World P}
      → ◌↝*◌ j P show_uuid w w'
      → IsTaken taken w.items
      → IsTaken taken w'.items
  ↝*-IsTaken taken done t = t
  ↝*-IsTaken taken (onward calls call) t = ↝-IsTaken taken call (↝*-IsTaken taken calls t)

  -- An item that is read back is in the table.
  get_work_item-exists :
      (id : WorkId) (w : World P) (item : WorkItem Value)
      → (get_work_item j P show_uuid id w).0 ≡ ok item
      → exists (has_id id.uuid) (get_work_item j P show_uuid id w).1.items ≡ true
  unfolding get_work_item
  get_work_item-exists id w item =
      bind_rule (λ r. r.0 ≡ ok item → exists (has_id id.uuid) r.1.items ≡ true) _ _ _
        (λ fs. elim (Option-cases (select (has_id id.uuid) w.items)) [
          | inl e ↦ rw e (λ h. cc)
          | inr (r, e) ↦ rw e (λ h. select-exists (has_id id.uuid) w.items r e)
        ])
        (λ e fs h. cc)

  moved-exists :
      (id : WorkId) (from to : State) (n : ℕ) (w : World P) (item : WorkItem Value)
      → (moved j P show_uuid id from to n w).0 ≡ ok item
      → exists (has_id id.uuid) (moved j P show_uuid id from to n w).1.items ≡ true
  unfolding moved
  moved-exists id from to zero w item h = cc
  moved-exists id from to (suc n) w item h = get_work_item-exists id _ item h

  transition_state-exists :
      (id : WorkId) (from to : State) (now : Time) (w : World P) (item : WorkItem Value)
      → (transition_state j P show_uuid id from to now w).0 ≡ ok item
      → exists (has_id id.uuid) (transition_state j P show_uuid id from to now w).1.items ≡ true
  unfolding transition_state validate_transition update_rows
  transition_state-exists id from to now w item = elim (Bool-cases (can_transition_to from to)) [
    | inl e ↦ rw e (
        bind_rule (λ r. r.0 ≡ ok item → exists (has_id id.uuid) r.1.items ≡ true) _ _ _
          (λ fs h. moved-exists id from to _ _ item h) (λ e fs h. cc))
    | inr e ↦ rw e (λ h. cc)
  ]

  -- An item that has been claimed waits for no worker, whatever is called afterwards.
  pub claimed-IsTaken :
      (id : WorkId) (now : Time) (w v : World P) (item : WorkItem Value)
      → (transition_state j P show_uuid id State.queued State.claimed now w).0 ≡ ok item
      → ◌↝*◌ j P show_uuid (transition_state j P show_uuid id State.queued State.claimed now w).1 v
      → IsTaken id.uuid v.items
  claimed-IsTaken id now w v item claimed calls = ↝*-IsTaken id.uuid calls (record {
    there = transition_state-exists id State.queued State.claimed now w item claimed;
    not_queued =
        transition_state-clears j P show_uuid id State.queued State.claimed now w item claimed;
  })

  -- Once an item has been claimed, no claim of it succeeds again and none changes the table, whatever
  -- submissions, claims, starts, completions and failures of any number of processes come in between,
  -- with any of their statements failing.
  pub claimed_once :
      (id : WorkId) (now now' : Time) (w v : World P) (item : WorkItem Value)
      → (transition_state j P show_uuid id State.queued State.claimed now w).0 ≡ ok item
      → ◌↝*◌ j P show_uuid (transition_state j P show_uuid id State.queued State.claimed now w).1 v
      → (e : Error) × ((transition_state j P show_uuid id State.queued State.claimed now' v).0
          ≡ err e)
        × ((transition_state j P show_uuid id State.queued State.claimed now' v).1.items ≡ v.items)
  claimed_once id now now' w v item claimed calls =
      let taken = claimed-IsTaken id now w v item claimed calls in
      let (e, refused) =
        transition_state-refused j P show_uuid id State.queued State.claimed now' v
          taken.not_queued in
      (
        e,
        refused,
        transition_state_rule j P show_uuid (λ rows. rows ≡ v.items) id State.queued State.claimed
            now' v refl
            (λ _.
              update-none (is_in id.uuid (State.show State.queued))
                (transition_row State.claimed now') v.items taken.not_queued),
      )
