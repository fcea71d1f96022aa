-- ===== src/Db/Work/Quiet.antt =====
-- The operations of src/db/work.rs on an item that is in the table, where no statement fails.
use animus_rs.Prelude.{◌≡◌, refl, true, some, [], Text, lit, Result, ok, text_eq_iff, ap}
use animus_rs.Json.{JsonLib}
use animus_rs.Work.State
use animus_rs.Work.State.{State, can_transition_to}
use animus_rs.Work.State.Graph.{parse_iff}
use animus_rs.Work.Item.{Uuid, Time, WorkId, Outcome}
use animus_rs.Db.Table.{Row, select, has_id}
use animus_rs.Db.Pgmq.{Pgmq}
use animus_rs.Db.Session.{Error, World}
use animus_rs.Db.Session.Rules.{quiet_rule}
use animus_rs.Db.Table.Counts.{select-update_hit, affected-hit, selected-test}
use animus_rs.Db.Rows.{
  validate_transition, item_of, try_into_work_item, transition_row, complete_row, is_in,
}
use animus_rs.Db.Work.{update_rows, get_work_item, moved, retired, transition_state, complete_work}

module _ (j : JsonLib) (P : Pgmq j.Value) (show_uuid : Uuid → Text) where
  open j use {Value}

  -- The table has this row of the item, and no statement to come fails.
  pub record Quiet (id : WorkId) (r : Row Value) (w : World P) : Type 0 where
    pub faults : w.faults ≡ []
    pub row : select (has_id id.uuid) w.items ≡ some r

  -- The operation succeeds with `a`, leaves this row of the item, and no message is touched.
  pub record Succeeds {A : Type 0} (id : WorkId) (a : A) (r : Row Value) (w : World P)
      (result : Result Error A × World P) : Type 0 where
    pub after : World P
    pub answer : result ≡ (ok a, after)
    pub row : Quiet id r after
    pub messages : after.queues ≡ w.queues

  parsed :
      (r : Row Value) (s : State) → r.state ≡ State.show s → try_into_work_item r ≡ ok (item_of r s)
  unfolding try_into_work_item
  parsed r s shown = rw (try_into_work_item, (parse_iff r.state s).1 shown) refl

  pub item_of-faculty : (r : Row Value) (s : State) → (item_of r s).faculty ≡ r.faculty
  unfolding item_of
  item_of-faculty r s = refl

  pub get_work_item-Succeeds :
      (id : WorkId) (r : Row Value) (s : State) (w : World P)
      → Quiet id r w
      → r.state ≡ State.show s
      → get_work_item j P show_uuid id w ≡ (ok (item_of r s), w)
  unfolding get_work_item
  get_work_item-Succeeds id r s w q shown =
      quiet_rule (λ x. x ≡ (ok (item_of r s), w)) _ _ w q.faults
        (rw (q.row) (ap (λ x. (x, w)) (parsed r s shown)))

  -- A row that is in the state named passes the test of the update.
  is_in-row :
      (id : WorkId) (r : Row Value) (w : World P) (state : Text)
      → Quiet id r w
      → r.state ≡ state
      → is_in id.uuid state r ≡ true
  unfolding is_in
  is_in-row id r w state q shown =
      rw (selected-test (has_id id.uuid) w.items r q.row) ((text_eq_iff r.state state).1 shown)

  pub transition_state-Succeeds :
      (id : WorkId) (from to : State) (now : Time) (r : Row Value) (w : World P)
      → Quiet id r w
      → can_transition_to from to ≡ true
      → r.state ≡ State.show from
      → Succeeds id
          (item_of (transition_row to now r) to)
          (transition_row to now r)
          w
          (transition_state j P show_uuid id from to now w)
  unfolding transition_state validate_transition update_rows moved transition_row
  transition_state-Succeeds id from to now r w q can shown =
      let hits = is_in-row id r w (State.show from) q shown in
      let (n, hit) =
        affected-hit (has_id id.uuid) (is_in id.uuid (State.show from)) w.items r q.row hits in
      let kept =
        select-update_hit (has_id id.uuid) (is_in id.uuid (State.show from)) (transition_row to now)
          w.items r (λ s. refl) hits q.row in
      rw can (
        quiet_rule (Succeeds id _ _ w) _ _ w q.faults (
          rw hit (record {
            after = _;
            answer =
                get_work_item-Succeeds id (transition_row to now r) to _
                  (record { faults = q.faults; row = kept }) refl;
            row = record { faults = q.faults; row = kept };
            messages = refl;
          })))

  pub complete_work-Succeeds :
      (id : WorkId) (outcome : Outcome Value) (now : Time) (r : Row Value) (w : World P)
      → Quiet id r w
      → r.state ≡ lit "running"
      → Succeeds id
          (item_of (complete_row now outcome r) State.completed)
          (complete_row now outcome r)
          w
          (complete_work j P show_uuid id outcome now w)
  unfolding complete_work validate_transition can_transition_to update_rows retired complete_row
      State.show
  complete_work-Succeeds id outcome now r w q shown =
      let hits = is_in-row id r w (lit "running") q shown in
      let (n, hit) =
        affected-hit (has_id id.uuid) (is_in id.uuid (lit "running")) w.items r q.row hits in
      let kept =
        select-update_hit (has_id id.uuid) (is_in id.uuid (lit "running"))
          (complete_row now outcome) w.items r (λ s. refl) hits q.row in
      quiet_rule (Succeeds id _ _ w) _ _ w q.faults (
        rw hit (record {
          after = _;
          answer =
              get_work_item-Succeeds id (complete_row now outcome r) State.completed _
                (record { faults = q.faults; row = kept }) refl;
          row = record { faults = q.faults; row = kept };
          messages = refl;
        }))
