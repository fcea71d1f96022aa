-- ===== src/Engine/Control/Safety.antt =====
-- What a round of the control plane (src/engine/control.rs) does to the messages and to its counter.
use animus_rs.Prelude.{
  ℕ, suc, ◌-◌, refl, ◌∙◌, Option, none, some, Text, Result, ok, err, leb, Bool-cases, inl, inr,
  arith, true, ◌++◌, lit,
}
use animus_rs.Json.{JsonLib}
use animus_rs.Work.Item.{Uuid, WorkId, WorkItem}
use animus_rs.Db.Pgmq.{Pgmq, PgmqMessage}
use animus_rs.Db.Session.{Error, World}
use animus_rs.Db.Queue.Delivery.{Archived, read_from_queue-Read, archive_message-Archived}
use animus_rs.Db.Work.{work_queue, get_work_item, transition_state, complete_work, fail_work}
use animus_rs.Work.State.{State}
use animus_rs.Db.Work.Queues.{
  get_work_item-queues, transition_state-queues, complete_work-queues, fail_work-queues,
}
use animus_rs.Engine.Host.{Host}
use animus_rs.Engine.Faculty.{FacultyMeta, get}
use animus_rs.Engine.Focus
use animus_rs.Engine.Focus.{FocusResult, run}
use animus_rs.Engine.Control.{
  Draws, ControlPlane, Plane, continue, lift, on_db, clean, retire, on_host, perform, start,
  execute, identified, dispatch, process_work,
}
use animus_rs.Engine.Control.Near.{
  Near, Near-err, Near-ok, Near-on_db, Read-kept, Safe, entered, left, next, on_machine,
}

module _ (j : JsonLib) (P : Pgmq j.Value) (H : Host) (show_uuid : Uuid → Text)
    (parse_uuid : Text → Option Uuid) (encode : WorkItem j.Value → Result Text Text)
    (plane : ControlPlane) (draws : Draws) where
  open j use {Value}

  -- What follows the archiving of the message.
  Archived-Safe :
      (m : ℕ) (focus : Focus.Focus Value) (before p : Plane j P H)
      → Near 0 before p
      → (r : Result Error (Unit {0})) (w : World P) → Archived P work_queue m p.db (r, w)
      → Safe before
          (continue (λ _. clean j P H show_uuid parse_uuid encode focus) (r, record p { db = w }))
  unfolding Archived Safe
  Archived-Safe m focus before p near (ok u) w (gone, others) =
      (omega (arith, near.counted), (m, λ n ne. others n ne ∙ near.kept n))
  Archived-Safe m focus before p near (err e) w same =
      Near-err 0 (omega arith) before e (record p { db = w })
        (record { kept = λ n. rw same (near.kept n); counted = near.counted })

  retire-Safe :
      (msg : PgmqMessage Value) (id : WorkId) (result : FocusResult Value)
      (focus : Focus.Focus Value) (before p : Plane j P H)
      → Near 0 before p
      → Safe before (
          continue
            (λ _. clean j P H show_uuid parse_uuid encode focus)
            (retire j P H show_uuid parse_uuid encode draws msg id result p))
  unfolding retire
  retire-Safe msg id (Focus.completed v ms) focus before p near =
      next (λ r. Safe before (continue (λ _. clean j P H show_uuid parse_uuid encode focus) r)) 0
        before _ _
        (Near-on_db
          (complete_work j P show_uuid id
            (record { success = true; output = some v; error = none; duration_ms = ms })
            draws.retired_at)
          0 before p near
          (complete_work-queues j P show_uuid id
            (record { success = true; output = some v; error = none; duration_ms = ms })
            draws.retired_at p.db))
        (λ a p' near'.
          Archived-Safe msg.msg_id focus before p' near' _ _
            (archive_message-Archived P work_queue msg.msg_id p'.db))
        (λ e p' near'. Near-err 0 (omega arith) before e p' near')
  retire-Safe msg id (Focus.failed phase error ms) focus before p near =
      next (λ r. Safe before (continue (λ _. clean j P H show_uuid parse_uuid encode focus) r)) 0
        before (λ (_ : WorkItem Value). lift (ok tt))
        (on_db (fail_work j P show_uuid id (phase ++ lit ": " ++ error) ms draws.retired_at) p)
        (Near-on_db (fail_work j P show_uuid id (phase ++ lit ": " ++ error) ms draws.retired_at) 0
          before p near
          (fail_work-queues j P show_uuid id (phase ++ lit ": " ++ error) ms draws.retired_at p.db))
        (λ a p' near'.
          Near-ok before _
            (on_machine 0 before p' (Focus.cleanup j H show_uuid focus p'.machine).1 near'))
        (λ e p' near'. Near-err 0 (omega arith) before e p' near')

  perform-Safe :
      (msg : PgmqMessage Value) (id : WorkId) (item : WorkItem Value) (faculty : FacultyMeta)
      (before p : Plane j P H)
      → Near 0 before p
      → Safe before (perform j P H show_uuid parse_uuid encode plane draws msg id item faculty p)
  unfolding perform
  perform-Safe msg id item faculty before p near =
      next (Safe before) 1 before
        (λ focus p3.
          continue (λ _. clean j P H show_uuid parse_uuid encode focus)
            (retire j P H show_uuid parse_uuid encode draws msg id
              (run j H show_uuid focus faculty p3.machine).0
              (record p3 {
                active_foci = p3.active_foci - 1;
                machine = (run j H show_uuid focus faculty p3.machine).1;
              })))
        (on_host (Focus.create j H show_uuid encode plane.focus_base_dir draws.focus_id item)
          (record p { active_foci = suc p.active_foci }))
        (entered before p _ near)
        (λ focus p3 near3. retire-Safe msg id _ focus before _ (left before p3 _ near3))
        (λ e p3 near3. Near-err 1 (omega arith) before e p3 near3)

  start-Safe :
      (msg : PgmqMessage Value) (id : WorkId) (item : WorkItem Value) (faculty : FacultyMeta)
      (before p : Plane j P H)
      → Near 0 before p
      → Safe before (start j P H show_uuid parse_uuid encode plane draws msg id item faculty p)
  unfolding start
  start-Safe msg id item faculty before p near =
      let claim = transition_state j P show_uuid id State.claimed State.running draws.running_at in
      next (Safe before) 0 before
        (λ _. perform j P H show_uuid parse_uuid encode plane draws msg id item faculty)
        (on_db claim p)
        (Near-on_db claim 0 before p near (
          transition_state-queues j P show_uuid id State.claimed State.running draws.running_at
            p.db))
        (λ _ p1 near1. perform-Safe msg id item faculty before p1 near1)
        (λ e p1 near1. Near-err 0 (omega arith) before e p1 near1)

  execute-Safe :
      (msg : PgmqMessage Value) (id : WorkId) (item : WorkItem Value) (faculty : Option FacultyMeta)
      (before p : Plane j P H)
      → Near 0 before p
      → Safe before (execute j P H show_uuid parse_uuid encode plane draws msg id item faculty p)
  unfolding execute
  execute-Safe msg id item none before p near =
      Near-ok before _ (record { kept = near.kept; counted = near.counted })
  execute-Safe msg id item (some faculty) before p near =
      let claim = transition_state j P show_uuid id State.queued State.claimed draws.claimed_at in
      next (Safe before) 0 before
        (λ _. start j P H show_uuid parse_uuid encode plane draws msg id item faculty)
        (on_db claim p)
        (Near-on_db claim 0 before p near (
          transition_state-queues j P show_uuid id State.queued State.claimed draws.claimed_at
            p.db))
        (λ _ p1 near1. start-Safe msg id item faculty before p1 near1)
        (λ e p1 near1. Near-err 0 (omega arith) before e p1 near1)

  identified-Safe :
      (msg : PgmqMessage Value) (id : Option Uuid) (before p : Plane j P H)
      → Near 0 before p
      → Safe before (identified j P H show_uuid parse_uuid encode plane draws msg id p)
  unfolding identified
  identified-Safe msg none before p near = Near-err 0 (omega arith) before _ p near
  identified-Safe msg (some id) before p near =
      next (Safe before) 0 before
        (λ item.
          execute j P H show_uuid parse_uuid encode plane draws msg (record { uuid = id }) item
            (get plane.registry item.faculty))
        (on_db (get_work_item j P show_uuid (record { uuid = id })) p)
        (Near-on_db (get_work_item j P show_uuid (record { uuid = id })) 0 before p near
          (get_work_item-queues j P show_uuid (record { uuid = id }) p.db))
        (λ item p1 near1.
          execute-Safe msg (record { uuid = id }) item (get plane.registry item.faculty) before p1
            near1)
        (λ e p1 near1. Near-err 0 (omega arith) before e p1 near1)

  dispatch-Safe :
      (msg : Option (PgmqMessage Value)) (before p : Plane j P H)
      → Near 0 before p
      → Safe before (dispatch j P H show_uuid parse_uuid encode plane draws msg p)
  unfolding dispatch
  dispatch-Safe none before p near = Near-ok before p near
  dispatch-Safe (some msg) before p near = identified-Safe msg _ before p near

  -- If `process_work` returns an error, every message is still in the queue, so that it is read again,
  -- and at most one focus more is counted as active. If it returns without one, at most one message
  -- is gone, and the count of active foci is as it was.
  pub process_work-Safe :
      (before : Plane j P H)
      → Safe before (process_work j P H show_uuid parse_uuid encode plane draws before)
  unfolding process_work
  process_work-Safe before = elim (Bool-cases (leb plane.max_concurrent before.active_foci)) [
    | inl full ↦
        rw full (Near-ok before before (record { kept = λ n. refl; counted = omega arith }))
    | inr free ↦ rw free (
        next (Safe before) 0 before _ _
          (record {
            kept = λ n.
                Read-kept before.db _ _
                  (read_from_queue-Read P work_queue plane.visibility_timeout before.db) n;
            counted = omega arith;
          })
          (λ msg p near. dispatch-Safe msg before p near)
          (λ e p near. Near-err 0 (omega arith) before e p near))
  ]
