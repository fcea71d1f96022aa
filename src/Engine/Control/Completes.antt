-- ===== src/Engine/Control/Completes.antt =====
-- src/engine/control.rs: a round in which nothing fails, from the message to the completed item.
use animus_rs.Prelude.{
  Option, ℕ, suc, ◌-◌, ◌≡◌, refl, ap, ◌∙◌, false, some, none, [], Text, Result, ok, leb, arith,
  true,
}
use animus_rs.Json.{JsonLib}
use animus_rs.Work.State
use animus_rs.Work.State.{State, can_transition_to}
use animus_rs.Work.Item.{Uuid, WorkId, WorkItem}
use animus_rs.Db.Table.{Row, select, has_id}
use animus_rs.Db.Pgmq.{Pgmq, PgmqMessage}
use animus_rs.Db.Session.{Error}
use animus_rs.Db.Rows.{item_of, transition_row, complete_row}
use animus_rs.Db.Work.{get_work_item, work_queue}
use animus_rs.Db.Work.Quiet.{item_of-faculty, Quiet, get_work_item-Succeeds}
use animus_rs.Engine.Host.{Host}
use animus_rs.Engine.Faculty.{FacultyMeta, get}
use animus_rs.Engine.Focus
use animus_rs.Engine.Focus.{Focus, FocusResult, run}
use animus_rs.Engine.Control.{
  Draws, ControlPlane, Plane, continue, work_item_id, execute, clean, identified, process_work,
}
use animus_rs.Engine.Control.Reach.{
  on_db-step, retire-step, perform-step, execute-step, running, process_work-dispatch,
}

module _ (j : JsonLib) (P : Pgmq j.Value) (H : Host) (show_uuid : Uuid → Text)
    (parse_uuid : Text → Option Uuid) (encode : WorkItem j.Value → Result Text Text)
    (plane : ControlPlane) (draws : Draws) where
  open j use {Value}

  -- The item is completed with the outcome of the focus, its message is gone, and the slot is free.
  pub record Completed (id : WorkId) (msg : PgmqMessage Value) (r : Row Value) (v : Value) (ms : ℕ)
      (p : Plane j P H) (result : Result Error (Unit {0}) × Plane j P H) : Type 0 where
    pub after : Plane j P H
    pub answer : result ≡ (ok tt, after)
    pub row :
        select (has_id id.uuid) after.db.items
        ≡ some (
            complete_row draws.retired_at
              (record { success = true; output = some v; error = none; duration_ms = ms })
              (transition_row State.running draws.running_at
                (transition_row State.claimed draws.claimed_at r)))
    pub archived : P.payload after.db.queues work_queue msg.msg_id ≡ none
    pub slot : after.active_foci ≡ p.active_foci

  -- The path of a round through its parts, for the item of the message.
  identified-Completed :
      (p : Plane j P H) (msg : PgmqMessage Value) (uuid : Uuid) (r : Row Value)
      (faculty : FacultyMeta) (focus : Focus Value) (v : Value) (ms : ℕ) (m1 m2 : H.Machine)
      → Quiet j P show_uuid (record { uuid = uuid }) r p.db
      → r.state ≡ State.show State.queued
      → get plane.registry r.faculty ≡ some faculty
      → Focus.create j H show_uuid encode plane.focus_base_dir draws.focus_id
          (item_of r State.queued)
          p.machine
        ≡ (ok focus, m1)
      → run j H show_uuid focus faculty m1 ≡ (Focus.completed v ms, m2)
      → Completed
          (record { uuid = uuid })
          msg
          r
          v
          ms
          p
          (identified j P H show_uuid parse_uuid encode plane draws msg (some uuid) p)
  unfolding identified
  identified-Completed p msg uuid r faculty focus v ms m1 m2 quiet shown known made ran =
      let id : WorkId = record { uuid = uuid } in
      let item = item_of r State.queued in
      let (w, reach, row) =
        execute-step j P H show_uuid parse_uuid encode plane draws id msg v ms item faculty r p
          quiet shown in
      let (q, done, completed, archived, slot) =
        retire-step j P H show_uuid parse_uuid encode plane draws id msg v ms
          (running j P H show_uuid parse_uuid encode plane draws id msg v ms r)
          (record p { db = w; machine = m2; active_foci = suc p.active_foci - 1 }) row
          (unfold transition_row State.show in refl) in
      record {
        after = (clean j P H show_uuid parse_uuid encode focus q).1;
        answer =
            on_db-step (get_work_item j P show_uuid id)
              (λ found.
                execute j P H show_uuid parse_uuid encode plane draws msg id found
                  (get plane.registry found.faculty))
              p item p.db (get_work_item-Succeeds j P show_uuid id r State.queued p.db quiet shown)
            ∙ ap (λ o. execute j P H show_uuid parse_uuid encode plane draws msg id item o p)
                (ap (get plane.registry) (item_of-faculty j P show_uuid r State.queued) ∙ known)
            ∙ reach
            ∙ perform-step j P H show_uuid parse_uuid encode plane draws id msg v ms item faculty
                focus (record p { db = w }) m1 m2 made ran
            ∙ ap (continue (λ _. clean j P H show_uuid parse_uuid encode focus)) done;
        row = completed;
        archived = archived;
        slot = slot ∙ omega arith;
      }

  -- If a slot is free, no statement fails, the next message names a queued item with a registered
  -- faculty, and its focus is created and completes, then the round succeeds: the item is completed with the
  -- outcome of the focus, its message is gone from the queue, and the slot is free again.
  pub process_work-Completed :
      (p : Plane j P H) (msg : PgmqMessage Value) (uuid : Uuid) (r : Row Value)
      (faculty : FacultyMeta) (focus : Focus Value) (v : Value) (ms : ℕ) (m1 m2 : H.Machine)
      → leb plane.max_concurrent p.active_foci ≡ false
      → p.db.faults ≡ []
      → (P.read work_queue plane.visibility_timeout p.db.queues).0 ≡ some msg
      → work_item_id j P H show_uuid parse_uuid encode msg.message ≡ some uuid
      → select (has_id uuid) p.db.items ≡ some r
      → r.state ≡ State.show State.queued
      → get plane.registry r.faculty ≡ some faculty
      → Focus.create j H show_uuid encode plane.focus_base_dir draws.focus_id
          (item_of r State.queued)
          p.machine
        ≡ (ok focus, m1)
      → run j H show_uuid focus faculty m1 ≡ (Focus.completed v ms, m2)
      → Completed
          (record { uuid = uuid })
          msg
          r
          v
          ms
          p
          (process_work j P H show_uuid parse_uuid encode plane draws p)
  process_work-Completed p msg uuid r faculty focus v ms m1 m2 free quiet arrived named stored shown
        known made ran =
      let (w, reach, same, faults) =
        process_work-dispatch j P H show_uuid parse_uuid encode plane draws p msg uuid free quiet
          arrived named in
      let c =
        identified-Completed (record p { db = w }) msg uuid r faculty focus v ms m1 m2
          (record { faults = faults; row = ap (select (has_id uuid)) same ∙ stored }) shown known
          made ran in
      record {
        after = c.after;
        answer = reach ∙ c.answer;
        row = c.row;
        archived = c.archived;
        slot = c.slot;
      }
