-- ===== src/Engine/Control/Reach.antt =====
-- src/engine/control.rs: the steps of a round in which nothing fails.
use animus_rs.Prelude.{
  Option, ℕ, suc, ◌-◌, ◌≡◌, refl, ap, ◌∙◌, false, some, none, [], Text, lit, Result, ok, leb, true,
}
use animus_rs.Json.{JsonLib}
use animus_rs.Work.State
use animus_rs.Work.State.{State, can_transition_to}
use animus_rs.Work.Item.{Uuid, WorkId, WorkItem, Outcome}
use animus_rs.Db.Table.{Row, select, has_id}
use animus_rs.Db.Pgmq.{Pgmq, PgmqMessage}
use animus_rs.Db.Session.{Error, World, M}
use animus_rs.Db.Queue.Answered.{read_from_queue-Answered, archive_message-Answered}
use animus_rs.Db.Queue.{read_from_queue, archive_message}
use animus_rs.Db.Rows.{transition_row, complete_row}
use animus_rs.Db.Work.{transition_state, complete_work, work_queue}
use animus_rs.Db.Work.Quiet.{Quiet, transition_state-Succeeds, complete_work-Succeeds}
use animus_rs.Engine.Host.{Host}
use animus_rs.Engine.Faculty.{FacultyMeta}
use animus_rs.Engine.Focus
use animus_rs.Engine.Focus.{Focus, FocusResult, run}
use animus_rs.Engine.Control.{
  Draws, ControlPlane, Plane, Round, continue, on_db, work_item_id, retire, perform, start, execute,
  clean, identified, dispatch, process_work,
}

module _ {j : JsonLib} {P : Pgmq j.Value} {H : Host} where
  -- A database operation with this result, in front of the rest of a round.
  pub on_db-step :
      {A B : Type 0} (m : M P A) (f : A → Round j P H B) (p : Plane j P H) (a : A) (w : World P)
      → m p.db ≡ (ok a, w)
      → continue f (on_db m p) ≡ f a (record p { db = w })
  on_db-step m f p a w e =
      ap (λ (x : Result Error _ × World P). continue f (x.0, record p { db = x.1 })) e

module _ (j : JsonLib) (P : Pgmq j.Value) (H : Host) (show_uuid : Uuid → Text)
    (parse_uuid : Text → Option Uuid) (encode : WorkItem j.Value → Result Text Text)
    (plane : ControlPlane) (draws : Draws) where
  open j use {Value}

  module _ (id : WorkId) (msg : PgmqMessage Value) (v : Value) (ms : ℕ) where
    abbrev pub outcome : Outcome Value
    outcome = record { success = true; output = some v; error = none; duration_ms = ms }

    -- What follows a focus that has completed.
    pub retire-step :
        (r : Row Value) (p : Plane j P H)
        → Quiet j P show_uuid id r p.db
        → r.state ≡ lit "running"
        → (q : Plane j P H) × (retire j P H show_uuid parse_uuid encode draws msg id
              (Focus.completed v ms)
              p
            ≡ (ok tt, q))
          × (select (has_id id.uuid) q.db.items ≡ some (complete_row draws.retired_at outcome r))
          × (P.payload q.db.queues work_queue msg.msg_id ≡ none)
          × (q.active_foci ≡ p.active_foci)
    unfolding retire
    retire-step r p quiet shown =
        let done =
          complete_work-Succeeds j P show_uuid id outcome draws.retired_at r p.db quiet shown in
        let gone = archive_message-Answered P work_queue msg.msg_id done.after done.row.faults in
        (
          record p { db = gone.after },
          on_db-step (complete_work j P show_uuid id outcome draws.retired_at)
                (λ _. on_db (archive_message P work_queue msg.msg_id)) p _ done.after done.answer
              ∙ ap (λ (x : Result Error (Unit {0}) × World P). (x.0, record p { db = x.1 }))
                  gone.answer,
          ap (select (has_id id.uuid)) gone.table ∙ done.row.row,
          ap (λ q. P.payload q work_queue msg.msg_id) gone.messages
              ∙ P.payload-archive work_queue msg.msg_id done.after.queues,
          refl,
        )

    module _ (item : WorkItem Value) (faculty : FacultyMeta) (focus : Focus Value) (p : Plane j P H)
        (m1 m2 : H.Machine) where
      -- A focus that is created and completes, in front of its retirement.
      pub perform-step :
          Focus.create j H show_uuid encode plane.focus_base_dir draws.focus_id item p.machine
            ≡ (ok focus, m1)
          → run j H show_uuid focus faculty m1 ≡ (Focus.completed v ms, m2)
          → perform j P H show_uuid parse_uuid encode plane draws msg id item faculty p
            ≡ continue
                (λ _. clean j P H show_uuid parse_uuid encode focus)
                (retire j P H show_uuid parse_uuid encode draws msg id
                  (Focus.completed v ms)
                  (record p { machine = m2; active_foci = suc p.active_foci - 1 }))
      unfolding perform
      perform-step made ran = rw made (rw ran refl)

    -- The row of an item that is claimed and runs.
    abbrev pub claimed : Row Value → Row Value
    claimed r = transition_row State.claimed draws.claimed_at r

    abbrev pub running : Row Value → Row Value
    running r = transition_row State.running draws.running_at (claimed r)

    -- A queued item whose faculty is known comes to its focus.
    pub execute-step :
        (item : WorkItem Value) (faculty : FacultyMeta) (r : Row Value) (p : Plane j P H)
        → Quiet j P show_uuid id r p.db
        → r.state ≡ State.show State.queued
        → (w : World P) × (execute j P H show_uuid parse_uuid encode plane draws msg id item
              (some faculty)
              p
            ≡ perform j P H show_uuid parse_uuid encode plane draws msg id item faculty
                (record p { db = w }))
          × Quiet j P show_uuid id (running r) w
    unfolding execute start
    execute-step item faculty r p quiet shown =
        let first =
          transition_state-Succeeds j P show_uuid id State.queued State.claimed draws.claimed_at r
            p.db quiet (unfold can_transition_to in refl) shown in
        let second =
          transition_state-Succeeds j P show_uuid id State.claimed State.running draws.running_at
            (claimed r) first.after first.row (unfold can_transition_to in refl)
            (unfold transition_row in refl) in
        (
          second.after,
          on_db-step (transition_state j P show_uuid id State.queued State.claimed draws.claimed_at)
                (λ _. start j P H show_uuid parse_uuid encode plane draws msg id item faculty) p _
                first.after first.answer
              ∙ on_db-step
                  (transition_state j P show_uuid id State.claimed State.running draws.running_at)
                  (λ _. perform j P H show_uuid parse_uuid encode plane draws msg id item faculty)
                  (record p { db = first.after }) _ second.after second.answer,
          second.row,
        )

  pub process_work-dispatch :
      (p : Plane j P H) (msg : PgmqMessage Value) (id : Uuid)
      → leb plane.max_concurrent p.active_foci ≡ false
      → p.db.faults ≡ []
      → (P.read work_queue plane.visibility_timeout p.db.queues).0 ≡ some msg
      → work_item_id j P H show_uuid parse_uuid encode msg.message ≡ some id
      → (w : World P) × (process_work j P H show_uuid parse_uuid encode plane draws p
          ≡ identified j P H show_uuid parse_uuid encode plane draws msg
              (some id)
              (record p { db = w }))
        × (w.items ≡ p.db.items)
        × (w.faults ≡ [])
  unfolding process_work dispatch
  process_work-dispatch p msg id free quiet arrived named =
      let read = read_from_queue-Answered P work_queue plane.visibility_timeout p.db quiet in
      (
        read.after,
        rw free (
            on_db-step (read_from_queue P work_queue plane.visibility_timeout)
              (dispatch j P H show_uuid parse_uuid encode plane draws) p _ read.after read.answer
            ∙ rw arrived (rw named refl)),
        read.table,
        read.faults,
      )
