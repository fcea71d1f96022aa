-- ===== src/Engine/Control.antt =====
-- src/engine/control.rs: `process_work`, one round of the control plane.
pub mod Calls
pub mod Does
pub mod Claim
pub mod Completes
pub mod Loop
pub mod Near
pub mod Once
pub mod Reach
pub mod Safety
use animus_rs.Telemetry.Instruments.{work_unroutable}
use animus_rs.Prelude.{
  ℕ, suc, ◌-◌, ℤ, Bool, true, false, Option, none, some, List, [], ◌∷◌, ◌++◌, Text, lit, Result, ok,
  err, ok_or, leb, if◌then◌else◌,
}
use animus_rs.Json.{JsonLib}
use animus_rs.Work.State.{State}
use animus_rs.Work.Item.{Uuid, Time, WorkId, WorkItem, Outcome}
use animus_rs.Db.Pgmq.{Pgmq, PgmqMessage}
use animus_rs.Db.Session.{Error, World, M}
use animus_rs.Db.Session
use animus_rs.Db.Queue.{read_from_queue, archive_message}
use animus_rs.Db.Work.{work_queue, get_work_item, transition_state, complete_work, fail_work}
use animus_rs.Engine.Host.{Host}
use animus_rs.Engine.Faculty.{FacultyMeta, FacultyRegistry, get}
use animus_rs.Engine.Focus
use animus_rs.Engine.Focus.{FocusResult, Focus, run, cleanup}

-- What one round draws from outside: the id of the focus and the times of its database calls.
pub record Draws : Type 0 where
  pub focus_id : Uuid
  pub claimed_at : Time
  pub running_at : Time
  pub retired_at : Time

-- src/engine/control.rs: `ControlPlane` with the parts of `ControlConfig` that a round reads.
pub record ControlPlane : Type 0 where
  pub registry : FacultyRegistry
  pub focus_base_dir : Text
  pub visibility_timeout : ℤ
  pub max_concurrent : ℕ

module _ (j : JsonLib) (P : Pgmq j.Value) (H : Host) where
  -- The database, the host and the counter `active_foci`.
  pub record Plane : Type 0 where
    pub db : World P
    pub machine : H.Machine
    pub active_foci : ℕ

  abbrev pub Round : Type 0 → Type 0
  Round A = Plane → Result Error A × Plane

module _ {j : JsonLib} {P : Pgmq j.Value} {H : Host} where
  abbrev pub continue :
      {A B : Type 0}
      → (A → Round j P H B)
      → Result Error A × Plane j P H
      → Result Error B × Plane j P H
  continue f (ok a, p) = f a p
  continue f (err e, p) = (err e, p)

  infixl 5 ◌>>=◌ ◌>>◌
  abbrev pub ◌>>=◌ : {A B : Type 0} → Round j P H A → (A → Round j P H B) → Round j P H B
  ◌>>=◌ m f p = continue f (m p)

  abbrev pub ◌>>◌ : {A B : Type 0} → Round j P H A → Round j P H B → Round j P H B
  ◌>>◌ m k p = continue (λ _. k) (m p)

  abbrev pub on_db : {A : Type 0} → M P A → Round j P H A
  on_db m p = let (r, w) = m p.db in (r, record p { db = w })

  abbrev pub on_host : {A : Type 0} → (H.Machine → Result Error A × H.Machine) → Round j P H A
  on_host m p = let (r, machine) = m p.machine in (r, record p { machine = machine })

  abbrev pub lift : {A : Type 0} → Result Error A → Round j P H A
  lift r p = (r, p)

  -- `active_foci.fetch_add(1)` and `active_foci.fetch_sub(1)`
  abbrev pub enter : Round j P H (Unit {0})
  enter p = (ok tt, record p { active_foci = suc p.active_foci })

  abbrev pub leave : Round j P H (Unit {0})
  leave p = (ok tt, record p { active_foci = p.active_foci - 1 })

module _ (j : JsonLib) (P : Pgmq j.Value) (H : Host) (show_uuid : Uuid → Text)
    (parse_uuid : Text → Option Uuid) (encode : WorkItem j.Value → Result Text Text) where
  open j use {Value}

  -- The id in the payload of a message.
  unfoldable pub work_item_id : Value → Option Uuid
  work_item_id message = elim (j.get message (lit "work_item_id")) [
    | none ↦ none
    | some v ↦ elim (j.as_str v) [ none ↦ none | some s ↦ parse_uuid s ]
  ]

  pub retire : Draws → PgmqMessage Value → WorkId → FocusResult Value → Round j P H (Unit {0})
  retire draws msg id (Focus.completed v ms) = do
    on_db (
        complete_work j P show_uuid id
          (record { success = true; output = some v; error = none; duration_ms = ms })
          draws.retired_at)
    on_db (archive_message P work_queue msg.msg_id)
  retire draws msg id (Focus.failed phase error ms) = do
    on_db (fail_work j P show_uuid id (phase ++ lit ": " ++ error) ms draws.retired_at)
    lift (ok tt)

  -- The result of the pipeline; an error of the clean-up is only logged.
  abbrev pub run_focus : Focus Value → FacultyMeta → Round j P H (FocusResult Value)
  run_focus focus faculty p =
      let (r, machine) = run j H show_uuid focus faculty p.machine in
      (ok r, record p { machine = machine })

  abbrev pub clean : Focus Value → Round j P H (Unit {0})
  clean focus p =
      let (r, machine) = cleanup j H show_uuid focus p.machine in
      (ok tt, record p { machine = machine })

  -- A running item: the focus, and what becomes of the item.
  pub perform :
      ControlPlane
      → Draws
      → PgmqMessage Value
      → WorkId
      → WorkItem Value
      → FacultyMeta
      → Round j P H (Unit {0})
  perform plane draws msg id item faculty = do
    enter
    focus ← on_host (Focus.create j H show_uuid encode plane.focus_base_dir draws.focus_id item)
    result ← run_focus focus faculty
    leave
    retire draws msg id result
    clean focus

  pub start :
      ControlPlane
      → Draws
      → PgmqMessage Value
      → WorkId
      → WorkItem Value
      → FacultyMeta
      → Round j P H (Unit {0})
  start plane draws msg id item faculty = do
    on_db (transition_state j P show_uuid id State.claimed State.running draws.running_at)
    perform plane draws msg id item faculty

  -- From the faculty that the registry has for the item.
  pub execute :
      ControlPlane
      → Draws
      → PgmqMessage Value
      → WorkId
      → WorkItem Value
      → Option FacultyMeta
      → Round j P H (Unit {0})
  execute plane draws msg id item none =
      on_db (Session.record_metric work_unroutable (item.faculty ∷ []))
  execute plane draws msg id item (some faculty) = do
    on_db (transition_state j P show_uuid id State.queued State.claimed draws.claimed_at)
    start plane draws msg id item faculty

  -- From the id in the payload of the message.
  pub identified : ControlPlane → Draws → PgmqMessage Value → Option Uuid → Round j P H (Unit {0})
  identified plane draws msg none =
      lift (err (Error.other (lit "bad pgmq payload: missing work_item_id")))
  identified plane draws msg (some id) = do
    item ← on_db (get_work_item j P show_uuid (record { uuid = id }))
    execute plane draws msg (record { uuid = id }) item (get plane.registry item.faculty)

  pub dispatch : ControlPlane → Draws → Option (PgmqMessage Value) → Round j P H (Unit {0})
  dispatch plane draws none = lift (ok tt)
  dispatch plane draws (some msg) = identified plane draws msg (work_item_id msg.message)

  pub process_work : ControlPlane → Draws → Round j P H (Unit {0})
  process_work plane draws p =
      if leb plane.max_concurrent p.active_foci
      then (ok tt, p)
      else continue (dispatch plane draws)
          (on_db (read_from_queue P work_queue plane.visibility_timeout) p)
