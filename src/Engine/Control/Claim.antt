-- ===== src/Engine/Control/Claim.antt =====
-- The claim of a round of the control plane (src/engine/control.rs): what happens to an item that is
-- not queued any more.
use animus_rs.Prelude.{◌≡◌, ap, Option, some, Text, Result, ok, err}
use animus_rs.Json.{JsonLib}
use animus_rs.Work.State
use animus_rs.Work.State.{State}
use animus_rs.Work.Item.{Uuid, WorkId, WorkItem}
use animus_rs.Db.Table.{affected}
use animus_rs.Db.Pgmq.{Pgmq, PgmqMessage}
use animus_rs.Db.Session.{Error}
use animus_rs.Db.Rows.{is_in}
use animus_rs.Db.Work.{transition_state}
use animus_rs.Db.Work.Transition.{transition_state-refused}
use animus_rs.Engine.Host.{Host}
use animus_rs.Engine.Faculty.{FacultyMeta}
use animus_rs.Engine.Control.{Draws, ControlPlane, Plane, Round, continue, on_db, start, execute}

module _ {j : JsonLib} {P : Pgmq j.Value} {H : Host} where
  continue-err :
      {A B : Type 0} (f : A → Round j P H B) (r : Result Error A × Plane j P H) (e : Error)
      → r.0 ≡ err e
      → continue f r ≡ (err e, r.1)
  continue-err f (ok a, p) e h = cc
  continue-err f (err e', p) e h = cc

module _ (j : JsonLib) (P : Pgmq j.Value) (H : Host) (show_uuid : Uuid → Text)
    (parse_uuid : Text → Option Uuid) (encode : WorkItem j.Value → Result Text Text)
    (plane : ControlPlane) (draws : Draws) where
  -- If the table has no row of the item in the state `queued`, the part of a round from the faculty on
  -- returns an error and leaves the host as it was: no focus is created and no hook runs.
  pub execute-refused :
      (msg : PgmqMessage j.Value) (id : WorkId) (item : WorkItem j.Value) (faculty : FacultyMeta)
      (p : Plane j P H)
      → affected (is_in id.uuid (State.show State.queued)) p.db.items ≡ 0
      → (e : Error) × ((execute j P H show_uuid parse_uuid encode plane draws msg id item
            (some faculty)
            p).0
          ≡ err e)
        × ((execute j P H show_uuid parse_uuid encode plane draws msg id item
              (some faculty)
              p).1.machine
            ≡ p.machine)
  unfolding execute
  execute-refused msg id item faculty p none_queued =
      let (e, h) =
        transition_state-refused j P show_uuid id State.queued State.claimed draws.claimed_at p.db
          none_queued in
      let stop =
        continue-err (λ _. start j P H show_uuid parse_uuid encode plane draws msg id item faculty)
          (on_db (transition_state j P show_uuid id State.queued State.claimed draws.claimed_at) p)
          e h in
      (e, ap (λ r. r.0) stop, ap (λ r. r.1.machine) stop)
