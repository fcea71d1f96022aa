-- ===== src/Engine/Control/Once.antt =====
-- That the control planes (src/engine/control.rs) of any number of processes execute an item once.
use animus_rs.Prelude.{◌≡◌, Option, some, Text, Result, ok, err}
use animus_rs.Json.{JsonLib}
use animus_rs.Work.State.{State}
use animus_rs.Work.Item.{Uuid, Time, WorkId, WorkItem}
use animus_rs.Db.Pgmq.{Pgmq, PgmqMessage}
use animus_rs.Db.Session.{Error, World}
use animus_rs.Db.Work.{transition_state}
use animus_rs.Db.Work.Calls.{◌↝*◌}
use animus_rs.Db.Work.Once.{claimed-IsTaken}
use animus_rs.Engine.Host.{Host}
use animus_rs.Engine.Faculty.{FacultyMeta}
use animus_rs.Engine.Control.{Draws, ControlPlane, Plane, execute}
use animus_rs.Engine.Control.Claim.{execute-refused}

module _ (j : JsonLib) (P : Pgmq j.Value) (H : Host) (show_uuid : Uuid → Text)
    (parse_uuid : Text → Option Uuid) (encode : WorkItem j.Value → Result Text Text) where
  -- Once an item has been claimed, a round of any process that comes to it again returns an error and
  -- leaves its host as it was: no focus is created and no hook runs. Any calls of any number of
  -- processes may come in between, also those that fail the item, which is hence not tried again.
  pub executed_once :
      (id : WorkId) (now : Time) (w : World P) (claimed : WorkItem j.Value) (plane : ControlPlane)
      (draws : Draws) (msg : PgmqMessage j.Value) (item : WorkItem j.Value) (faculty : FacultyMeta)
      (p : Plane j P H)
      → (transition_state j P show_uuid id State.queued State.claimed now w).0 ≡ ok claimed
      → ◌↝*◌ j P show_uuid
          (transition_state j P show_uuid id State.queued State.claimed now w).1
          p.db
      → (e : Error) × ((execute j P H show_uuid parse_uuid encode plane draws msg id item
            (some faculty)
            p).0
          ≡ err e)
        × ((execute j P H show_uuid parse_uuid encode plane draws msg id item
              (some faculty)
              p).1.machine
            ≡ p.machine)
  executed_once id now w claimed plane draws msg item faculty p was_claimed calls =
      execute-refused j P H show_uuid parse_uuid encode plane draws msg id item faculty p
        (claimed-IsTaken j P show_uuid id now w p.db claimed was_claimed calls).not_queued
