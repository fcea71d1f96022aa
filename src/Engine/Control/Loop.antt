-- ===== src/Engine/Control/Loop.antt =====
-- src/engine/control.rs: `run`, the loop around `process_work`, on the events that wake it.
pub mod Keeps
pub mod Runs
use animus_rs.Prelude.{
  ℕ, ◌≤◌, ◌<◌, ◌≡◌, refl, ap, ◌+◌, ◌∙◌, ◌⊎◌, inl, inr, Bool, true, false, Bool-cases, Option, none,
  some, List, [], ◌∷◌, Text, lit, Result, ok, err, leb, arith, if◌then◌else◌,
}
use animus_rs.Json.{JsonLib}
use animus_rs.Work.Item.{Uuid, WorkItem}
use animus_rs.Db.Pgmq.{Pgmq}
use animus_rs.Db.Session.{Error, World, statement}
use animus_rs.Engine.Host.{Host}
use animus_rs.Engine.Focus
use animus_rs.Engine.Control.{
  Draws, ControlPlane, Plane, Round, continue, ◌>>=◌, ◌>>◌, on_db, on_host, process_work,
}
use animus_rs.Engine.Control.Near.{Safe}
use animus_rs.Engine.Control.Safety.{process_work-Safe}

-- The branches of the `select`: `shutdown`, a notification or an error of the listener, and the
-- timer.
pub data Cause : Type 0 where
  shut_down timeout : Cause
  notified : Result Text Text → Cause

module _ {V : Type 0} (P : Pgmq V) where
  -- What wakes the loop, what the round then draws, and what others have done to the database
  -- since the last round.
  pub record Wake : Type 0 where
    pub cause : Cause
    pub draws : Draws
    pub others : World P → World P

abbrev pub is_shutdown : Cause → Bool
is_shutdown shut_down = true
is_shutdown timeout = false
is_shutdown (notified n) = false

module _ (j : JsonLib) (P : Pgmq j.Value) (H : Host) (show_uuid : Uuid → Text)
    (parse_uuid : Text → Option Uuid) (encode : WorkItem j.Value → Result Text Text) where
  -- A round after a wake; its error is only logged.
  pub woken : ControlPlane → Wake P → Plane j P H → Plane j P H
  woken plane wake p =
      (process_work j P H show_uuid parse_uuid encode plane wake.draws
        (record p { db = wake.others p.db })).1

  -- The loop. `none` is a loop that waits for its next event.
  pub run_loop :
      ControlPlane → List (Wake P) → Plane j P H → Option (Result Error (Unit {0})) × Plane j P H
  run_loop plane [] p = (none, p)
  run_loop plane (wake ∷ wakes) p =
      let rest = run_loop plane wakes (woken plane wake p) in
      if is_shutdown wake.cause then (some (ok tt), p) else rest

  -- The directory of the foci.
  pub make_base_dir : ControlPlane → Round j P H (Unit {0})
  make_base_dir plane =
      on_host (λ m.
        Focus.io j H show_uuid (λ _ m'. (ok tt, m')) (H.create_dir_all plane.focus_base_dir m))

  -- The connection of the listener, and its `LISTEN`.
  pub contact_server : Round j P H (Unit {0})
  contact_server = on_db (statement (λ w. (ok tt, w)))

  pub begin : ControlPlane → Round j P H (Unit {0})
  begin plane = do make_base_dir plane; contact_server; contact_server

  pub started :
      ControlPlane
      → List (Wake P)
      → Result Error (Unit {0}) × Plane j P H
      → Option (Result Error (Unit {0})) × Plane j P H
  started plane wakes (ok _, p) = run_loop plane wakes p
  started plane wakes (err e, p) = (some (err e), p)

  pub run :
      ControlPlane → List (Wake P) → Plane j P H → Option (Result Error (Unit {0})) × Plane j P H
  run plane wakes p = started plane wakes (begin plane p)
