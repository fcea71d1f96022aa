-- ===== src/Engine/Control/Does.antt =====
-- The calls that a round of the control plane (src/engine/control.rs) makes for one item.
use animus_rs.Prelude.{ℕ, ◌≡◌, true, Option, none, some, Text}
use animus_rs.Json.{JsonLib}
use animus_rs.Work.State.{State}
use animus_rs.Work.Item.{Uuid, WorkId}
use animus_rs.Db.Pgmq.{Pgmq}
use animus_rs.Db.Session.{World}
use animus_rs.Db.Work.{transition_state, complete_work, fail_work}
use animus_rs.Db.Work.Calls.{◌↝*◌, claims, starts, completes, fails, elsewhere, done, onward}
use animus_rs.Engine.Control.{Draws}

module _ (j : JsonLib) (P : Pgmq j.Value) (show_uuid : Uuid → Text) where
  open j use {Value}

  -- The calls of a round on one item, each after the one before it, and the state that the last one
  -- asked for. Between them the table stays as it is.
  pub data Does (id : WorkId) (draws : Draws) (w : World P) : Option State → World P → Type 0 where
    nothing : Does id draws w none w
    claimed :
        {v : World P}
        → Does id draws w none v
        → Does id draws w
            (some State.claimed)
            (transition_state j P show_uuid id State.queued State.claimed draws.claimed_at v).1
    started :
        {v : World P}
        → Does id draws w (some State.claimed) v
        → Does id draws w
            (some State.running)
            (transition_state j P show_uuid id State.claimed State.running draws.running_at v).1
    completed :
        {v : World P} (output : Value) (ms : ℕ)
        → Does id draws w (some State.running) v
        → Does id draws w
            (some State.completed)
            (complete_work j P show_uuid id
              (record { success = true; output = some output; error = none; duration_ms = ms })
              draws.retired_at
              v).1
    failed :
        {v : World P} (error : Text) (ms : ℕ)
        → Does id draws w (some State.running) v
        → Does id draws w
            (some State.failed)
            (fail_work j P show_uuid id error ms draws.retired_at v).1
    beside :
        {s : Option State} {v v' : World P}
        → Does id draws w s v
        → v'.items ≡ v.items
        → Does id draws w s v'

  pub Does-↝* :
      {id : WorkId} {draws : Draws} {w v : World P} {s : Option State}
      → Does id draws w s v
      → ◌↝*◌ j P show_uuid w v
  Does-↝* nothing = done
  Does-↝* {id} {draws} (claimed before) = onward (Does-↝* before) (claims id draws.claimed_at)
  Does-↝* {id} {draws} (started before) = onward (Does-↝* before) (starts id draws.running_at)
  Does-↝* {id} {draws} (completed output ms before) =
      onward (Does-↝* before) (completes id _ draws.retired_at)
  Does-↝* {id} {draws} (failed error ms before) =
      onward (Does-↝* before) (fails id error ms draws.retired_at)
  Does-↝* (beside before same) = onward (Does-↝* before) (elsewhere same)
