-- ===== src/Tests/Overlap.antt =====
-- A submission (src/db/work.rs) during which another process retires the item that it conflicts with.
use animus_rs.Prelude.{lit, [], ◌∷◌, decimal}
use animus_rs.Work.State
use animus_rs.Db.Session.{World}
use animus_rs.Db.Work.{transition_state, complete_work}
use animus_rs.Db.Work.Calls.{claims, starts, completes, done, onward}
use animus_rs.Db.Work.Submit.Overlap.{IsSafe, merge_amid-IsSafe}
use animus_rs.Tests.Database.{json, queues, with_items, waiting, waiting-reachable, task, success}

-- The waiting item is claimed, started and completed.
abbrev retire : World queues → World queues
retire w =
    (complete_work json queues decimal (record { uuid = 7 }) success 11
      (transition_state json queues decimal (record { uuid = 7 }) State.claimed State.running 10
        (transition_state json queues decimal (record { uuid = 7 }) State.queued State.claimed 9
          w).1).1).1

merge_amid-IsSafe_example :
    IsSafe json queues decimal retire (λ w. w) 8 5 task (lit "k") (with_items (waiting ∷ []) [])
merge_amid-IsSafe_example =
    merge_amid-IsSafe json queues decimal retire (λ w. w) 8 5 task (lit "k")
      (with_items (waiting ∷ []) []) waiting-reachable
      (onward
        (onward (onward done (claims (record { uuid = 7 }) 9)) (starts (record { uuid = 7 }) 10))
        (completes (record { uuid = 7 }) success 11))
      (λ u. done)
