-- ===== src/Tests/Loop.antt =====
-- Runs of the control plane with two wakes.
use animus_rs.Prelude.{refl, arith, some, List, [], ◌∷◌, lit, ok, decimal}
use animus_rs.Db.Table.{select, exists}
use animus_rs.Db.Work.Calls.{done}
use animus_rs.Engine.Control.Loop.{Wake, shut_down, notified, run}
use animus_rs.Db.Work.Steps
use animus_rs.Db.Work.Steps.{◌⇝*◌, store}
use animus_rs.Engine.Control.Loop.Keeps.{Keeps, run-Keeps}
use animus_rs.Engine.Control.Loop.Runs.{Runs, run-Runs}
use animus_rs.Tests.Focus.{json, host}
use animus_rs.Tests.Control.{draws, encode, plane, queues, ready, task}

-- A notification, and then a shutdown.
abbrev pub wakes : List (Wake queues)
wakes =
    record { cause = notified (ok (lit "transform")); draws = draws; others = λ w. w }
    ∷ record { cause = shut_down; draws = draws; others = λ w. w }
    ∷ []

run-Runs_example :
    Runs json queues host decimal
      (λ s. some 7)
      encode
      plane
      wakes
      ready
      (run json queues host decimal (λ s. some 7) encode plane wakes ready)
run-Runs_example =
    run-Runs json queues host decimal (λ s. some 7) encode plane wakes ready (omega arith)

ready-reachable : [] ⇝* ready.db.items
unfolding exists select
ready-reachable = Steps.onward (store 7 4 5 task 1 refl (λ key h. cc)) Steps.done

run-Keeps_example :
    Keeps json queues host decimal
      (λ s. some 7)
      encode
      ready.db
      (run json queues host decimal (λ s. some 7) encode plane wakes ready).1.db
run-Keeps_example =
    run-Keeps json queues host decimal (λ s. some 7) encode plane wakes ready ready-reachable
      ((λ w. done), ((λ w. done), tt))
