-- ===== src/Tests/Queue.antt =====
-- Runs of claims, messages and lists of src/db on a small table.
use animus_rs.Prelude.{◌≡◌, refl, pos, none, some, [], ◌∷◌, lit, ok, err, decimal}
use animus_rs.Work.State
use animus_rs.Work.State.{State, is_terminal, state_eq}
use animus_rs.Db.Table.{select}
use animus_rs.Db.Session.{Error, World}
use animus_rs.Db.Rows.{item_of, new_row, queue_row}
use animus_rs.Db.Work.{fail_work, transition_state}
use animus_rs.Db.Work.Listing.{list_work_items, Lists, Unchanged, list_work_items-Lists}
use animus_rs.Db.Work.Transition.{transition_state-moves}
use animus_rs.Db.Work.Calls
use animus_rs.Db.Work.Calls.{starts, fails}
use animus_rs.Db.Work.Once.{claimed_once}
use animus_rs.Tests.Database.{claimed, finished, json, queues, waiting, with_items}

waiting-claimed :
    (transition_state json queues decimal
      (record { uuid = 7 })
      State.queued
      State.claimed
      9
      (with_items (waiting ∷ []) [])).0
    ≡ ok (item_of claimed State.claimed)
unfolding select queue_row State.can_transition_to new_row State.show
waiting-claimed =
    (transition_state-moves json queues decimal (record { uuid = 7 }) State.queued State.claimed 9
      (with_items (waiting ∷ []) []) waiting refl refl refl refl).0

-- The table after the first claim, and after the failure that follows it.
abbrev taken : World queues
taken =
    (transition_state json queues decimal (record { uuid = 7 }) State.queued State.claimed 9
      (with_items (waiting ∷ []) [])).1

abbrev restarted : World queues
restarted =
    (transition_state json queues decimal (record { uuid = 7 }) State.claimed State.running 10
      taken).1

abbrev given_up : World queues
given_up = (fail_work json queues decimal (record { uuid = 7 }) (lit "e") 12 11 restarted).1

claimed_once_example :
    (e : Error) × ((transition_state json queues decimal
        (record { uuid = 7 })
        State.queued
        State.claimed
        12
        given_up).0
      ≡ err e)
    × ((transition_state json queues decimal
          (record { uuid = 7 })
          State.queued
          State.claimed
          12
          given_up).1.items
        ≡ given_up.items)
claimed_once_example =
    claimed_once json queues decimal (record { uuid = 7 }) 9 12 (with_items (waiting ∷ []) [])
      given_up (item_of claimed State.claimed) waiting-claimed
      (Calls.onward (Calls.onward Calls.done (starts (record { uuid = 7 }) 10))
        (fails (record { uuid = 7 }) (lit "e") 12 11))

abbrev stored : World queues
stored = with_items (finished ∷ waiting ∷ []) []

list_work_items-Lists_example :
    Lists json queues
      (some State.queued)
      none
      stored
      (pos 20)
      (list_work_items json queues (some State.queued) none (pos 20) stored).0
    × Unchanged json queues stored
        (list_work_items json queues (some State.queued) none (pos 20) stored).1
list_work_items-Lists_example =
    list_work_items-Lists json queues (some State.queued) none (pos 20) stored
