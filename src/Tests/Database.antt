-- ===== src/Tests/Database.antt =====
-- Runs of src/db on a small table.
use animus_rs.Prelude.{
  text_eq, ◌≡◌, refl, pos, true, Option, none, some, List, [], ◌∷◌, Text, lit, ok, err, decimal,
}
use animus_rs.Json.{JsonLib}
use animus_rs.Json.Model as Values
use animus_rs.Work.State
use animus_rs.Work.State.{State, is_terminal, state_eq}
use animus_rs.Work.Item.{Outcome, NewWorkItem}
use animus_rs.Db.Table.{Row, select, has_id, exists, update, holds_key, is_active, has_key}
use animus_rs.Db.Pgmq.{Pgmq}
use animus_rs.Db.Pgmq.Model as Queues
use animus_rs.Db.Session.{World}
use animus_rs.Db.Rows.{item_of, new_row, queue_row, transition_row, fail_row, is_in}
use animus_rs.Db.Work.{submit_work, transition_state}
use animus_rs.Db.Work.Submit.Atomic.{Promise, submit_work-Promise}
use animus_rs.Db.Work.Steps.{
  ◌⇝*◌, store, move, done, onward, transition_row-IsMove, fail_row-IsMove, submit_work-⇝,
}
use animus_rs.Db.Work.Steps.Moves.{Moves, changes_only_the_item}
use animus_rs.Db.Work.Steps.Invariant.{IsValid, reachable-IsValid}
use animus_rs.Db.Work.Steps.Final.{terminal_is_final}
use animus_rs.Db.Work.Transition.{transition_state-moves}
use animus_rs.Work.State.Graph.{claim, start, fail}
use animus_rs.Db.Work.Submit.Dedup.{Deduped, submit_work-Deduped}

abbrev pub json : JsonLib
json = Values.model (λ s. err s) (λ v. [])

abbrev pub queues : Pgmq Values.Value
queues = Queues.model Values.Value

abbrev pub task : NewWorkItem Values.Value
task = record {
  faculty = lit "transform";
  skill = none;
  dedup_key = some (lit "k");
  provenance = record { source = lit "cli"; trigger = none };
  params = Values.null;
  priority = pos 0;
  parent_id = none;
  max_attempts = some 3;
}

abbrev pub with_items : List (Row Values.Value) → List (Option Text) → World queues
with_items items faults = record {
  items = items;
  queues = record { last_id = 0; entries = [] };
  notified = [];
  metrics = [];
  faults = faults;
}

abbrev pub waiting : Row Values.Value
waiting = queue_row 1 5 (new_row 7 4 task)

abbrev pub finished : Row Values.Value
finished = record waiting { state = lit "completed"; resolved_at = some 6 }

submit_work-Promise_example :
    Promise json queues decimal 8 5 6 task
      (with_items (waiting ∷ []) [])
      (submit_work json queues decimal 8 5 6 task (with_items (waiting ∷ []) []))
submit_work-Promise_example =
    submit_work-Promise json queues decimal 8 5 6 task (with_items (waiting ∷ []) [])

abbrev pub success : Outcome Values.Value
success = record { success = true; output = some Values.null; error = none; duration_ms = 12 }

abbrev pub running : Row Values.Value
running = transition_row State.running 8 waiting

changes_only_the_item_example :
    Moves json queues decimal
      (record { uuid = 7 })
      State.queued
      State.claimed
      success
      (lit "e")
      12
      9
      (with_items (running ∷ []) [])
changes_only_the_item_example =
    changes_only_the_item json queues decimal (record { uuid = 7 }) State.queued State.claimed
      success (lit "e") 12 9 (with_items (running ∷ []) [])

pub waiting-reachable : [] ⇝* (waiting ∷ [])
unfolding exists select
waiting-reachable = onward (store 7 4 5 task 1 refl (λ key h. refl)) done

-- An item that has failed is active: it holds its dedup key.
abbrev failed_row : Row Values.Value
failed_row =
    fail_row 11 (lit "e") 12
      (transition_row State.running 10 (transition_row State.claimed 9 waiting))

failed-reachable : [] ⇝* (failed_row ∷ [])
unfolding exists select update is_in queue_row new_row transition_row fail_row text_eq State.show
failed-reachable = onward (store 7 4 5 task 1 refl (λ key h. refl)) (
    onward (move 7 (transition_row State.claimed 9) claim (transition_row-IsMove State.claimed 9)) (
      onward
        (move 7 (transition_row State.running 10) start (transition_row-IsMove State.running 10))
        (onward (move 7 (fail_row 11 (lit "e") 12) fail (fail_row-IsMove 11 (lit "e") 12)) done)))

submit_work-Deduped_example :
    Deduped json queues decimal 8 5 task
      (lit "k")
      failed_row
      (with_items (failed_row ∷ []) [])
      (submit_work json queues decimal 8 5 6 task (with_items (failed_row ∷ []) []))
unfolding select queue_row new_row transition_row fail_row text_eq holds_key is_active has_key
submit_work-Deduped_example =
    submit_work-Deduped json queues decimal 8 5 6 task (lit "k") failed_row
      (with_items (failed_row ∷ []) []) failed-reachable refl refl refl

reachable-IsValid_example : IsValid (waiting ∷ [])
reachable-IsValid_example = reachable-IsValid (waiting ∷ []) waiting-reachable

terminal_is_final_example :
    select
      (has_id 7)
      (submit_work json queues decimal 8 5 6 task (with_items (finished ∷ []) [])).1.items
    ≡ some finished
unfolding select queue_row new_row State.show is_terminal
terminal_is_final_example =
    terminal_is_final
      (onward (submit_work-⇝ json queues decimal 8 5 6 task (with_items (finished ∷ []) [])) done) 7
      finished State.completed refl refl refl

abbrev pub claimed : Row Values.Value
claimed = transition_row State.claimed 9 waiting

transition_state-moves_example :
    ((transition_state json queues decimal
        (record { uuid = 7 })
        State.queued
        State.claimed
        9
        (with_items (waiting ∷ []) [])).0
      ≡ ok (item_of claimed State.claimed))
    × (select
          (has_id 7)
          (transition_state json queues decimal
            (record { uuid = 7 })
            State.queued
            State.claimed
            9
            (with_items (waiting ∷ []) [])).1.items
        ≡ some claimed)
unfolding select queue_row State.can_transition_to new_row State.show
transition_state-moves_example =
    transition_state-moves json queues decimal (record { uuid = 7 }) State.queued State.claimed 9
      (with_items (waiting ∷ []) []) waiting refl refl refl refl
