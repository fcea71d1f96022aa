-- ===== src/Tests/Control.antt =====
-- A round of the control plane on a queue with one message.
use animus_rs.Prelude.{
  ◌≡◌, refl, err, text_eq, pos, none, some, [], ◌∷◌, Text, lit, Result, ok, decimal,
}
use animus_rs.Json.{lookup}
use animus_rs.Json.Model as Values
use animus_rs.Work.Item.{WorkItem, NewWorkItem}
use animus_rs.Work.State
use animus_rs.Work.State.{State}
use animus_rs.Db.Table.{Row, select}
use animus_rs.Db.Pgmq.{Pgmq, PgmqMessage}
use animus_rs.Db.Pgmq.Model as Queues
use animus_rs.Db.Session.{Error, World}
use animus_rs.Db.Rows.{new_row, queue_row, transition_row, item_of}
use animus_rs.Engine.Control.{ControlPlane, Draws, Plane, work_item_id, execute, process_work}
use animus_rs.Db.Work.{transition_state, fail_work}
use animus_rs.Db.Work.Transition.{transition_state-moves}
use animus_rs.Db.Work.Calls.{done, onward, starts, fails}
use animus_rs.Engine.Control.Calls.{RoundDoes, process_work-RoundDoes}
use animus_rs.Engine.Control.Once.{executed_once}
use animus_rs.Engine.Control.Near.{Safe}
use animus_rs.Engine.Control.Safety.{process_work-Safe}
use animus_rs.Engine.Faculty.{get}
use animus_rs.Engine.Focus
use animus_rs.Engine.Focus.{
  Focus, run as run_focus, run_phases, phases_of, hook_phase, run_hook, after_hook, concluded,
  read_outcome, outcome_in, parsed_outcome, outcome_path, exit_result, hook_env,
}
use animus_rs.Engine.Control.Completes.{Completed, process_work-Completed}
use animus_rs.Tests.Focus.{json, host, faculty}

abbrev pub queues : Pgmq Values.Value
queues = Queues.model Values.Value

abbrev pub task : NewWorkItem Values.Value
task = record {
  faculty = lit "transform";
  skill = none;
  dedup_key = none;
  provenance = record { source = lit "cli"; trigger = none };
  params = Values.null;
  priority = pos 0;
  parent_id = none;
  max_attempts = none;
}

abbrev queued_row : Row Values.Value
queued_row = queue_row 1 5 (new_row 7 4 task)

-- One item is queued, and its message is in the queue.
abbrev pub ready : Plane json queues host
ready = record {
  db = record {
    items = queued_row ∷ [];
    queues = record {
      last_id = 1;
      entries =
          record {
            queue = lit "work";
            msg_id = 1;
            body =
                Values.object (
                  Values.and_entry (lit "work_item_id") (Values.string (lit "7"))
                    Values.no_entries);
          }
          ∷ [];
    };
    notified = [];
    metrics = [];
    faults = [];
  };
  machine = [];
  active_foci = 0;
}

abbrev pub plane : ControlPlane
plane = record {
  registry = (lit "transform", faculty) ∷ [];
  focus_base_dir = lit "/tmp";
  visibility_timeout = pos 60;
  max_concurrent = 4;
}

abbrev pub draws : Draws
draws = record { focus_id = 1; claimed_at = 6; running_at = 7; retired_at = 9 }

abbrev pub encode : WorkItem Values.Value → Result Text Text
encode item = ok (lit "{}")

process_work-Safe_example :
    Safe ready (process_work json queues host decimal (λ s. some 7) encode plane draws ready)
process_work-Safe_example =
    process_work-Safe json queues host decimal (λ s. some 7) encode plane draws ready

process_work-RoundDoes_example :
    RoundDoes json queues host decimal (λ s. some 7) encode plane draws ready
process_work-RoundDoes_example =
    process_work-RoundDoes json queues host decimal (λ s. some 7) encode plane draws ready

-- The item is claimed, started and failed; then its message is read again.
abbrev claimed_db : World queues
claimed_db =
    (transition_state json queues decimal (record { uuid = 7 }) State.queued State.claimed 6
      ready.db).1

abbrev started_db : World queues
started_db =
    (transition_state json queues decimal (record { uuid = 7 }) State.claimed State.running 7
      claimed_db).1

abbrev failed_db : World queues
failed_db =
    (fail_work json queues decimal (record { uuid = 7 }) (lit "engage: hook failed") 3 9
      started_db).1

abbrev again : Plane json queues host
again = record ready { db = failed_db }

abbrev message : PgmqMessage Values.Value
message = record { msg_id = 1; read_ct = 2; enqueued_at = 5; vt = 70; message = Values.null }

was_claimed :
    (transition_state json queues decimal
      (record { uuid = 7 })
      State.queued
      State.claimed
      6
      ready.db).0
    ≡ ok (item_of (transition_row State.claimed 6 queued_row) State.claimed)
unfolding select queue_row State.can_transition_to new_row State.show
was_claimed =
    (transition_state-moves json queues decimal (record { uuid = 7 }) State.queued State.claimed 6
      ready.db queued_row refl refl refl refl).0

executed_once_example :
    (e : Error) × ((execute json queues host decimal
        (λ s. some 7)
        encode
        plane
        draws
        message
        (record { uuid = 7 })
        (item_of queued_row State.failed)
        (some faculty)
        again).0
      ≡ err e)
    × ((execute json queues host decimal
          (λ s. some 7)
          encode
          plane
          draws
          message
          (record { uuid = 7 })
          (item_of queued_row State.failed)
          (some faculty)
          again).1.machine
        ≡ again.machine)
executed_once_example =
    executed_once json queues host decimal (λ s. some 7) encode (record { uuid = 7 }) 6 ready.db
      (item_of (transition_row State.claimed 6 queued_row) State.claimed) plane draws message
      (item_of queued_row State.failed) faculty again was_claimed
      (onward (onward done (starts (record { uuid = 7 }) 7))
        (fails (record { uuid = 7 }) (lit "engage: hook failed") 3 9))

-- The message of the item as it is read.
abbrev first_message : PgmqMessage Values.Value
first_message = record {
  msg_id = 1;
  read_ct = 1;
  enqueued_at = 0;
  vt = 0;
  message =
      Values.object
        (Values.and_entry (lit "work_item_id") (Values.string (lit "7")) Values.no_entries);
}

abbrev focus : Focus Values.Value
focus = record { id = 1; dir = lit "/tmp/1"; work_item = item_of queued_row State.queued }

created :
    Focus.create json host decimal encode (lit "/tmp") 1 (item_of queued_row State.queued) []
    ≡ (ok focus, [])
unfolding Focus.create decimal
created = refl

completes : run_focus json host decimal focus faculty [] ≡ (
  Focus.completed (Values.string (lit "/tmp/1/engage-out.json")) 3,
  lit "/bin/orient" ∷ lit "/bin/engage" ∷ [],
)
unfolding run_focus run_phases phases_of hook_phase run_hook after_hook concluded read_outcome
    outcome_in parsed_outcome outcome_path exit_result hook_env
completes = refl

process_work-Completed_example :
    Completed json queues host decimal
      (λ s. some 7)
      encode
      plane
      draws
      (record { uuid = 7 })
      first_message
      queued_row
      (Values.string (lit "/tmp/1/engage-out.json"))
      3
      ready
      (process_work json queues host decimal (λ s. some 7) encode plane draws ready)
unfolding work_item_id queue_row new_row get text_eq State.show lookup select
process_work-Completed_example =
    process_work-Completed json queues host decimal (λ s. some 7) encode plane draws ready
      first_message 7 queued_row faculty focus (Values.string (lit "/tmp/1/engage-out.json")) 3 []
      (lit "/bin/orient" ∷ lit "/bin/engage" ∷ []) refl refl refl refl refl refl refl created
      completes
