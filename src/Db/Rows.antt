-- ===== src/Db/Rows.antt =====
-- src/db/work.rs: the rows of the table work_items, their items, and the changes of a row.
use animus_rs.Prelude.{
  ℕ, ◌+◌, pos, Bool, true, false, ◌&&◌, ◌||◌, Option, none, some, Text, lit, text_eq, Result, ok,
  err, unwrap_or, is_some, u32_as_i32, i32_as_u32, u64_as_i64, i64_as_u64, if◌then◌else◌,
}
use mathlib.Core.Option
use animus_rs.Work.State
use animus_rs.Work.State.{State, can_transition_to, is_terminal, state_eq}
use animus_rs.Work.Item.{Uuid, Time, WorkId, Outcome, WorkItem, NewWorkItem}
use animus_rs.Db.Table.{Row, has_id}
use animus_rs.Db.Session.{Error}

unfoldable pub validate_transition : State → State → Result Error (Unit {0})
validate_transition from to =
    if can_transition_to from to
    then ok tt
    else err (Error.invalid_transition (State.show from) (State.show to))

pub outcome_of : {V : Type 0} → Row V → Option (Outcome V)
outcome_of r =
    if is_some r.outcome_data || is_some r.outcome_error
    then some (record {
      success = elim r.outcome_error [ none ↦ true | some e ↦ false ];
      output = r.outcome_data;
      error = r.outcome_error;
      duration_ms = i64_as_u64 (unwrap_or (pos 0) r.outcome_ms);
    })
    else none

-- The item of a row whose state parsed.
unfoldable pub item_of : {V : Type 0} → Row V → State → WorkItem V
item_of r state = record {
  id = record { uuid = r.id };
  faculty = r.faculty;
  skill = r.skill;
  dedup_key = r.dedup_key;
  provenance = record { source = r.source; trigger = r.trigger_info };
  params = r.params;
  priority = r.priority;
  state = state;
  merged_into = Option.map (λ id. record { uuid = id }) r.merged_into;
  parent_id = Option.map (λ id. record { uuid = id }) r.parent_id;
  attempts = r.attempts;
  max_attempts = Option.map i32_as_u32 r.max_attempts;
  created_at = r.created_at;
  updated_at = r.updated_at;
  resolved_at = r.resolved_at;
  outcome = outcome_of r;
}

unfoldable pub try_into_work_item : {V : Type 0} → Row V → Result Error (WorkItem V)
try_into_work_item r = elim (State.parse r.state) [
  | ok state ↦ ok (item_of r state)
  | err s ↦ err (Error.invalid_state s)
]

-- The row that `submit_work` inserts first.
unfoldable pub new_row : {V : Type 0} → Uuid → Time → NewWorkItem V → Row V
new_row id now new = record {
  id = id;
  pgmq_msg_id = none;
  faculty = new.faculty;
  skill = new.skill;
  dedup_key = new.dedup_key;
  source = new.provenance.source;
  trigger_info = new.provenance.trigger;
  params = new.params;
  priority = new.priority;
  state = lit "created";
  merged_into = none;
  parent_id = Option.map (λ (p : WorkId). p.uuid) new.parent_id;
  attempts = 0;
  max_attempts = Option.map u32_as_i32 new.max_attempts;
  created_at = now;
  updated_at = now;
  resolved_at = none;
  outcome_data = none;
  outcome_error = none;
  outcome_ms = none;
}

-- The row of a duplicate: its key is NULL.
unfoldable pub merged_row : {V : Type 0} → Uuid → Time → NewWorkItem V → Uuid → Row V
merged_row id now new canonical = record (new_row id now new) {
  dedup_key = none;
  state = lit "merged";
  merged_into = some canonical;
  resolved_at = some now;
}

-- `UPDATE work_items SET state = 'queued', pgmq_msg_id = $1, updated_at = now()`
unfoldable pub queue_row : {V : Type 0} → ℕ → Time → Row V → Row V
queue_row msg_id now r = record r {
  state = lit "queued";
  pgmq_msg_id = some msg_id;
  updated_at = now;
}

-- The `SET` of `transition_state`.
unfoldable pub transition_row : {V : Type 0} → State → Time → Row V → Row V
transition_row to now r = record r {
  state = State.show to;
  updated_at = now;
  resolved_at = if is_terminal to then some now else r.resolved_at;
  attempts = r.attempts + (if state_eq to State.running then 1 else 0);
}

unfoldable pub complete_row : {V : Type 0} → Time → Outcome V → Row V → Row V
complete_row now outcome r = record r {
  state = lit "completed";
  updated_at = now;
  resolved_at = some now;
  outcome_data = outcome.output;
  outcome_error = outcome.error;
  outcome_ms = some (u64_as_i64 outcome.duration_ms);
}

unfoldable pub fail_row : {V : Type 0} → Time → Text → ℕ → Row V → Row V
fail_row now error duration_ms r = record r {
  state = lit "failed";
  updated_at = now;
  outcome_error = some error;
  outcome_ms = some (u64_as_i64 duration_ms);
}

-- `id = $5 AND state = $6`
unfoldable pub is_in : {V : Type 0} → Uuid → Text → Row V → Bool
is_in id state r = has_id id r && text_eq r.state state
