-- ===== src/Db/Work.antt =====
-- src/db/work.rs: submitting work with dedup, and moving it through its life cycle.
pub mod Calls
pub mod Effects
pub mod Listing
pub mod Once
pub mod Queues
pub mod Quiet
pub mod Steps
pub mod Submit
pub mod Taken
pub mod Transition
use animus_rs.Telemetry.Instruments.{work_submitted, work_state_transitions, operation_duration_ms}
use animus_rs.Prelude.{
  ℕ, zero, suc, ◌+◌, ◌==◌, ℤ, pos, Bool, true, false, ◌&&◌, ◌||◌, Option, none, some, List, [], ◌∷◌,
  ◌++◌, take, Text, lit, text_eq, Result, ok, err, ok_or, unwrap_or, is_some, u32_as_i32,
  i32_as_u32, u64_as_i64, i64_as_u64, leb, if◌then◌else◌,
}
use mathlib.Core.Option
use animus_rs.Json.{JsonLib}
use animus_rs.Work.State
use animus_rs.Work.State.{State, can_transition_to, is_terminal, state_eq}
use animus_rs.Work.Item.{Uuid, Time, WorkId, Outcome, WorkItem, NewWorkItem}
use animus_rs.Db.Table.{
  Row, is_active, has_key, holds_key, select, has_id, update, affected, exists, admits,
}
use animus_rs.Db.Pgmq.{Pgmq}
use animus_rs.Db.Session.{
  Error, World, M, pure, raise, lift, ◌>>=◌, ◌>>◌, record_metric, statement, transaction,
}
use animus_rs.Db.Rows.{
  complete_row, fail_row, is_in, merged_row, new_row, queue_row, transition_row, try_into_work_item,
  validate_transition,
}

pub data SubmitResult (V : Type 0) : Type 0 where
  created : WorkItem V → SubmitResult V
  merged : WorkId → WorkId → SubmitResult V

abbrev pub work_queue : Text
work_queue = lit "work"

module _ (j : JsonLib) (P : Pgmq j.Value) (show_uuid : Uuid → Text) where
  open j use {Value, string, object}

  abbrev pub constraint_error : Error
  constraint_error = Error.database (lit "constraint violation")

  pub insert : Row Value → M P (Unit {0})
  insert r = statement (λ w.
      if admits r w.items
      then (ok tt, record w { items = w.items ++ r ∷ [] })
      else (err constraint_error, w))

  -- `INSERT … ON CONFLICT … DO NOTHING RETURNING id`: whether the row was inserted.
  pub insert_new : Text → Row Value → M P Bool
  insert_new key r = statement (λ w.
      if exists (holds_key r.faculty key) w.items
      then (ok false, w)
      else if admits r w.items
      then (ok true, record w { items = w.items ++ r ∷ [] })
      else (err constraint_error, w))

  -- The active item with this key; `fetch_one` fails where there is none.
  pub find_canonical : Text → Text → M P Uuid
  find_canonical faculty key = statement (λ w. (
    elim (select (holds_key faculty key) w.items) [
      | some r ↦ ok r.id
      | none ↦ err (Error.database (lit "no rows returned"))
    ],
    w,
  ))

  -- `UPDATE … WHERE test`: the number of rows affected.
  pub update_rows : (Row Value → Bool) → (Row Value → Row Value) → M P ℕ
  update_rows test change =
      statement (λ w. (ok (affected test w.items), record w { items = update test change w.items }))

  pub send : Text → Value → ℤ → M P ℕ
  send name payload delay = statement (λ w.
      let (msg_id, queues) = P.send name payload delay w.queues in
      (ok msg_id, record w { queues = queues }))

  pub notify : Text → M P (Unit {0})
  notify payload = statement (λ w. (ok tt, record w { notified = w.notified ++ payload ∷ [] }))

  pub get_work_item : WorkId → M P (WorkItem Value)
  get_work_item id = do
    row ← statement (λ w. (ok (select (has_id id.uuid) w.items), w))
    r ← lift (ok_or (Error.not_found (lit "work item " ++ take 8 (show_uuid id.uuid))) row)
    lift (try_into_work_item r)

  pub payload_of : Uuid → Value → Value
  payload_of id params =
      object ((lit "work_item_id", string (show_uuid id)) ∷ (lit "params", params) ∷ [])

  -- The part of the transaction behind a successful insert.
  pub enqueue : Uuid → Time → NewWorkItem Value → M P (Option Uuid)
  enqueue id db_now new = do
    lift (validate_transition State.created State.queued)
    msg_id ← send work_queue (payload_of id new.params) (pos 0)
    update_rows (has_id id) (queue_row msg_id db_now)
    notify new.faculty
    pure none

  -- The part behind a conflict: the new item is stored as merged.
  pub merge : Uuid → Time → NewWorkItem Value → Text → M P (Option Uuid)
  merge id now new key = do
    canonical ← find_canonical new.faculty key
    lift (validate_transition State.created State.merged)
    insert (merged_row id now new canonical)
    pure (some canonical)

  -- What follows the attempt to insert an item with a key.
  pub enqueue_or_merge : Uuid → Time → Time → NewWorkItem Value → Text → Bool → M P (Option Uuid)
  enqueue_or_merge id now db_now new key true = enqueue id db_now new
  enqueue_or_merge id now db_now new key false = merge id now new key

  -- The transaction of `submit_work`: the canonical item, if the new one is a duplicate of it.
  pub submit_body : Uuid → Time → Time → NewWorkItem Value → Option Text → M P (Option Uuid)
  submit_body id now db_now new none = do insert (new_row id now new); enqueue id db_now new
  submit_body id now db_now new (some key) = do
    inserted ← insert_new key (new_row id now new)
    enqueue_or_merge id now db_now new key inserted

  -- What follows the commit.
  pub submitted : Uuid → NewWorkItem Value → Option Uuid → M P (SubmitResult Value)
  submitted id new (some canonical) = do
    record_metric work_submitted (new.faculty ∷ lit "duplicate" ∷ [])
    pure (merged (record { uuid = id }) (record { uuid = canonical }))
  submitted id new none = do
    record_metric work_submitted (new.faculty ∷ lit "ok" ∷ [])
    item ← get_work_item (record { uuid = id })
    pure (created item)

  -- `id` is the new UUID, `now` the time that the program reads, `db_now` that of the server.
  pub submit_work : Uuid → Time → Time → NewWorkItem Value → M P (SubmitResult Value)
  submit_work id now db_now new = do
    duplicate ← transaction (submit_body id now db_now new new.dedup_key)
    submitted id new duplicate

  -- The end of each change of state: an error if no row was affected, else the item as it now is.
  pub moved : WorkId → State → State → ℕ → M P (WorkItem Value)
  moved id from to zero = raise (Error.invalid_transition (State.show from) (State.show to))
  moved id from to (suc n) = do
    record_metric work_state_transitions (State.show from ∷ State.show to ∷ [])
    get_work_item id

  pub transition_state : WorkId → State → State → Time → M P (WorkItem Value)
  transition_state id from to now = do
    lift (validate_transition from to)
    n ← update_rows (is_in id.uuid (State.show from)) (transition_row to now)
    moved id from to n

  -- `moved` with the measurement of the execution between its two steps.
  pub retired : WorkId → State → State → ℕ → M P (WorkItem Value)
  retired id from to zero = raise (Error.invalid_transition (State.show from) (State.show to))
  retired id from to (suc n) = do
    record_metric work_state_transitions (State.show from ∷ State.show to ∷ [])
    record_metric operation_duration_ms (lit "work.execute" ∷ [])
    get_work_item id

  pub complete_work : WorkId → Outcome Value → Time → M P (WorkItem Value)
  complete_work id outcome now = do
    lift (validate_transition State.running State.completed)
    n ← update_rows (is_in id.uuid (lit "running")) (complete_row now outcome)
    retired id State.running State.completed n

  pub fail_work : WorkId → Text → ℕ → Time → M P (WorkItem Value)
  fail_work id error duration_ms now = do
    lift (validate_transition State.running State.failed)
    n ← update_rows (is_in id.uuid (lit "running")) (fail_row now error duration_ms)
    retired id State.running State.failed n
