-- ===== src/Db/Work/Submit.antt =====
-- What the transaction of `submit_work` (src/db/work.rs) leaves behind, for every way in which its
-- statements can fail.
pub mod Atomic
pub mod Body
pub mod Dedup
pub mod Overlap
use animus_rs.Prelude.{
  ℕ, suc, ◌+◌, ◌≡◌, refl, Bool, true, false, not, ◌&&◌, Option, none, some, List, [], ◌∷◌, ◌++◌,
  if◌then◌else◌, ==_iff, Bool-cases, Option-cases, inl, inr, arith, Text, Result, ok, err, pos,
}
use animus_rs.Json.{JsonLib}
use animus_rs.Work.State
use animus_rs.Work.State.{State}
use animus_rs.Work.Item.{Uuid, Time, WorkId, NewWorkItem, WorkItem}
use animus_rs.Db.Table.{Row, holds_key, select, has_id, update, affected, exists, admits}
use animus_rs.Db.Table.Rows.{select-append, update-append, admits-fresh}
use animus_rs.Db.Pgmq.{Pgmq}
use animus_rs.Db.Session.{Error, World, M, pure, continue, statement, commit, transaction}
use animus_rs.Db.Session.Rules.{statement_rule, bind_rule, transaction_rule, commit_rule}
use animus_rs.Db.Rows.{validate_transition, new_row, merged_row, queue_row}
use animus_rs.Db.Work.{
  work_queue, insert, insert_new, find_canonical, update_rows, send, notify, payload_of, enqueue,
  merge, enqueue_or_merge, submit_body,
}

module _ (j : JsonLib) (P : Pgmq j.Value) (show_uuid : Uuid → Text) where
  open j use {Value}

  -- Nothing that a query of the database can see has changed.
  pub record Unchanged (before after : World P) : Type 0 where
    pub same_items : after.items ≡ before.items
    pub same_queues : after.queues ≡ before.queues
    pub same_notified : after.notified ≡ before.notified

  -- The row of a new item, in the state `queued` and with the id of its message.
  unfoldable pub queued_row : Uuid → Time → Time → NewWorkItem Value → World P → Row Value
  queued_row id now db_now new before =
      queue_row (P.send work_queue (payload_of j P show_uuid id new.params) (pos 0) before.queues).0
        db_now (new_row id now new)

  -- The new item is stored as queued, with one message and one notification.
  pub record Enqueued (id : Uuid) (now db_now : Time) (new : NewWorkItem Value)
      (before after : World P) : Type 0 where
    pub fresh_id : exists (has_id id) before.items ≡ false
    pub stored : after.items ≡ before.items ++ queued_row id now db_now new before ∷ []
    pub sent :
        after.queues
        ≡ (P.send work_queue (payload_of j P show_uuid id new.params) (pos 0) before.queues).1
    pub notice : after.notified ≡ before.notified ++ new.faculty ∷ []

  -- The new item is stored as merged into the active item with its key; nothing is sent.
  pub record Merged (id canonical : Uuid) (now : Time) (new : NewWorkItem Value) (key : Text)
      (before after : World P) : Type 0 where
    pub fresh_id : exists (has_id id) before.items ≡ false
    pub holder : Row Value
    pub holds : select (holds_key new.faculty key) before.items ≡ some holder
    pub is_canonical : canonical ≡ holder.id
    pub stored : after.items ≡ before.items ++ merged_row id now new canonical ∷ []
    pub same_queues : after.queues ≡ before.queues
    pub same_notified : after.notified ≡ before.notified

  -- No active item of the table has the key of the new one.
  unfoldable pub KeyIsFree : NewWorkItem Value → World P → Type 0
  KeyIsFree new before =
      (key : Text)
      → new.dedup_key ≡ some key
      → exists (holds_key new.faculty key) before.items ≡ false

  -- What a submission that returns `none` or `some canonical` has done.
  pub Reached : Uuid → Time → Time → NewWorkItem Value → World P → Option Uuid → World P → Type 0
  Reached id now db_now new before none after =
      KeyIsFree new before × Enqueued id now db_now new before after
  Reached id now db_now new before (some canonical) after =
      (key : Text) × (new.dedup_key ≡ some key) × Merged id canonical now new key before after

  -- Its statements before the commit.
  pub InBody :
      Uuid
      → Time
      → Time
      → NewWorkItem Value
      → World P
      → Result Error (Option Uuid) × World P
      → Type 0
  InBody id now db_now new before (ok a, after) = Reached id now db_now new before a after
  InBody id now db_now new before (err e, after) = Unit {0}

  -- The whole transaction.
  pub Settled :
      Uuid
      → Time
      → Time
      → NewWorkItem Value
      → World P
      → Result Error (Option Uuid) × World P
      → Type 0
  Settled id now db_now new before (ok a, after) = Reached id now db_now new before a after
  Settled id now db_now new before (err e, after) = Unchanged before after
