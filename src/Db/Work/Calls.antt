-- ===== src/Db/Work/Calls.antt =====
-- The calls of the program on the table of src/db/work.rs, by any number of processes in any order.
use animus_rs.Prelude.{List, ℕ, ◌≡◌, Text}
use animus_rs.Json.{JsonLib}
use animus_rs.Work.State.{State}
use animus_rs.Work.Item.{Uuid, Time, WorkId, Outcome, NewWorkItem}
use animus_rs.Db.Table.{Row}
use animus_rs.Db.Pgmq.{Pgmq}
use animus_rs.Db.Session.{World}
use animus_rs.Db.Work.{transition_state, complete_work, fail_work, submit_work}
use animus_rs.Db.Work.Steps
use animus_rs.Db.Work.Steps.{
  ◌⇝◌, ◌⇝*◌, stay, submit_work-⇝, transition_state-⇝, complete_work-⇝, fail_work-⇝,
}

module _ (j : JsonLib) (P : Pgmq j.Value) (show_uuid : Uuid → Text) where
  open j use {Value}

  -- What any process may call, with any of its statements failing: the calls of the program that
  -- write to the table, each with the states that the program gives it, and all else.
  infix 40 ◌↝◌ ◌↝*◌
  pub data ◌↝◌ (w : World P) : World P → Type 0 where
    submits :
        (id : Uuid) (now db_now : Time) (new : NewWorkItem Value)
        → w ↝ (submit_work j P show_uuid id now db_now new w).1
    claims :
        (id : WorkId) (now : Time)
        → w ↝ (transition_state j P show_uuid id State.queued State.claimed now w).1
    starts :
        (id : WorkId) (now : Time)
        → w ↝ (transition_state j P show_uuid id State.claimed State.running now w).1
    completes :
        (id : WorkId) (outcome : Outcome Value) (now : Time)
        → w ↝ (complete_work j P show_uuid id outcome now w).1
    fails :
        (id : WorkId) (error : Text) (ms : ℕ) (now : Time)
        → w ↝ (fail_work j P show_uuid id error ms now w).1
    elsewhere : {w' : World P} → w'.items ≡ w.items → w ↝ w'

  pub data ◌↝*◌ (w : World P) : World P → Type 0 where
    done : w ↝* w
    onward : {u v : World P} → w ↝* u → u ↝ v → w ↝* v

  pub joined : {u v w : World P} → u ↝* v → v ↝* w → u ↝* w
  joined first done = first
  joined first (onward calls call) = onward (joined first calls) call

  after : {a b c : List (Row Value)} → a ⇝* b → b ⇝ c → a ⇝* c
  after Steps.done step = Steps.onward step Steps.done
  after (Steps.onward first steps) step = Steps.onward first (after steps step)

  ↝-⇝ : {w v : World P} → w ↝ v → w.items ⇝ v.items
  ↝-⇝ {w} (submits id now db_now new) = submit_work-⇝ j P show_uuid id now db_now new w
  ↝-⇝ {w} (claims id now) = transition_state-⇝ j P show_uuid id State.queued State.claimed now w
  ↝-⇝ {w} (starts id now) = transition_state-⇝ j P show_uuid id State.claimed State.running now w
  ↝-⇝ {w} (completes id outcome now) = complete_work-⇝ j P show_uuid id outcome now w
  ↝-⇝ {w} (fails id error ms now) = fail_work-⇝ j P show_uuid id error ms now w
  ↝-⇝ (elsewhere same) = rw same stay

  -- Calls are steps of the work queue.
  pub ↝*-⇝* : {u v : World P} (rows : List (Row Value)) → rows ⇝* u.items → u ↝* v → rows ⇝* v.items
  ↝*-⇝* rows steps done = steps
  ↝*-⇝* rows steps (onward calls call) = after (↝*-⇝* rows steps calls) (↝-⇝ call)
