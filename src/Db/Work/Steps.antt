-- ===== src/Db/Work/Steps.antt =====
-- How the operations of src/db/work.rs may change the table, as a step relation, for every way in
-- which their statements can fail.
pub mod Edges
pub mod Final
pub mod Invariant
pub mod Keys
pub mod Moves
use animus_rs.Prelude.{
  ℕ, zero, suc, ◌≡◌, refl, Bool, true, false, ◌||◌, Option, none, some, List, [], ◌∷◌, ◌++◌, Text,
  Result, ok, err, is_some, Bool-cases, Option-cases, inl, inr, if◌then◌else◌,
}
use animus_rs.Json.{JsonLib}
use animus_rs.Work.State
use animus_rs.Work.State.{State, can_transition_to, is_terminal, state_eq}
use animus_rs.Work.State.Graph.{◌⟶◌, can_transition_to_iff, complete, fail}
use animus_rs.Work.Item.{Uuid, Time, WorkId, Outcome, NewWorkItem}
use animus_rs.Db.Table.{Row, holds_key, select, has_id, update, affected, exists}
use animus_rs.Db.Pgmq.{Pgmq}
use animus_rs.Db.Session.{Error, World, M, continue}
use animus_rs.Db.Session.Rules.{bind_rule, statement_rule}
use animus_rs.Db.Rows.{
  validate_transition, new_row, merged_row, queue_row, transition_row, complete_row, fail_row,
  is_in,
}
use animus_rs.Db.Work.{
  SubmitResult, created, merged, get_work_item, moved, retired, transition_state, complete_work,
  fail_work, submit_work, update_rows,
}
use animus_rs.Db.Work.Effects.{transition_state_rule, complete_work_rule, fail_work_rule}
use animus_rs.Db.Work.Submit.{KeyIsFree, queued_row}
use animus_rs.Db.Work.Submit.Atomic.{Promise, submit_work-Promise}

-- What an `UPDATE` that moves a row to a state does to it.
pub record IsMove {V : Type 0} (to : State) (change : Row V → Row V) : Type 0 where
  pub new_state : (r : Row V) → (change r).state ≡ State.show to
  pub same_id : (r : Row V) → (change r).id ≡ r.id
  pub same_faculty : (r : Row V) → (change r).faculty ≡ r.faculty
  pub same_key : (r : Row V) → (change r).dedup_key ≡ r.dedup_key
  pub same_merged_into : (r : Row V) → (change r).merged_into ≡ r.merged_into
  pub resolved :
      (r : Row V) → is_some (change r).resolved_at ≡ is_terminal to || is_some r.resolved_at

infix 40 ◌⇝◌ ◌⇝*◌
pub data ◌⇝◌ {V : Type 0} : List (Row V) → List (Row V) → Type 0 where
  stay : {rows : List (Row V)} → rows ⇝ rows
  -- a new item that is queued
  store :
      {rows : List (Row V)} (id : Uuid) (now db_now : Time) (new : NewWorkItem V) (msg_id : ℕ)
      → exists (has_id id) rows ≡ false
      → ((key : Text) → new.dedup_key ≡ some key → exists (holds_key new.faculty key) rows ≡ false)
      → rows ⇝ rows ++ queue_row msg_id db_now (new_row id now new) ∷ []
  -- a new item that is merged into the holder of its key
  fold :
      {rows : List (Row V)} (id : Uuid) (now : Time) (new : NewWorkItem V) (key : Text)
      (holder : Row V)
      → exists (has_id id) rows ≡ false
      → new.dedup_key ≡ some key
      → select (holds_key new.faculty key) rows ≡ some holder
      → rows ⇝ rows ++ merged_row id now new holder.id ∷ []
  -- an item that moves along an edge of the life cycle
  move :
      {rows : List (Row V)} {from to : State} (id : Uuid) (change : Row V → Row V)
      → from ⟶ to
      → IsMove to change
      → rows ⇝ update (is_in id (State.show from)) change rows

pub data ◌⇝*◌ {V : Type 0} : List (Row V) → List (Row V) → Type 0 where
  done : {rows : List (Row V)} → rows ⇝* rows
  onward : {a b c : List (Row V)} → a ⇝ b → b ⇝* c → a ⇝* c

pub transition_row-IsMove :
    {V : Type 0} (to : State) (now : Time) → IsMove to (transition_row {V = V} to now)
unfolding transition_row
transition_row-IsMove to now = record {
  new_state = λ r. refl;
  same_id = λ r. refl;
  same_faculty = λ r. refl;
  same_key = λ r. refl;
  same_merged_into = λ r. refl;
  resolved = λ r. elim (Bool-cases (is_terminal to)) [ inl e ↦ rw e refl | inr e ↦ rw e refl ];
}

pub complete_row-IsMove :
    {V : Type 0} (now : Time) (outcome : Outcome V)
    → IsMove State.completed (complete_row {V = V} now outcome)
unfolding complete_row State.show is_terminal
complete_row-IsMove now outcome = record {
  new_state = λ r. refl;
  same_id = λ r. refl;
  same_faculty = λ r. refl;
  same_key = λ r. refl;
  same_merged_into = λ r. refl;
  resolved = λ r. refl;
}

pub fail_row-IsMove :
    {V : Type 0} (now : Time) (error : Text) (ms : ℕ)
    → IsMove State.failed (fail_row {V = V} now error ms)
unfolding fail_row State.show is_terminal
fail_row-IsMove now error ms = record {
  new_state = λ r. refl;
  same_id = λ r. refl;
  same_faculty = λ r. refl;
  same_key = λ r. refl;
  same_merged_into = λ r. refl;
  resolved = λ r. refl;
}

module _ (j : JsonLib) (P : Pgmq j.Value) (show_uuid : Uuid → Text) where
  open j use {Value}

  pub transition_state-⇝ :
      (id : WorkId) (from to : State) (now : Time) (w : World P)
      → w.items ⇝ (transition_state j P show_uuid id from to now w).1.items
  transition_state-⇝ id from to now w =
      transition_state_rule j P show_uuid (λ rows. w.items ⇝ rows) id from to now w stay
        (λ e.
          move id.uuid (transition_row to now) ((can_transition_to_iff from to).0 e)
            (transition_row-IsMove to now))

  pub complete_work-⇝ :
      (id : WorkId) (outcome : Outcome Value) (now : Time) (w : World P)
      → w.items ⇝ (complete_work j P show_uuid id outcome now w).1.items
  complete_work-⇝ id outcome now w =
      complete_work_rule j P show_uuid (λ rows. w.items ⇝ rows) id outcome now w stay
        (move id.uuid (complete_row now outcome) complete (complete_row-IsMove now outcome))

  pub fail_work-⇝ :
      (id : WorkId) (error : Text) (ms : ℕ) (now : Time) (w : World P)
      → w.items ⇝ (fail_work j P show_uuid id error ms now w).1.items
  fail_work-⇝ id error ms now w =
      fail_work_rule j P show_uuid (λ rows. w.items ⇝ rows) id error ms now w stay
        (move id.uuid (fail_row now error ms) fail (fail_row-IsMove now error ms))

  Promise-⇝ :
      (id : Uuid) (now db_now : Time) (new : NewWorkItem Value) (before : World P)
      (r : Result Error (SubmitResult Value)) (after : World P)
      → Promise j P show_uuid id now db_now new before (r, after)
      → before.items ⇝ after.items
  unfolding Promise queued_row KeyIsFree
  Promise-⇝ id now db_now new before (ok (created item)) after (free, h, _) =
      rw h.stored (store id now db_now new _ h.fresh_id free)
  Promise-⇝ id now db_now new before (ok (merged d c)) after (key, _, has, h) =
      rw h.stored (rw h.is_canonical (fold id now new key h.holder h.fresh_id has h.holds))
  Promise-⇝ id now db_now new before (err e) after (inl h) = rw h.same_items stay
  Promise-⇝ id now db_now new before (err e) after (inr (free, h)) =
      rw h.stored (store id now db_now new _ h.fresh_id free)

  -- Whatever `submit_work` returns and whichever statement fails, the table is as it was, or has one
  -- new row at its end: with a fresh id, and either queued with a dedup key that no active row of
  -- the faculty has, or merged into the active row that has it.
  pub submit_work-⇝ :
      (id : Uuid) (now db_now : Time) (new : NewWorkItem Value) (w : World P)
      → w.items ⇝ (submit_work j P show_uuid id now db_now new w).1.items
  submit_work-⇝ id now db_now new w =
      Promise-⇝ id now db_now new w _ _ (submit_work-Promise j P show_uuid id now db_now new w)
