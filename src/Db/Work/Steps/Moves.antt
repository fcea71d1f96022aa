-- ===== src/Db/Work/Steps/Moves.antt =====
-- Which rows the operations of src/db/work.rs that move an item change, and to which state.
use animus_rs.Prelude.{◌≡◌, refl, ◌⊎◌, inl, inr, ℕ, List, Text, some, u64_as_i64}
use animus_rs.Json.{JsonLib}
use animus_rs.Work.State
use animus_rs.Work.State.{State}
use animus_rs.Work.State.Graph.{◌⟶◌, can_transition_to_iff, complete, fail}
use animus_rs.Work.Item.{Uuid, Time, WorkId, Outcome}
use animus_rs.Db.Table.{Row, update}
use animus_rs.Db.Pgmq.{Pgmq}
use animus_rs.Db.Session.{World}
use animus_rs.Db.Rows.{transition_row, complete_row, fail_row, is_in}
use animus_rs.Db.Work.{transition_state, complete_work, fail_work}
use animus_rs.Db.Work.Effects.{transition_state_rule, complete_work_rule, fail_work_rule}
use animus_rs.Db.Work.Steps.{IsMove, transition_row-IsMove, complete_row-IsMove, fail_row-IsMove}

module _ {V : Type 0} where
  -- The table is as it was, or exactly the rows with this id and in the state `from` have moved along
  -- an edge of the life cycle to `to`, and then meet this.
  pub record Moved (Also : (Row V → Row V) → Type 0) (id : Uuid) (from to : State)
      (before after : List (Row V)) : Type 0 where
    pub edge : from ⟶ to
    pub change : Row V → Row V
    pub moves : IsMove to change
    pub besides : Also change
    pub changed : after ≡ update (is_in id (State.show from)) change before

  abbrev pub MovedIf :
      ((Row V → Row V) → Type 0) → Uuid → State → State → List (Row V) → List (Row V) → Type 0
  MovedIf Also id from to before after = (after ≡ before) ⊎ Moved Also id from to before after

  -- A change that leaves the outcome of a row.
  abbrev pub SameOutcome : (Row V → Row V) → Type 0
  SameOutcome change =
      (r : Row V)
      → ((change r).outcome_data ≡ r.outcome_data)
        × ((change r).outcome_error ≡ r.outcome_error)
        × ((change r).outcome_ms ≡ r.outcome_ms)

  -- A change that stores this outcome.
  abbrev pub HasOutcome : Outcome V → (Row V → Row V) → Type 0
  HasOutcome outcome change =
      (r : Row V)
      → ((change r).outcome_data ≡ outcome.output)
        × ((change r).outcome_error ≡ outcome.error)
        × ((change r).outcome_ms ≡ some (u64_as_i64 outcome.duration_ms))

  -- A change that stores this error, and leaves the data.
  abbrev pub HasError : Text → ℕ → (Row V → Row V) → Type 0
  HasError error ms change =
      (r : Row V)
      → ((change r).outcome_data ≡ r.outcome_data)
        × ((change r).outcome_error ≡ some error)
        × ((change r).outcome_ms ≡ some (u64_as_i64 ms))

module _ (j : JsonLib) (P : Pgmq j.Value) (show_uuid : Uuid → Text) where
  open j use {Value}

  -- What the operations that move an item do to the table.
  pub record Moves (id : WorkId) (from to : State) (outcome : Outcome Value) (error : Text) (ms : ℕ)
      (now : Time) (w : World P) : Type 0 where
    pub transitions :
        MovedIf SameOutcome id.uuid from to w.items
          (transition_state j P show_uuid id from to now w).1.items
    pub completes :
        MovedIf
          (HasOutcome outcome)
          id.uuid
          State.running
          State.completed
          w.items
          (complete_work j P show_uuid id outcome now w).1.items
    pub fails :
        MovedIf
          (HasError error ms)
          id.uuid
          State.running
          State.failed
          w.items
          (fail_work j P show_uuid id error ms now w).1.items

  -- Whatever `transition_state`, `complete_work` and `fail_work` return and whichever statement fails,
  -- the table is as it was, or exactly the rows with the id given that were in the state `from`, or
  -- `running`, have moved along an edge of the life cycle: to the state `to` with their outcome as it
  -- was, to `completed` with the outcome given, or to `failed` with the error given. They keep
  -- id, faculty, dedup key and canonical item, and are resolved if they were or the state is terminal.
  pub changes_only_the_item :
      (id : WorkId) (from to : State) (outcome : Outcome Value) (error : Text) (ms : ℕ) (now : Time)
      (w : World P)
      → Moves id from to outcome error ms now w
  unfolding transition_row complete_row fail_row
  changes_only_the_item id from to outcome error ms now w = record {
    transitions =
        transition_state_rule j P show_uuid (MovedIf SameOutcome id.uuid from to w.items) id from to
          now w (inl refl)
          (λ e. inr (record {
            edge = (can_transition_to_iff from to).0 e;
            change = transition_row to now;
            moves = transition_row-IsMove to now;
            besides = λ r. (refl, refl, refl);
            changed = refl;
          }));
    completes =
        complete_work_rule j P show_uuid
          (MovedIf (HasOutcome outcome) id.uuid State.running State.completed w.items) id outcome
          now w (inl refl)
          (inr (record {
            edge = complete;
            change = complete_row now outcome;
            moves = complete_row-IsMove now outcome;
            besides = λ r. (refl, refl, refl);
            changed = refl;
          }));
    fails =
        fail_work_rule j P show_uuid
          (MovedIf (HasError error ms) id.uuid State.running State.failed w.items) id error ms now w
          (inl refl)
          (inr (record {
            edge = fail;
            change = fail_row now error ms;
            moves = fail_row-IsMove now error ms;
            besides = λ r. (refl, refl, refl);
            changed = refl;
          }));
  }
