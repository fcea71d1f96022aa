-- ===== src/Cli/Item.antt =====
-- src/bin/animus.rs: the command `work show`, for an id or the start of one.
pub mod Prefix
use animus_rs.Prelude.{
  ℕ, ltb, Bool, true, false, Option, none, some, List, [], ◌∷◌, ◌++◌, map, length, Text, lit,
  newline, starts_with, split, decimal, Result, ok, err, unwrap_or, if◌then◌else◌,
}
use mathlib.Core.Option
use animus_rs.Prelude.Sort.{rows_where}
use animus_rs.Prelude.{pos}
use animus_rs.Json.{JsonLib}
use animus_rs.Work.State
use animus_rs.Work.Item.{Uuid, Time, WorkId, Outcome, WorkItem}
use animus_rs.Db.Pgmq.{Pgmq}
use animus_rs.Db.Session.{World}
use animus_rs.Db.Work.{get_work_item}
use animus_rs.Db.Work.Listing.{list_work_items}
use animus_rs.Engine.Focus.{show_int}
use animus_rs.Cli.Failure.{Failure}
use animus_rs.Cli.Prompt.{quoted, em_dash, passed_on}
use animus_rs.Cli.Work.{Run, fails, prints, after_db, after, show_id}

module _ {V : Type 0} (show_uuid : Uuid → Text) where
  unfoldable pub shown_with : Text → WorkItem V → Bool
  shown_with prefix item = starts_with prefix (show_id show_uuid item.id)

  -- The `match` on the number of items whose id starts with the prefix.
  pub the_one : Text → List (WorkItem V) → Result Failure WorkId
  the_one prefix [] = err (Failure.bail (lit "no work item matching prefix " ++ quoted prefix))
  the_one prefix (item ∷ []) = ok item.id
  the_one prefix (item ∷ more ∷ items) = err (
      Failure.bail (
        decimal (length (item ∷ more ∷ items))
        ++ (lit " work items match prefix "
            ++ (quoted prefix ++ (lit " " ++ (em_dash ++ lit " be more specific"))))))

  pub find_by_prefix : Text → List (WorkItem V) → Result Failure WorkId
  find_by_prefix prefix items = the_one prefix (rows_where (shown_with prefix) items)

abbrev or_dash : Option Text → Text
or_dash o = unwrap_or (lit "-") o

module _ (j : JsonLib) (P : Pgmq j.Value) (show_uuid : Uuid → Text) where
  open j use {Value, to_string_pretty}

  -- A line for a field that is there.
  abbrev line_if {ℓ} : {A : Type ℓ} → (A → Text) → Option A → List Text
  line_if line none = []
  line_if line (some a) = line a ∷ []

  pub outcome_lines : Option (Outcome Value) → List Text
  outcome_lines none = []
  outcome_lines (some outcome) =
      lit "---"
      ∷ (lit "Outcome:    " ++ (if outcome.success then lit "success" else lit "failure"))
      ∷ (elim outcome.output [
        | none ↦ []
        | some value ↦ (lit "Data:       " ++ to_string_pretty value) ∷ []
      ]
          ++ (line_if (λ e. lit "Error:      " ++ e) outcome.error
              ++ (lit "Duration:   " ++ (decimal outcome.duration_ms ++ lit "ms")) ∷ []))

  -- `show_time` is the `Display` of a time.
  pub item_lines : (show_time : Time → Text) → WorkItem Value → List Text
  item_lines show_time item =
      (lit "ID:         " ++ show_id show_uuid item.id)
      ∷ (lit "Faculty:    " ++ item.faculty)
      ∷ (lit "Skill:      " ++ or_dash item.skill)
      ∷ (lit "State:      " ++ State.show item.state)
      ∷ (lit "Priority:   " ++ show_int item.priority)
      ∷ (lit "Dedup Key:  " ++ or_dash item.dedup_key)
      ∷ (lit "Source:     " ++ item.provenance.source)
      ∷ (lit "Trigger:    " ++ or_dash item.provenance.trigger)
      ∷ (lit "Params:     " ++ to_string_pretty item.params)
      ∷ ((lit "Attempts:   " ++ decimal item.attempts)
          ∷ (lit "Max Tries:  " ++ or_dash (Option.map decimal item.max_attempts))
          ∷ (lit "Created:    " ++ show_time item.created_at)
          ∷ (lit "Updated:    " ++ show_time item.updated_at)
          ∷ (line_if (λ t. lit "Resolved:   " ++ show_time t) item.resolved_at
              ++ (line_if (λ id. lit "Parent:     " ++ show_id show_uuid id) item.parent_id
                  ++ (line_if (λ id. lit "Merged Into: " ++ show_id show_uuid id) item.merged_into
                      ++ outcome_lines item.outcome))))

  -- The part behind the resolution of the id.
  pub show_item : (show_time : Time → Text) → WorkId → World P → Run P
  show_item show_time id w =
      after_db (get_work_item j P show_uuid id w) (λ item w'. prints (item_lines show_time item) w')

  -- An argument of fewer than 36 bytes is a prefix, sought among 100 items; a longer one is parsed.
  pub cmd_work_show :
      (parse_uuid : Text → Result Text Uuid) (show_time : Time → Text) → Text → World P → Run P
  cmd_work_show parse_uuid show_time id_str w =
      if ltb (length id_str) 36
      then after_db (list_work_items j P none none (pos 100) w) (λ items w1.
        after (find_by_prefix show_uuid id_str items) w1 (λ id w2. show_item show_time id w2))
      else after (passed_on (parse_uuid id_str)) w
          (λ uuid w1. show_item show_time (record { uuid = uuid }) w1)
