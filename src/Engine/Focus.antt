-- ===== src/Engine/Focus.antt =====
-- src/engine/focus.rs: the directory of a focus and its pipeline of hooks.
pub mod Pipeline
use animus_rs.Prelude.{
  ℕ, suc, ℤ, pos, negsuc, Bool, true, false, Option, none, some, List, [], ◌∷◌, ◌++◌, Text, lit,
  decimal, Result, ok, err, unwrap_or, if◌then◌else◌,
}
use animus_rs.Json.{JsonLib}
use animus_rs.Work.Item.{Uuid, WorkItem}
use animus_rs.Db.Session.{Error}
use animus_rs.Engine.Host.{Host, ExitStatus}
use animus_rs.Engine.Faculty.{HookConfig, FacultyMeta}

-- `Display` of an error.
pub display : Error → Text
display (Error.not_found s) = lit "not found: " ++ s
display (Error.invalid_transition from to) =
    lit "invalid state transition: " ++ from ++ lit " -> " ++ to
display (Error.database s) = lit "database error: " ++ s
display (Error.invalid_state s) = lit "invalid state: " ++ s
display (Error.config s) = lit "configuration error: " ++ s
display (Error.io s) = lit "IO error: " ++ s
display (Error.other s) = s

pub show_int : ℤ → Text
show_int (pos n) = decimal n
show_int (negsuc n) = lit "-" ++ decimal (suc n)

pub data FocusResult (V : Type 0) : Type 0 where
  completed : V → ℕ → FocusResult V
  failed : Text → Text → ℕ → FocusResult V

pub record Focus (V : Type 0) : Type 0 where
  pub id : Uuid
  pub dir : Text
  pub work_item : WorkItem V

unfoldable pub hook_phase : Text → Option HookConfig → List (Text × Text)
hook_phase phase none = []
hook_phase phase (some hook) = (phase, hook.command) ∷ []

-- The phases of a faculty: the first and the last are optional.
unfoldable pub phases_of : FacultyMeta → List (Text × Text)
phases_of f =
    hook_phase (lit "orient") f.orient
    ++ (lit "engage", f.engage.command) ∷ hook_phase (lit "consolidate") f.consolidate

module _ (j : JsonLib) (H : Host) (show_uuid : Uuid → Text) where
  open j use {Value, from_str}
  open H use {
    Machine, create_dir_all, write, read_to_string, exists, remove_dir_all, current_dir,
    is_relative, join, status, elapsed,
  }

  -- A call of the host that may fail, and what follows it.
  abbrev pub io :
      {A B : Type 0}
      → (A → Machine → Result Error B × Machine)
      → Result Text A × Machine
      → Result Error B × Machine
  io f (ok a, m) = f a m
  io f (err e, m) = (err (Error.io e), m)

  -- `id` is the new UUID; `encode` is the derived serializer.
  unfoldable pub create :
      (WorkItem Value → Result Text Text)
      → Text
      → Uuid
      → WorkItem Value
      → Machine
      → Result Error (Focus Value) × Machine
  create encode base_dir id work_item m =
      let dir = join base_dir (show_uuid id) in
      io
        (λ _ m1. elim (encode work_item) [
          | err e ↦ (err (Error.other (lit "serialize work item: " ++ e)), m1)
          | ok work_json ↦
              io (λ _ m2. (ok (record { id = id; dir = dir; work_item = work_item }), m2))
                (write (join dir (lit "work.json")) work_json m1)
        ])
        (create_dir_all dir m)

  unfoldable pub exit_result : Text → ExitStatus → Result Error (Unit {0})
  exit_result phase s =
      if s.success
      then ok tt
      else err (
          Error.other
            (phase ++ lit " hook exited with status " ++ show_int (unwrap_or (negsuc 0) s.code)))

  unfoldable pub hook_env : Focus Value → Text → List (Text × Text)
  hook_env focus phase =
      (lit "ANIMUS_FOCUS_DIR", focus.dir)
      ∷ (lit "ANIMUS_FACULTY", focus.work_item.faculty)
      ∷ (lit "ANIMUS_WORK_ID", show_uuid focus.work_item.id.uuid)
      ∷ (lit "ANIMUS_PHASE", phase)
      ∷ []

  unfoldable pub run_hook : Focus Value → Text → Text → Machine → Result Error (Unit {0}) × Machine
  run_hook focus phase command m =
      io
        (λ abs_command m1.
          io (λ s m2. (exit_result phase s, m2))
            (status abs_command focus.dir (hook_env focus phase) m1))
        (if is_relative command
          then elim (current_dir m) [ ok cwd ↦ (ok (join cwd command), m) | err e ↦ (err e, m) ]
          else (ok command, m))

  -- One round of the loop over the phases, where `rest` are the rounds that follow.
  unfoldable pub after_hook :
      Text
      → (Machine → Option (Text × Error) × Machine)
      → Result Error (Unit {0}) × Machine
      → Option (Text × Error) × Machine
  after_hook phase rest (ok _, m) = rest m
  after_hook phase rest (err e, m) = (some (phase, e), m)

  -- The loop over the phases: the first that fails, with its error.
  unfoldable pub run_phases :
      Focus Value → List (Text × Text) → Machine → Option (Text × Error) × Machine
  run_phases focus [] m = (none, m)
  run_phases focus ((phase, command) ∷ phases) m =
      after_hook phase (run_phases focus phases) (run_hook focus phase command m)

  -- The outcome file: that of `consolidate`, or else that of `engage`.
  unfoldable pub outcome_path : Focus Value → Machine → Text
  outcome_path focus m =
      if exists (join focus.dir (lit "consolidate-out.json")) m
      then join focus.dir (lit "consolidate-out.json")
      else join focus.dir (lit "engage-out.json")

  unfoldable pub parsed_outcome : ℕ → Result Text Value → FocusResult Value
  parsed_outcome ms (ok v) = completed v ms
  parsed_outcome ms (err e) = failed (lit "consolidate") (lit "bad consolidate-out.json: " ++ e) ms

  unfoldable pub outcome_in : ℕ → Result Text Text → FocusResult Value
  outcome_in ms (ok content) = parsed_outcome ms (from_str content)
  outcome_in ms (err e) = failed (lit "consolidate") (lit "missing consolidate-out.json: " ++ e) ms

  unfoldable pub read_outcome : Focus Value → Machine → FocusResult Value
  read_outcome focus m = outcome_in (elapsed m) (read_to_string (outcome_path focus m) m)

  -- What follows the loop over the phases.
  unfoldable pub concluded :
      Focus Value → Option (Text × Error) × Machine → FocusResult Value × Machine
  concluded focus (some (phase, e), m) = (failed phase (display e) (elapsed m), m)
  concluded focus (none, m) = (read_outcome focus m, m)

  unfoldable pub run : Focus Value → FacultyMeta → Machine → FocusResult Value × Machine
  run focus faculty m = concluded focus (run_phases focus (phases_of faculty) m)

  pub cleanup : Focus Value → Machine → Result Error (Unit {0}) × Machine
  cleanup focus m = io (λ _ m'. (ok tt, m')) (remove_dir_all focus.dir m)
