-- ===== src/Engine/Focus/Pipeline.antt =====
-- The pipeline of src/engine/focus.rs against a description of which hooks have run.
use animus_rs.Prelude.{
  ◌≡◌, ◌≢◌, refl, Option, none, some, List, [], ◌∷◌, ◌++◌, Text, lit, Result, ok, err, ◌⊎◌, inl,
  inr, ap,
}
use animus_rs.Json.{JsonLib}
use animus_rs.Work.Item.{Uuid}
use animus_rs.Db.Session.{Error}
use animus_rs.Engine.Host.{Host}
use animus_rs.Engine.Faculty.{FacultyMeta}
use animus_rs.Engine.Focus.{
  FocusResult, completed, failed, Focus, display, phases_of, run_hook, after_hook, run_phases,
  outcome_path, parsed_outcome, outcome_in, read_outcome, concluded, run,
}

module _ (j : JsonLib) (H : Host) (show_uuid : Uuid → Text) (focus : Focus j.Value) where
  open j use {Value, from_str}
  open H use {Machine, read_to_string, elapsed}

  -- The hooks of these phases run one after the other, and each of them succeeds.
  pub data Passes : List (Text × Text) → Machine → Machine → Type 0 where
    none_left : {m : Machine} → Passes [] m m
    pass :
        {phase command : Text} {phases : List (Text × Text)} {m m1 m2 : Machine}
        → run_hook j H show_uuid focus phase command m ≡ (ok tt, m1)
        → Passes phases m1 m2
        → Passes ((phase, command) ∷ phases) m m2

  -- The hook of one phase fails after those before it have passed; those after it do not run.
  pub record Breaks (phases : List (Text × Text)) (phase : Text) (e : Error) (m m' : Machine)
      : Type 0 where
    pub before : List (Text × Text)
    pub after : List (Text × Text)
    pub command : Text
    pub reached : Machine
    pub order : phases ≡ before ++ (phase, command) ∷ after
    pub passed : Passes before m reached
    pub broke : run_hook j H show_uuid focus phase command reached ≡ (err e, m')

  pub Phases : List (Text × Text) → Machine → Option (Text × Error) × Machine → Type 0
  Phases phases m (none, m') = Passes phases m m'
  Phases phases m (some (phase, e), m') = Breaks phases phase e m m'

  -- What a result of `run` says of the hooks and of the outcome file.
  pub Explains : FacultyMeta → Machine → FocusResult Value × Machine → Type 0
  Explains f m (completed v ms, m') =
      Passes (phases_of f) m m'
      × (ms ≡ elapsed m')
      × ((content : Text) × (read_to_string (outcome_path j H show_uuid focus m') m' ≡ ok content)
          × (from_str content ≡ ok v))
  Explains f m (failed phase e ms, m') =
      (ms ≡ elapsed m')
      × (((error : Error) × (e ≡ display error) × Breaks (phases_of f) phase error m m')
          ⊎ (Passes (phases_of f) m m'
              × (phase ≡ lit "consolidate")
              × ((content : Text) (v : Value)
                  → read_to_string (outcome_path j H show_uuid focus m') m' ≡ ok content
                  → from_str content ≢ ok v)))

  push :
      (phase command : Text) (phases : List (Text × Text)) (m m1 : Machine)
      (r : Option (Text × Error) × Machine)
      → run_hook j H show_uuid focus phase command m ≡ (ok tt, m1)
      → Phases phases m1 r
      → Phases ((phase, command) ∷ phases) m r
  unfolding Phases
  push phase command phases m m1 (none, m') e h = pass e h
  push phase command phases m m1 (some (p, error), m') e h = record {
    before = (phase, command) ∷ h.before;
    after = h.after;
    command = h.command;
    reached = h.reached;
    order = ap (◌∷◌ (phase, command)) h.order;
    passed = pass e h.passed;
    broke = h.broke;
  }

  run_phases-Phases :
      (phases : List (Text × Text)) (m : Machine)
      → Phases phases m (run_phases j H show_uuid focus phases m)
  unfolding run_phases Phases after_hook
  run_phases-Phases [] m = none_left
  run_phases-Phases ((phase, command) ∷ phases) m =
      go (run_hook j H show_uuid focus phase command m).0
        (run_hook j H show_uuid focus phase command m).1 refl (λ m1. run_phases-Phases phases m1)
    where
      go :
          (r : Result Error (Unit {0})) (m1 : Machine)
          → run_hook j H show_uuid focus phase command m ≡ (r, m1)
          → ((m1 : Machine) → Phases phases m1 (run_phases j H show_uuid focus phases m1))
          → Phases
              ((phase, command) ∷ phases)
              m
              (after_hook j H show_uuid phase (run_phases j H show_uuid focus phases) (r, m1))
      go (ok u) m1 e rest = push phase command phases m m1 _ e (rest m1)
      go (err error) m1 e rest = record {
        before = [];
        after = phases;
        command = command;
        reached = m;
        order = refl;
        passed = none_left;
        broke = e;
      }

  parsed-Explains :
      (f : FacultyMeta) (m m' : Machine) (content : Text) (r : Result Text Value)
      → Passes (phases_of f) m m'
      → read_to_string (outcome_path j H show_uuid focus m') m' ≡ ok content
      → from_str content ≡ r
      → Explains f m (parsed_outcome j H show_uuid (elapsed m') r, m')
  unfolding parsed_outcome Explains
  parsed-Explains f m m' content (ok v) passed h e = (passed, refl, (content, h, e))
  parsed-Explains f m m' content (err error) passed h e =
      (refl, inr (passed, refl, λ content' v h' e'. cc))

  outcome-Explains :
      (f : FacultyMeta) (m m' : Machine) (r : Result Text Text)
      → Passes (phases_of f) m m'
      → read_to_string (outcome_path j H show_uuid focus m') m' ≡ r
      → Explains f m (outcome_in j H show_uuid (elapsed m') r, m')
  unfolding outcome_in Explains
  outcome-Explains f m m' (ok content) passed h = parsed-Explains f m m' content _ passed h refl
  outcome-Explains f m m' (err error) passed h = (refl, inr (passed, refl, λ content v h' e'. cc))

  concluded-Explains :
      (f : FacultyMeta) (m : Machine) (r : Option (Text × Error) × Machine)
      → Phases (phases_of f) m r
      → Explains f m (concluded j H show_uuid focus r)
  unfolding concluded read_outcome Phases Explains
  concluded-Explains f m (none, m') h = outcome-Explains f m m' _ h refl
  concluded-Explains f m (some (phase, e), m') h = (refl, inl (e, refl, h))

  -- A focus is completed only if the hooks of all its phases (orient and consolidate where the
  -- faculty has them, engage between them) have run in this order and succeeded, and the outcome is
  -- the JSON value of the outcome file. It is failed only if one hook failed after those before it
  -- had passed, with no later hook run, or if all passed and the outcome file has no JSON value.
  pub run-Explains : (f : FacultyMeta) (m : Machine) → Explains f m (run j H show_uuid focus f m)
  unfolding run
  run-Explains f m = concluded-Explains f m _ (run_phases-Phases (phases_of f) m)
