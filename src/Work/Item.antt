-- ===== src/Work/Item.antt =====
-- src/model/work.rs: `WorkItem` with its parts, and the builder `NewWorkItem`. `V` is
-- `serde_json::Value`; a UUID is its 128-bit number, a time is its number of microseconds.
use animus_rs.Prelude.{ℕ, ℤ, pos, Bool, Option, none, some, Text}
use animus_rs.Work.State.{State}

abbrev pub Uuid : Type 0
Uuid = ℕ

abbrev pub Time : Type 0
Time = ℕ

pub record WorkId : Type 0 where
  pub uuid : Uuid

pub record Provenance : Type 0 where
  pub source : Text
  pub trigger : Option Text

pub record Outcome (V : Type 0) : Type 0 where
  pub success : Bool
  pub output : Option V
  pub error : Option Text
  pub duration_ms : ℕ

pub record WorkItem (V : Type 0) : Type 0 where
  pub id : WorkId
  pub faculty : Text
  pub skill : Option Text
  pub dedup_key : Option Text
  pub provenance : Provenance
  pub params : V
  pub priority : ℤ
  pub state : State
  pub merged_into : Option WorkId
  pub parent_id : Option WorkId
  pub attempts : ℕ
  pub max_attempts : Option ℕ
  pub created_at : Time
  pub updated_at : Time
  pub resolved_at : Option Time
  pub outcome : Option (Outcome V)

pub record NewWorkItem (V : Type 0) : Type 0 where
  pub faculty : Text
  pub skill : Option Text
  pub dedup_key : Option Text
  pub provenance : Provenance
  pub params : V
  pub priority : ℤ
  pub parent_id : Option WorkId
  pub max_attempts : Option ℕ

module _ {V : Type 0} where
  -- `null` is `serde_json::Value::Null`.
  pub new_item : V → Text → Text → NewWorkItem V
  new_item null faculty source = record {
    faculty = faculty;
    skill = none;
    dedup_key = none;
    provenance = record { source = source; trigger = none };
    params = null;
    priority = pos 0;
    parent_id = none;
    max_attempts = none;
  }

  pub with_skill : Text → NewWorkItem V → NewWorkItem V
  with_skill skill item = record item { skill = some skill }

  pub with_dedup_key : Text → NewWorkItem V → NewWorkItem V
  with_dedup_key key item = record item { dedup_key = some key }

  pub with_trigger : Text → NewWorkItem V → NewWorkItem V
  with_trigger trigger item = record item {
    provenance = record { source = item.provenance.source; trigger = some trigger };
  }

  pub with_params : V → NewWorkItem V → NewWorkItem V
  with_params params item = record item { params = params }

  pub with_priority : ℤ → NewWorkItem V → NewWorkItem V
  with_priority priority item = record item { priority = priority }

  pub with_parent : WorkId → NewWorkItem V → NewWorkItem V
  with_parent parent_id item = record item { parent_id = some parent_id }

  pub with_max_attempts : ℕ → NewWorkItem V → NewWorkItem V
  with_max_attempts n item = record item { max_attempts = some n }
