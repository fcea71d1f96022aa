-- ===== src/Cli/Serve.antt =====
-- src/bin/animus.rs: `work` and `serve`, which start the parts of the program from its environment.
pub mod Refused
use animus_rs.Prelude.{ℕ, ℤ, pos, Option, none, some, List, Text, lit, Result, ok, err}
use animus_rs.Json.{JsonLib}
use animus_rs.Work.Item.{Uuid, Time, WorkItem}
use animus_rs.Config.{Env, Config, from_env}
use animus_rs.Db.Pgmq.{Pgmq}
use animus_rs.Db.Session.{Error, World, M, ◌>>◌}
use animus_rs.Db.Connection.{connect, migrate}
use animus_rs.Db.Queue.{create_queue}
use animus_rs.Db.Work.{work_queue}
use animus_rs.Engine.Host.{Host}
use animus_rs.Engine.Faculty.{FacultyMeta, FacultyRegistry, DirEntry, load_from_dir}
use animus_rs.Engine.Control.{ControlPlane, Plane}
use animus_rs.Engine.Control.Loop.{Wake, run}
use animus_rs.Telemetry.Crates.{Sdk}
use animus_rs.Telemetry.{TelemetryConfig, TelemetryGuard, init_telemetry, drop}
use animus_rs.Cli.Failure.{Failure}
use animus_rs.Cli.Work.{Run, fails, after_db, cmd_work_submit, cmd_work_list}
use animus_rs.Cli.Item.{cmd_work_show}

-- `WorkAction`; the priority is an `i32` and the limit an `i64`.
pub data WorkAction : Type 0 where
  submit : (faculty source : Text) (skill dedup_key trigger params : Option Text) → ℤ → WorkAction
  items : (state faculty : Option Text) → ℤ → WorkAction
  show : Text → WorkAction

-- src/engine/control.rs: `ControlConfig::default` in `ControlPlane::new`. The interval of the timer is
-- part of what wakes the loop.
pub new_plane : FacultyRegistry → ℕ → ControlPlane
new_plane registry max_concurrent = record {
  registry = registry;
  focus_base_dir = lit "/tmp/animus-foci";
  visibility_timeout = pos 60;
  max_concurrent = max_concurrent;
}

module _ {V : Type 0} (P : Pgmq V) where
  -- The database as both commands start it.
  pub open_database : Config → M P (Unit {0})
  open_database config = do connect P config.database_url; migrate P; create_queue P work_queue

module _ (j : JsonLib) (P : Pgmq j.Value) (show_uuid : Uuid → Text) where
  -- What a command draws: the id of a new item, and the times of the program and of the server.
  pub act :
      (parse_uuid : Text → Result Text Uuid) (show_minute show_time : Time → Text) (id : Uuid)
      (now db_now : Time)
      → WorkAction
      → World P
      → Run P
  act parse_uuid show_minute show_time id now db_now
        (submit faculty source skill dedup_key trigger params priority) =
      cmd_work_submit j P show_uuid id now db_now faculty source skill dedup_key trigger params
        priority
  act parse_uuid show_minute show_time id now db_now (items state faculty limit) =
      cmd_work_list j P show_uuid show_minute show_time state faculty limit
  act parse_uuid show_minute show_time id now db_now (show id_str) =
      cmd_work_show j P show_uuid parse_uuid show_time id_str

  pub work :
      (parse_uuid : Text → Result Text Uuid) (show_minute show_time : Time → Text) (id : Uuid)
      (now db_now : Time)
      → Env
      → WorkAction
      → World P
      → Run P
  work parse_uuid show_minute show_time id now db_now env action w = elim (from_env env) [
    | err e ↦ fails (Failure.engine e) w
    | ok config ↦
        after_db (open_database P config w)
          (λ _ w'. act parse_uuid show_minute show_time id now db_now action w')
  ]

module _ (S : Sdk) (j : JsonLib) (P : Pgmq j.Value) (H : Host) where
  -- How a command ends and what it leaves; `none` is a control plane that still runs.
  abbrev pub Served : Type 0
  Served = Option (Result Error (Unit {0})) × Plane j P H × S.Process

  -- The guard is dropped when the function returns.
  pub guarded :
      TelemetryGuard S → S.Process → Option (Result Error (Unit {0})) × Plane j P H → Served
  guarded guard q (none, p) = (none, p, q)
  guarded guard q (some r, p) = (some r, p, drop S guard q)

module _ (S : Sdk) (j : JsonLib) (P : Pgmq j.Value) (H : Host) (show_uuid : Uuid → Text)
    (parse_uuid : Text → Option Uuid) (encode : WorkItem j.Value → Result Text Text) where
  pub serve_registry :
      ℕ
      → List (Wake P)
      → Plane j P H
      → Result Error FacultyRegistry
      → Option (Result Error (Unit {0})) × Plane j P H
  serve_registry max_concurrent wakes p (err e) = (some (err e), p)
  serve_registry max_concurrent wakes p (ok registry) =
      run j P H show_uuid parse_uuid encode (new_plane registry max_concurrent) wakes p

  pub serve_database :
      ℕ
      → List (Wake P)
      → Plane j P H
      → Result Error FacultyRegistry
      → Result Error (Unit {0}) × World P
      → Option (Result Error (Unit {0})) × Plane j P H
  serve_database max_concurrent wakes p faculties (err e, w) = (some (err e), record p { db = w })
  serve_database max_concurrent wakes p faculties (ok _, w) =
      serve_registry max_concurrent wakes (record p { db = w }) faculties

  pub serve_with :
      Config
      → Result Error FacultyRegistry
      → ℕ
      → List (Wake P)
      → Plane j P H
      → Result Error (TelemetryGuard S) × S.Process
      → Served S j P H
  serve_with config faculties max_concurrent wakes p (err e, q) = (some (err e), p, q)
  serve_with config faculties max_concurrent wakes p (ok guard, q) =
      guarded S j P H guard q
        (serve_database max_concurrent wakes p faculties (open_database P config p.db))

  abbrev pub telemetry_of : Config → TelemetryConfig
  telemetry_of config = record { endpoint = config.otel_endpoint; service_name = lit "animus" }

  pub serve_config :
      Result Error FacultyRegistry
      → ℕ
      → List (Wake P)
      → Plane j P H
      → S.Process
      → Result Error Config
      → Served S j P H
  serve_config faculties max_concurrent wakes p q (err e) = (some (err e), p, q)
  serve_config faculties max_concurrent wakes p q (ok config) =
      serve_with config faculties max_concurrent wakes p (init_telemetry S (telemetry_of config) q)

  -- `entries` is what reading the directory answers, and `from_str` the TOML parser.
  pub cmd_serve :
      (from_str : Text → Result Text FacultyMeta)
      (entries : Result Text (List (Result Text DirEntry)))
      → Env
      → (faculties : Text) (max_concurrent : ℕ) → List (Wake P)
      → Plane j P H
      → S.Process
      → Served S j P H
  cmd_serve from_str entries env faculties max_concurrent wakes p q =
      serve_config (load_from_dir from_str faculties entries) max_concurrent wakes p q
        (from_env env)
