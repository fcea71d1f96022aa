-- ===== src/Cli/Serve/Refused.antt =====
-- The command `serve` (src/bin/animus.rs) in a process that has a subscriber.
use animus_rs.Prelude.{ℕ, ◌≡◌, refl, true, Option, some, List, Text, Result, ok, err}
use animus_rs.Json.{JsonLib}
use animus_rs.Work.Item.{Uuid, WorkItem}
use animus_rs.Db.Pgmq.{Pgmq}
use animus_rs.Db.Session.{Error}
use animus_rs.Config.{Env, Config, from_env}
use animus_rs.Engine.Host.{Host}
use animus_rs.Engine.Faculty.{FacultyMeta, FacultyRegistry, DirEntry, load_from_dir}
use animus_rs.Engine.Control.{Plane}
use animus_rs.Engine.Control.Loop.{Wake}
use animus_rs.Telemetry.Crates.{Sdk}
use animus_rs.Telemetry.{TelemetryGuard}
use animus_rs.Telemetry.SetUp.{Inits, init_telemetry-Inits}
use animus_rs.Cli.Serve.{Served, serve_with, telemetry_of, serve_config, cmd_serve}

module _ (S : Sdk) (j : JsonLib) (P : Pgmq j.Value) (H : Host) (show_uuid : Uuid → Text)
    (parse_uuid : Text → Option Uuid) (encode : WorkItem j.Value → Result Text Text) where
  open S use {Process, has_subscriber}

  module _ (faculties : Result Error FacultyRegistry) (max_concurrent : ℕ) (wakes : List (Wake P))
      (p : Plane j P H) where
    -- The process already has a subscriber: there is an error, and the control plane, the database
    -- and the host are as they were.
    abbrev pub IsRefused : Served S j P H → Type 0
    IsRefused (r, p', q) = (e : Error) × (r ≡ some (err e)) × (p' ≡ p)

    serve_with-IsRefused :
        (config : Config) (q : Process) (r : Result Error (TelemetryGuard S) × Process)
        → has_subscriber q ≡ true
        → Inits S config.otel_endpoint q r
        → IsRefused (
            serve_with S j P H show_uuid parse_uuid encode config faculties max_concurrent wakes p
              r)
    unfolding serve_with Inits
    serve_with-IsRefused config q (ok guard, q') set a = absurd (cc (a.was_unset, set))
    serve_with-IsRefused config q (err e, q') set a = (e, refl, refl)

    serve_config-IsRefused :
        (q : Process) (config : Result Error Config)
        → has_subscriber q ≡ true
        → IsRefused (
            serve_config S j P H show_uuid parse_uuid encode faculties max_concurrent wakes p q
              config)
    unfolding serve_config
    serve_config-IsRefused q (err e) set = (e, refl, refl)
    serve_config-IsRefused q (ok config) set =
        serve_with-IsRefused config q _ set
          (init_telemetry-Inits S (telemetry_of S j P H show_uuid parse_uuid encode config) q)

  pub cmd_serve-IsRefused :
      (from_str : Text → Result Text FacultyMeta)
      (entries : Result Text (List (Result Text DirEntry))) (env : Env) (faculties : Text)
      (max_concurrent : ℕ) (wakes : List (Wake P)) (p : Plane j P H) (q : Process)
      → has_subscriber q ≡ true
      → IsRefused (load_from_dir from_str faculties entries) max_concurrent wakes p (
          cmd_serve S j P H show_uuid parse_uuid encode from_str entries env faculties
            max_concurrent wakes p q)
  unfolding cmd_serve
  cmd_serve-IsRefused from_str entries env faculties max_concurrent wakes p q set =
      serve_config-IsRefused (load_from_dir from_str faculties entries) max_concurrent wakes p q
        (from_env env) set
