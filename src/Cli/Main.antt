-- ===== src/Cli/Main.antt =====
-- src/bin/animus.rs: `main`, behind `dotenv` and the parser of the arguments.
pub mod Refused
use animus_rs.Prelude.{ℕ, Option, none, some, List, [], ◌∷◌, map, Text, lit, Result, ok, err}
use animus_rs.Json.{JsonLib}
use animus_rs.Work.Item.{Uuid, Time, WorkItem}
use animus_rs.Llm.Retry.{OpenAiClient}
use animus_rs.Llm.Client.{LlmClient}
use animus_rs.Db.Pgmq.{Pgmq}
use animus_rs.Db.Session.{Error}
use animus_rs.Engine.Host.{Host}
use animus_rs.Engine.Faculty.{FacultyMeta, DirEntry}
use animus_rs.Engine.Control.{Plane}
use animus_rs.Engine.Control.Loop.{Wake}
use animus_rs.Telemetry.Crates.{Sdk, to_stderr}
use animus_rs.Cli.Failure.{Failure}
use animus_rs.Cli.Prompt.{Tera}
use animus_rs.Cli.Llm.{CompleteArgs, Shell}
use animus_rs.Cli.Show.{Output, out, line, cmd_llm_complete}
use animus_rs.Cli.Work.{Run}
use animus_rs.Cli.Serve.{WorkAction, Served, work, cmd_serve}

-- `Command`, with `LlmAction`, which has one case.
pub data Command : Type 0 where
  serve : (faculties : Text) (max_concurrent : ℕ) → Command
  on_work : WorkAction → Command
  llm : CompleteArgs → Command

-- How the libraries and the outside answer: parsers and formats, what a new item and the clocks give,
-- the directory of faculties, the client and the template engine.
pub record Outside (j : JsonLib) : Type 1 where
  pub show_uuid : Uuid → Text
  pub parse_uuid : Text → Option Uuid
  pub try_parse_uuid : Text → Result Text Uuid
  pub encode : WorkItem j.Value → Result Text Text
  pub show_minute : Time → Text
  pub show_time : Time → Text
  pub new_id : Uuid
  pub now : Time
  pub db_now : Time
  pub from_str : Text → Result Text FacultyMeta
  pub entries : Result Text (List (Result Text DirEntry))
  pub tera : Tera
  pub connect : OpenAiClient → LlmClient j.Value j.Float

module _ (S : Sdk) (j : JsonLib) (P : Pgmq j.Value) (H : Host) where
  -- How the program ends, what it has written, and what it leaves; no result is a control plane that
  -- still runs.
  pub record Exit : Type 0 where
    pub result : Option (Result Failure (Unit {0}))
    pub printed : List Output
    pub plane : Plane j P H
    pub process : S.Process

  pub warn_filter : Result Text S.EnvFilter → S.EnvFilter
  warn_filter (ok filter) = filter
  warn_filter (err e) = S.default_filter (lit "warn")

  -- `tracing_subscriber::fmt() … .init()`
  pub init_logging : S.Process → Result Text (Unit {0}) × S.Process
  init_logging q = S.try_init (warn_filter (S.filter_from_env q)) (S.fmt_layer to_stderr ∷ []) q

  pub after_serve : Served S j P H → Exit
  after_serve (some (ok u), p, q) = record {
    result = some (ok u);
    printed = [];
    plane = p;
    process = q;
  }
  after_serve (some (err e), p, q) = record {
    result = some (err (Failure.engine e));
    printed = [];
    plane = p;
    process = q;
  }
  after_serve (none, p, q) = record { result = none; printed = []; plane = p; process = q }

  pub after_work : Plane j P H → S.Process → Run P → Exit
  after_work p q r = record {
    result = some r.result;
    printed = map (λ s. out (line s)) r.printed;
    plane = record p { db = r.world };
    process = q;
  }

  pub after_llm : Plane j P H → S.Process → Result Failure (Unit {0}) × List Output → Exit
  after_llm p q (r, written) = record { result = some r; printed = written; plane = p; process = q }

  module _ (o : Outside j) (shell : Shell) (wakes : List (Wake P)) where
    pub run_command : Command → Plane j P H → S.Process → Exit
    run_command (serve faculties max_concurrent) p q = after_serve (
        cmd_serve S j P H o.show_uuid o.parse_uuid o.encode o.from_str o.entries shell.env faculties
          max_concurrent wakes p q)
    run_command (on_work action) p q = after_work p q (
        work j P o.show_uuid o.try_parse_uuid o.show_minute o.show_time o.new_id o.now o.db_now
          shell.env action p.db)
    run_command (llm args) p q = after_llm p q (cmd_llm_complete j o.tera o.connect shell args)

    pub logged : Command → Plane j P H → Result Text (Unit {0}) × S.Process → Exit
    logged command p (ok _, q) = run_command command p q
    logged command p (err e, q) = record {
      result = some (err (Failure.panic e));
      printed = [];
      plane = p;
      process = q;
    }

    pub main : Command → Plane j P H → S.Process → Exit
    main command p q = logged command p (init_logging q)
