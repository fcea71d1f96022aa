-- ===== src/Tests/Serving.antt =====
-- Runs of telemetry (src/telemetry) and of the command `serve` (src/bin/animus.rs).
use animus_rs.Prelude.{false, some, List, [], Text, lit, ok, Result, decimal}
use animus_rs.Engine.Faculty.{FacultyMeta, DirEntry}
use animus_rs.Telemetry.{TelemetryConfig, init_telemetry}
use animus_rs.Llm.Client.{openai_client}
use animus_rs.Telemetry.Model as Crates
use animus_rs.Telemetry.SetUp.{Inits, init_telemetry-Inits}
use animus_rs.Cli.Llm.{Shell}
use animus_rs.Cli.Main.{Outside, serve, main}
use animus_rs.Cli.Main.Refused.{Fails, main-Fails}
use animus_rs.Tests.Cli.{shell, plain, post}
use animus_rs.Tests.Config.{with_database}
use animus_rs.Tests.Control.{queues, ready, encode}
use animus_rs.Tests.Loop.{wakes}
use animus_rs.Tests.Focus.{json, host, faculty}

abbrev fresh : Crates.Process
fresh = record { subscribed = false; calls = [] }

abbrev exporting : TelemetryConfig
exporting = record { endpoint = some (lit "url"); service_name = lit "animus" }

init_telemetry-Inits_example :
    Inits Crates.model (some (lit "url")) fresh (init_telemetry Crates.model exporting fresh)
init_telemetry-Inits_example = init_telemetry-Inits Crates.model exporting fresh

-- The directory of the faculties is empty.
abbrev entries : Result Text (List (Result Text DirEntry))
entries = ok []

abbrev parse_faculty : Text → Result Text FacultyMeta
parse_faculty s = ok faculty

abbrev outside : Outside json
outside = record {
  show_uuid = decimal;
  parse_uuid = λ s. some 7;
  try_parse_uuid = λ s. ok 7;
  encode = encode;
  show_minute = decimal;
  show_time = decimal;
  new_id = 8;
  now = 10;
  db_now = 11;
  from_str = parse_faculty;
  entries = entries;
  tera = plain;
  connect = openai_client json (λ s. s) post;
}

abbrev with_url : Shell
with_url = record shell { env = with_database }

main-Fails_example : Fails Crates.model json queues host outside with_url wakes ready (
    main Crates.model json queues host outside with_url wakes
      (serve (lit "faculties") 4)
      ready
      fresh)
main-Fails_example =
    main-Fails Crates.model json queues host outside with_url wakes (lit "faculties") 4 ready fresh
