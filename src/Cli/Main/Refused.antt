-- ===== src/Cli/Main/Refused.antt =====
-- What becomes of the command `serve` behind `main` (src/bin/animus.rs).
use animus_rs.Prelude.{ℕ, ◌≡◌, refl, true, some, List, [], Text, Result, ok, err}
use animus_rs.Json.{JsonLib}
use animus_rs.Db.Pgmq.{Pgmq}
use animus_rs.Db.Session.{Error}
use animus_rs.Engine.Host.{Host}
use animus_rs.Engine.Control.{Plane}
use animus_rs.Engine.Control.Loop.{Wake}
use animus_rs.Telemetry.Crates.{Sdk}
use animus_rs.Cli.Failure.{Failure}
use animus_rs.Cli.Llm.{Shell}
use animus_rs.Cli.Serve.{Served}
use animus_rs.Cli.Serve.Refused.{cmd_serve-IsRefused}
use animus_rs.Cli.Main.{
  Outside, Exit, serve, warn_filter, init_logging, after_serve, run_command, logged, main,
}

module _ (S : Sdk) (j : JsonLib) (P : Pgmq j.Value) (H : Host) (o : Outside j) (shell : Shell)
    (wakes : List (Wake P)) where
  -- The program has failed, and neither the database nor the host has been touched.
  pub record Fails (p : Plane j P H) (exit : Exit S j P H) : Type 0 where
    pub failure : Failure
    pub failed : exit.result ≡ some (err failure)
    pub silent : exit.printed ≡ []
    pub untouched : exit.plane ≡ p

  after_serve-Fails :
      (p : Plane j P H) (r : Served S j P H) (e : Error)
      → r.0 ≡ some (err e)
      → r.1 ≡ p
      → Fails p (after_serve S j P H r)
  unfolding after_serve
  after_serve-Fails p (r, p', q) e failed same =
      rw failed
        (record { failure = Failure.engine e; failed = refl; silent = refl; untouched = same })

  logged-Fails :
      (faculties : Text) (max_concurrent : ℕ) (p : Plane j P H) (r : Result Text (Unit {0}))
      (q : S.Process)
      → S.has_subscriber q ≡ true
      → Fails p (logged S j P H o shell wakes (serve faculties max_concurrent) p (r, q))
  unfolding logged run_command
  logged-Fails faculties max_concurrent p (err e) q set = record {
    failure = Failure.panic e;
    failed = refl;
    silent = refl;
    untouched = refl;
  }
  logged-Fails faculties max_concurrent p (ok u) q set =
      let (e, failed, same) =
        cmd_serve-IsRefused S j P H o.show_uuid o.parse_uuid o.encode o.from_str o.entries shell.env
          faculties max_concurrent wakes p q set in
      after_serve-Fails p _ e failed same

  -- Whatever its arguments, the environment and the libraries answer, `animus serve` ends with an
  -- error: the subscriber that `main` has installed is in the way of the one of `init_telemetry`.
  -- Nothing is printed, and the control plane, the database and the host are as they were.
  pub main-Fails :
      (faculties : Text) (max_concurrent : ℕ) (p : Plane j P H) (q : S.Process)
      → Fails p (main S j P H o shell wakes (serve faculties max_concurrent) p q)
  unfolding main init_logging
  main-Fails faculties max_concurrent p q =
      logged-Fails faculties max_concurrent p _ _
        (S.has_subscriber-try_init (warn_filter S j P H (S.filter_from_env q)) _ q)
