-- ===== src/Db/Connection.antt =====
-- src/db/mod.rs: how the connection starts. The table is as it is behind all migrations.
use animus_rs.Prelude.{ok, err, ◌++◌, Text, lit, Result}
use animus_rs.Db.Pgmq.{Pgmq}
use animus_rs.Db.Session.{Error, World, M, statement}

module _ {V : Type 0} (P : Pgmq V) where
  -- The address, with its secret, is only passed on.
  pub connect : (url : Text) → M P (Unit {0})
  connect url = statement (λ w. (ok tt, w))

  pub migrated : Result Error (Unit {0}) × World P → Result Error (Unit {0}) × World P
  migrated (ok _, w) = (ok tt, w)
  migrated (err (Error.database e), w) = (err (Error.other (lit "migration failed: " ++ e)), w)
  migrated (err e, w) = (err e, w)

  pub migrate : M P (Unit {0})
  migrate w = migrated (statement (λ w'. (ok tt, w')) w)

  -- `SELECT 1`
  pub health_check : M P (Unit {0})
  health_check = statement (λ w. (ok tt, w))
