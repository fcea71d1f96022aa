-- ===== src/Cli/Failure.antt =====
-- The errors that `anyhow` carries in src/bin/animus.rs.
use animus_rs.Prelude.{Text}
use animus_rs.Llm.Types.{LlmError}
use animus_rs.Db.Session.{Error}

pub data Failure : Type 0 where
  -- `bail!` and `anyhow!`
  bail : Text → Failure
  llm : LlmError → Failure
  engine : Error → Failure
  -- an error of a library: its message
  library : Text → Failure
  -- no error but the end of the thread, with what it was at
  panic : Text → Failure
