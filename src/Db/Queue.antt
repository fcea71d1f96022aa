-- ===== src/Db/Queue.antt =====
-- src/db/pgmq.rs: the operations on a message queue.
pub mod Delivery
pub mod Answered
pub mod Aside
use animus_rs.Telemetry.Instruments.{queue_operations}
use animus_rs.Prelude.{
  ℕ, ℤ, Bool, true, false, Option, none, some, List, [], ◌∷◌, Text, lit, Result, ok, err, is_some,
  if◌then◌else◌,
}
use animus_rs.Db.Pgmq.{Pgmq, PgmqMessage}
use animus_rs.Db.Session.{World, M, pure, ◌>>=◌, ◌>>◌, record_metric, statement}

module _ {V : Type 0} (P : Pgmq V) where
  abbrev pub operated : Text → Text → M P (Unit {0})
  operated name operation = record_metric queue_operations (name ∷ operation ∷ [])

  pub create_queue : Text → M P (Unit {0})
  create_queue name = do
    statement (λ w. (ok tt, record w { queues = P.create name w.queues }))
    operated name (lit "create")

  pub send_to_queue : Text → V → ℤ → M P ℕ
  send_to_queue name payload delay = do
    msg_id ← statement (λ w.
        let (msg_id, queues) = P.send name payload delay w.queues in
        (ok msg_id, record w { queues = queues }))
    operated name (lit "send")
    pure msg_id

  pub read_from_queue : Text → ℤ → M P (Option (PgmqMessage V))
  read_from_queue name vt_seconds = do
    msg ← statement (λ w.
        let (msg, queues) = P.read name vt_seconds w.queues in
        (ok msg, record w { queues = queues }))
    operated name (if is_some msg then lit "read" else lit "read_empty")
    pure msg

  pub archive_message : Text → ℕ → M P (Unit {0})
  archive_message name msg_id = do
    statement (λ w. (ok tt, record w { queues = P.archive name msg_id w.queues }))
    operated name (lit "archive")

  pub delete_message : Text → ℕ → M P (Unit {0})
  delete_message name msg_id = do
    statement (λ w. (ok tt, record w { queues = P.delete name msg_id w.queues }))
    operated name (lit "delete")
