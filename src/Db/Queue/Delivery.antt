-- ===== src/Db/Queue/Delivery.antt =====
-- What reading and archiving (src/db/pgmq.rs) do to the messages of a queue, for every way they can fail.
use animus_rs.Prelude.{ℕ, ℤ, ◌≡◌, ◌≢◌, refl, Option, none, some, Text, Result, ok, err}
use animus_rs.Db.Pgmq.{Pgmq, PgmqMessage}
use animus_rs.Db.Session.{Error, World}
use animus_rs.Db.Session.Rules.{bind_rule}
use animus_rs.Db.Queue.{read_from_queue, archive_message}

module _ {V : Type 0} (P : Pgmq V) where
  -- A message is gone and the others are as they were, or the call failed and the queues are as they
  -- were.
  unfoldable pub Archived : Text → ℕ → World P → Result Error (Unit {0}) × World P → Type 0
  Archived name m before (ok _, after) =
      (P.payload after.queues name m ≡ none)
      × ((n : ℕ) → m ≢ n → P.payload after.queues name n ≡ P.payload before.queues name n)
  Archived name m before (err e, after) = after.queues ≡ before.queues

  -- What `read_from_queue` promises: a message that it returns is one of the queue, with its payload,
  -- and it takes none away, whatever the outcome.
  unfoldable pub Read : Text → World P → Result Error (Option (PgmqMessage V)) × World P → Type 0
  Read name before (ok none, after) =
      (n : ℕ) → P.payload after.queues name n ≡ P.payload before.queues name n
  Read name before (ok (some msg), after) =
      (P.payload before.queues name msg.msg_id ≡ some msg.message)
      × ((n : ℕ) → P.payload after.queues name n ≡ P.payload before.queues name n)
  Read name before (err e, after) = after.queues ≡ before.queues

  -- After a successful `archive_message` that message is gone and the others are as they were; after a
  -- failure the queues are as they were.
  pub archive_message-Archived :
      (name : Text) (m : ℕ) (w : World P) → Archived name m w (archive_message P name m w)
  unfolding archive_message Archived
  archive_message-Archived name m w =
      bind_rule (Archived name m w) _ _ _
        (λ fs.
          (P.payload-archive name m w.queues, λ n ne. P.payload-archive_ne name m n w.queues ne))
        (λ e fs. refl)

  read-Read :
      (name : Text) (vt : ℤ) (w w' : World P) (msg : Option (PgmqMessage V))
      → (P.read name vt w.queues).0 ≡ msg
      → w'.queues ≡ (P.read name vt w.queues).1
      → Read name w (ok msg, w')
  unfolding Read
  read-Read name vt w w' none e q = λ n. rw q (P.payload-read name vt w.queues n)
  read-Read name vt w w' (some msg) e q =
      (P.payload_of_read name vt w.queues msg e, λ n. rw q (P.payload-read name vt w.queues n))

  -- A message that `read_from_queue` returns is in the queue with the payload returned, and reading
  -- takes no message away, whatever the outcome: an unfinished message is read again.
  pub read_from_queue-Read :
      (name : Text) (vt : ℤ) (w : World P) → Read name w (read_from_queue P name vt w)
  unfolding read_from_queue Read
  read_from_queue-Read name vt w =
      bind_rule (Read name w) _ _ _ (λ fs. read-Read name vt w _ _ refl refl) (λ e fs. refl)
