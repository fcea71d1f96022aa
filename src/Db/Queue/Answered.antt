-- ===== src/Db/Queue/Answered.antt =====
-- The operations of src/db/pgmq.rs that a round of the control plane calls, where no statement fails.
use animus_rs.Prelude.{ℕ, ℤ, ◌≡◌, refl, [], Text, Result, ok}
use animus_rs.Db.Pgmq.{Pgmq}
use animus_rs.Db.Session.{Error, World}
use animus_rs.Db.Session.Rules.{quiet_rule}
use animus_rs.Db.Queue.{read_from_queue, archive_message}

module _ {V : Type 0} (P : Pgmq V) where
  -- The operation succeeds with `a`, leaves these queues, and the table as it was.
  pub record Answered {A : Type 0} (w : World P) (a : A) (queues : P.Queues)
      (r : Result Error A × World P) : Type 0 where
    pub after : World P
    pub answer : r ≡ (ok a, after)
    pub table : after.items ≡ w.items
    pub faults : after.faults ≡ []
    pub messages : after.queues ≡ queues

  pub read_from_queue-Answered :
      (name : Text) (vt : ℤ) (w : World P)
      → w.faults ≡ []
      → Answered w
          (P.read name vt w.queues).0
          (P.read name vt w.queues).1
          (read_from_queue P name vt w)
  unfolding read_from_queue
  read_from_queue-Answered name vt w quiet =
      quiet_rule (Answered w _ _) _ _ w quiet
        (record { after = _; answer = refl; table = refl; faults = quiet; messages = refl })

  pub archive_message-Answered :
      (name : Text) (m : ℕ) (w : World P)
      → w.faults ≡ []
      → Answered w tt (P.archive name m w.queues) (archive_message P name m w)
  unfolding archive_message
  archive_message-Answered name m w quiet =
      quiet_rule (Answered w _ _) _ _ w quiet
        (record { after = _; answer = refl; table = refl; faults = quiet; messages = refl })
