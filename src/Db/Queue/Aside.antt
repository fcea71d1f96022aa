-- ===== src/Db/Queue/Aside.antt =====
-- The operations of src/db/pgmq.rs that a round of the control plane calls leave the table of work
-- items as it is, whichever statement fails.
use animus_rs.Prelude.{ℕ, ℤ, ◌≡◌, refl, Text}
use animus_rs.Db.Pgmq.{Pgmq}
use animus_rs.Db.Session.{World}
use animus_rs.Db.Session.Rules.{bind_rule}
use animus_rs.Db.Queue.{read_from_queue, archive_message}

module _ {V : Type 0} (P : Pgmq V) where
  pub read_from_queue-items :
      (name : Text) (vt : ℤ) (w : World P) → (read_from_queue P name vt w).1.items ≡ w.items
  unfolding read_from_queue
  read_from_queue-items name vt w =
      bind_rule (λ r. r.1.items ≡ w.items) _ _ w (λ fs. refl) (λ e fs. refl)

  pub archive_message-items :
      (name : Text) (m : ℕ) (w : World P) → (archive_message P name m w).1.items ≡ w.items
  unfolding archive_message
  archive_message-items name m w =
      bind_rule (λ r. r.1.items ≡ w.items) _ _ w (λ fs. refl) (λ e fs. refl)
