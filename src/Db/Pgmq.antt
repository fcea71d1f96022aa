-- ===== src/Db/Pgmq.antt =====
-- The Postgres extension pgmq, as an interface: the functions that src/db/pgmq.rs and
-- src/db/work.rs call, and the laws that its documentation states. A queue keeps a message, seen
-- or not, until it is archived or deleted.
pub mod Model
use animus_rs.Prelude.{ℕ, ℤ, ◌≡◌, ◌≢◌, Option, none, some, Text}
use animus_rs.Work.Item.{Time}

-- src/db/pgmq.rs: `PgmqMessage`.
pub record PgmqMessage (V : Type 0) : Type 0 where
  pub msg_id : ℕ
  pub read_ct : ℕ
  pub enqueued_at : Time
  pub vt : Time
  pub message : V

pub record Pgmq (V : Type 0) : Type 1 where
  pub Queues : Type 0
  pub create : Text → Queues → Queues
  pub send : Text → V → ℤ → Queues → ℕ × Queues
  pub read : Text → ℤ → Queues → Option (PgmqMessage V) × Queues
  pub archive : Text → ℕ → Queues → Queues
  pub delete : Text → ℕ → Queues → Queues
  -- The payload of a message that is in a queue, visible or not.
  pub payload : Queues → Text → ℕ → Option V
  pub payload-send :
      (name : Text) (v : V) (delay : ℤ) (q : Queues)
      → payload (send name v delay q).1 name (send name v delay q).0 ≡ some v
  pub payload-send_ne :
      (name : Text) (v : V) (delay : ℤ) (q : Queues) (m : ℕ)
      → m ≢ (send name v delay q).0
      → payload (send name v delay q).1 name m ≡ payload q name m
  pub payload-read :
      (name : Text) (timeout : ℤ) (q : Queues) (m : ℕ)
      → payload (read name timeout q).1 name m ≡ payload q name m
  pub payload_of_read :
      (name : Text) (timeout : ℤ) (q : Queues) (msg : PgmqMessage V)
      → (read name timeout q).0 ≡ some msg
      → payload q name msg.msg_id ≡ some msg.message
  pub payload-archive :
      (name : Text) (m : ℕ) (q : Queues) → payload (archive name m q) name m ≡ none
  pub payload-archive_ne :
      (name : Text) (m n : ℕ) (q : Queues)
      → m ≢ n
      → payload (archive name m q) name n ≡ payload q name n
  pub payload-delete : (name : Text) (m : ℕ) (q : Queues) → payload (delete name m q) name m ≡ none
  pub payload-delete_ne :
      (name : Text) (m n : ℕ) (q : Queues)
      → m ≢ n
      → payload (delete name m q) name n ≡ payload q name n
