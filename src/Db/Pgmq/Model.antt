-- ===== src/Db/Pgmq/Model.antt =====
-- Queues that meet the laws of `Pgmq`: one list of messages for every queue name, with ids that
-- count up.
use animus_rs.Prelude.{
  ℕ, suc, ◌==◌, ==_iff, ◌≡◌, ◌≢◌, refl, Bool, Option, none, some, List, [], ◌∷◌, Text, text_eq,
  text_eq_self, Bool-cases, inl, inr, arith, sym, if◌then◌else◌, ◌&&◌,
}
use animus_rs.Db.Pgmq.{Pgmq, PgmqMessage}

pub record Entry (V : Type 0) : Type 0 where
  pub queue : Text
  pub msg_id : ℕ
  pub body : V

pub record Queues (V : Type 0) : Type 0 where
  pub last_id : ℕ
  pub entries : List (Entry V)

module _ {V : Type 0} where
  abbrev pub is_entry : Text → ℕ → Entry V → Bool
  is_entry name m e = text_eq e.queue name && e.msg_id == m

  abbrev pub payload_in : List (Entry V) → Text → ℕ → Option V
  payload_in [] name m = none
  payload_in (e ∷ es) name m = if is_entry name m e then some e.body else payload_in es name m

  abbrev pub without : Text → ℕ → List (Entry V) → List (Entry V)
  without name m [] = []
  without name m (e ∷ es) =
      let rest = without name m es in if is_entry name m e then rest else e ∷ rest

  -- The first message of a queue, with its id.
  abbrev pub next_in : Text → List (Entry V) → Option (PgmqMessage V)
  next_in name [] = none
  next_in name (e ∷ es) =
      let rest = next_in name es in
      if text_eq e.queue name
      then some
          (record { msg_id = e.msg_id; read_ct = 1; enqueued_at = 0; vt = 0; message = e.body })
      else rest

  pub payload-without :
      (name : Text) (m : ℕ) (es : List (Entry V)) → payload_in (without name m es) name m ≡ none
  payload-without name m [] = refl
  payload-without name m (e ∷ es) = elim (Bool-cases (is_entry name m e)) [
    | inl h ↦ rw h (payload-without name m es)
    | inr h ↦ rw h (rw h (payload-without name m es))
  ]

  pub payload-without_ne :
      (name : Text) (m n : ℕ) (es : List (Entry V))
      → m ≢ n
      → payload_in (without name m es) name n ≡ payload_in es name n
  payload-without_ne name m n [] ne = refl
  payload-without_ne name m n (e ∷ es) ne = elim (Bool-cases (is_entry name m e)) [
    | inl h ↦ ground (arith, payload-without_ne name m n es ne)
    | inr h ↦ ground (arith, payload-without_ne name m n es ne)
  ]

  pub payload-first :
      (name : Text) (m : ℕ) (v : V) (es : List (Entry V))
      → payload_in (record { queue = name; msg_id = m; body = v } ∷ es) name m ≡ some v
  payload-first name m v es = rw (text_eq_self name) (rw ((==_iff m m).1 refl) refl)

  pub payload-first_ne :
      (name : Text) (m n : ℕ) (v : V) (es : List (Entry V))
      → n ≢ m
      → payload_in (record { queue = name; msg_id = m; body = v } ∷ es) name n
        ≡ payload_in es name n
  payload-first_ne name m n v es ne = ground arith

  same_message : (a b : PgmqMessage V) → some a ≡ some b → a ≡ b
  same_message a b h = cc

  pub payload-next :
      (name : Text) (es : List (Entry V)) (msg : PgmqMessage V)
      → next_in name es ≡ some msg
      → payload_in es name msg.msg_id ≡ some msg.message
  payload-next name [] msg h = cc
  payload-next name (e ∷ es) msg h = elim (Bool-cases (text_eq e.queue name)) [
    | inl q ↦
        let p =
          same_message
            (record { msg_id = e.msg_id; read_ct = 1; enqueued_at = 0; vt = 0; message = e.body })
            msg (rw q at h) in
        rw (sym p) (rw q (rw ((==_iff e.msg_id e.msg_id).1 refl) refl))
    | inr q ↦ rw q (payload-next name es msg (rw q at h))
  ]

-- The extension with a queue that is read in the order of its list and hides no message.
abbrev pub model : (V : Type 0) → Pgmq V
model V = record {
  Queues = Queues V;
  create = λ name q. q;
  send = λ name v delay q. (
    suc q.last_id,
    record {
      last_id = suc q.last_id;
      entries = record { queue = name; msg_id = suc q.last_id; body = v } ∷ q.entries;
    },
  );
  read = λ name timeout q. (next_in name q.entries, q);
  archive = λ name m q. record q { entries = without name m q.entries };
  delete = λ name m q. record q { entries = without name m q.entries };
  payload = λ q name m. payload_in q.entries name m;
  payload-send = λ name v delay q. payload-first name (suc q.last_id) v q.entries;
  payload-send_ne = λ name v delay q m ne. payload-first_ne name (suc q.last_id) m v q.entries ne;
  payload-read = λ name timeout q m. refl;
  payload_of_read = λ name timeout q msg h. payload-next name q.entries msg h;
  payload-archive = λ name m q. payload-without name m q.entries;
  payload-archive_ne = λ name m n q ne. payload-without_ne name m n q.entries ne;
  payload-delete = λ name m q. payload-without name m q.entries;
  payload-delete_ne = λ name m n q ne. payload-without_ne name m n q.entries ne;
}
