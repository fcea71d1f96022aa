-- ===== src/Engine/Control/Near.antt =====
-- How far a plane (src/engine/control.rs) has come from the one before a round.
use animus_rs.Prelude.{
  ℕ, suc, ◌+◌, ◌-◌, ◌≤◌, ◌≡◌, ◌≢◌, refl, Option, none, some, Result, ok, err, arith,
}
use animus_rs.Json.{JsonLib}
use animus_rs.Db.Pgmq.{Pgmq, PgmqMessage}
use animus_rs.Db.Session.{Error, World, M}
use animus_rs.Db.Queue.Delivery.{Read}
use animus_rs.Db.Work.{work_queue}
use animus_rs.Engine.Host.{Host}
use animus_rs.Engine.Control.{Plane, Round, continue, on_db}

pub Read-kept :
    {V : Type 0} {P : Pgmq V} (w w' : World P) (r : Result Error (Option (PgmqMessage V)))
    → Read P work_queue w (r, w')
    → (n : ℕ) → P.payload w'.queues work_queue n ≡ P.payload w.queues work_queue n
unfolding Read
Read-kept w w' (ok none) h n = h n
Read-kept w w' (ok (some msg)) h n = h.1 n
Read-kept w w' (err e) h n = rw h refl

module _ {j : JsonLib} {P : Pgmq j.Value} {H : Host} where
  -- Every message is still in the queue, and `k` foci more are counted as active.
  pub record Near (k : ℕ) (before after : Plane j P H) : Type 0 where
    pub kept :
        (n : ℕ) → P.payload after.db.queues work_queue n ≡ P.payload before.db.queues work_queue n
    pub counted : after.active_foci ≡ k + before.active_foci

  pub next :
      {A B : Type 0} (Q : Result Error B × Plane j P H → Type 0) (k : ℕ) (before : Plane j P H)
      (f : A → Round j P H B) (r : Result Error A × Plane j P H)
      → Near k before r.1
      → ((a : A) (p : Plane j P H) → Near k before p → Q (f a p))
      → ((e : Error) (p : Plane j P H) → Near k before p → Q (err e, p))
      → Q (continue f r)
  next Q k before f (ok a, p) near good bad = good a p near
  next Q k before f (err e, p) near good bad = bad e p near

  -- A database operation that leaves the queues alone.
  pub Near-on_db :
      {A : Type 0} (m : M P A) (k : ℕ) (before p : Plane j P H)
      → Near k before p
      → (m p.db).1.queues ≡ p.db.queues
      → Near k before (on_db m p).1
  Near-on_db m k before p near same = record {
    kept = λ n. rw same (near.kept n);
    counted = near.counted;
  }

  -- What `process_work` promises. After an error every message is still in the queue, so that it is
  -- read again, and at most one focus more is counted as active; else at most one message is gone
  -- and the count is as it was.
  unfoldable pub Safe : Plane j P H → Result Error (Unit {0}) × Plane j P H → Type 0
  Safe before (ok _, after) =
      (after.active_foci ≡ before.active_foci)
      × ((m : ℕ) × ((n : ℕ)
            → m ≢ n
            → P.payload after.db.queues work_queue n ≡ P.payload before.db.queues work_queue n))
  Safe before (err e, after) =
      (after.active_foci ≤ 1 + before.active_foci)
      × ((n : ℕ) → P.payload after.db.queues work_queue n ≡ P.payload before.db.queues work_queue n)

  pub Near-err :
      (k : ℕ)
      → k ≤ 1
      → (before : Plane j P H) (e : Error) (p : Plane j P H) → Near k before p
      → Safe before (err e, p)
  unfolding Safe
  Near-err k le before e p near = (omega (arith, near.counted, le), near.kept)

  pub Near-ok : (before p : Plane j P H) → Near 0 before p → Safe before (ok tt, p)
  unfolding Safe
  Near-ok before p near = (omega (arith, near.counted), (0, λ n _. near.kept n))

  -- A focus starts, with whatever the host does, and ends.
  pub entered :
      (before p : Plane j P H) (m : H.Machine)
      → Near 0 before p
      → Near 1 before (record p { active_foci = suc p.active_foci; machine = m })
  entered before p m near = record { kept = near.kept; counted = omega (arith, near.counted) }

  pub left :
      (before p : Plane j P H) (m : H.Machine)
      → Near 1 before p
      → Near 0 before (record p { active_foci = p.active_foci - 1; machine = m })
  left before p m near = record { kept = near.kept; counted = omega (arith, near.counted) }

  pub on_machine :
      (k : ℕ) (before p : Plane j P H) (m : H.Machine)
      → Near k before p
      → Near k before (record p { machine = m })
  on_machine k before p m near = record { kept = near.kept; counted = near.counted }
