-- ===== src/Db/Session.antt =====
-- src/error.rs, src/db/mod.rs and the connection: what the operations of src/db can change, and how
-- they fail. Every statement may fail; which ones do is part of the world.
pub mod Rules
use animus_rs.Telemetry.Instruments.{Instrument}
use animus_rs.Prelude.{
  ℕ, Bool, true, false, Option, none, some, List, [], ◌∷◌, ◌++◌, Text, Result, ok, err,
  if◌then◌else◌,
}
use animus_rs.Db.Table.{Row}
use animus_rs.Db.Pgmq.{Pgmq}

-- src/error.rs. An error of a library that is passed on is its message.
pub data Error : Type 0 where
  not_found : Text → Error
  invalid_transition : Text → Text → Error
  database : Text → Error
  invalid_state : Text → Error
  config : Text → Error
  io : Text → Error
  other : Text → Error

-- A count or a measurement that src/telemetry/metrics.rs records: its name and its labels.
pub record Metric : Type 0 where
  pub name : Text
  pub labels : List Text

module _ {V : Type 0} (P : Pgmq V) where
  pub record World : Type 0 where
    pub items : List (Row V)
    pub queues : P.Queues
    -- the payloads of `pg_notify` on the channel `work_ready`
    pub notified : List Text
    pub metrics : List Metric
    -- for each statement to come, the error that it meets, if any; the rest succeed
    pub faults : List (Option Text)

  abbrev pub M : Type 0 → Type 0
  M A = World → Result Error A × World

module _ {V : Type 0} {P : Pgmq V} where
  abbrev pub pure : {A : Type 0} → A → M P A
  pure a w = (ok a, w)

  abbrev pub raise : {A : Type 0} → Error → M P A
  raise e w = (err e, w)

  abbrev pub lift : {A : Type 0} → Result Error A → M P A
  lift r w = (r, w)

  abbrev pub continue :
      {A B : Type 0} → (A → M P B) → Result Error A × World P → Result Error B × World P
  continue f (ok a, w) = f a w
  continue f (err e, w) = (err e, w)

  infixl 5 ◌>>=◌ ◌>>◌
  abbrev pub ◌>>=◌ : {A B : Type 0} → M P A → (A → M P B) → M P B
  ◌>>=◌ m f w = continue f (m w)

  abbrev pub ◌>>◌ : {A B : Type 0} → M P A → M P B → M P B
  ◌>>◌ m k w = continue (λ _. k) (m w)

  abbrev pub record_metric : Instrument → List Text → M P (Unit {0})
  record_metric instrument labels w = (
    ok tt,
    record w { metrics = w.metrics ++ record { name = instrument.name; labels = labels } ∷ [] },
  )

  -- A round trip to the server, on the errors still to come.
  pub contact_with : List (Option Text) → M P (Unit {0})
  contact_with [] w = (ok tt, w)
  contact_with (none ∷ faults) w = (ok tt, record w { faults = faults })
  contact_with (some e ∷ faults) w = (err (Error.database e), record w { faults = faults })

  pub contact : M P (Unit {0})
  contact w = contact_with w.faults w

  -- A statement: the server answers it, or nothing has changed.
  abbrev pub statement : {A : Type 0} → (World P → Result Error A × World P) → M P A
  statement run = do contact; run

  -- What a transaction that ends without a commit leaves of its changes.
  abbrev pub roll_back : World P → World P → World P
  roll_back before w = record w {
    items = before.items;
    queues = before.queues;
    notified = before.notified;
  }

  -- The end of a transaction: what the server answers to the commit, and what is undone when the
  -- transaction is dropped without one.
  pub committed :
      {A : Type 0} → World P → A → Result Error (Unit {0}) × World P → Result Error A × World P
  committed before a (ok _, w) = (ok a, w)
  committed before a (err e, w) = (err e, roll_back before w)

  pub commit : {A : Type 0} → World P → Result Error A × World P → Result Error A × World P
  commit before (err e, w) = (err e, roll_back before w)
  commit before (ok a, w) = committed before a (contact w)

  -- `begin`, the body and `commit`.
  pub transaction : {A : Type 0} → M P A → M P A
  transaction body w = (do contact; λ w'. commit w' (body w')) w
