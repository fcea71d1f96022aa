-- ===== src/Db/Table.antt =====
-- The table `work_items` (migrations/*.sql) and the statements of src/db/work.rs on it.
pub mod Rows
pub mod Counts
use animus_rs.Prelude.{
  ℕ, suc, ◌+◌, ◌==◌, ℤ, Bool, true, false, not, ◌&&◌, ◌||◌, Option, none, some, List, [], ◌∷◌, ◌++◌,
  Text, lit, text_eq, if◌then◌else◌,
}
use animus_rs.Work.Item.{Uuid, Time}

pub record Row (V : Type 0) : Type 0 where
  pub id : Uuid
  pub pgmq_msg_id : Option ℕ
  pub faculty : Text
  pub skill : Option Text
  pub dedup_key : Option Text
  pub source : Text
  pub trigger_info : Option Text
  pub params : V
  pub priority : ℤ
  pub state : Text
  pub merged_into : Option Uuid
  pub parent_id : Option Uuid
  -- It starts at 0 and is counted up when an item starts. The overflow of the column, an INTEGER,
  -- is not modelled: the program starts an item once at most.
  pub attempts : ℕ
  pub max_attempts : Option ℤ
  pub created_at : Time
  pub updated_at : Time
  pub resolved_at : Option Time
  pub outcome_data : Option V
  pub outcome_error : Option Text
  pub outcome_ms : Option ℤ

-- `state NOT IN ('completed', 'dead', 'merged')`
unfoldable pub is_active : Text → Bool
is_active state =
    not (
      text_eq state (lit "completed") || text_eq state (lit "dead") || text_eq state (lit "merged"))

-- `dedup_key = key`, which does not hold of NULL.
unfoldable pub has_key : Text → Option Text → Bool
has_key key none = false
has_key key (some k) = text_eq k key

module _ {V : Type 0} where
  -- The rows that the unique index on (faculty, dedup_key) holds under this pair.
  unfoldable pub holds_key : Text → Text → Row V → Bool
  holds_key faculty key r =
      is_active r.state && text_eq r.faculty faculty && has_key key r.dedup_key

  unfoldable pub select : (Row V → Bool) → List (Row V) → Option (Row V)
  select test [] = none
  select test (r ∷ rows) = if test r then some r else select test rows

  abbrev pub has_id : Uuid → Row V → Bool
  has_id id r = r.id == id

  -- `UPDATE … WHERE test`: the rows after it, and the number of rows affected.
  unfoldable pub update : (Row V → Bool) → (Row V → Row V) → List (Row V) → List (Row V)
  update test change [] = []
  update test change (r ∷ rows) = (if test r then change r else r) ∷ update test change rows

  unfoldable pub affected : (Row V → Bool) → List (Row V) → ℕ
  affected test [] = 0
  affected test (r ∷ rows) = let rest = affected test rows in if test r then suc rest else rest

  -- A row with this primary key, and a row that a foreign key names.
  unfoldable pub exists : (Row V → Bool) → List (Row V) → Bool
  exists test rows = elim (select test rows) [ none ↦ false | some r ↦ true ]

  pub refers : Option Uuid → List (Row V) → Bool
  refers none rows = true
  refers (some id) rows = exists (has_id id) rows

  -- Whether the primary key and the foreign keys admit a row.
  pub admits : Row V → List (Row V) → Bool
  admits r rows =
      not (exists (has_id r.id) rows) && refers r.parent_id rows && refers r.merged_into rows
