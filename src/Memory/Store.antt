-- ===== src/Memory/Store.antt =====
-- src/memory/store.rs: `store_memory` and the two searches. Each is one statement, which may fail.
pub mod Filters
pub mod Recall
use animus_rs.Telemetry.Instruments.{memory_operations}
use animus_rs.Prelude.{
  ◌≡◌, zero, suc, take, is_empty, ◌||◌, ℕ, ◌==◌, ℤ, pos, negsuc, Bool, true, false, ◌&&◌, Option,
  none, some, List, [], ◌∷◌, ◌++◌, map, Text, lit, text_eq, join, Result, ok, err, leb, is_some,
  if◌then◌else◌,
}
use mathlib.Core.List.{Perm}
use animus_rs.Prelude.Sort.{Order, IsSorted, page_of, rows_where}
use animus_rs.Work.Item.{Time}
use animus_rs.Db.Session.{Error, Metric}
use animus_rs.Memory.Entry.{MemoryEntry, NewMemory, MemoryFilters, Ranking}

module _ (V : Type 0) (K : Ranking) where
  open K use {
    Float, show_float, Vector, vector, fits, Score, order, literal, add, mul, div, distance,
    text_rank,
  }

  -- A row of the table `memories`.
  pub record MemoryRow : Type 0 where
    pub id : ℕ
    pub content : Text
    pub memory_type : Text
    pub source : Option Text
    pub metadata : V
    pub embedding : Vector
    pub created_at : Time
    pub updated_at : Time

  pub record Memories : Type 0 where
    pub rows : List MemoryRow
    pub metrics : List Metric

  -- `MemoryEntry::from`
  pub entry_of : MemoryRow → MemoryEntry V
  entry_of row = record {
    id = row.id;
    content = row.content;
    memory_type = row.memory_type;
    source = row.source;
    metadata = row.metadata;
    created_at = row.created_at;
    updated_at = row.updated_at;
  }

  pub format_vector : List Float → Text
  format_vector v = lit "[" ++ (join (lit ",") (map show_float v) ++ lit "]")

  -- The server's error on a vector of another dimension than that of the column.
  abbrev pub other_dimension : Error
  other_dimension = Error.database (lit "different vector dimensions")

  -- What the server does with a statement behind the cast of its vector.
  pub on_vector :
      {A : Type 0}
      → Option Vector
      → (Vector → Memories → Result Error A × Memories)
      → Memories
      → Result Error A × Memories
  on_vector none run m = (err (Error.database (lit "invalid input for type vector")), m)
  on_vector (some w) run m = run w m

  -- A statement on a vector: its error, if it meets one, ends it.
  pub with_vector :
      {A : Type 0}
      → Option Text
      → List Float
      → (Vector → Memories → Result Error A × Memories)
      → Memories
      → Result Error A × Memories
  with_vector (some e) v run m = (err (Error.database e), m)
  with_vector none v run m = on_vector (vector (format_vector v)) run m

  abbrev pub counted : Text → Memories → Memories
  counted operation m = record m {
    metrics = m.metrics ++ record { name = memory_operations.name; labels = operation ∷ [] } ∷ [];
  }

  abbrev pub row_of : ℕ → Time → NewMemory V Float → Vector → MemoryRow
  row_of id now new w = record {
    id = id;
    content = new.content;
    memory_type = new.memory_type;
    source = new.source;
    metadata = new.metadata;
    embedding = w;
    created_at = now;
    updated_at = now;
  }

  -- `fault` is the error that the statement meets, if any; `id` is the next number of the sequence.
  pub store_memory :
      (fault : Option Text) (id : ℕ) (now : Time)
      → NewMemory V Float
      → Memories
      → Result Error ℕ × Memories
  store_memory fault id now new = with_vector fault new.embedding (λ w m.
      if fits w
      then (ok id, counted (lit "store") (record m { rows = m.rows ++ row_of id now new w ∷ [] }))
      else (err other_dimension, m))

  -- `$n::text IS NULL OR column = $n`; a column that is NULL is equal to nothing.
  pub equals_if : Option Text → Option Text → Bool
  equals_if none column = true
  equals_if (some s) none = false
  equals_if (some s) (some t) = text_eq t s

  pub since_if : Option Time → Time → Bool
  since_if none created_at = true
  since_if (some since) created_at = leb since created_at

  pub passes : MemoryFilters → MemoryRow → Bool
  passes filters row =
      equals_if filters.memory_type (some row.memory_type)
      && equals_if filters.source row.source
      && since_if filters.since row.created_at

  -- `ORDER BY embedding <=> $1`
  abbrev pub nearer : Vector → MemoryRow → MemoryRow → Bool
  nearer v r s = order.before (distance r.embedding v) (distance s.embedding v)

  -- The score of a row in the hybrid search, and `DESC` on it.
  pub hybrid_score : Text → Vector → MemoryRow → Score
  hybrid_score text v row =
      add
        (mul (div (literal (lit "1.0")) (add (literal (lit "1e-6")) (distance row.embedding v)))
          (literal (lit "0.7")))
        (mul (text_rank row.content text) (literal (lit "0.3")))

  abbrev pub scored_higher : Text → Vector → MemoryRow → MemoryRow → Bool
  scored_higher text v r s = order.before (hybrid_score text v s) (hybrid_score text v r)

  -- How the server visits the rows for `ORDER BY embedding <=> v`, by sorting them all or along the
  -- index of migrations/20260227000003_memories.sql, which is approximate and may miss rows; or the
  -- error that it meets. It visits rows of the table, the nearest first.
  pub record Scan : Type 0 where
    pub visit : Vector → List MemoryRow → Result Text (List MemoryRow)
    pub within :
        (v : Vector) (rows visited : List MemoryRow)
        → visit v rows ≡ ok visited
        → (missed : List MemoryRow) × Perm (visited ++ missed) rows
    pub in_order :
        (v : Vector) (rows visited : List MemoryRow)
        → visit v rows ≡ ok visited
        → IsSorted (nearer v) visited

  -- The answer of a search.
  pub answer_with :
      Text
      → Result Error (List MemoryRow)
      → Memories
      → Result Error (List (MemoryEntry V)) × Memories
  answer_with operation (ok rows) m = (ok (map entry_of rows), counted operation m)
  answer_with operation (err e) m = (err e, m)

  -- The server refuses a negative limit, and does not visit any row for the limit 0.
  pub within_limit : ℤ → (ℕ → Result Error (List MemoryRow)) → Result Error (List MemoryRow)
  within_limit (pos zero) select = ok []
  within_limit (pos (suc n)) select = select (suc n)
  within_limit (negsuc n) select = err (Error.database (lit "LIMIT must not be negative"))

  -- The first rows visited that pass the filters.
  pub first_passing :
      MemoryFilters → ℕ → Result Text (List MemoryRow) → Result Error (List MemoryRow)
  first_passing filters n (err e) = err (Error.database e)
  first_passing filters n (ok visited) = ok (take n (rows_where (passes filters) visited))

  pub search_memory_by_vector :
      Scan
      → (fault : Option Text) → List Float
      → ℤ
      → MemoryFilters
      → Memories
      → Result Error (List (MemoryEntry V)) × Memories
  search_memory_by_vector scan fault embedding limit filters = with_vector fault embedding (λ v m.
      answer_with (lit "vector_search")
        (within_limit limit (λ n. first_passing filters n (scan.visit v m.rows))) m)

  -- The rows that pass, sorted by their score; no row is without a distance.
  pub best_scored :
      MemoryFilters → Text → Vector → List MemoryRow → ℕ → Result Error (List MemoryRow)
  best_scored filters text v rows n =
      if fits v || is_empty (rows_where (passes filters) rows)
      then ok (page_of (passes filters) (scored_higher text v) n rows)
      else err other_dimension

  pub hybrid_search :
      (fault : Option Text)
      → Text
      → List Float
      → ℤ
      → MemoryFilters
      → Memories
      → Result Error (List (MemoryEntry V)) × Memories
  hybrid_search fault text embedding limit filters = with_vector fault embedding (λ v m.
      answer_with (lit "hybrid_search") (within_limit limit (best_scored filters text v m.rows)) m)
