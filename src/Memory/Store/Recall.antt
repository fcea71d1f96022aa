-- ===== src/Memory/Store/Recall.antt =====
-- src/memory/store.rs: what a search finds.
use animus_rs.Prelude.{
  ℕ, zero, suc, ◌≡◌, refl, ℤ, pos, negsuc, true, false, Bool-cases, inl, inr, Option, none, some,
  List, [], ◌++◌, map, Text, lit, Result, ok, err, is_empty,
}
use mathlib.Core.List.{Perm}
use animus_rs.Prelude.Sort.{Order, page_of, rows_where}
use animus_rs.Prelude.Sort.Select.{IsSelection, take-IsSelection, page_of-IsSelection}
use animus_rs.Db.Session.{Error}
use animus_rs.Memory.Entry.{MemoryEntry, MemoryFilters, Ranking}
use animus_rs.Memory.Store.{
  MemoryRow, Memories, Scan, entry_of, format_vector, with_vector, on_vector, passes, nearer,
  hybrid_score, scored_higher, answer_with, within_limit, first_passing, best_scored,
  search_memory_by_vector, hybrid_search,
}
use animus_rs.Memory.Store.Filters.{Passes, passes-Passes, Passes-passes}

module _ (V : Type 0) (K : Ranking) where
  open K use {Float, Vector, vector, fits, Score, order, distance}

  -- The orders of the two searches: the nearest first, and the highest score first.
  abbrev pub Nearer : Vector → MemoryRow V K → MemoryRow V K → Type 0
  Nearer v r s = order.before (distance r.embedding v) (distance s.embedding v) ≡ true

  abbrev pub ScoredHigher : Text → Vector → MemoryRow V K → MemoryRow V K → Type 0
  ScoredHigher text v r s =
      order.before (hybrid_score V K text v s) (hybrid_score V K text v r) ≡ true

  abbrev highest_first : Text → Vector → Order (MemoryRow V K)
  highest_first text v = record {
    before = scored_higher V K text v;
    total = λ r s. order.total (hybrid_score V K text v s) (hybrid_score V K text v r);
    trans = λ r s t h k.
        order.trans (hybrid_score V K text v t) (hybrid_score V K text v s)
          (hybrid_score V K text v r) k h;
  }

  -- What a vector search answers. `found`: a selection of the rows visited, the nearest first.
  pub data Recalls (scan : Scan V K) (embedding : List Float) (filters : MemoryFilters)
      (m : Memories V K) : Option Text → ℤ → Result Error (List (MemoryEntry V)) → Type 0 where
    failed :
        (e : Text) (limit : ℤ)
        → Recalls scan embedding filters m (some e) limit (err (Error.database e))
    no_vector :
        (e : Text) (limit : ℤ)
        → vector (format_vector V K embedding) ≡ none
        → Recalls scan embedding filters m none limit (err (Error.database e))
    refused :
        (e : Text) (n : ℕ)
        → Recalls scan embedding filters m none (negsuc n) (err (Error.database e))
    empty :
        (v : Vector)
        → vector (format_vector V K embedding) ≡ some v
        → Recalls scan embedding filters m none (pos zero) (ok [])
    not_visited :
        (v : Vector) (e : Text) (n : ℕ)
        → vector (format_vector V K embedding) ≡ some v
        → scan.visit v m.rows ≡ err e
        → Recalls scan embedding filters m none (pos (suc n)) (err (Error.database e))
    found :
        (v : Vector) (n : ℕ) (visited missed page : List (MemoryRow V K))
        → vector (format_vector V K embedding) ≡ some v
        → scan.visit v m.rows ≡ ok visited
        → Perm (visited ++ missed) m.rows
        → IsSelection (Passes V K filters) (Nearer v) (suc n) visited page
        → Recalls scan embedding filters m none (pos (suc n)) (ok (map (entry_of V K) page))

  -- What a hybrid search answers. `found`: a selection of all rows, the highest score first.
  pub data Ranks (text : Text) (embedding : List Float) (filters : MemoryFilters) (m : Memories V K)
      : Option Text → ℤ → Result Error (List (MemoryEntry V)) → Type 0 where
    failed :
        (e : Text) (limit : ℤ)
        → Ranks text embedding filters m (some e) limit (err (Error.database e))
    no_vector :
        (e : Text) (limit : ℤ)
        → vector (format_vector V K embedding) ≡ none
        → Ranks text embedding filters m none limit (err (Error.database e))
    refused :
        (e : Text) (n : ℕ) → Ranks text embedding filters m none (negsuc n) (err (Error.database e))
    empty :
        (v : Vector)
        → vector (format_vector V K embedding) ≡ some v
        → Ranks text embedding filters m none (pos zero) (ok [])
    other_size :
        (v : Vector) (e : Text) (n : ℕ)
        → vector (format_vector V K embedding) ≡ some v
        → fits v ≡ false
        → Ranks text embedding filters m none (pos (suc n)) (err (Error.database e))
    found :
        (v : Vector) (n : ℕ) (page : List (MemoryRow V K))
        → vector (format_vector V K embedding) ≡ some v
        → IsSelection (Passes V K filters) (ScoredHigher text v) (suc n) m.rows page
        → Ranks text embedding filters m none (pos (suc n)) (ok (map (entry_of V K) page))

  module _ (scan : Scan V K) (text : Text) (embedding : List Float) (filters : MemoryFilters)
      (m : Memories V K) where
    visited-Recalls :
        (v : Vector) (n : ℕ) (r : Result Text (List (MemoryRow V K)))
        → vector (format_vector V K embedding) ≡ some v
        → scan.visit v m.rows ≡ r
        → Recalls scan embedding filters m none
            (pos (suc n))
            (answer_with V K (lit "vector_search") (first_passing V K filters (suc n) r) m).0
    unfolding answer_with first_passing
    visited-Recalls v n (err e) p h = not_visited v e n p h
    visited-Recalls v n (ok visited) p h =
        let (missed, all) = scan.within v m.rows visited h in
        found v n visited missed _ p h all (
          take-IsSelection (passes V K filters) (Passes V K filters) (passes-Passes V K filters)
            (Passes-passes V K filters) (nearer V K v) (Nearer v) (λ r s b. b) (suc n) visited
            (scan.in_order v m.rows visited h))

    cast-Recalls :
        (limit : ℤ) (o : Option Vector)
        → vector (format_vector V K embedding) ≡ o
        → Recalls scan embedding filters m none limit
            (on_vector V K o
              (λ v m.
                answer_with V K
                  (lit "vector_search")
                  (within_limit V K limit (λ n. first_passing V K filters n (scan.visit v m.rows)))
                  m)
              m).0
    unfolding on_vector within_limit answer_with
    cast-Recalls limit none p = no_vector _ limit p
    cast-Recalls (pos zero) (some v) p = empty v p
    cast-Recalls (pos (suc n)) (some v) p = visited-Recalls v n _ p refl
    cast-Recalls (negsuc n) (some v) p = refused _ n

    scored-Ranks :
        (v : Vector) (n : ℕ)
        → vector (format_vector V K embedding) ≡ some v
        → Ranks text embedding filters m none
            (pos (suc n))
            (answer_with V K
              (lit "hybrid_search")
              (best_scored V K filters text v m.rows (suc n))
              m).0
    unfolding answer_with best_scored
    scored-Ranks v n p = elim (Bool-cases (fits v)) [
      | inl e ↦ rw e (found v n _ p page)
      | inr e ↦ elim (Bool-cases (is_empty (rows_where (passes V K filters) m.rows))) [
        | inl e' ↦ rw e (rw e' (found v n _ p page))
        | inr e' ↦ rw e (rw e' (other_size v _ n p e))
      ]
    ]
      where
        page :
            IsSelection
              (Passes V K filters)
              (ScoredHigher text v)
              (suc n)
              m.rows
              (page_of (passes V K filters) (scored_higher V K text v) (suc n) m.rows)
        page =
            page_of-IsSelection (passes V K filters) (Passes V K filters)
              (passes-Passes V K filters) (Passes-passes V K filters) (highest_first text v)
              (ScoredHigher text v) (λ r s b. b) (suc n) m.rows

    cast-Ranks :
        (limit : ℤ) (o : Option Vector)
        → vector (format_vector V K embedding) ≡ o
        → Ranks text embedding filters m none limit
            (on_vector V K o
              (λ v m.
                answer_with V K
                  (lit "hybrid_search")
                  (within_limit V K limit (best_scored V K filters text v m.rows))
                  m)
              m).0
    unfolding on_vector within_limit answer_with
    cast-Ranks limit none p = no_vector _ limit p
    cast-Ranks (pos zero) (some v) p = empty v p
    cast-Ranks (pos (suc n)) (some v) p = scored-Ranks v n p
    cast-Ranks (negsuc n) (some v) p = refused _ n

    -- A vector search answers the first rows, at most as many as the limit, of the type, from the
    -- source and of the time given, if any, among those that the server visits, which may miss rows of
    -- the table, and these the nearest first; a hybrid search those of the highest score of all such
    -- rows. Either answers fewer only if no further row passes, or an error, only if the statement
    -- fails, the embedding is no vector, the limit is below 0, or the server's visit fails, or for the
    -- hybrid search the vector has another dimension than the column.
    pub search-Finds :
        (fault : Option Text) (limit : ℤ)
        → Recalls scan embedding filters m fault limit
            (search_memory_by_vector V K scan fault embedding limit filters m).0
          × Ranks text embedding filters m fault limit
              (hybrid_search V K fault text embedding limit filters m).0
    unfolding search_memory_by_vector hybrid_search with_vector
    search-Finds (some e) limit = (failed e limit, failed e limit)
    search-Finds none limit = (cast-Recalls limit _ refl, cast-Ranks limit _ refl)
