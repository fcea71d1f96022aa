-- ===== src/Memory/Store/Filters.antt =====
-- The filters of the searches in src/memory/store.rs.
use animus_rs.Prelude.{◌≤◌, ◌≡◌, refl, ap, true, ◌&&◌, Option, none, some, Text, arith, text_eq_iff}
use animus_rs.Db.Work.Listing.{both_true}
use animus_rs.Memory.Entry.{MemoryFilters, Ranking}
use animus_rs.Work.Item.{Time}
use animus_rs.Memory.Store.{MemoryRow, equals_if, since_if, passes}

module _ (V : Type 0) (K : Ranking) where
  open K use {Float, Vector, vector, fits, Score, order, distance}

  -- A row that these filters let through.
  pub record Passes (filters : MemoryFilters) (row : MemoryRow V K) : Type 0 where
    pub of_type : (t : Text) → filters.memory_type ≡ some t → row.memory_type ≡ t
    pub from_source : (s : Text) → filters.source ≡ some s → row.source ≡ some s
    pub not_before : (t : Time) → filters.since ≡ some t → t ≤ row.created_at

  equals_if_sound :
      (o column : Option Text)
      → equals_if V K o column ≡ true
      → (s : Text) → o ≡ some s
      → column ≡ some s
  unfolding equals_if
  equals_if_sound none column h s e = cc e
  equals_if_sound (some t) none h s e = cc h
  equals_if_sound (some t) (some c) h s e = let same : c ≡ t = (text_eq_iff c t).0 h in cc (same, e)

  equals_if_exact :
      (o column : Option Text)
      → ((s : Text) → o ≡ some s → column ≡ some s)
      → equals_if V K o column ≡ true
  unfolding equals_if
  equals_if_exact none column h = refl
  equals_if_exact (some t) none h = cc (h t refl)
  equals_if_exact (some t) (some c) h =
      let e = h t refl in let same : c ≡ t = cc e in (text_eq_iff c t).1 same

  since_if_sound :
      (o : Option Time) (created : Time)
      → since_if V K o created ≡ true
      → (t : Time) → o ≡ some t
      → t ≤ created
  unfolding since_if
  since_if_sound none created h t e = cc e
  since_if_sound (some s) created h t e = let same : s ≡ t = cc e in ground arith

  since_if_exact :
      (o : Option Time) (created : Time)
      → ((t : Time) → o ≡ some t → t ≤ created)
      → since_if V K o created ≡ true
  unfolding since_if
  since_if_exact none created h = refl
  since_if_exact (some s) created h = let le = h s refl in ground arith

  pub passes-Passes :
      (filters : MemoryFilters) (row : MemoryRow V K)
      → passes V K filters row ≡ true
      → Passes filters row
  unfolding passes
  passes-Passes filters row h =
      let (ab, c) =
        both_true
          (equals_if V K filters.memory_type (some row.memory_type)
            && equals_if V K filters.source row.source)
          (since_if V K filters.since row.created_at) h in
      let (a, b) =
        both_true (equals_if V K filters.memory_type (some row.memory_type))
          (equals_if V K filters.source row.source) ab in
      record {
        of_type =
            λ t e. let p = equals_if_sound filters.memory_type (some row.memory_type) a t e in cc p;
        from_source = equals_if_sound filters.source row.source b;
        not_before = since_if_sound filters.since row.created_at c;
      }

  pub Passes-passes :
      (filters : MemoryFilters) (row : MemoryRow V K)
      → Passes filters row
      → passes V K filters row ≡ true
  unfolding passes
  Passes-passes filters row h =
      rw
        (equals_if_exact filters.memory_type (some row.memory_type)
          (λ s e. ap some (h.of_type s e)))
        (rw (equals_if_exact filters.source row.source h.from_source)
          (since_if_exact filters.since row.created_at h.not_before))
