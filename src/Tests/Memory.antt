-- ===== src/Tests/Memory.antt =====
-- A search in two memories, with numbers as vectors.
use animus_rs.Prelude.{
  ◌≡◌, sym, append-nil, ◌++◌, List, Result, ok, true, ℕ, ◌+◌, ◌*◌, pos, leb, none, some, [], ◌∷◌,
  Text, lit, decimal, length,
}
use animus_rs.Db.Work.Listing.{leb_total, leb_trans}
use animus_rs.Memory.Entry.{MemoryFilters, NewMemory, Ranking}
use animus_rs.Memory.Store.{
  MemoryRow, Scan, nearer, Memories, row_of, search_memory_by_vector, hybrid_search,
}
use animus_rs.Memory.Store.Recall.{Recalls, Ranks, search-Finds}
use mathlib.Core.List.{Perm}
use mathlib.Core.Path.{subst}
use animus_rs.Prelude.Sort.{Order, IsSorted, sort_by, sort_by-Perm, sort_by-IsSorted}

-- A vector is its text, and its distance to another one is the sum of their lengths.
abbrev ranking : Ranking
ranking = record {
  Float = ℕ;
  show_float = decimal;
  Vector = Text;
  vector = λ s. some s;
  fits = λ v. true;
  Score = ℕ;
  order = record { before = leb; total = leb_total; trans = leb_trans };
  literal = λ s. length s;
  add = λ a b. a + b;
  mul = λ a b. a * b;
  div = λ a b. a;
  distance = λ v w. length v + length w;
  text_rank = λ content text. length content;
}

abbrev new : Text → NewMemory Text ℕ
new content = record {
  content = content;
  memory_type = lit "fact";
  source = none;
  metadata = [];
  embedding = 1 ∷ [];
}

abbrev memories : Memories Text ranking
memories = record {
  rows =
      row_of Text ranking 1 5 (new (lit "far")) (lit "[1,2]")
      ∷ row_of Text ranking 2 6 (new (lit "near")) (lit "[1]")
      ∷ [];
  metrics = [];
}

abbrev facts : MemoryFilters
facts = record { memory_type = some (lit "fact"); source = none; since = none }

abbrev by_distance : Text → Order (MemoryRow Text ranking)
by_distance v = record {
  before = nearer Text ranking v;
  total = λ r s. leb_total (length r.embedding + length v) (length s.embedding + length v);
  trans = λ r s t.
      leb_trans (length r.embedding + length v) (length s.embedding + length v)
        (length t.embedding + length v);
}

all_visited :
    (v : Text) (rows visited : List (MemoryRow Text ranking))
    → ◌≡◌ {A = Result Text (List (MemoryRow Text ranking))}
        (ok (sort_by (nearer Text ranking v) rows))
        (ok visited)
    → Perm (visited ++ []) rows
all_visited v rows visited e =
    let same : sort_by (nearer Text ranking v) rows ≡ visited = cc e in
    rw append-nil (rw (sym same) (sort_by-Perm (nearer Text ranking v) rows))

IsSorted-visit :
    (v : Text) (rows visited : List (MemoryRow Text ranking))
    → ◌≡◌ {A = Result Text (List (MemoryRow Text ranking))}
        (ok (sort_by (nearer Text ranking v) rows))
        (ok visited)
    → IsSorted (nearer Text ranking v) visited
IsSorted-visit v rows visited e =
    let same : sort_by (nearer Text ranking v) rows ≡ visited = cc e in
    subst (IsSorted (nearer Text ranking v)) same (sort_by-IsSorted (by_distance v) rows)

-- A scan that sorts all rows.
abbrev sorting : Scan Text ranking
sorting = record {
  visit = λ v rows. ok (sort_by (nearer Text ranking v) rows);
  within = λ v rows visited e. ([], all_visited v rows visited e);
  in_order = λ v rows visited e. IsSorted-visit v rows visited e;
}

search-Finds_example :
    Recalls Text ranking sorting
      (1 ∷ [])
      facts
      memories
      none
      (pos 1)
      (search_memory_by_vector Text ranking sorting none (1 ∷ []) (pos 1) facts memories).0
    × Ranks Text ranking
        (lit "q")
        (1 ∷ [])
        facts
        memories
        none
        (pos 1)
        (hybrid_search Text ranking none (lit "q") (1 ∷ []) (pos 1) facts memories).0
search-Finds_example =
    search-Finds Text ranking sorting (lit "q") (1 ∷ []) facts memories none (pos 1)
