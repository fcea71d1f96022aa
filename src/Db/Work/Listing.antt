-- ===== src/Db/Work/Listing.antt =====
-- src/db/work.rs: `list_work_items`, and what it lists.
use animus_rs.Prelude.{
  sym, text_eq_iff, ◌≤◌, ℕ, ◌≡◌, refl, ◌⊎◌, inl, inr, ℤ, pos, negsuc, Bool, true, false, ◌&&◌,
  Option, none, some, List, [], ◌∷◌, Text, lit, text_eq, Result, ok, err, leb, arith,
}
use animus_rs.Prelude.Sort.{Order, page_of}
use animus_rs.Prelude.Sort.Select.{IsSelection, page_of-IsSelection}
use animus_rs.Json.{JsonLib}
use animus_rs.Work.State
use animus_rs.Work.State.{State}
use animus_rs.Work.Item.{WorkItem}
use animus_rs.Db.Table.{Row}
use animus_rs.Db.Pgmq.{Pgmq}
use animus_rs.Db.Session.{Error, World, M, lift, ◌>>=◌, statement}
use animus_rs.Db.Session.Rules.{next_fault, fault_rule}
use animus_rs.Db.Rows.{try_into_work_item}

module _ {V : Type 0} where
  -- The `WHERE` of the four statements.
  pub listed_by : Option State → Option Text → Row V → Bool
  listed_by none none r = true
  listed_by (some state) none r = text_eq r.state (State.show state)
  listed_by none (some faculty) r = text_eq r.faculty faculty
  listed_by (some state) (some faculty) r =
      text_eq r.state (State.show state) && text_eq r.faculty faculty

  -- `created_at DESC`; rows of the same time stay in the order of the table.
  abbrev pub newer : Row V → Row V → Bool
  newer r s = leb s.created_at r.created_at

  -- One step of `collect`: the first error, or the items so far.
  pub push_item :
      Result Error (WorkItem V)
      → Result Error (List (WorkItem V))
      → Result Error (List (WorkItem V))
  push_item (err e) rest = err e
  push_item (ok item) (err e) = err e
  push_item (ok item) (ok items) = ok (item ∷ items)

  pub try_into_work_items : List (Row V) → Result Error (List (WorkItem V))
  try_into_work_items [] = ok []
  try_into_work_items (r ∷ rows) = push_item (try_into_work_item r) (try_into_work_items rows)

module _ (j : JsonLib) (P : Pgmq j.Value) where
  open j use {Value}

  -- The server refuses a negative limit.
  pub select_page : Option State → Option Text → ℤ → M P (List (Row Value))
  select_page state faculty (pos n) w = (ok (page_of (listed_by state faculty) newer n w.items), w)
  select_page state faculty (negsuc n) w =
      (err (Error.database (lit "LIMIT must not be negative")), w)

  unfoldable pub list_work_items : Option State → Option Text → ℤ → M P (List (WorkItem Value))
  list_work_items state faculty limit = do
    rows ← statement (select_page state faculty limit)
    lift (try_into_work_items rows)

pub both_true : (a b : Bool) → a && b ≡ true → (a ≡ true) × (b ≡ true)
both_true true b h = (refl, h)
both_true false b h = cc h

pub leb_total : (m n : ℕ) → leb m n ≡ false → leb n m ≡ true
leb_total m n h = ground arith

pub leb_trans : (m n k : ℕ) → leb m n ≡ true → leb n k ≡ true → leb m k ≡ true
leb_trans m n k h i = ground arith

abbrev pub newest_first : {V : Type 0} → Order (Row V)
newest_first = record {
  before = newer;
  total = λ r s h. leb_total s.created_at r.created_at h;
  trans = λ r s t h k. leb_trans t.created_at s.created_at r.created_at k h;
}

module _ {V : Type 0} where
  -- Each row with its item.
  abbrev pub Items : List (Row V) → List (WorkItem V) → Type 0
  Items [] [] = Unit
  Items (r ∷ rows) (item ∷ items) = (try_into_work_item r ≡ ok item) × Items rows items
  Items _ _ = ⊥

  -- The first row that is not read back fails the list.
  abbrev pub FirstUnread : Error → List (Row V) → Type 0
  FirstUnread e [] = ⊥
  FirstUnread e (r ∷ rows) =
      (try_into_work_item r ≡ err e)
      ⊎ ((item : WorkItem V) × (try_into_work_item r ≡ ok item) × FirstUnread e rows)

  abbrev pub Converted : List (Row V) → Result Error (List (WorkItem V)) → Type 0
  Converted rows (ok items) = Items rows items
  Converted rows (err e) = FirstUnread e rows

  push_item-Converted :
      (r : Row V) (rows : List (Row V)) (x : Result Error (WorkItem V))
      (rest : Result Error (List (WorkItem V)))
      → try_into_work_item r ≡ x
      → Converted rows rest
      → Converted (r ∷ rows) (push_item x rest)
  unfolding push_item
  push_item-Converted r rows (err e) rest h c = inl h
  push_item-Converted r rows (ok item) (ok items) h c = (h, c)
  push_item-Converted r rows (ok item) (err e) h c = inr (item, h, c)

  try_into_work_items-Converted : (rows : List (Row V)) → Converted rows (try_into_work_items rows)
  unfolding try_into_work_items
  try_into_work_items-Converted [] = tt
  try_into_work_items-Converted (r ∷ rows) =
      push_item-Converted r rows _ _ refl (try_into_work_items-Converted rows)

module _ {V : Type 0} where
  -- A row that a list with these filters may have.
  pub record Passes (state : Option State) (faculty : Option Text) (r : Row V) : Type 0 where
    pub in_state : (s : State) → state ≡ some s → r.state ≡ State.show s
    pub of_faculty : (f : Text) → faculty ≡ some f → r.faculty ≡ f

  listed_by-Passes :
      (state : Option State) (faculty : Option Text) (r : Row V)
      → listed_by state faculty r ≡ true
      → Passes state faculty r
  unfolding listed_by
  listed_by-Passes none none r h = record { in_state = λ s e. cc e; of_faculty = λ f e. cc e }
  listed_by-Passes (some state) none r h = record {
    in_state = λ s e. let same : state ≡ s = cc in rw (sym same) ((text_eq_iff _ _).0 h);
    of_faculty = λ f e. cc e;
  }
  listed_by-Passes none (some faculty) r h = record {
    in_state = λ s e. cc e;
    of_faculty = λ f e. let same : faculty ≡ f = cc in rw (sym same) ((text_eq_iff _ _).0 h);
  }
  listed_by-Passes (some state) (some faculty) r h =
      let (p, q) = both_true (text_eq r.state (State.show state)) (text_eq r.faculty faculty) h in
      record {
        in_state = λ s e. let same : state ≡ s = cc in rw (sym same) ((text_eq_iff _ _).0 p);
        of_faculty = λ f e. let same : faculty ≡ f = cc in rw (sym same) ((text_eq_iff _ _).0 q);
      }

  Passes-listed_by :
      (state : Option State) (faculty : Option Text) (r : Row V)
      → Passes state faculty r
      → listed_by state faculty r ≡ true
  unfolding listed_by
  Passes-listed_by none none r h = refl
  Passes-listed_by (some state) none r h = (text_eq_iff _ _).1 (h.in_state state refl)
  Passes-listed_by none (some faculty) r h = (text_eq_iff _ _).1 (h.of_faculty faculty refl)
  Passes-listed_by (some state) (some faculty) r h =
      rw ((text_eq_iff r.state (State.show state)).1 (h.in_state state refl))
        ((text_eq_iff r.faculty faculty).1 (h.of_faculty faculty refl))

  -- The order of a list.
  abbrev pub NoOlder : Row V → Row V → Type 0
  NoOlder r s = s.created_at ≤ r.created_at

  newer-NoOlder : (r s : Row V) → newer r s ≡ true → NoOlder r s
  newer-NoOlder r s h = ground arith

module _ (j : JsonLib) (P : Pgmq j.Value) where
  open j use {Value}

  -- What a list is: a selection of the table, or the error of a statement that fails or is refused.
  pub data Lists (state : Option State) (faculty : Option Text) (w : World P)
      : ℤ → Result Error (List (WorkItem Value)) → Type 0 where
    failed :
        {limit : ℤ} (e : Text)
        → next_fault w.faults ≡ some e
        → Lists state faculty w limit (err (Error.database e))
    refused :
        {n : ℕ} (e : Text)
        → next_fault w.faults ≡ none
        → Lists state faculty w (negsuc n) (err (Error.database e))
    answered :
        {n : ℕ} (page : List (Row Value)) (r : Result Error (List (WorkItem Value)))
        → next_fault w.faults ≡ none
        → IsSelection (Passes state faculty) NoOlder n w.items page
        → Converted page r
        → Lists state faculty w (pos n) r

  abbrev pub Unchanged : World P → World P → Type 0
  Unchanged w w' = (fs : List (Option Text)) × (w' ≡ record w { faults = fs })

  -- The items of `list_work_items` are those of a page of the rows in the state and of the faculty given,
  -- if any, each created no earlier than those that follow and than the passing rows left out, at most
  -- as many as the limit, and fewer only if none is left out; if a row of the page is not read back,
  -- the error of the first such is returned. The server's error is returned exactly if the statement
  -- fails or the limit is below 0. Nothing is changed.
  pub list_work_items-Lists :
      (state : Option State) (faculty : Option Text) (limit : ℤ) (w : World P)
      → Lists state faculty w limit (list_work_items j P state faculty limit w).0
        × Unchanged w (list_work_items j P state faculty limit w).1
  unfolding list_work_items select_page
  list_work_items-Lists state faculty (pos n) w =
      let page =
        page_of-IsSelection (listed_by state faculty) (Passes state faculty)
          (listed_by-Passes state faculty) (Passes-listed_by state faculty) newest_first NoOlder
          newer-NoOlder n w.items in
      fault_rule (λ r. Lists state faculty w (pos n) r.0 × Unchanged w r.1) _ _ _
        (λ fs h. (answered _ _ h page (try_into_work_items-Converted _), (fs, refl)))
        (λ e fs h. (failed e h, (fs, refl)))
  list_work_items-Lists state faculty (negsuc n) w =
      fault_rule (λ r. Lists state faculty w (negsuc n) r.0 × Unchanged w r.1) _ _ _
        (λ fs h. (refused _ h, (fs, refl))) (λ e fs h. (failed e h, (fs, refl)))
