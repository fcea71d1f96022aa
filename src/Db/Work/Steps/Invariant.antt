-- ===== src/Db/Work/Steps/Invariant.antt =====
-- What holds of every table that the operations of src/db/work.rs can reach.
use animus_rs.Prelude.{
  ℕ, ◌≤◌, ◌≡◌, refl, Bool, true, false, ◌||◌, List, [], ◌∷◌, ◌++◌, Text, is_some, Bool-cases, inl,
  inr, arith, sym, ◌∙◌,
}
use animus_rs.Work.State
use animus_rs.Work.State.{State, is_terminal, state_eq}
use animus_rs.Work.State.Graph.{◌⟶◌, show_injective}
use animus_rs.Db.Work.Steps.Edges.{Leaves, edge-Leaves}
use animus_rs.Work.Item.{Uuid, Time, NewWorkItem}
use animus_rs.Db.Table.{exists, Row, holds_key, has_id, update, affected}
use animus_rs.Db.Table.Counts.{affected-append, affected-none, affected-update}
use animus_rs.Db.Rows.{new_row, merged_row, queue_row, is_in}
use animus_rs.Db.Work.Steps.{IsMove, ◌⇝◌, ◌⇝*◌, stay, store, fold, move, done, onward}
use animus_rs.Db.Work.Steps.Keys.{
  in-state, holds_key-queued, merged_row-inactive, unique_id-append, holds_key-move,
}

or_false : (b : Bool) → b || false ≡ b
or_false true = refl
or_false false = refl

module _ {V : Type 0} where
  -- A row that the program can read back: its state is one that `State.parse` knows and has been
  -- left by the submission; it is resolved if that state is terminal, and has a canonical item if
  -- it is merged.
  pub record RowIsValid (r : Row V) : Type 0 where
    pub status : State
    pub shown : r.state ≡ State.show status
    pub not_created : state_eq status State.created ≡ false
    pub resolved_iff : is_some r.resolved_at ≡ is_terminal status
    pub merged_iff : is_some r.merged_into ≡ state_eq status State.merged

  pub EachIsValid : List (Row V) → Type 0
  EachIsValid [] = Unit {0}
  EachIsValid (r ∷ rows) = RowIsValid r × EachIsValid rows

  pub record IsValid (rows : List (Row V)) : Type 0 where
    pub each : EachIsValid rows
    -- the primary key
    pub unique_id : (id : Uuid) → affected (has_id id) rows ≤ 1
    -- the dedup key: no two active items of a faculty have the same one
    pub unique_key : (faculty key : Text) → affected (holds_key faculty key) rows ≤ 1

  queued-RowIsValid :
      (id : Uuid) (now db_now : Time) (new : NewWorkItem V) (m : ℕ)
      → RowIsValid (queue_row m db_now (new_row id now new))
  unfolding queue_row new_row State.show is_terminal state_eq
  queued-RowIsValid id now db_now new m = record {
    status = State.queued;
    shown = refl;
    not_created = refl;
    resolved_iff = refl;
    merged_iff = refl;
  }

  merged-RowIsValid :
      (id : Uuid) (now : Time) (new : NewWorkItem V) (c : Uuid)
      → RowIsValid (merged_row id now new c)
  unfolding merged_row new_row State.show is_terminal state_eq
  merged-RowIsValid id now new c = record {
    status = State.merged;
    shown = refl;
    not_created = refl;
    resolved_iff = refl;
    merged_iff = refl;
  }

  EachIsValid-append :
      (rows : List (Row V)) (r : Row V)
      → EachIsValid rows
      → RowIsValid r
      → EachIsValid (rows ++ r ∷ [])
  unfolding EachIsValid
  EachIsValid-append [] r h v = (v, tt)
  EachIsValid-append (s ∷ rows) r (v', h) v = (v', EachIsValid-append rows r h v)

  -- A valid row in the state that an edge leaves is not resolved; the edge keeps it valid.
  move-RowIsValid :
      (from to : State)
      → from ⟶ to
      → (change : Row V → Row V) → IsMove to change
      → (r : Row V) → r.state ≡ State.show from
      → RowIsValid r
      → RowIsValid (change r)
  move-RowIsValid from to edge change m r h v = record {
    status = to;
    shown = m.new_state r;
    not_created = l.not_created;
    resolved_iff =
        rw (m.resolved r)
          (rw v.resolved_iff (rw same (rw l.not_terminal (or_false (is_terminal to)))));
    merged_iff = rw (m.same_merged_into r) (
        rw v.merged_iff
          (rw same (elim l.not_merged [ inl e ↦ cc (e, v.not_created, same) | inr e ↦ sym e ])));
  }
    where
      l : Leaves from to
      l = edge-Leaves edge

      same : v.status ≡ from
      same = show_injective v.status from (sym v.shown ∙ h)

  EachIsValid-update :
      (from to : State) (edge : from ⟶ to) (id : Uuid) (change : Row V → Row V)
      → IsMove to change
      → (rows : List (Row V)) → EachIsValid rows
      → EachIsValid (update (is_in id (State.show from)) change rows)
  unfolding EachIsValid update is_in
  EachIsValid-update from to edge id change m [] h = tt
  EachIsValid-update from to edge id change m (r ∷ rows) (v, h) =
      elim (Bool-cases (is_in id (State.show from) r)) [
        | inl e ↦ rw e (
          move-RowIsValid from to edge change m r (in-state id (State.show from) r e) v,
          EachIsValid-update from to edge id change m rows h,
        )
        | inr e ↦ rw e (v, EachIsValid-update from to edge id change m rows h)
      ]

  -- A merged row with a fresh id keeps a table valid.
  pub append-merged-IsValid :
      (rows : List (Row V)) (id : Uuid) (now : Time) (new : NewWorkItem V) (canonical : Uuid)
      → exists (has_id id) rows ≡ false
      → IsValid rows
      → IsValid (rows ++ merged_row id now new canonical ∷ [])
  unfolding new_row merged_row
  append-merged-IsValid rows id now new canonical fresh h = record {
    each = EachIsValid-append rows _ h.each (merged-RowIsValid id now new canonical);
    unique_id = unique_id-append rows _ fresh h.unique_id;
    unique_key = λ f k.
        rw affected-append
          (rw (merged_row-inactive f k id now new canonical) (omega (arith, h.unique_key f k)));
  }

  step-IsValid : {a b : List (Row V)} → a ⇝ b → IsValid a → IsValid b
  unfolding new_row queue_row merged_row
  step-IsValid stay h = h
  step-IsValid (store {rows} id now db_now new m fresh free) h = record {
    each = EachIsValid-append rows _ h.each (queued-RowIsValid id now db_now new m);
    unique_id = unique_id-append rows _ fresh h.unique_id;
    unique_key = λ f k.
        elim (Bool-cases (holds_key f k (queue_row m db_now (new_row id now new)))) [
          | inl e ↦ rw affected-append (
              rw e (
                rw (affected-none _ rows (holds_key-queued f k id now db_now new m rows free e))
                  (omega arith)))
          | inr e ↦ rw affected-append (rw e (omega (arith, h.unique_key f k)))
        ];
  }
  step-IsValid (fold {rows} id now new key holder fresh has holds) h =
      append-merged-IsValid rows id now new holder.id fresh h
  step-IsValid (move {rows} {from} {to} id change edge m) h = record {
    each = EachIsValid-update from to edge id change m rows h.each;
    unique_id = λ i.
        let le =
          affected-update (has_id i) (is_in id (State.show from)) change rows
            (λ r _ e. rw (sym (m.same_id r)) e) in
        omega (arith, le, h.unique_id i);
    unique_key = λ f k.
        let le =
          affected-update (holds_key f k) (is_in id (State.show from)) change rows
            (holds_key-move from to edge id change m f k) in
        omega (arith, le, h.unique_key f k);
  }

  empty-IsValid : IsValid []
  unfolding EachIsValid affected
  empty-IsValid = record {
    each = tt;
    unique_id = λ i. omega arith;
    unique_key = λ f k. omega arith;
  }

  steps-IsValid : {a b : List (Row V)} → a ⇝* b → IsValid a → IsValid b
  steps-IsValid done h = h
  steps-IsValid (onward step steps) h = steps-IsValid steps (step-IsValid step h)

  -- Every table that submissions, transitions, completions and failures can make of an empty one is
  -- valid: its ids are unique, no two active items of a faculty share a dedup key, and each row has a
  -- state that the program reads back, is resolved exactly if that state is terminal, and has a
  -- canonical item exactly if it is merged.
  pub reachable-IsValid : (rows : List (Row V)) → [] ⇝* rows → IsValid rows
  reachable-IsValid rows steps = steps-IsValid steps empty-IsValid
