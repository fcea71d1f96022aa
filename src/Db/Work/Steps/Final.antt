-- ===== src/Db/Work/Steps/Final.antt =====
-- An item in a terminal state is final, whatever the operations of src/db/work.rs do afterwards.
use animus_rs.Prelude.{
  ◌≡◌, refl, true, false, some, List, text_eq, text_eq_iff, Bool-cases, inl, inr, arith, sym, ◌∙◌,
}
use animus_rs.Work.State
use animus_rs.Work.State.{State, is_terminal}
use animus_rs.Work.State.Graph.{◌⟶◌, show_injective}
use animus_rs.Work.Item.{Uuid}
use animus_rs.Db.Table.{Row, select, has_id}
use animus_rs.Db.Table.Counts.{select-update, select-append_some}
use animus_rs.Db.Rows.{is_in}
use animus_rs.Db.Work.Steps.{◌⇝◌, ◌⇝*◌, stay, store, fold, move, done, onward}
use animus_rs.Db.Work.Steps.Edges.{edge-Leaves}

module _ {V : Type 0} where
  -- A row in a terminal state is in no state that an edge leaves.
  is_in-terminal :
      (from to s : State)
      → from ⟶ to
      → is_terminal s ≡ true
      → (id : Uuid) (r : Row V) → r.state ≡ State.show s
      → is_in id (State.show from) r ≡ false
  unfolding is_in
  is_in-terminal from to s edge final id r h =
      elim (Bool-cases (text_eq r.state (State.show from))) [
        | inl e ↦ cc (differs e, (edge-Leaves edge).not_terminal, final)
        | inr e ↦ ground arith
      ]
    where
      differs : text_eq r.state (State.show from) ≡ true → s ≡ from
      differs e = show_injective s from (sym h ∙ (text_eq_iff r.state (State.show from)).0 e)

  step-final :
      {a b : List (Row V)}
      → a ⇝ b
      → (id : Uuid) (r : Row V) (s : State) → select (has_id id) a ≡ some r
      → r.state ≡ State.show s
      → is_terminal s ≡ true
      → select (has_id id) b ≡ some r
  step-final stay id r s h shown final = h
  step-final (store {rows} i now db_now new m fresh free) id r s h shown final =
      select-append_some _ rows r _ h
  step-final (fold {rows} i now new key holder fresh has holds) id r s h shown final =
      select-append_some _ rows r _ h
  step-final (move {rows} {from} {to} i change edge m) id r s h shown final =
      select-update (has_id id) (is_in i (State.show from)) change rows r
        (λ t. rw (m.same_id t) refl) (is_in-terminal from to s edge final i r shown) h

  -- An item that is completed, dead or merged stays as it is, in every field, whatever submissions,
  -- transitions, completions and failures follow.
  pub terminal_is_final :
      {a b : List (Row V)}
      → a ⇝* b
      → (id : Uuid) (r : Row V) (s : State) → select (has_id id) a ≡ some r
      → r.state ≡ State.show s
      → is_terminal s ≡ true
      → select (has_id id) b ≡ some r
  terminal_is_final done id r s h shown final = h
  terminal_is_final (onward step steps) id r s h shown final =
      terminal_is_final steps id r s (step-final step id r s h shown final) shown final
