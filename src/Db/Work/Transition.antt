-- ===== src/Db/Work/Transition.antt =====
-- `transition_state` of src/db/work.rs: the guard on the state that the row has.
use animus_rs.Prelude.{
  suc, ◌≡◌, refl, true, false, some, [], Text, ok, err, text_eq, text_eq_iff, Bool-cases, inl, inr,
  arith, ◌∙◌,
}
use animus_rs.Json.{JsonLib}
use animus_rs.Work.State
use animus_rs.Work.State.{State, can_transition_to}
use animus_rs.Work.State.Graph.{parse_iff, show_injective}
use animus_rs.Work.Item.{Uuid, Time, WorkId, WorkItem}
use animus_rs.Db.Table.{Row, select, has_id, affected}
use animus_rs.Db.Pgmq.{Pgmq}
use animus_rs.Db.Session.{Error, World}
use animus_rs.Db.Session.Rules.{bind_rule, statement-quiet}
use animus_rs.Db.Table.Counts.{select-update_hit, affected-hit, affected-moved, selected-test}
use animus_rs.Db.Work.Effects.{moved-items}
use animus_rs.Db.Rows.{validate_transition, item_of, try_into_work_item, transition_row, is_in}
use animus_rs.Db.Work.{update_rows, get_work_item, moved, transition_state}

module _ (j : JsonLib) (P : Pgmq j.Value) (show_uuid : Uuid → Text) where
  open j use {Value}

  module _ (id : WorkId) (from to : State) (now : Time) where
    parsed-item :
        (r : Row Value) (s : State)
        → r.state ≡ State.show s
        → try_into_work_item r ≡ ok (item_of r s)
    unfolding try_into_work_item
    parsed-item r s e = rw (try_into_work_item, (parse_iff r.state s).1 e) refl

    found :
        (w : World P) (r : Row Value)
        → w.faults ≡ []
        → select (has_id id.uuid) w.items ≡ some r
        → (get_work_item j P show_uuid id w).0 ≡ try_into_work_item r
    unfolding get_work_item
    found w r quiet h = rw (statement-quiet _ w quiet) (rw h refl)

    is_in-selected :
        (w : World P) (r : Row Value)
        → select (has_id id.uuid) w.items ≡ some r
        → r.state ≡ State.show from
        → is_in id.uuid (State.show from) r ≡ true
    unfolding is_in
    is_in-selected w r h shown =
        rw (selected-test (has_id id.uuid) w.items r h)
          ((text_eq_iff r.state (State.show from)).1 shown)

    -- Where no statement fails, an item that is in the state `from`, which the life cycle lets it
    -- leave for `to`, moves: the result is the item with its new state, and the table has it.
    pub transition_state-moves :
        (w : World P) (r : Row Value)
        → w.faults ≡ []
        → can_transition_to from to ≡ true
        → select (has_id id.uuid) w.items ≡ some r
        → r.state ≡ State.show from
        → ((transition_state j P show_uuid id from to now w).0
            ≡ ok (item_of (transition_row to now r) to))
          × (select (has_id id.uuid) (transition_state j P show_uuid id from to now w).1.items
              ≡ some (transition_row to now r))
    unfolding transition_state validate_transition update_rows moved transition_row
    transition_state-moves w r quiet can h shown =
        let in_from = is_in-selected w r h shown in
        let (n, hit) =
          affected-hit (has_id id.uuid) (is_in id.uuid (State.show from)) w.items r h in_from in
        let kept =
          select-update_hit (has_id id.uuid) (is_in id.uuid (State.show from))
            (transition_row to now) w.items r (λ s. refl) in_from h in
        rw can (
          rw (statement-quiet _ w quiet) (
            rw hit (
              found _ (transition_row to now r) quiet kept
                  ∙ parsed-item (transition_row to now r) to refl,
              rw (moved-items j P show_uuid id from to (suc n) _) kept,
            )))

    -- If no row of the item is in the state `from`, the call fails, whatever else goes wrong.
    pub transition_state-refused :
        (w : World P)
        → affected (is_in id.uuid (State.show from)) w.items ≡ 0
        → (e : Error) × ((transition_state j P show_uuid id from to now w).0 ≡ err e)
    unfolding transition_state validate_transition update_rows moved
    transition_state-refused w h = elim (Bool-cases (can_transition_to from to)) [
      | inl e ↦ rw e (
          bind_rule (λ r. (e : Error) × (r.0 ≡ err e)) _ _ _ (λ fs. rw h (_, refl))
            (λ e fs. (_, refl)))
      | inr e ↦ rw e (_, refl)
    ]

  no_self_edge : (s : State) → can_transition_to s s ≡ false
  unfolding can_transition_to
  no_self_edge State.created = refl
  no_self_edge State.queued = refl
  no_self_edge State.claimed = refl
  no_self_edge State.running = refl
  no_self_edge State.completed = refl
  no_self_edge State.failed = refl
  no_self_edge State.dead = refl
  no_self_edge State.merged = refl

  -- A row that has moved along an edge is no longer in the state that the edge leaves.
  moved-out :
      (id : Uuid) (from to : State) (now : Time)
      → can_transition_to from to ≡ true
      → (r : Row Value) → is_in id (State.show from) (transition_row to now r) ≡ false
  unfolding is_in transition_row
  moved-out id from to now can r = elim (Bool-cases (text_eq (State.show to) (State.show from))) [
    | inl e ↦ cc (
      can,
      no_self_edge from,
      show_injective to from ((text_eq_iff (State.show to) (State.show from)).0 e),
    )
    | inr e ↦ ground arith
  ]

  pub transition_state-clears :
      (id : WorkId) (from to : State) (now : Time) (w : World P) (item : WorkItem Value)
      → (transition_state j P show_uuid id from to now w).0 ≡ ok item
      → affected
          (is_in id.uuid (State.show from))
          (transition_state j P show_uuid id from to now w).1.items
        ≡ 0
  unfolding transition_state validate_transition update_rows
  transition_state-clears id from to now w item = elim (Bool-cases (can_transition_to from to)) [
    | inl can ↦ rw can (
        bind_rule (λ r. r.0 ≡ ok item → affected (is_in id.uuid (State.show from)) r.1.items ≡ 0) _
          _ _
          (λ fs _.
            rw
              (moved-items j P show_uuid id from to
                (affected (is_in id.uuid (State.show from)) w.items) _)
              (affected-moved (is_in id.uuid (State.show from)) (transition_row to now) w.items
                (moved-out id.uuid from to now can)))
          (λ e fs done. cc))
    | inr e ↦ rw e (λ done. cc)
  ]

  -- After a successful move of an item out of the state `from`, every further attempt to move it out
  -- of `from` fails, for whatever target: of two workers that claim an item, one gets it. The second
  -- call may come at any time that finds the table as the first call left it.
  transition_state-excludes :
      (id : WorkId) (from to to' : State) (now now' : Time) (w w' : World P) (item : WorkItem Value)
      → (transition_state j P show_uuid id from to now w).0 ≡ ok item
      → w'.items ≡ (transition_state j P show_uuid id from to now w).1.items
      → (e : Error) × ((transition_state j P show_uuid id from to' now' w').0 ≡ err e)
  transition_state-excludes id from to to' now now' w w' item done same =
      transition_state-refused id from to' now' w'
        (rw same (transition_state-clears id from to now w item done))
