-- ===== src/Db/Work/Submit/Overlap.antt =====
-- A submission (src/db/work.rs) that meets a conflict, with other processes between its statements.
use animus_rs.Prelude.{
  ◌≡◌, refl, false, Option-cases, Bool-cases, ◌⊎◌, inl, inr, Option, none, some, List, [], ◌∷◌,
  ◌++◌, Text, Result, ok, err,
}
use animus_rs.Json.{JsonLib}
use animus_rs.Work.State
use animus_rs.Work.State.{State}
use animus_rs.Work.Item.{Uuid, Time, NewWorkItem}
use animus_rs.Db.Table.{Row, holds_key, has_id, select, exists, admits}
use animus_rs.Db.Table.Rows.{admits-fresh}
use animus_rs.Db.Pgmq.{Pgmq}
use animus_rs.Db.Session.{Error, World, M, pure, lift, ◌>>=◌, ◌>>◌, commit}
use animus_rs.Db.Session.Rules.{commit-continue, bind_rule, commit_rule, commit-err, commit-faults}
use animus_rs.Db.Rows.{validate_transition, new_row, merged_row}
use animus_rs.Db.Work.{constraint_error, insert, find_canonical, merge}
use animus_rs.Db.Work.Submit.{Unchanged}
use animus_rs.Db.Work.Steps.{◌⇝*◌}
use animus_rs.Db.Work.Steps.Invariant.{IsValid, reachable-IsValid, append-merged-IsValid}
use animus_rs.Db.Work.Taken.{select-exists}
use animus_rs.Db.Work.Calls.{◌↝*◌, ↝*-⇝*}

module _ (j : JsonLib) (P : Pgmq j.Value) (show_uuid : Uuid → Text) where
  open j use {Value}

  -- What other processes commit before the next statement, which then sees it.
  abbrev pub meanwhile : (World P → World P) → M P (Unit {0})
  meanwhile others w = (ok tt, others w)

  -- The INSERT of the duplicate and the commit, which undoes no more than that.
  pub insert_merged : Uuid → Time → NewWorkItem Value → Uuid → M P (Option Uuid)
  insert_merged id now new canonical w =
      commit w
        ((do insert j P show_uuid (merged_row id now new canonical); pure (some canonical)) w)

  -- What a submission does behind a conflict: up to then it has written nothing. Others commit
  -- before it looks for the canonical item, and before it inserts the new one.
  pub merge_amid :
      (World P → World P)
      → (World P → World P)
      → Uuid
      → Time
      → NewWorkItem Value
      → Text
      → M P (Option Uuid)
  merge_amid first second id now new key = do
    meanwhile first
    canonical ← find_canonical j P show_uuid new.faculty key
    lift (validate_transition State.created State.merged)
    meanwhile second
    insert_merged id now new canonical

  -- Where no other process commits anything, this is the transaction of `merge`.
  merge_amid-alone :
      (id : Uuid) (now : Time) (new : NewWorkItem Value) (key : Text) (w : World P)
      → commit w (merge j P show_uuid id now new key w)
        ≡ merge_amid (λ v. v) (λ v. v) id now new key w
  unfolding merge_amid merge insert_merged find_canonical validate_transition
      State.can_transition_to
  merge_amid-alone id now new key w = commit-continue _ _ _ w (λ fs.
      elim (Option-cases (select (holds_key new.faculty key) w.items)) [
        | inl e ↦ rw e (commit-err w _ _)
        | inr (holder, e) ↦ rw e (commit-faults w fs _)
      ])

  -- The duplicate is stored in `v`, merged into the item that was active in `u`.
  pub record StoredAmid (id canonical : Uuid) (now : Time) (new : NewWorkItem Value) (key : Text)
      (u v after : World P) : Type 0 where
    pub holder : Row Value
    pub holds : select (holds_key new.faculty key) u.items ≡ some holder
    pub is_canonical : canonical ≡ holder.id
    pub fresh_id : exists (has_id id) v.items ≡ false
    pub stored : after.items ≡ v.items ++ merged_row id now new canonical ∷ []
    pub same_queues : after.queues ≡ v.queues
    pub same_notified : after.notified ≡ v.notified

  module _ (first second : World P → World P) (id : Uuid) (now : Time) (new : NewWorkItem Value)
      (key : Text) (w : World P) where
    -- What the submission finds when it inserts, if these statements are still to fail.
    abbrev pub at_insert : List (Option Text) → World P
    at_insert fs = second (record (first w) { faults = fs })

    -- How it can end.
    pub Ended : Result Error (Option Uuid) × World P → Type 0
    Ended (ok none, after) = ⊥
    Ended (ok (some canonical), after) =
        (fs : List (Option Text)) × StoredAmid id canonical now new key (first w) (at_insert fs)
          after
    Ended (err e, after) =
        Unchanged j P show_uuid (first w) after
        ⊎ ((fs : List (Option Text)) × Unchanged j P show_uuid (at_insert fs) after)

    undone :
        (fs : List (Option Text)) (e : Error) (x : World P)
        → Ended (commit (at_insert fs) (err e, x))
    unfolding Ended
    undone fs e x =
        commit_rule (at_insert fs) (err e) x Ended (λ a fs' h. cc h)
          (λ e' fs'.
            inr (fs, record { same_items = refl; same_queues = refl; same_notified = refl }))

    insert_merged-Ended :
        (holder : Row Value) (fs : List (Option Text))
        → select (holds_key new.faculty key) (first w).items ≡ some holder
        → Ended (insert_merged id now new holder.id (at_insert fs))
    unfolding insert_merged insert Ended merged_row new_row
    insert_merged-Ended holder fs holds =
        bind_rule (λ r. Ended (commit (at_insert fs) r)) _ _ _
          (λ fs'.
            elim (Bool-cases (admits (merged_row id now new holder.id) (at_insert fs).items)) [
              | inl e ↦ rw e (
                  commit_rule (at_insert fs) (ok (some holder.id)) _ Ended
                    (λ a fs'' h.
                      let same : a ≡ some holder.id = cc in
                      rw same (
                        fs,
                        record {
                          holder = holder;
                          holds = holds;
                          is_canonical = refl;
                          fresh_id =
                              admits-fresh (merged_row id now new holder.id) (at_insert fs).items e;
                          stored = refl;
                          same_queues = refl;
                          same_notified = refl;
                        },
                      ))
                    (λ e' fs''.
                      inr (
                        fs,
                        record { same_items = refl; same_queues = refl; same_notified = refl },
                      )))
              | inr e ↦ rw e (undone fs (constraint_error j P show_uuid) _)
            ])
          (λ e fs'. undone fs (Error.database e) _)

    merge_amid-Ended : Ended (merge_amid first second id now new key w)
    unfolding merge_amid find_canonical Ended validate_transition State.can_transition_to
    merge_amid-Ended =
        bind_rule Ended _ _ _
          (λ fs. elim (Option-cases (select (holds_key new.faculty key) (first w).items)) [
            | inl e ↦
                rw e (inl (record { same_items = refl; same_queues = refl; same_notified = refl }))
            | inr (holder, e) ↦ rw e (insert_merged-Ended holder fs e)
          ])
          (λ e fs. inl (record { same_items = refl; same_queues = refl; same_notified = refl }))

    -- A submission that finds no active item with the key any more fails, though the key is free.
    pub Lost : Type 0
    Lost =
        exists (holds_key new.faculty key) (first w).items ≡ false
        → (e : Error) × ((merge_amid first second id now new key w).0 ≡ err e)
          × Unchanged j P show_uuid (first w) (merge_amid first second id now new key w).1

    merge_amid-Lost : Lost
    unfolding Lost merge_amid find_canonical exists
    merge_amid-Lost free =
        bind_rule (λ r. (e : Error) × (r.0 ≡ err e) × Unchanged j P show_uuid (first w) r.1) _ _ _
          (λ fs. elim (Option-cases (select (holds_key new.faculty key) (first w).items)) [
            | inl e ↦
                rw e
                  (_, refl, record { same_items = refl; same_queues = refl; same_notified = refl })
            | inr (holder, e) ↦ absurd (cc (select-exists _ (first w).items holder e, free))
          ])
          (λ e fs.
            (_, refl, record { same_items = refl; same_queues = refl; same_notified = refl }))

    Ended-IsValid :
        (r : Result Error (Option Uuid)) (after : World P)
        → IsValid (first w).items
        → ((fs : List (Option Text)) → IsValid (at_insert fs).items)
        → Ended (r, after)
        → IsValid after.items
    unfolding Ended
    Ended-IsValid (ok none) after before later h = absurd h
    Ended-IsValid (ok (some c)) after before later (fs, h) =
        rw h.stored (append-merged-IsValid (at_insert fs).items id now new c h.fresh_id (later fs))
    Ended-IsValid (err e) after before later (inl h) = rw h.same_items before
    Ended-IsValid (err e) after before later (inr (fs, h)) = rw h.same_items (later fs)

    pub record IsSafe : Type 0 where
      pub valid : IsValid (merge_amid first second id now new key w).1.items
      pub ended : Ended (merge_amid first second id now new key w)
      pub lost : Lost

    -- Whatever calls other processes make between the statements of a submission that has met a
    -- conflict, from a table that the program can reach: the table is valid afterwards; a success has
    -- stored the item as merged into one that was active under its key when that was looked up, and
    -- a failure nothing. It fails if by then no item is active under the key, which is free.
    pub merge_amid-IsSafe :
        [] ⇝* w.items
        → ◌↝*◌ j P show_uuid w (first w)
        → ((u : World P) → ◌↝*◌ j P show_uuid u (second u))
        → IsSafe
    merge_amid-IsSafe steps early late =
        let reached = ↝*-⇝* j P show_uuid [] steps early in
        record {
          valid =
              Ended-IsValid _ _ (reachable-IsValid _ reached)
                (λ fs.
                  reachable-IsValid _
                    (↝*-⇝* j P show_uuid [] reached (late (record (first w) { faults = fs }))))
                merge_amid-Ended;
          ended = merge_amid-Ended;
          lost = merge_amid-Lost;
        }
