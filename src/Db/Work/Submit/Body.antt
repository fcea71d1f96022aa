-- ===== src/Db/Work/Submit/Body.antt =====
-- The statements of the transaction of `submit_work` (src/db/work.rs), one after the other.
use animus_rs.Prelude.{
  ◌≡◌, refl, false, Option, none, some, List, [], ◌∷◌, ◌++◌, ==_iff, Bool-cases, Option-cases, inl,
  inr, Text,
}
use animus_rs.Json.{JsonLib}
use animus_rs.Work.State
use animus_rs.Work.State.{State}
use animus_rs.Work.Item.{Uuid, Time, NewWorkItem}
use animus_rs.Db.Table.{Row, holds_key, select, has_id, exists, admits}
use animus_rs.Db.Table.Rows.{update-append, admits-fresh}
use animus_rs.Db.Pgmq.{Pgmq}
use animus_rs.Db.Session.{World, pure, continue}
use animus_rs.Db.Session.Rules.{bind_rule}
use animus_rs.Db.Rows.{validate_transition, new_row, merged_row, queue_row}
use animus_rs.Db.Work.{
  insert, insert_new, find_canonical, update_rows, send, notify, enqueue, merge, enqueue_or_merge,
  submit_body,
}
use animus_rs.Db.Work.Submit.{queued_row, KeyIsFree, Reached, InBody}

module _ (j : JsonLib) (P : Pgmq j.Value) (show_uuid : Uuid → Text) where
  open j use {Value}

  module _ (id : Uuid) (now db_now : Time) (new : NewWorkItem Value) (before : World P) where
    with_new : List (Option Text) → World P
    with_new fs = record before { items = before.items ++ new_row id now new ∷ []; faults = fs }

    enqueue-InBody :
        (fs : List (Option Text))
        → exists (has_id id) before.items ≡ false
        → KeyIsFree j P show_uuid new before
        → InBody j P show_uuid id now db_now new before
            (enqueue j P show_uuid id db_now new (with_new fs))
    unfolding enqueue InBody Reached send update_rows notify queued_row validate_transition
        State.can_transition_to with_new new_row
    enqueue-InBody _ fresh free =
        bind_rule (InBody j P show_uuid id now db_now new before) _ _ _
          (λ fs.
            bind_rule (InBody j P show_uuid id now db_now new before) _ _ _
              (λ fs.
                bind_rule (InBody j P show_uuid id now db_now new before) _ _ _
                  (λ fs. (
                    free,
                    record {
                      fresh_id = fresh;
                      stored =
                          update-append (has_id id) (queue_row _ db_now) before.items
                            (new_row id now new) fresh ((==_iff id id).1 refl);
                      sent = refl;
                      notice = refl;
                    },
                  ))
                  (λ e fs. tt))
              (λ e fs. tt))
          (λ e fs. tt)

    insert-InBody :
        (fs : List (Option Text))
        → KeyIsFree j P show_uuid new before
        → InBody j P show_uuid id now db_now new before (
            continue
              (λ _. enqueue j P show_uuid id db_now new)
              (insert j P show_uuid (new_row id now new) (record before { faults = fs })))
    unfolding insert new_row with_new InBody
    insert-InBody _ free =
        bind_rule (InBody j P show_uuid id now db_now new before) _ _ _
          (λ fs. elim (Bool-cases (admits (new_row id now new) before.items)) [
            | inl e ↦
                rw e (enqueue-InBody fs (admits-fresh (new_row id now new) before.items e) free)
            | inr e ↦ rw e tt
          ])
          (λ e fs. tt)

    merge-holder :
        (key : Text) (holder : Row Value) (fs : List (Option Text))
        → new.dedup_key ≡ some key
        → select (holds_key new.faculty key) before.items ≡ some holder
        → InBody j P show_uuid id now db_now new before (
            continue
              (λ _. pure (some holder.id))
              (insert j P show_uuid
                (merged_row id now new holder.id)
                (record before { faults = fs })))
    unfolding InBody Reached insert merged_row new_row
    merge-holder key holder _ has e =
        bind_rule (InBody j P show_uuid id now db_now new before) _ _ _
          (λ fs. elim (Bool-cases (admits (merged_row id now new holder.id) before.items)) [
            | inl e' ↦ rw e' (
              key,
              has,
              record {
                fresh_id = admits-fresh (merged_row id now new holder.id) before.items e';
                holder = holder;
                holds = e;
                is_canonical = refl;
                stored = refl;
                same_queues = refl;
                same_notified = refl;
              },
            )
            | inr e' ↦ rw e' tt
          ])
          (λ e fs. tt)

    merge-InBody :
        (key : Text) (fs : List (Option Text))
        → new.dedup_key ≡ some key
        → InBody j P show_uuid id now db_now new before
            (merge j P show_uuid id now new key (record before { faults = fs }))
    unfolding merge find_canonical InBody Reached insert validate_transition State.can_transition_to
    merge-InBody key _ has =
        bind_rule (InBody j P show_uuid id now db_now new before) _ _ _
          (λ fs. elim (Option-cases (select (holds_key new.faculty key) before.items)) [
            | inl e ↦ rw e tt
            | inr (holder, e) ↦ rw e (merge-holder key holder fs has e)
          ])
          (λ e fs. tt)

    pub submit_body-InBody :
        (key : Option Text) (fs : List (Option Text))
        → new.dedup_key ≡ key
        → InBody j P show_uuid id now db_now new before
            (submit_body j P show_uuid id now db_now new key (record before { faults = fs }))
    unfolding submit_body enqueue_or_merge InBody insert_new with_new new_row KeyIsFree
    submit_body-InBody none fs has = insert-InBody fs (λ key h. cc)
    submit_body-InBody (some key) _ has =
        bind_rule (InBody j P show_uuid id now db_now new before) _ _ _
          (λ fs. elim (Bool-cases (exists (holds_key new.faculty key) before.items)) [
            | inl e ↦ rw e (merge-InBody key fs has)
            | inr e ↦ rw e (elim (Bool-cases (admits (new_row id now new) before.items)) [
              | inl e' ↦ rw e' (
                  enqueue-InBody fs (admits-fresh (new_row id now new) before.items e')
                    (λ key' h. cc))
              | inr e' ↦ rw e' tt
            ])
          ])
          (λ e fs. tt)

    pub Reached-faults :
        (a : Option Uuid) (fs fs' : List (Option Text)) (w : World P)
        → Reached j P show_uuid id now db_now new (record before { faults = fs }) a w
        → Reached j P show_uuid id now db_now new before a (record w { faults = fs' })
    unfolding Reached KeyIsFree queued_row
    Reached-faults none fs fs' w (free, h) = (
      free,
      record { fresh_id = h.fresh_id; stored = h.stored; sent = h.sent; notice = h.notice },
    )
    Reached-faults (some c) fs fs' w (key, has, h) = (
      key,
      has,
      record {
        fresh_id = h.fresh_id;
        holder = h.holder;
        holds = h.holds;
        is_canonical = h.is_canonical;
        stored = h.stored;
        same_queues = h.same_queues;
        same_notified = h.same_notified;
      },
    )
