-- ===== src/Db/Work/Submit/Atomic.antt =====
-- `submit_work` (src/db/work.rs) as a whole: its transaction happens entirely or not at all.
use animus_rs.Prelude.{
  ◌≡◌, refl, ==_iff, Option, none, some, false, ◌++◌, [], ◌∷◌, Text, text_eq, Result, ok, err, ◌⊎◌,
  inl, inr,
}
use mathlib.Core.Path.{subst}
use animus_rs.Json.{JsonLib}
use animus_rs.Work.State
use animus_rs.Work.State.{State}
use animus_rs.Work.Item.{Uuid, Time, NewWorkItem}
use animus_rs.Db.Table.{exists, select, has_id}
use animus_rs.Db.Table.Rows.{select-append}
use animus_rs.Db.Pgmq.{Pgmq}
use animus_rs.Db.Session.{Error, World, pure, continue, transaction}
use animus_rs.Db.Session.Rules.{bind_rule, transaction_rule, commit_rule}
use animus_rs.Db.Rows.{item_of, try_into_work_item, queue_row, new_row}
use animus_rs.Db.Work.{
  SubmitResult, created, merged, get_work_item, submit_body, submitted, submit_work,
}
use animus_rs.Db.Work.Submit.{
  Unchanged, KeyIsFree, Enqueued, Merged, queued_row, Reached, InBody, Settled,
}
use animus_rs.Db.Work.Submit.Body.{submit_body-InBody, Reached-faults}

module _ (j : JsonLib) (P : Pgmq j.Value) (show_uuid : Uuid → Text) where
  open j use {Value}

  -- What each result of `submit_work` says of the database before and after it.
  unfoldable pub Promise :
      Uuid
      → Time
      → Time
      → NewWorkItem Value
      → World P
      → Result Error (SubmitResult Value) × World P
      → Type 0
  Promise id now db_now new before (ok (created item), after) =
      KeyIsFree j P show_uuid new before
      × Enqueued j P show_uuid id now db_now new before after
      × (item ≡ item_of (queued_row j P show_uuid id now db_now new before) State.queued)
  Promise id now db_now new before (ok (merged duplicate canonical), after) =
      (key : Text) × (duplicate.uuid ≡ id)
      × (new.dedup_key ≡ some key)
      × Merged j P show_uuid id canonical.uuid now new key before after
  Promise id now db_now new before (err e, after) =
      Unchanged j P show_uuid before after
      ⊎ (KeyIsFree j P show_uuid new before × Enqueued j P show_uuid id now db_now new before after)

  module _ (id : Uuid) (now db_now : Time) (new : NewWorkItem Value) (before : World P) where
    InBody-ok :
        (w0 : World P) (r : Result Error (Option Uuid)) (w : World P) (a : Option Uuid)
        → InBody j P show_uuid id now db_now new w0 (r, w)
        → r ≡ ok a
        → Reached j P show_uuid id now db_now new w0 a w
    unfolding InBody
    InBody-ok w0 r w a h e = subst (λ s. InBody j P show_uuid id now db_now new w0 (s, w)) e h

    transaction-Settled :
        Settled j P show_uuid id now db_now new before
          (transaction (submit_body j P show_uuid id now db_now new new.dedup_key) before)
    unfolding Settled
    transaction-Settled =
        transaction_rule (submit_body j P show_uuid id now db_now new new.dedup_key) before
          (Settled j P show_uuid id now db_now new before)
          (λ fs.
            commit_rule _ _ _ (Settled j P show_uuid id now db_now new before)
              (λ a fs' e. Reached-faults j P show_uuid id now db_now new before a fs fs' _ (
                InBody-ok (record before { faults = fs }) _ _ a
                  (submit_body-InBody j P show_uuid id now db_now new
                    (record before { faults = fs }) new.dedup_key fs refl)
                  e))
              (λ e fs'. record { same_items = refl; same_queues = refl; same_notified = refl }))
          (λ e fs. record { same_items = refl; same_queues = refl; same_notified = refl })

    found :
        (after : World P)
        → exists (has_id id) before.items ≡ false
        → after.items ≡ before.items ++ queued_row j P show_uuid id now db_now new before ∷ []
        → select (has_id id) after.items ≡ some (queued_row j P show_uuid id now db_now new before)
    unfolding queued_row queue_row new_row
    found _ fresh h = rw h (select-append (has_id id) before.items _ fresh ((==_iff id id).1 refl))

    submitted-Promise :
        (r : Result Error (Option Uuid)) (after : World P)
        → Settled j P show_uuid id now db_now new before (r, after)
        → Promise id now db_now new before (continue (submitted j P show_uuid id new) (r, after))
    unfolding Settled Promise Reached submitted get_work_item try_into_work_item State.parse
        queued_row text_eq queue_row
    submitted-Promise (err e) after h = inl (record {
      same_items = h.same_items;
      same_queues = h.same_queues;
      same_notified = h.same_notified;
    })
    submitted-Promise (ok (some c)) after (key, has, h) = (
      key,
      refl,
      has,
      record {
        fresh_id = h.fresh_id;
        holder = h.holder;
        holds = h.holds;
        is_canonical = h.is_canonical;
        stored = h.stored;
        same_queues = h.same_queues;
        same_notified = h.same_notified;
      },
    )
    submitted-Promise (ok none) after (free, h) =
        bind_rule (λ r. Promise id now db_now new before (continue (λ item. pure (created item)) r))
          _ _ _
          (λ fs. rw (found after h.fresh_id h.stored) (
            free,
            record { fresh_id = h.fresh_id; stored = h.stored; sent = h.sent; notice = h.notice },
            refl,
          ))
          (λ e fs. inr (
            free,
            record { fresh_id = h.fresh_id; stored = h.stored; sent = h.sent; notice = h.notice },
          ))

    -- Whichever of its statements fail, `submit_work` does one of three things. If it returns the
    -- created item, that is the queued row at the end of the table, its id was fresh, no active row
    -- had its dedup key, and one message and one notification have been sent. If it returns `merged`,
    -- the new row is merged into the first active row with its key and nothing has been sent. If it
    -- fails, nothing has changed, or the item is queued all the same, since only reading it back
    -- failed.
    pub submit_work-Promise :
        Promise id now db_now new before (submit_work j P show_uuid id now db_now new before)
    unfolding submit_work
    submit_work-Promise =
        submitted-Promise
          (transaction (submit_body j P show_uuid id now db_now new new.dedup_key) before).0 _
          transaction-Settled
