-- ===== src/Db/Work/Submit/Dedup.antt =====
-- What becomes of a submission (src/db/work.rs) whose dedup key an active item has.
use animus_rs.Prelude.{
  ℕ, suc, ◌∷◌, ◌≤◌, ◌≡◌, refl, sym, ◌∙◌, ap, true, Bool-cases, inl, inr, some, List, [], Text,
  Result, ok, err, arith, Bool,
}
use animus_rs.Json.{JsonLib}
use animus_rs.Work.Item.{Uuid, Time, NewWorkItem}
use animus_rs.Db.Table.{Row, holds_key, has_id, select, affected}
use animus_rs.Db.Table.Counts.{affected-none, affected-hit, select-first}
use animus_rs.Db.Pgmq.{Pgmq}
use animus_rs.Db.Session.{Error, World}
use animus_rs.Db.Work.{SubmitResult, created, merged, submit_work}
use animus_rs.Db.Work.Submit.{Unchanged, Merged, KeyIsFree}
use animus_rs.Db.Work.Submit.Atomic.{Promise, submit_work-Promise}
use animus_rs.Db.Work.Steps.{◌⇝*◌}
use animus_rs.Db.Work.Steps.Invariant.{IsValid, reachable-IsValid}

module _ {V : Type 0} where
  -- Of two rows that meet a test which one row meets, one is the other.
  one_holder :
      (test : Row V → Bool) (id : Uuid) (rows : List (Row V)) (r holder : Row V)
      → affected test rows ≤ 1
      → select (has_id id) rows ≡ some r
      → test r ≡ true
      → select test rows ≡ some holder
      → holder ≡ r
  unfolding affected select
  one_holder test id [] r holder le found hit held = cc
  one_holder test id (s ∷ rows) r holder le found hit held = elim (Bool-cases (has_id id s)) [
    | inl here ↦
        let p : s ≡ r = select-first (has_id id) s rows r here found in
        let q : test s ≡ true = rw p hit in sym (select-first test s rows holder q held) ∙ p
    | inr not_here ↦
        let later : select (has_id id) rows ≡ some r = rw not_here at found in
        elim (Bool-cases (test s)) [
          | inl e ↦
              let (n, more) = affected-hit (has_id id) test rows r later hit in
              absurd (two e n more)
          | inr e ↦ one_holder test id rows r holder (rw e at le) later hit (rw e at held)
        ]
  ]
    where
      two : test s ≡ true → (n : ℕ) → affected test rows ≡ suc n → ⊥
      two e n more = ground arith

module _ (j : JsonLib) (P : Pgmq j.Value) (show_uuid : Uuid → Text) where
  open j use {Value}

  -- What a submission has done whose key this row has.
  pub Deduped :
      Uuid
      → Time
      → NewWorkItem Value
      → Text
      → Row Value
      → World P
      → Result Error (SubmitResult Value) × World P
      → Type 0
  Deduped id now new key r before (ok (created item), after) = ⊥
  Deduped id now new key r before (ok (merged duplicate canonical), after) =
      (canonical.uuid ≡ r.id) × Merged j P show_uuid id r.id now new key before after
  Deduped id now new key r before (err e, after) = Unchanged j P show_uuid before after

  module _ (id : Uuid) (now db_now : Time) (new : NewWorkItem Value) (key : Text) (r : Row Value)
      (before : World P) where
    not_free :
        new.dedup_key ≡ some key
        → select (has_id r.id) before.items ≡ some r
        → holds_key new.faculty key r ≡ true
        → KeyIsFree j P show_uuid new before
        → ⊥
    unfolding KeyIsFree
    not_free has found holds free =
        let none_holds = affected-none (holds_key new.faculty key) before.items (free key has) in
        let (n, one) =
          affected-hit (has_id r.id) (holds_key new.faculty key) before.items r found holds in
        omega (arith, none_holds, one)

    Merged-r :
        (canonical : Uuid) (k : Text) (after : World P)
        → IsValid before.items
        → new.dedup_key ≡ some key
        → select (has_id r.id) before.items ≡ some r
        → holds_key new.faculty key r ≡ true
        → new.dedup_key ≡ some k
        → Merged j P show_uuid id canonical now new k before after
        → (canonical ≡ r.id) × Merged j P show_uuid id r.id now new key before after
    Merged-r canonical k after valid has found holds has' h =
        let same_key : k ≡ key = cc in
        let held : select (holds_key new.faculty key) before.items ≡ some h.holder =
          rw same_key at h.holds in
        let same : h.holder ≡ r =
          one_holder (holds_key new.faculty key) r.id before.items r h.holder
            (valid.unique_key new.faculty key) found holds held in
        let is_r : canonical ≡ r.id = h.is_canonical ∙ ap (λ (s : Row Value). s.id) same in
        (
          is_r,
          record {
            fresh_id = h.fresh_id;
            holder = r;
            holds = rw same at held;
            is_canonical = refl;
            stored = rw is_r at h.stored;
            same_queues = h.same_queues;
            same_notified = h.same_notified;
          },
        )

    Promise-Deduped :
        (result : Result Error (SubmitResult Value)) (after : World P)
        → IsValid before.items
        → new.dedup_key ≡ some key
        → select (has_id r.id) before.items ≡ some r
        → holds_key new.faculty key r ≡ true
        → Promise j P show_uuid id now db_now new before (result, after)
        → Deduped id now new key r before (result, after)
    unfolding Promise Deduped
    Promise-Deduped (ok (created item)) after valid has found holds (free, h, _) =
        not_free has found holds free
    Promise-Deduped (ok (merged d c)) after valid has found holds (k, _, has', h) =
        Merged-r c.uuid k after valid has found holds has' h
    Promise-Deduped (err e) after valid has found holds (inl h) = h
    Promise-Deduped (err e) after valid has found holds (inr (free, h)) =
        absurd (not_free has found holds free)

    -- If an item of a table that the program can reach is active under the key of a new one, the
    -- submission of that either fails and changes nothing, or stores it as merged into that item, with
    -- no message and no notification; it is not queued.
    pub submit_work-Deduped :
        [] ⇝* before.items
        → new.dedup_key ≡ some key
        → select (has_id r.id) before.items ≡ some r
        → holds_key new.faculty key r ≡ true
        → Deduped id now new key r before (submit_work j P show_uuid id now db_now new before)
    submit_work-Deduped steps has found holds =
        Promise-Deduped _ _ (reachable-IsValid before.items steps) has found holds
          (submit_work-Promise j P show_uuid id now db_now new before)
