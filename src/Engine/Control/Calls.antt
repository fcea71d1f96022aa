-- ===== src/Engine/Control/Calls.antt =====
-- Which calls a round of the control plane (src/engine/control.rs) makes on the table of work items,
-- on which item and in which order.
use animus_rs.Prelude.{
  suc, ◌≤◌, ◌<◌, arith, ◌-◌, ◌≡◌, refl, ◌⊎◌, true, Option, none, some, Text, lit, ◌++◌, Result, ok,
  err, leb, Bool-cases, inl, inr,
}
use animus_rs.Json.{JsonLib}
use animus_rs.Work.State.{State}
use animus_rs.Work.Item.{Uuid, WorkId, WorkItem, Outcome}
use animus_rs.Db.Pgmq.{Pgmq, PgmqMessage}
use animus_rs.Db.Session.{Error, World}
use animus_rs.Db.Queue.{read_from_queue, archive_message}
use animus_rs.Db.Queue.Aside.{read_from_queue-items, archive_message-items}
use animus_rs.Db.Work.{work_queue, get_work_item, transition_state, complete_work, fail_work}
use animus_rs.Db.Work.Effects.{get_work_item-items}
use animus_rs.Db.Work.Calls.{◌↝*◌, elsewhere, done, onward}
use animus_rs.Engine.Host.{Host}
use animus_rs.Engine.Faculty.{FacultyMeta, get}
use animus_rs.Engine.Focus
use animus_rs.Engine.Focus.{FocusResult, run}
use animus_rs.Engine.Control.{
  Draws, ControlPlane, Plane, Round, work_item_id, continue, lift, on_db, on_host, clean, retire,
  perform, start, execute, identified, dispatch, process_work,
}
use animus_rs.Engine.Control.Does.{
  Does, nothing, claimed, started, completed, failed, beside, Does-↝*,
}

module _ (j : JsonLib) (P : Pgmq j.Value) (H : Host) (show_uuid : Uuid → Text)
    (parse_uuid : Text → Option Uuid) (encode : WorkItem j.Value → Result Text Text) where
  open j use {Value}

  module _ (plane : ControlPlane) (draws : Draws) (w : World P) (id : WorkId) where
    -- Up to some state.
    abbrev pub Did : World P → Type 0
    Did v = (s : Option State) × Does j P show_uuid id draws w s v

    also :
        {A B : Type 0} {s : Option State} (f : A → Round j P H B) (r : Result Error A × Plane j P H)
        → Does j P show_uuid id draws w s r.1.db
        → ((a : A) (p : Plane j P H) → Does j P show_uuid id draws w s p.db → Did (f a p).1.db)
        → Did (continue f r).1.db
    also f (ok a, p) h next = next a p h
    also {s = s} f (err e, p) h next = (s, h)

    and_clean :
        {A : Type 0} (f : A → Round j P H (Unit {0})) (r : Result Error A × Plane j P H)
        → Did r.1.db
        → ((a : A) (p : Plane j P H) → (f a p).1.db ≡ p.db)
        → Did (continue f r).1.db
    and_clean f (ok a, p) h same = rw same h
    and_clean f (err e, p) h same = h

    retire-Did :
        (msg : PgmqMessage Value) (result : FocusResult Value) (p : Plane j P H)
        → Does j P show_uuid id draws w (some State.running) p.db
        → Did (retire j P H show_uuid parse_uuid encode draws msg id result p).1.db
    unfolding retire
    retire-Did msg (Focus.completed v ms) p h =
        let outcome : Outcome Value = record {
          success = true;
          output = some v;
          error = none;
          duration_ms = ms;
        } in
        also (λ _. on_db (archive_message P work_queue msg.msg_id))
          (on_db (complete_work j P show_uuid id outcome draws.retired_at) p) (completed v ms h)
          (λ _ q h'.
            (some State.completed, beside h' (archive_message-items P work_queue msg.msg_id q.db)))
    retire-Did msg (Focus.failed phase error ms) p h =
        also (λ (_ : WorkItem Value). lift (ok tt))
          (on_db (fail_work j P show_uuid id (phase ++ lit ": " ++ error) ms draws.retired_at) p)
          (failed (phase ++ lit ": " ++ error) ms h) (λ _ q h'. (some State.failed, h'))

    perform-Did :
        (msg : PgmqMessage Value) (item : WorkItem Value) (faculty : FacultyMeta) (p : Plane j P H)
        → Does j P show_uuid id draws w (some State.running) p.db
        → Did (perform j P H show_uuid parse_uuid encode plane draws msg id item faculty p).1.db
    unfolding perform
    perform-Did msg item faculty p h =
        also
          (λ focus q.
            continue (λ _. clean j P H show_uuid parse_uuid encode focus)
              (retire j P H show_uuid parse_uuid encode draws msg id
                (run j H show_uuid focus faculty q.machine).0
                (record q {
                  active_foci = q.active_foci - 1;
                  machine = (run j H show_uuid focus faculty q.machine).1;
                })))
          (on_host (Focus.create j H show_uuid encode plane.focus_base_dir draws.focus_id item)
            (record p { active_foci = suc p.active_foci }))
          h
          (λ focus q h'.
            let ended : Plane j P H = record q {
              active_foci = q.active_foci - 1;
              machine = (run j H show_uuid focus faculty q.machine).1;
            } in
            let result = (run j H show_uuid focus faculty q.machine).0 in
            and_clean (λ _. clean j P H show_uuid parse_uuid encode focus)
              (retire j P H show_uuid parse_uuid encode draws msg id result ended)
              (retire-Did msg result ended h') (λ _ q'. refl))

    start-Did :
        (msg : PgmqMessage Value) (item : WorkItem Value) (faculty : FacultyMeta) (p : Plane j P H)
        → Does j P show_uuid id draws w (some State.claimed) p.db
        → Did (start j P H show_uuid parse_uuid encode plane draws msg id item faculty p).1.db
    unfolding start
    start-Did msg item faculty p h =
        also (λ _. perform j P H show_uuid parse_uuid encode plane draws msg id item faculty)
          (on_db (transition_state j P show_uuid id State.claimed State.running draws.running_at) p)
          (started h) (λ _ q h'. perform-Did msg item faculty q h')

    execute-Did :
        (msg : PgmqMessage Value) (item : WorkItem Value) (faculty : Option FacultyMeta)
        (p : Plane j P H)
        → Does j P show_uuid id draws w none p.db
        → Did (execute j P H show_uuid parse_uuid encode plane draws msg id item faculty p).1.db
    unfolding execute
    execute-Did msg item none p h = (none, beside h refl)
    execute-Did msg item (some faculty) p h =
        also (λ _. start j P H show_uuid parse_uuid encode plane draws msg id item faculty)
          (on_db (transition_state j P show_uuid id State.queued State.claimed draws.claimed_at) p)
          (claimed h) (λ _ q h'. start-Did msg item faculty q h')

  module _ (plane : ControlPlane) (draws : Draws) (w : World P) where
    identified-Did :
        (msg : PgmqMessage Value) (id : Uuid) (p : Plane j P H)
        → p.db.items ≡ w.items
        → Did plane draws w
            (record { uuid = id })
            (identified j P H show_uuid parse_uuid encode plane draws msg (some id) p).1.db
    unfolding identified
    identified-Did msg id p same =
        also plane draws w (record { uuid = id })
          (λ item.
            execute j P H show_uuid parse_uuid encode plane draws msg (record { uuid = id }) item
              (get plane.registry item.faculty))
          (on_db (get_work_item j P show_uuid (record { uuid = id })) p)
          (beside (beside {v' = p.db} nothing same)
            (get_work_item-items j P show_uuid (record { uuid = id }) p.db))
          (λ item q h'.
            execute-Did plane draws w (record { uuid = id }) msg item
              (get plane.registry item.faculty) q h')

    -- What a round has done after what it read from the queue.
    pub After : Result Error (Option (PgmqMessage Value)) → World P → Type 0
    After read v =
        (v.items ≡ w.items)
        ⊎ ((msg : PgmqMessage Value) × (id : Uuid) × (read ≡ ok (some msg))
            × (work_item_id j P H show_uuid parse_uuid encode msg.message ≡ some id)
            × Did plane draws w (record { uuid = id }) v)

    identified-After :
        (msg : PgmqMessage Value) (id : Option Uuid) (p : Plane j P H)
        → work_item_id j P H show_uuid parse_uuid encode msg.message ≡ id
        → p.db.items ≡ w.items
        → After
            (ok (some msg))
            (identified j P H show_uuid parse_uuid encode plane draws msg id p).1.db
    unfolding After
    identified-After msg none p e same = inl (unfold identified in same)
    identified-After msg (some id) p e same = inr (msg, id, refl, e, identified-Did msg id p same)

    read-After :
        (r : Result Error (Option (PgmqMessage Value)) × Plane j P H)
        → r.1.db.items ≡ w.items
        → After r.0 (continue (dispatch j P H show_uuid parse_uuid encode plane draws) r).1.db
    unfolding dispatch After
    read-After (err e, p) same = inl same
    read-After (ok none, p) same = inl same
    read-After (ok (some msg), p) same = identified-After msg _ p refl same

  -- What a round does to the database.
  abbrev pub RoundDoes : ControlPlane → Draws → Plane j P H → Type 0
  RoundDoes plane draws p =
      ((plane.max_concurrent ≤ p.active_foci)
        × ((process_work j P H show_uuid parse_uuid encode plane draws p).1.db ≡ p.db))
      ⊎ ((p.active_foci < plane.max_concurrent)
          × After plane draws p.db (read_from_queue P work_queue plane.visibility_timeout p.db).0
              (process_work j P H show_uuid parse_uuid encode plane draws p).1.db)

  -- A round without a free slot leaves the database as it is. Any other leaves the table of work
  -- items as it is, or calls, in this order up to some point and nothing else on the table, a claim,
  -- a start, and a completion or failure of the item that the message names which it reads, at the
  -- times drawn, whatever it returns and whichever statement or hook fails.
  pub process_work-RoundDoes :
      (plane : ControlPlane) (draws : Draws) (p : Plane j P H) → RoundDoes plane draws p
  unfolding process_work
  process_work-RoundDoes plane draws p =
      elim (Bool-cases (leb plane.max_concurrent p.active_foci)) [
        | inl full ↦ rw full (inl (ground arith, refl))
        | inr free ↦ rw free (
            inr (
              ground arith,
              read-After plane draws p.db
                  (on_db (read_from_queue P work_queue plane.visibility_timeout) p)
                  (read_from_queue-items P work_queue plane.visibility_timeout p.db),
            ))
      ]

  After-↝* :
      (plane : ControlPlane) (draws : Draws) (w v : World P)
      (read : Result Error (Option (PgmqMessage Value)))
      → After plane draws w read v
      → ◌↝*◌ j P show_uuid w v
  unfolding After
  After-↝* plane draws w v read (inl same) = onward done (elsewhere same)
  After-↝* plane draws w v read (inr (msg, id, r, e, h)) = Does-↝* j P show_uuid (h.1)

  -- All this is a sequence of calls of the program.
  pub process_work-↝* :
      (plane : ControlPlane) (draws : Draws) (p : Plane j P H)
      → ◌↝*◌ j P show_uuid p.db (process_work j P H show_uuid parse_uuid encode plane draws p).1.db
  process_work-↝* plane draws p = elim (process_work-RoundDoes plane draws p) [
    | inl (full, same) ↦ rw same done
    | inr (free, h) ↦ After-↝* plane draws _ _ _ h
  ]
