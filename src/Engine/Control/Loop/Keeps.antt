-- ===== src/Engine/Control/Loop/Keeps.antt =====
-- What a run of the control plane (src/engine/control.rs) does to the table of work items.
use animus_rs.Prelude.{
  ◌≡◌, refl, Bool-cases, inl, inr, Option, List, [], ◌∷◌, Text, Result, ok, err,
}
use animus_rs.Json.{JsonLib}
use animus_rs.Work.Item.{Uuid, WorkItem}
use animus_rs.Db.Pgmq.{Pgmq}
use animus_rs.Db.Session.{Error, World}
use animus_rs.Db.Session.Rules.{statement_rule}
use animus_rs.Db.Work.Steps.{◌⇝*◌}
use animus_rs.Db.Work.Steps.Invariant.{IsValid, reachable-IsValid}
use animus_rs.Db.Work.Calls.{◌↝*◌, done, onward, elsewhere, joined, ↝*-⇝*}
use animus_rs.Engine.Host.{Host}
use animus_rs.Db.Table.{Row}
use animus_rs.Engine.Control.{ControlPlane, Plane, Round, continue, ◌>>◌}
use animus_rs.Engine.Control.Calls.{process_work-↝*}
use animus_rs.Engine.Control.Loop.{
  Wake, is_shutdown, woken, run_loop, make_base_dir, contact_server, begin, started, run,
}

module _ (j : JsonLib) (P : Pgmq j.Value) (H : Host) (show_uuid : Uuid → Text)
    (parse_uuid : Text → Option Uuid) (encode : WorkItem j.Value → Result Text Text) where
  abbrev Leads : World P → World P → Type 0
  Leads w v = ◌↝*◌ j P show_uuid w v

  -- What others do between two rounds are calls of the program.
  abbrev pub OthersCall : List (Wake P) → Type 0
  OthersCall [] = Unit {0}
  OthersCall (wake ∷ wakes) = ((w : World P) → Leads w (wake.others w)) × OthersCall wakes

  run_loop-Leads :
      (plane : ControlPlane) (wakes : List (Wake P)) (w : World P) (p : Plane j P H)
      → OthersCall wakes
      → Leads w p.db
      → Leads w (run_loop j P H show_uuid parse_uuid encode plane wakes p).1.db
  unfolding run_loop woken
  run_loop-Leads plane [] w p others h = h
  run_loop-Leads plane (wake ∷ wakes) w p (first, others) h =
      elim (Bool-cases (is_shutdown wake.cause)) [
        | inl e ↦ rw e h
        | inr e ↦ rw e (
            run_loop-Leads plane wakes w _ others (
              joined j P show_uuid (joined j P show_uuid h (first p.db)) (
                process_work-↝* j P H show_uuid parse_uuid encode plane wake.draws
                  (record p { db = wake.others p.db }))))
      ]

  also :
      {A B : Type 0} (rows : List (Row j.Value)) (f : A → Round j P H B)
      (r : Result Error A × Plane j P H)
      → r.1.db.items ≡ rows
      → ((a : A) (q : Plane j P H) → q.db.items ≡ rows → (f a q).1.db.items ≡ rows)
      → (continue f r).1.db.items ≡ rows
  also rows f (ok a, q) h next = next a q h
  also rows f (err e, q) h next = h

  contact_server-items :
      (rows : List (Row j.Value)) (q : Plane j P H)
      → q.db.items ≡ rows
      → (contact_server j P H show_uuid parse_uuid encode q).1.db.items ≡ rows
  unfolding contact_server
  contact_server-items rows q h =
      statement_rule (λ w. (ok tt, w)) q.db (λ r. r.1.items ≡ rows) (λ fs. h) (λ e fs. h)

  begin-items :
      (plane : ControlPlane) (p : Plane j P H)
      → (begin j P H show_uuid parse_uuid encode plane p).1.db.items ≡ p.db.items
  unfolding begin make_base_dir
  begin-items plane p =
      also p.db.items
        (λ _. do
          contact_server j P H show_uuid parse_uuid encode
          contact_server j P H show_uuid parse_uuid encode)
        (make_base_dir j P H show_uuid parse_uuid encode plane p) refl
        (λ _ q h.
          also p.db.items (λ _. contact_server j P H show_uuid parse_uuid encode)
            (contact_server j P H show_uuid parse_uuid encode q)
            (contact_server-items p.db.items q h)
            (λ _ q' h'. contact_server-items p.db.items q' h'))

  started-Leads :
      (plane : ControlPlane) (wakes : List (Wake P)) (w : World P)
      (r : Result Error (Unit {0}) × Plane j P H)
      → OthersCall wakes
      → Leads w r.1.db
      → Leads w (started j P H show_uuid parse_uuid encode plane wakes r).1.db
  unfolding started
  started-Leads plane wakes w (ok u, q) others h = run_loop-Leads plane wakes w q others h
  started-Leads plane wakes w (err e, q) others h = h

  -- What a run has done to the database: calls of the program, which keep its table reachable and
  -- hence valid.
  pub record Keeps (before after : World P) : Type 0 where
    pub calls : ◌↝*◌ j P show_uuid before after
    pub reachable : [] ⇝* after.items
    pub valid : IsValid after.items

  -- If the table is one that the program can reach and what others do between the rounds are calls of
  -- the program, all that a run does and meets is a sequence of such calls, and the table behind it
  -- is reachable and valid, whatever wakes the control plane and however its rounds end.
  pub run-Keeps :
      (plane : ControlPlane) (wakes : List (Wake P)) (p : Plane j P H)
      → [] ⇝* p.db.items
      → OthersCall wakes
      → Keeps p.db (run j P H show_uuid parse_uuid encode plane wakes p).1.db
  unfolding run
  run-Keeps plane wakes p from_empty others =
      let calls =
        started-Leads plane wakes p.db (begin j P H show_uuid parse_uuid encode plane p) others
          (onward done (elsewhere (begin-items plane p))) in
      let steps = ↝*-⇝* j P show_uuid [] from_empty calls in
      record { calls = calls; reachable = steps; valid = reachable-IsValid _ steps }
