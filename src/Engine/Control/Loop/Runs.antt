-- ===== src/Engine/Control/Loop/Runs.antt =====
-- What a run of the control plane (src/engine/control.rs) keeps, and how it ends.
use animus_rs.Prelude.{
  ℕ, ◌≤◌, ◌<◌, ◌≡◌, refl, ap, ◌+◌, inl, inr, Bool, true, false, Bool-cases, Option, none, some,
  List, [], ◌∷◌, Text, Result, ok, err, leb, arith, if◌then◌else◌,
}
use animus_rs.Json.{JsonLib}
use animus_rs.Work.Item.{Uuid, WorkItem}
use animus_rs.Db.Pgmq.{Pgmq}
use animus_rs.Db.Session.{Error}
use animus_rs.Engine.Host.{Host}
use animus_rs.Engine.Control.{Draws, ControlPlane, Plane, Round, continue, ◌>>◌, process_work}
use animus_rs.Engine.Control.Near.{Safe}
use animus_rs.Engine.Control.Safety.{process_work-Safe}
use animus_rs.Engine.Control.Loop.{
  Wake, is_shutdown, woken, run_loop, make_base_dir, contact_server, begin, started, run,
}

module _ (j : JsonLib) (P : Pgmq j.Value) (H : Host) (show_uuid : Uuid → Text)
    (parse_uuid : Text → Option Uuid) (encode : WorkItem j.Value → Result Text Text) where
  -- Whether a shutdown is among the events.
  abbrev pub shuts_down : List (Wake P) → Bool
  shuts_down [] = false
  shuts_down (wake ∷ wakes) = if is_shutdown wake.cause then true else shuts_down wakes

  -- How a run ends: it has returned without an error if it started and a shutdown came, and waits if
  -- it started and none did; it returns an error if its start did, and the same.
  abbrev pub Ends :
      ControlPlane → List (Wake P) → Plane j P H → Option (Result Error (Unit {0})) → Type 0
  Ends plane wakes p none =
      ((begin j P H show_uuid parse_uuid encode plane p).0 ≡ ok tt) × (shuts_down wakes ≡ false)
  Ends plane wakes p (some (ok _)) =
      ((begin j P H show_uuid parse_uuid encode plane p).0 ≡ ok tt) × (shuts_down wakes ≡ true)
  Ends plane wakes p (some (err e)) = (begin j P H show_uuid parse_uuid encode plane p).0 ≡ err e

  continue-active :
      {A B : Type 0} (n : ℕ) (f : A → Round j P H B) (r : Result Error A × Plane j P H)
      → r.1.active_foci ≡ n
      → ((a : A) (p : Plane j P H) → p.active_foci ≡ n → (f a p).1.active_foci ≡ n)
      → (continue f r).1.active_foci ≡ n
  continue-active n f (ok a, p) h next = next a p h
  continue-active n f (err e, p) h next = h

  lt_of_leb : (a b : ℕ) → leb a b ≡ false → b < a
  lt_of_leb a b h = ground arith

  begin-active :
      (plane : ControlPlane) (p : Plane j P H)
      → (begin j P H show_uuid parse_uuid encode plane p).1.active_foci ≡ p.active_foci
  unfolding begin make_base_dir contact_server
  begin-active plane p =
      continue-active p.active_foci
        (λ _. do
          contact_server j P H show_uuid parse_uuid encode
          contact_server j P H show_uuid parse_uuid encode)
        (make_base_dir j P H show_uuid parse_uuid encode plane p) refl
        (λ _ p1 h1.
          continue-active p.active_foci (λ _. contact_server j P H show_uuid parse_uuid encode)
            (contact_server j P H show_uuid parse_uuid encode p1) h1 (λ _ p2 h2. h2))

  Safe-active :
      (before : Plane j P H) (r : Result Error (Unit {0}) × Plane j P H)
      → Safe before r
      → r.1.active_foci ≤ 1 + before.active_foci
  unfolding Safe
  Safe-active before (ok u, after) h = omega (arith, h.0)
  Safe-active before (err e, after) h = h.0

  process_work_full :
      (plane : ControlPlane) (draws : Draws) (p : Plane j P H)
      → leb plane.max_concurrent p.active_foci ≡ true
      → process_work j P H show_uuid parse_uuid encode plane draws p ≡ (ok tt, p)
  unfolding process_work
  process_work_full plane draws p full = rw full refl

  process_work-active :
      (plane : ControlPlane) (draws : Draws) (p : Plane j P H)
      → p.active_foci ≤ plane.max_concurrent
      → (process_work j P H show_uuid parse_uuid encode plane draws p).1.active_foci
        ≤ plane.max_concurrent
  process_work-active plane draws p le =
      elim (Bool-cases (leb plane.max_concurrent p.active_foci)) [
        | inl full ↦ rw (process_work_full plane draws p full) le
        | inr free ↦ omega (
          arith,
          Safe-active p _ (process_work-Safe j P H show_uuid parse_uuid encode plane draws p),
          lt_of_leb plane.max_concurrent p.active_foci free,
        )
      ]

  woken-active :
      (plane : ControlPlane) (wake : Wake P) (p : Plane j P H)
      → p.active_foci ≤ plane.max_concurrent
      → (woken j P H show_uuid parse_uuid encode plane wake p).active_foci ≤ plane.max_concurrent
  unfolding woken
  woken-active plane wake p le =
      process_work-active plane wake.draws (record p { db = wake.others p.db }) le

  run_loop-active :
      (plane : ControlPlane) (wakes : List (Wake P)) (p : Plane j P H)
      → p.active_foci ≤ plane.max_concurrent
      → (run_loop j P H show_uuid parse_uuid encode plane wakes p).1.active_foci
        ≤ plane.max_concurrent
  unfolding run_loop
  run_loop-active plane [] p le = le
  run_loop-active plane (wake ∷ wakes) p le = elim (Bool-cases (is_shutdown wake.cause)) [
    | inl e ↦ rw e le
    | inr e ↦ rw e (run_loop-active plane wakes _ (woken-active plane wake p le))
  ]

  run_loop-Ends :
      (plane : ControlPlane) (wakes : List (Wake P)) (p : Plane j P H)
      → ((run_loop j P H show_uuid parse_uuid encode plane wakes p).0
          ≡ (if shuts_down wakes then some (ok tt) else none))
  unfolding run_loop
  run_loop-Ends plane [] p = refl
  run_loop-Ends plane (wake ∷ wakes) p = elim (Bool-cases (is_shutdown wake.cause)) [
    | inl e ↦ rw e refl
    | inr e ↦ rw e (run_loop-Ends plane wakes _)
  ]

  -- How a run ends and what it holds.
  pub record Runs (plane : ControlPlane) (wakes : List (Wake P)) (p : Plane j P H)
      (r : Option (Result Error (Unit {0})) × Plane j P H) : Type 0 where
    pub capacity : r.1.active_foci ≤ plane.max_concurrent
    pub ended : Ends plane wakes p r.0

  started-Runs :
      (plane : ControlPlane) (wakes : List (Wake P)) (p : Plane j P H)
      (r : Result Error (Unit {0}) × Plane j P H)
      → begin j P H show_uuid parse_uuid encode plane p ≡ r
      → r.1.active_foci ≤ plane.max_concurrent
      → Runs plane wakes p (started j P H show_uuid parse_uuid encode plane wakes r)
  unfolding started
  started-Runs plane wakes p (ok u, q) e le = record {
    capacity = run_loop-active plane wakes q le;
    ended = rw (run_loop-Ends plane wakes q) (ended_by (shuts_down wakes) refl);
  }
    where
      ended_by :
          (b : Bool) → shuts_down wakes ≡ b → Ends plane wakes p (if b then some (ok tt) else none)
      ended_by true h = (ap (λ (s : Result Error (Unit {0}) × Plane j P H). s.0) e, h)
      ended_by false h = (ap (λ (s : Result Error (Unit {0}) × Plane j P H). s.0) e, h)
  started-Runs plane wakes p (err x, q) e le = record {
    capacity = le;
    ended = ap (λ (s : Result Error (Unit {0}) × Plane j P H). s.0) e;
  }

  -- From at most as many active foci as allowed, whatever wakes the loop and whatever others do to the
  -- database in between, there are never more; the run has returned without an error exactly if it
  -- started and a shutdown came, waits exactly if it started and none came, and returns an error
  -- exactly if its start did, and the same.
  pub run-Runs :
      (plane : ControlPlane) (wakes : List (Wake P)) (p : Plane j P H)
      → p.active_foci ≤ plane.max_concurrent
      → Runs plane wakes p (run j P H show_uuid parse_uuid encode plane wakes p)
  unfolding run
  run-Runs plane wakes p le = started-Runs plane wakes p _ refl (rw (begin-active plane p) le)
