-- ===== src/Db/Session/Rules.antt =====
-- How to reason about the statements and transactions of src/db, for every way they can fail.
use mathlib.Core.Path.{subst}
use animus_rs.Prelude.{◌≡◌, refl, sym, ap, Option, none, some, List, [], ◌∷◌, Text, Result, ok, err}
use animus_rs.Db.Pgmq.{Pgmq}
use animus_rs.Db.Session.{
  Error, World, M, continue, contact_with, contact, statement, commit, committed, roll_back,
  transaction,
}

-- What the next statement meets.
abbrev pub next_fault : List (Option Text) → Option Text
next_fault [] = none
next_fault (fault ∷ faults) = fault

module _ {V : Type 0} {P : Pgmq V} where
  contact_with_rule :
      (faults : List (Option Text)) (w : World P) (Q : Result Error (Unit {0}) × World P → Type 0)
      → ((fs : List (Option Text)) → Q (ok tt, record w { faults = fs }))
      → ((e : Text) (fs : List (Option Text))
          → Q (err (Error.database e), record w { faults = fs }))
      → w.faults ≡ faults
      → Q (contact_with faults w)
  unfolding contact_with
  contact_with_rule [] w Q good bad h = good w.faults
  contact_with_rule (none ∷ faults) w Q good bad h = good faults
  contact_with_rule (some e ∷ faults) w Q good bad h = bad e faults

  -- A statement is answered, or fails and changes nothing but the errors still to come.
  pub statement_rule :
      {A : Type 0} (run : M P A) (w : World P) (Q : Result Error A × World P → Type 0)
      → ((fs : List (Option Text)) → Q (run (record w { faults = fs })))
      → ((e : Text) (fs : List (Option Text))
          → Q (err (Error.database e), record w { faults = fs }))
      → Q (statement run w)
  unfolding contact
  statement_rule run w Q good bad =
      contact_with_rule w.faults w (λ r. Q (continue (λ _. run) r)) good bad refl

  -- Where no statement fails, a statement is what it runs.
  pub statement-quiet :
      {A : Type 0} (run : M P A) (w : World P) → w.faults ≡ [] → statement run w ≡ run w
  unfolding contact contact_with
  statement-quiet run w quiet = rw quiet refl

  -- The same for a statement that is followed by others.
  pub bind_rule :
      {A B : Type 0} (Q : Result Error B × World P → Type 0) (run : M P A) (f : A → M P B)
      (w : World P)
      → ((fs : List (Option Text)) → Q (continue f (run (record w { faults = fs }))))
      → ((e : Text) (fs : List (Option Text))
          → Q (err (Error.database e), record w { faults = fs }))
      → Q (continue f (statement run w))
  bind_rule Q run f w good bad = statement_rule run w (λ r. Q (continue f r)) good bad

  -- A transaction that begins: its body is committed, or what it changed is undone.
  pub transaction_rule :
      {A : Type 0} (body : M P A) (w : World P) (Q : Result Error A × World P → Type 0)
      → ((fs : List (Option Text))
          → Q (commit (record w { faults = fs }) (body (record w { faults = fs }))))
      → ((e : Text) (fs : List (Option Text))
          → Q (err (Error.database e), record w { faults = fs }))
      → Q (transaction body w)
  unfolding transaction contact
  transaction_rule body w Q good bad =
      contact_with_rule w.faults w (λ r. Q (continue (λ _ w'. commit w' (body w')) r)) good bad refl

  pub commit_rule :
      {A : Type 0} (before : World P) (r : Result Error A) (w : World P)
      (Q : Result Error A × World P → Type 0)
      → ((a : A) (fs : List (Option Text)) → r ≡ ok a → Q (ok a, record w { faults = fs }))
      → ((e : Error) (fs : List (Option Text))
          → Q (err e, roll_back before (record w { faults = fs })))
      → Q (commit before (r, w))
  unfolding commit committed contact
  commit_rule before (err e) w Q good bad = bad e w.faults
  commit_rule before (ok a) w Q good bad =
      contact_with_rule w.faults w (λ s. Q (committed before a s)) (λ fs. good a fs refl)
        (λ e fs. bad (Error.database e) fs) refl

  pub commit-err :
      {A : Type 0} (before : World P) (e : Error) (w : World P)
      → commit {A = A} before (err e, w) ≡ (err e, roll_back before w)
  unfolding commit
  commit-err before e w = refl

  committed-faults :
      {A : Type 0} (before : World P) (fs : List (Option Text)) (a : A)
      (r : Result Error (Unit {0}) × World P)
      → committed before a r ≡ committed (record before { faults = fs }) a r
  unfolding committed
  committed-faults before fs a (ok _, w) = refl
  committed-faults before fs a (err e, w) = refl

  -- What a commit undoes does not depend on the errors that were to come.
  pub commit-faults :
      {A : Type 0} (before : World P) (fs : List (Option Text)) (r : Result Error A × World P)
      → commit before r ≡ commit (record before { faults = fs }) r
  unfolding commit
  commit-faults before fs (ok a, w) = committed-faults before fs a _
  commit-faults before fs (err e, w) = refl

  -- When a transaction that starts with a statement does what other statements do in its place.
  pub commit-continue :
      {A B : Type 0} (run : M P A) (f g : A → M P B) (w : World P)
      → ((fs : List (Option Text))
          → commit w (continue f (run (record w { faults = fs })))
            ≡ continue g (run (record w { faults = fs })))
      → commit w (continue f (statement run w)) ≡ continue g (statement run w)
  commit-continue run f g w good =
      statement_rule run w (λ r. commit w (continue f r) ≡ continue g r) good
        (λ e fs. commit-err w _ _)

  -- `bind_rule` with what the statement met.
  pub fault_rule :
      {A B : Type 0} (Q : Result Error B × World P → Type 0) (run : M P A) (f : A → M P B)
      (w : World P)
      → ((fs : List (Option Text))
          → next_fault w.faults ≡ none
          → Q (continue f (run (record w { faults = fs }))))
      → ((e : Text) (fs : List (Option Text))
          → next_fault w.faults ≡ some e
          → Q (err (Error.database e), record w { faults = fs }))
      → Q (continue f (statement run w))
  unfolding contact contact_with
  fault_rule Q run f w good bad = met w.faults refl
    where
      met :
          (faults : List (Option Text))
          → w.faults ≡ faults
          → Q (continue f (continue (λ _. run) (contact_with faults w)))
      met [] h = good w.faults (ap next_fault h)
      met (none ∷ faults) h = good faults (ap next_fault h)
      met (some e ∷ faults) h = bad e faults (ap next_fault h)

  -- Where no statement fails, a statement is what it runs, in front of others too.
  pub quiet_rule :
      {A B : Type 0} (Q : Result Error B × World P → Type 0) (run : M P A) (f : A → M P B)
      (w : World P)
      → w.faults ≡ []
      → Q (continue f (run w))
      → Q (continue f (statement run w))
  quiet_rule Q run f w quiet good =
      subst (λ x. Q (continue f x)) (sym (statement-quiet run w quiet)) good
