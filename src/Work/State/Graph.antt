-- ===== src/Work/State/Graph.antt =====
-- The life cycle that `can_transition_to` of src/model/work.rs allows, as a diagram.
use animus_rs.Prelude.{
  ◌≡◌, refl, true, false, Text, lit, text_eq, text_eq_iff, ok, arith, ◌↔◌, sym, ap,
}
use animus_rs.Work.State.{State, can_transition_to, is_terminal, show, parse}

infix 40 ◌⟶◌ ◌⟶*◌
pub data ◌⟶◌ : State → State → Type 0 where
  enqueue : State.created ⟶ State.queued
  merge : State.created ⟶ State.merged
  claim : State.queued ⟶ State.claimed
  cancel : State.queued ⟶ State.dead
  start : State.claimed ⟶ State.running
  requeue : State.claimed ⟶ State.queued
  complete : State.running ⟶ State.completed
  fail : State.running ⟶ State.failed
  retry : State.failed ⟶ State.queued
  give_up : State.failed ⟶ State.dead

pub data ◌⟶*◌ : State → State → Type 0 where
  here : {s : State} → s ⟶* s
  next : {s t u : State} → s ⟶ t → t ⟶* u → s ⟶* u

ruleset edges = (enqueue, merge, claim, cancel, start, requeue, complete, fail, retry, give_up)

⟶-can_transition_to : {s t : State} → s ⟶ t → can_transition_to s t ≡ true
unfolding can_transition_to
⟶-can_transition_to enqueue = refl
⟶-can_transition_to merge = refl
⟶-can_transition_to claim = refl
⟶-can_transition_to cancel = refl
⟶-can_transition_to start = refl
⟶-can_transition_to requeue = refl
⟶-can_transition_to complete = refl
⟶-can_transition_to fail = refl
⟶-can_transition_to retry = refl
⟶-can_transition_to give_up = refl

can_transition_to-⟶ : (s t : State) → can_transition_to s t ≡ true → s ⟶ t
unfolding can_transition_to
can_transition_to-⟶ s t h = grind (arith, edges)

-- The test allows exactly the edges of the diagram.
pub can_transition_to_iff : (s t : State) → (can_transition_to s t ≡ true) ↔ (s ⟶ t)
can_transition_to_iff s t = (can_transition_to-⟶ s t, ⟶-can_transition_to)

-- A state is terminal exactly if no transition leaves it.
is_terminal_iff :
    (s : State) → (is_terminal s ≡ true) ↔ ((t : State) → can_transition_to s t ≡ false)
unfolding is_terminal can_transition_to
is_terminal_iff State.created = ((λ h. cc), (λ h. cc (h State.queued)))
is_terminal_iff State.queued = ((λ h. cc), (λ h. cc (h State.claimed)))
is_terminal_iff State.claimed = ((λ h. cc), (λ h. cc (h State.running)))
is_terminal_iff State.running = ((λ h. cc), (λ h. cc (h State.completed)))
is_terminal_iff State.completed = ((λ h t. refl), (λ h. refl))
is_terminal_iff State.failed = ((λ h. cc), (λ h. cc (h State.queued)))
is_terminal_iff State.dead = ((λ h t. refl), (λ h. refl))
is_terminal_iff State.merged = ((λ h t. refl), (λ h. refl))

-- Every state can reach a terminal one.
terminal_reachable : (s : State) → (t : State) × (s ⟶* t) × (is_terminal t ≡ true)
unfolding is_terminal
terminal_reachable State.created = (State.dead, search (here, next, edges), refl)
terminal_reachable State.queued = (State.dead, search (here, next, edges), refl)
terminal_reachable State.claimed = (State.dead, search (here, next, edges), refl)
terminal_reachable State.running = (State.completed, search (here, next, edges), refl)
terminal_reachable State.completed = (State.completed, here, refl)
terminal_reachable State.failed = (State.dead, search (here, next, edges), refl)
terminal_reachable State.dead = (State.dead, here, refl)
terminal_reachable State.merged = (State.merged, here, refl)

-- A state is terminal exactly if no transition leaves it, and from every state a terminal one can be
-- reached.
pub terminal_states :
    (s : State)
    → ((is_terminal s ≡ true) ↔ ((t : State) → can_transition_to s t ≡ false))
      × ((t : State) × (s ⟶* t) × (is_terminal t ≡ true))
terminal_states s = (is_terminal_iff s, terminal_reachable s)

parse-show : (s : State) → parse (show s) ≡ ok s
unfolding parse show text_eq
parse-show State.created = refl
parse-show State.queued = refl
parse-show State.claimed = refl
parse-show State.running = refl
parse-show State.completed = refl
parse-show State.failed = refl
parse-show State.dead = refl
parse-show State.merged = refl

parse_sound : (text : Text) (s : State) → parse text ≡ ok s → text ≡ show s
unfolding parse show
parse_sound text s h = ground (
  arith,
  text_eq_iff text (lit "created"),
  text_eq_iff text (lit "queued"),
  text_eq_iff text (lit "claimed"),
  text_eq_iff text (lit "running"),
  text_eq_iff text (lit "completed"),
  text_eq_iff text (lit "failed"),
  text_eq_iff text (lit "dead"),
  text_eq_iff text (lit "merged"),
)

-- A text parses to a state exactly if it is how the state is displayed.
pub parse_iff : (text : Text) (s : State) → (parse text ≡ ok s) ↔ (text ≡ show s)
parse_iff text s = (parse_sound text s, λ e. rw e (parse-show s))

pub show_injective : (s t : State) → show s ≡ show t → s ≡ t
show_injective s t e = cc (sym (parse-show s), ap parse e, parse-show t)
