-- ===== src/Work/State.antt =====
-- src/model/work.rs: `State` with `can_transition_to`, `is_terminal`, `from_str` and `Display`.
pub mod Graph
use animus_rs.Prelude.{Bool, true, false, Text, lit, text_eq, Result, ok, err, if◌then◌else◌}

pub data State : Type 0 where
  created queued claimed running completed failed dead merged : State

unfoldable pub can_transition_to : State → State → Bool
can_transition_to State.created State.queued = true
can_transition_to State.created State.merged = true
can_transition_to State.queued State.claimed = true
can_transition_to State.queued State.dead = true
can_transition_to State.claimed State.running = true
can_transition_to State.claimed State.queued = true
can_transition_to State.running State.completed = true
can_transition_to State.running State.failed = true
can_transition_to State.failed State.queued = true
can_transition_to State.failed State.dead = true
can_transition_to _ _ = false

unfoldable pub is_terminal : State → Bool
is_terminal State.completed = true
is_terminal State.dead = true
is_terminal State.merged = true
is_terminal _ = false

-- `Display`, so also what `to_string` gives.
unfoldable pub show : State → Text
show State.created = lit "created"
show State.queued = lit "queued"
show State.claimed = lit "claimed"
show State.running = lit "running"
show State.completed = lit "completed"
show State.failed = lit "failed"
show State.dead = lit "dead"
show State.merged = lit "merged"

-- `FromStr`; an error carries the text, as `Error::InvalidState` does.
unfoldable pub parse : Text → Result Text State
parse s =
    if text_eq s (lit "created")
    then ok State.created
    else if text_eq s (lit "queued")
    then ok State.queued
    else if text_eq s (lit "claimed")
    then ok State.claimed
    else if text_eq s (lit "running")
    then ok State.running
    else if text_eq s (lit "completed")
    then ok State.completed
    else if text_eq s (lit "failed")
    then ok State.failed
    else if text_eq s (lit "dead")
    then ok State.dead
    else if text_eq s (lit "merged")
    then ok State.merged
    else err s

-- `==` of the derived `PartialEq`.
unfoldable pub state_eq : State → State → Bool
state_eq State.created State.created = true
state_eq State.queued State.queued = true
state_eq State.claimed State.claimed = true
state_eq State.running State.running = true
state_eq State.completed State.completed = true
state_eq State.failed State.failed = true
state_eq State.dead State.dead = true
state_eq State.merged State.merged = true
state_eq _ _ = false
