-- ===== src/Tests/LifeCycle.antt =====
-- Runs of the life cycle of src/model/work.rs.
use animus_rs.Prelude.{◌≡◌, ◌↔◌, true, false, lit, ok}
use animus_rs.Work.State
use animus_rs.Work.State.{State, can_transition_to, is_terminal}
use animus_rs.Work.State.Graph.{◌⟶*◌, terminal_states, parse_iff}

terminal_states_example :
    ((is_terminal State.failed ≡ true) ↔ ((t : State) → can_transition_to State.failed t ≡ false))
    × ((t : State) × (State.failed ⟶* t) × (is_terminal t ≡ true))
terminal_states_example = terminal_states State.failed

parse_iff_example :
    (State.parse (lit "dead") ≡ ok State.dead) ↔ (lit "dead" ≡ State.show State.dead)
parse_iff_example = parse_iff (lit "dead") State.dead
