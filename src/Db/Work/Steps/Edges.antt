-- ===== src/Db/Work/Steps/Edges.antt =====
-- The edges of the life cycle, seen from the table: which states count for the dedup index.
use animus_rs.Prelude.{◌≡◌, refl, true, false, ◌⊎◌, inl, inr, text_eq}
use animus_rs.Work.State
use animus_rs.Work.State.{State, is_terminal, state_eq}
use animus_rs.Work.State.Graph.{
  ◌⟶◌, enqueue, merge, claim, cancel, start, requeue, complete, fail, retry, give_up,
}
use animus_rs.Db.Table.{is_active}

-- What every edge of the life cycle has: its source is active and not terminal, its target is not
-- `created`, and is `merged` only if the source is `created`.
pub record Leaves (from to : State) : Type 0 where
  pub active : is_active (State.show from) ≡ true
  pub not_terminal : is_terminal from ≡ false
  pub not_created : state_eq to State.created ≡ false
  pub not_merged :
      (state_eq from State.created ≡ true) ⊎ (state_eq to State.merged ≡ state_eq from State.merged)

pub edge-Leaves : {from to : State} → from ⟶ to → Leaves from to
unfolding is_active State.show text_eq state_eq is_terminal
edge-Leaves enqueue = record {
  active = refl;
  not_terminal = refl;
  not_created = refl;
  not_merged = inl refl;
}
edge-Leaves merge = record {
  active = refl;
  not_terminal = refl;
  not_created = refl;
  not_merged = inl refl;
}
edge-Leaves claim = record {
  active = refl;
  not_terminal = refl;
  not_created = refl;
  not_merged = inr refl;
}
edge-Leaves cancel = record {
  active = refl;
  not_terminal = refl;
  not_created = refl;
  not_merged = inr refl;
}
edge-Leaves start = record {
  active = refl;
  not_terminal = refl;
  not_created = refl;
  not_merged = inr refl;
}
edge-Leaves requeue = record {
  active = refl;
  not_terminal = refl;
  not_created = refl;
  not_merged = inr refl;
}
edge-Leaves complete = record {
  active = refl;
  not_terminal = refl;
  not_created = refl;
  not_merged = inr refl;
}
edge-Leaves fail = record {
  active = refl;
  not_terminal = refl;
  not_created = refl;
  not_merged = inr refl;
}
edge-Leaves retry = record {
  active = refl;
  not_terminal = refl;
  not_created = refl;
  not_merged = inr refl;
}
edge-Leaves give_up = record {
  active = refl;
  not_terminal = refl;
  not_created = refl;
  not_merged = inr refl;
}
