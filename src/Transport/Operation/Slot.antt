-- ===== src/Transport/Operation/Slot.antt =====
-- hiway/src/transport/operation.rs: the identity and the stages of an operation slot.
use hiway.Prelude.{ℕ, Bool, true, false, ◌&&◌, ◌==◌}

pub record OpId : Type 0 where
  pub slot : ℕ
  pub generation : ℕ

pub data Phase : Type 0 where
  available prepared submitted completed : Phase

pub data Cancellation : Type 0 where
  none requested submitted completed : Cancellation

-- The derived `==` of the three types.
abbrev pub same_id : OpId → OpId → Bool
same_id a b = a.slot == b.slot && a.generation == b.generation

abbrev pub is_phase : Phase → Phase → Bool
is_phase Phase.available Phase.available = true
is_phase Phase.prepared Phase.prepared = true
is_phase Phase.submitted Phase.submitted = true
is_phase Phase.completed Phase.completed = true
is_phase _ _ = false

abbrev pub is_cancellation : Cancellation → Cancellation → Bool
is_cancellation Cancellation.none Cancellation.none = true
is_cancellation Cancellation.requested Cancellation.requested = true
is_cancellation Cancellation.submitted Cancellation.submitted = true
is_cancellation Cancellation.completed Cancellation.completed = true
is_cancellation _ _ = false
