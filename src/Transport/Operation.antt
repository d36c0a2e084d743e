-- ===== src/Transport/Operation.antt =====
-- hiway/src/transport/operation.rs: one operation slot with its reuse generation.
-- A method returns the slot beside its result.
pub mod Ledger
pub mod Identity
mod Tests
mod Slot
pub use Slot.{OpId, Phase, Cancellation, same_id, is_phase, is_cancellation}
use hiway.Prelude.{
  ℕ, ◌+◌, ◌%◌, ◌^◌, Bool, true, false, not, ◌&&◌, ◌||◌, Option, ◌==◌, if◌then◌else◌,
}

pub record Operation : Type 0 where
  pub id : OpId
  pub phase : Phase
  pub cancellation : Cancellation

unfoldable pub new : ℕ → Operation
new slot = record {
  id = record { slot = slot; generation = 0 };
  phase = Phase.available;
  cancellation = Cancellation.none;
}

unfoldable pub prepare : Operation → Operation × Option OpId
prepare o =
    if not (is_phase o.phase Phase.available)
    then (o, Option.none)
    else let id : OpId = record { slot = o.id.slot; generation = (o.id.generation + 1) % 2 ^ 32 } in
      (record o { id = id; phase = Phase.prepared }, Option.some id)

unfoldable pub accepted : Operation → OpId → Operation × Bool
accepted o id =
    if not (same_id id o.id) || not (is_phase o.phase Phase.prepared)
    then (o, false)
    else (record o { phase = Phase.submitted }, true)

unfoldable pub cancel : Operation → Operation
cancel o = elim o.phase [
  | Phase.prepared ↦ record o { phase = Phase.completed }
  | Phase.submitted ↦
      if is_cancellation o.cancellation Cancellation.none
      then record o { cancellation = Cancellation.requested }
      else o
  | _ ↦ o
]

unfoldable pub cancellation : Operation → Option OpId
cancellation o =
    if is_cancellation o.cancellation Cancellation.requested then Option.some o.id else Option.none

-- `self.cancellation() != Some(id)`
abbrev pub asks : Option OpId → OpId → Bool
asks Option.none id = false
asks (Option.some own) id = same_id own id

unfoldable pub cancel_accepted : Operation → OpId → Operation × Bool
unfolding cancellation
cancel_accepted o id =
    if not (asks (cancellation o) id)
    then (o, false)
    else (record o { cancellation = Cancellation.submitted }, true)

unfoldable pub cancel_completed : Operation → OpId → Operation × Bool
cancel_completed o id =
    if not (same_id o.id id) || not (is_cancellation o.cancellation Cancellation.submitted)
    then (o, false)
    else (record o { cancellation = Cancellation.completed }, true)

unfoldable pub completed : Operation → OpId → Operation × Bool
completed o id =
    if not (same_id o.id id) || not (is_phase o.phase Phase.submitted) then (o, false) else (
      record o {
        phase = Phase.completed;
        cancellation =
            if is_cancellation o.cancellation Cancellation.requested
            then Cancellation.none
            else o.cancellation;
      },
      true,
    )

unfoldable pub reclaim : Operation → Operation × Bool
reclaim o =
    if not (is_phase o.phase Phase.completed)
      || is_cancellation o.cancellation Cancellation.submitted
    then (o, false)
    else (record o { phase = Phase.available; cancellation = Cancellation.none }, true)
