-- ===== src/Transport/Protocol.antt =====
-- hiway/src/transport/protocol.rs: the deterministic state machine of one side of a link.
-- A method returns the state beside its result; `panic` stands for the source's unreachable arms and
-- for an addition that overflows. The subtractions of `effect` wrap around below 0.
pub mod Parts
pub mod Progress
pub mod Transition
pub mod Cases
pub mod Invariant
pub mod Sound
pub mod Transfers
pub mod Runs
pub mod Constant
pub mod Admissions
pub mod Effects
pub mod Closure
pub mod Outstanding
mod Tests
use hiway.Prelude.{
  ℕ, ◌+◌, ◌-◌, Bool, true, false, not, ◌&&◌, ◌||◌, Option, none, some, List, ◌∷◌, ◌==◌, ltb, leb,
  if◌then◌else◌, length, Result, ok, err, panic, u32_max, checked_add, wrapping_sub, take,
}
use hiway.Prelude.Bytes.{to_le, from_le, chunk, equal_bytes}
use hiway.Event.{follows}
use hiway.Metadata.{SchemaRevision}
use hiway.Transport.Operation.{OpId}
use hiway.Transport.Contract.{Error, Contract, Direction, header_bytes, credit_bytes}
use hiway.Transport.Accountability.{Accountability, Connection, Record}
use hiway.Transport.Accountability
use hiway.Transport.Protocol.Parts.{
  Lane, Lanes, Effect, IoResult, Input, Stage, every, at, set_at, is_source, is_admission,
  is_import, is_transfer, requested, is_of,
}

pub record Protocol : Type 0 where
  pub contract : Contract
  pub direction : Direction
  pub capacity : ℕ
  pub stage : Stage
  pub active : Lanes (Option (OpId × Effect))
  pub offsets : Lanes ℕ
  pub length : ℕ
  pub sequence : ℕ
  pub previous : Option ℕ
  pub revision : SchemaRevision
  pub credited : Bool
  pub closed : Option Error
  pub accountability : Option Accountability

abbrev pub first_stage : Direction → Stage
first_stage Direction.imports = Stage.header
first_stage Direction.exports = Stage.source

unfoldable pub new : Contract → Direction → ℕ → Result Protocol Error
new contract direction capacity =
    if ltb capacity header_bytes || ltb u32_max (capacity - header_bytes)
    then err Error.capacity
    else ok (record {
      contract = contract;
      direction = direction;
      capacity = capacity;
      stage = first_stage direction;
      active = every none;
      offsets = every 0;
      length = header_bytes;
      sequence = 0;
      previous = none;
      revision = contract.revision;
      credited = false;
      closed = none;
      accountability = none;
    })

unfoldable pub with_connection : Contract → Direction → ℕ → Connection → Result Protocol Error
unfolding new Accountability.new
with_connection contract direction capacity connection = elim (new contract direction capacity) [
  | ok protocol ↦
      ok (record protocol {
        accountability = some (Accountability.new connection contract direction);
      })
  | err e ↦ err e
  | panic ↦ panic
]

unfoldable pub pop_record : Protocol → Protocol × Option Record
unfolding Accountability.pop
pop_record s = elim s.accountability [
  | none ↦ (s, none)
  | some a ↦ let (a', r) = Accountability.pop a in (record s { accountability = some a' }, r)
]

unfoldable pub lost_records : Protocol → ℕ
unfolding Accountability.lost
lost_records s = elim s.accountability [ none ↦ 0 | some a ↦ Accountability.lost a ]

-- `if let Some(accountability) = &mut self.accountability { … }`
abbrev pub tell : (Accountability → Accountability) → Option Accountability → Option Accountability
tell f none = none
tell f (some a) = some (f a)

unfoldable pub observe_sequence : Protocol → ℕ → Protocol
unfolding Accountability.observe
observe_sequence s sequence = record s {
  accountability = tell (λ a. Accountability.observe a sequence) s.accountability;
}

-- The effect of the data lane of an open protocol without an operation on it.
unfoldable pub data_effect : Protocol → Option Effect
data_effect s =
    let offset = s.offsets.on_data in
    elim s.stage [
      | Stage.source ↦ some Effect.provide
      | Stage.sending ↦ some (Effect.transmit Lane.data_lane offset (wrapping_sub s.length offset))
      | Stage.header ↦ some (Effect.receive Lane.data_lane offset (wrapping_sub s.capacity offset))
      | Stage.payload ↦ some (Effect.receive Lane.data_lane offset (wrapping_sub s.length offset))
      | Stage.admission ↦
          if not s.credited
          then some (Effect.admit (wrapping_sub s.length header_bytes) s.revision)
          else none
      | Stage.credit ↦ none
    ]

-- The effect of a lane of an open protocol without an operation on it.
unfoldable pub idle_effect : Protocol → Lane → Option Effect
unfolding data_effect
idle_effect s Lane.data_lane = data_effect s
idle_effect s Lane.credit_send =
    let offset = s.offsets.on_credit_send in
    if is_import s.direction && s.credited
    then some (Effect.transmit Lane.credit_send offset (wrapping_sub credit_bytes offset))
    else none
idle_effect s Lane.credit_receive =
    let offset = s.offsets.on_credit_receive in
    some (
      Effect.receive Lane.credit_receive offset
        (if not (is_import s.direction) then wrapping_sub credit_bytes offset else 1))

-- The effect of a lane by the operation on it and the protocol's closure.
unfoldable pub lane_effect : Protocol → Lane → Option (OpId × Effect) → Option Error → Option Effect
unfolding idle_effect
lane_effect s lane (some (target, own)) (some error) = some (Effect.cancel lane target)
lane_effect s lane (some (target, own)) none = none
lane_effect s lane none (some error) = none
lane_effect s lane none none = idle_effect s lane

unfoldable pub effect : Protocol → Lane → Option Effect
unfolding lane_effect
effect s lane = lane_effect s lane (at s.active lane) s.closed

-- `self.previous.unwrap_or(self.sequence)`
abbrev pub credit_sequence : Protocol → ℕ
credit_sequence s = elim s.previous [ none ↦ s.sequence | some sequence ↦ sequence ]

unfoldable pub credit : Protocol → List ℕ
credit s = 1 ∷ to_le 8 (credit_sequence s)
