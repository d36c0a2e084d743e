-- ===== src/Transport/Protocol/Invariant.antt =====
-- What holds of a protocol: while it is open, its offsets fit its stage and every outstanding
-- operation is the current effect of its lane; open or closed, outstanding transfers stay within
-- their buffers.
use hiway.Prelude.{
  ℕ, ◌+◌, ◌≤◌, ◌<◌, ◌≡◌, ◌≢◌, Bool, true, false, Option, none, some, Result, ok, err, panic,
  u32_max,
}
use hiway.Transport.Operation.{OpId}
use hiway.Transport.Contract.{Error, Direction, header_bytes, credit_bytes}
use hiway.Transport.Protocol.Parts.{Lane, Effect, Stage}
use hiway.Transport.Protocol.{Protocol, idle_effect}
use hiway.Transport.Protocol.Progress.{breaks_order}

-- The size of the buffer of a lane.
abbrev pub size : ℕ → Lane → ℕ
size capacity Lane.data_lane = capacity
size capacity Lane.credit_send = credit_bytes
size capacity Lane.credit_receive = credit_bytes

-- A transfer on its own lane, of at least one byte, that ends within the lane's buffer.
abbrev pub IsWithin : ℕ → Lane → Effect → Type 0
IsWithin capacity lane (Effect.receive own offset length) =
    (own ≡ lane) × (0 < length) × (offset + length ≤ size capacity lane)
IsWithin capacity lane (Effect.transmit own offset length) =
    (own ≡ lane) × (0 < length) × (offset + length ≤ size capacity lane)
IsWithin capacity lane _ = ⊥

abbrev pub AreWithin : ℕ → Lane → Option (OpId × Effect) → Type 0
AreWithin capacity lane none = Unit
AreWithin capacity lane (some (op, e)) = IsWithin capacity lane e

-- The operation of a lane, if there is one, is for the effect given.
abbrev pub IsFor : Option Effect → Option (OpId × Effect) → Type 0
IsFor e none = Unit
IsFor e (some (op, own)) = e ≡ some own

-- The data lane's offset and length at a stage.
abbrev pub DataFits : Direction → Stage → ℕ → ℕ → ℕ → Type 0
DataFits Direction.exports Stage.source offset length capacity = Unit
DataFits Direction.exports Stage.credit offset length capacity = Unit
DataFits Direction.exports Stage.sending offset length capacity =
    (offset < length) × (length ≤ capacity)
DataFits Direction.imports Stage.header offset length capacity = offset < header_bytes
DataFits Direction.imports Stage.payload offset length capacity =
    (offset < length) × (header_bytes ≤ length) × (length ≤ capacity)
DataFits Direction.imports Stage.admission offset length capacity =
    (header_bytes ≤ length) × (length ≤ capacity)
DataFits _ _ offset length capacity = ⊥

-- The offsets of the two credit lanes.
abbrev pub CreditFits : Direction → Bool → Option ℕ → ℕ → ℕ → Type 0
CreditFits Direction.exports credited previous send receive = receive < credit_bytes
CreditFits Direction.imports true previous send receive =
    (previous ≢ none) × (send < credit_bytes) × (receive ≡ 0)
CreditFits Direction.imports false previous send receive = receive ≡ 0

-- A frame beyond its header follows the last admitted one.
abbrev pub IsOrdered : Stage → Bool → Type 0
IsOrdered Stage.payload breaks = breaks ≡ false
IsOrdered Stage.admission breaks = breaks ≡ false
IsOrdered _ breaks = Unit

abbrev pub IsBounded : Protocol → Type 0
IsBounded s =
    (header_bytes ≤ s.capacity)
    × (s.capacity ≤ header_bytes + u32_max)
    × AreWithin s.capacity Lane.data_lane s.active.on_data
    × AreWithin s.capacity Lane.credit_send s.active.on_credit_send
    × AreWithin s.capacity Lane.credit_receive s.active.on_credit_receive

abbrev pub IsOpen : Protocol → Type 0
IsOpen s =
    DataFits s.direction s.stage s.offsets.on_data s.length s.capacity
    × CreditFits s.direction s.credited s.previous s.offsets.on_credit_send
        s.offsets.on_credit_receive
    × IsOrdered s.stage (breaks_order s)
    × IsFor (idle_effect s Lane.data_lane) s.active.on_data
    × IsFor (idle_effect s Lane.credit_send) s.active.on_credit_send
    × IsFor (idle_effect s Lane.credit_receive) s.active.on_credit_receive

abbrev pub IsSound : Protocol → Type 0
IsSound s = IsBounded s × (s.closed ≡ none → IsOpen s)

-- The state after a step, which an error is about to close.
abbrev pub Steps : Protocol × Result (Unit {0}) Error → Type 0
Steps (s, ok _) = IsSound s
Steps (s, err _) = IsBounded s
Steps (s, panic) = ⊥
