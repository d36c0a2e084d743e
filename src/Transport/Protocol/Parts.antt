-- ===== src/Transport/Protocol/Parts.antt =====
-- hiway/src/transport/protocol.rs: lanes, effects, inputs and stages.
use hiway.Prelude.{ℕ, Bool, true, false, Option, none, some, List}
use hiway.Metadata.{SchemaRevision}
use hiway.Transport.Operation.{OpId, same_id}
use hiway.Transport.Contract.{Error, Direction}

pub data Lane : Type 0 where
  data_lane credit_send credit_receive : Lane

-- The arrays of three that the source indexes by lane.
pub record Lanes (A : Type 0) : Type 0 where
  pub on_data : A
  pub on_credit_send : A
  pub on_credit_receive : A

abbrev pub every : {A : Type 0} → A → Lanes A
every a = record { on_data = a; on_credit_send = a; on_credit_receive = a }

abbrev pub at : {A : Type 0} → Lanes A → Lane → A
at xs data_lane = xs.on_data
at xs credit_send = xs.on_credit_send
at xs credit_receive = xs.on_credit_receive

abbrev pub set_at : {A : Type 0} → Lanes A → Lane → A → Lanes A
set_at xs data_lane a = record xs { on_data = a }
set_at xs credit_send a = record xs { on_credit_send = a }
set_at xs credit_receive a = record xs { on_credit_receive = a }

-- `receive` and `transmit` carry lane, offset and length.
pub data Effect : Type 0 where
  receive transmit : Lane → ℕ → ℕ → Effect
  provide : Effect
  admit : ℕ → SchemaRevision → Effect
  cancel : Lane → OpId → Effect

-- The code of `failed` is the bit pattern of an i32.
pub data IoResult : Type 0 where
  bytes : ℕ → IoResult
  retry : IoResult
  failed : ℕ → IoResult

pub data Input : Type 0 where
  accepted : Lane → OpId → Input
  completed : OpId → IoResult → List ℕ → Input
  provided : ℕ → ℕ → Input
  admitted revoked : Input
  closes : Error → Input

pub data Stage : Type 0 where
  source sending credit header payload admission : Stage

-- `stage == …`
abbrev pub is_source : Stage → Bool
is_source source = true
is_source _ = false

abbrev pub is_admission : Stage → Bool
is_admission admission = true
is_admission _ = false

-- `direction == Direction::Import`
abbrev pub is_import : Direction → Bool
is_import Direction.imports = true
is_import Direction.exports = false

-- `matches!(effect, Effect::Receive { .. } | Effect::Transmit { .. })`
abbrev pub is_transfer : Effect → Bool
is_transfer (receive _ _ _) = true
is_transfer (transmit _ _ _) = true
is_transfer _ = false

-- The length of a transfer, of any other effect none.
abbrev pub requested : Effect → Option ℕ
requested (receive _ _ length) = some length
requested (transmit _ _ length) = some length
requested _ = none

-- Whether a lane's operation has this id.
abbrev pub is_of : Option (OpId × Effect) → OpId → Bool
is_of none op = false
is_of (some (id, effect)) op = same_id id op
