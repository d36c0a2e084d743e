-- ===== src/Transport/Protocol/Sound.antt =====
-- The arms of the protocol keep its invariant and do not panic.
use hiway.Prelude.{
  ℕ, ◌≤◌, ◌≡◌, ◌≢◌, checked_add, length, refl, Bool, true, false, Option, none, some, List, arith,
}
use hiway.Transport.Contract.{Direction, header_bytes, credit_bytes}
use hiway.Transport.Protocol.Parts.{Lane, Effect, Stage, is_transfer}
use hiway.Transport.Protocol.{Protocol, idle_effect, data_effect, observe_sequence}
use hiway.Transport.Protocol.Progress.{
  sized_header, tested_header, number_at, breaks_order, data_progress, credit_send_progress,
  credit_receive_progress, parse_header, enter_payload, parse_fields, is_addressed, take_credit,
}
use hiway.Transport.Protocol.Cases.{parse_header_cases, data_progress_cases}
use hiway.Transport.Protocol.Invariant.{
  IsWithin, IsFor, DataFits, CreditFits, IsOrdered, IsBounded, IsOpen, Steps,
}

-- An effect that an open protocol offers stays within the buffer of its lane.
pub idle_effect-IsWithin :
    (s : Protocol) (lane : Lane) (e : Effect)
    → IsBounded s
    → IsOpen s
    → idle_effect s lane ≡ some e
    → is_transfer e ≡ true
    → IsWithin s.capacity lane e
unfolding idle_effect data_effect
idle_effect-IsWithin s lane e b o h t = grind arith

-- The data lane's offset and length once a transfer has moved the offset.
abbrev pub DataReached : Direction → Stage → ℕ → ℕ → ℕ → Type 0
DataReached Direction.exports Stage.sending offset length capacity =
    (offset ≤ length) × (length ≤ capacity)
DataReached Direction.imports Stage.header offset length capacity = offset ≤ capacity
DataReached Direction.imports Stage.payload offset length capacity =
    (offset ≤ length) × (header_bytes ≤ length) × (length ≤ capacity)
DataReached _ _ offset length capacity = ⊥

-- What the data lane leaves alone.
abbrev pub OthersFit : Protocol → Type 0
OthersFit s =
    IsBounded s
    × (s.active.on_data ≡ none)
    × CreditFits s.direction s.credited s.previous s.offsets.on_credit_send
        s.offsets.on_credit_receive
    × IsFor (idle_effect s Lane.credit_send) s.active.on_credit_send
    × IsFor (idle_effect s Lane.credit_receive) s.active.on_credit_receive

enter_payload-Steps :
    (s : Protocol)
    → OthersFit s
    → s.direction ≡ Direction.imports
    → header_bytes ≤ s.length
    → Steps (enter_payload s s.offsets.on_data)
unfolding enter_payload idle_effect data_effect
enter_payload-Steps s o d l = grind arith

sized_header-Steps :
    (s : Protocol) (header : List ℕ) (total : Option ℕ)
    → OthersFit s
    → s.direction ≡ Direction.imports
    → ((size : ℕ) → total ≡ some size → header_bytes ≤ size)
    → Steps (sized_header s s.offsets.on_data header total)
unfolding sized_header parse_fields idle_effect
sized_header-Steps s header none o d l = o.0
sized_header-Steps s header (some size) o d l =
    enter_payload-Steps (parse_fields s header size) o d (l size refl)

tested_header-Steps :
    (s : Protocol) (header : List ℕ) (addressed : Bool)
    → OthersFit s
    → s.direction ≡ Direction.imports
    → Steps (tested_header s s.offsets.on_data header addressed)
unfolding tested_header
tested_header-Steps s header false o d = o.0
tested_header-Steps s header true o d =
    let payload = number_at 34 4 header in
    let fits : (size : ℕ) → checked_add header_bytes payload ≡ some size → header_bytes ≤ size =
      λ size e. grind arith in
    sized_header-Steps s header (checked_add header_bytes payload) o d fits

parse_header-Steps :
    (s : Protocol) (buffer : List ℕ)
    → OthersFit s
    → s.direction ≡ Direction.imports
    → Steps (parse_header s s.offsets.on_data buffer)
unfolding observe_sequence idle_effect
parse_header-Steps s buffer o d =
    parse_header_cases Steps s s.offsets.on_data buffer o.0 (λ sequence header.
      tested_header-Steps (observe_sequence s sequence) header (is_addressed s.contract header) o d)

pub data_progress-Steps :
    (s : Protocol) (buffer : List ℕ)
    → OthersFit s
    → DataReached s.direction s.stage s.offsets.on_data s.length s.capacity
    → IsOrdered s.stage (breaks_order s)
    → Steps (data_progress s buffer)
unfolding idle_effect data_effect breaks_order
data_progress-Steps s buffer o r q =
    data_progress_cases Steps s buffer (λ a e. (o.0, λ c. grind arith))
      (λ e. (o.0, λ c. grind arith)) (λ e n. (o.0, λ c. grind arith))
      (λ e l. (o.0, λ c. grind arith)) (λ e. parse_header-Steps s buffer o (grind arith))
      (λ e n. (o.0, λ c. grind arith)) (λ e n. (o.0, λ c. grind arith)) o.0

-- What a credit lane leaves alone.
abbrev pub DataStands : Protocol → Type 0
DataStands s =
    IsBounded s
    × DataFits s.direction s.stage s.offsets.on_data s.length s.capacity
    × IsOrdered s.stage (breaks_order s)
    × IsFor (idle_effect s Lane.data_lane) s.active.on_data

pub credit_send_progress-Steps :
    (s : Protocol)
    → DataStands s
    → s.direction ≡ Direction.imports
    → s.credited ≡ true
    → s.previous ≢ none
    → s.offsets.on_credit_send ≤ credit_bytes
    → s.offsets.on_credit_receive ≡ 0
    → s.active.on_credit_send ≡ none
    → IsFor (idle_effect s Lane.credit_receive) s.active.on_credit_receive
    → Steps (credit_send_progress s)
unfolding credit_send_progress idle_effect data_effect breaks_order
credit_send_progress-Steps s d i c p l z n r = grind arith

pub credit_receive_progress-Steps :
    (s : Protocol) (buffer : List ℕ)
    → DataStands s
    → s.active.on_credit_receive ≡ none
    → s.offsets.on_credit_receive ≤ credit_bytes
    → IsFor (idle_effect s Lane.credit_send) s.active.on_credit_send
    → Steps (credit_receive_progress s buffer)
unfolding credit_receive_progress take_credit idle_effect data_effect breaks_order
credit_receive_progress-Steps s buffer d n l i = grind arith
