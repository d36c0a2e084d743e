-- ===== src/Transport/Protocol/Progress.antt =====
-- `progress` of hiway/src/transport/protocol.rs, an arm at a time: what the bytes of a completed
-- transfer do to the state.
use hiway.Prelude.{
  ℕ, Bool, true, false, not, ◌&&◌, ◌||◌, Option, none, some, List, [], ◌∷◌, ◌==◌, ltb, leb,
  if◌then◌else◌, length, Result, ok, err, panic, checked_add, take,
}
use hiway.Prelude.Bytes.{to_le, from_le, chunk, equal_bytes}
use hiway.Event.{follows}
use hiway.Transport.Contract.{Error, Contract, header_bytes, credit_bytes}
use hiway.Transport.Accountability.{Accountability, Connection, Record}
use hiway.Transport.Accountability
use hiway.Transport.Protocol.Parts.{Lane, Stage, set_at, is_import}
use hiway.Transport.Protocol.{Protocol, tell, observe_sequence}

-- `b"HWY1"`
abbrev pub magic : List ℕ
magic = 72 ∷ 87 ∷ 89 ∷ 49 ∷ []

-- `u64::from_le_bytes(header[cursor..cursor + n])`, of any width
unfoldable pub number_at : ℕ → ℕ → List ℕ → ℕ
number_at cursor n header = from_le (chunk cursor n header)

-- `buffer[..HEADER_BYTES]`
unfoldable pub header_of : List ℕ → List ℕ
header_of buffer = take header_bytes buffer

-- Whether a header starts with the magic, the event and the major of the contract.
unfoldable pub is_addressed : Contract → List ℕ → Bool
is_addressed contract header =
    equal_bytes (chunk 0 4 header) magic
    && equal_bytes (chunk 4 16 header) (to_le 16 contract.event)
    && equal_bytes (chunk 20 2 header) (to_le 2 contract.major)

-- `self.previous.is_some_and(|last| !follows(last, self.sequence))`
unfoldable pub breaks_order : Protocol → Bool
unfolding follows
breaks_order s = elim s.previous [
  | none ↦ false
  | some last ↦ not (follows s.contract.delivery last s.sequence)
]

-- The checks on the frame's length and sequence, and the stage behind a header.
unfoldable pub enter_payload : Protocol → ℕ → Protocol × Result (Unit {0}) Error
unfolding breaks_order
enter_payload s offset =
    if ltb s.capacity s.length
    then (s, err Error.capacity)
    else if ltb s.length offset
    then (s, err Error.protocol)
    else if breaks_order s
    then (s, err Error.protocol)
    else (record s { stage = if offset == s.length then Stage.admission else Stage.payload }, ok tt)

-- The fields that a complete header sets.
unfoldable pub parse_fields : Protocol → List ℕ → ℕ → Protocol
unfolding number_at
parse_fields s header total = record s {
  revision = number_at 22 4 header;
  sequence = number_at 26 8 header;
  length = total;
}

-- What follows the checked addition of the frame's length.
unfoldable pub sized_header : Protocol → ℕ → List ℕ → Option ℕ → Protocol × Result (Unit {0}) Error
unfolding enter_payload parse_fields
sized_header s offset header none = (parse_fields s header s.length, err Error.capacity)
sized_header s offset header (some total) = enter_payload (parse_fields s header total) offset

-- What follows the test of the header's address.
unfoldable pub tested_header : Protocol → ℕ → List ℕ → Bool → Protocol × Result (Unit {0}) Error
unfolding sized_header number_at
tested_header s offset header false = (s, err Error.protocol)
tested_header s offset header true =
    sized_header s offset header (checked_add header_bytes (number_at 34 4 header))

-- `Stage::Header if offset >= HEADER_BYTES`
unfoldable pub parse_header : Protocol → ℕ → List ℕ → Protocol × Result (Unit {0}) Error
unfolding observe_sequence is_addressed tested_header number_at header_of
parse_header s offset buffer =
    if ltb (length buffer) header_bytes
    then (s, err Error.protocol)
    else let header = header_of buffer in
      tested_header (observe_sequence s (number_at 26 8 header)) offset header
        (is_addressed s.contract header)

-- `Lane::Data` of `progress`
unfoldable pub data_progress : Protocol → List ℕ → Protocol × Result (Unit {0}) Error
unfolding parse_header Accountability.complete
data_progress s buffer =
    let offset = s.offsets.on_data in
    elim s.stage [
      | Stage.sending ↦
          if offset == s.length
          then (
            if s.credited
                then record s {
                  stage = Stage.source;
                  accountability =
                      tell (λ a. Accountability.complete a s.sequence) s.accountability;
                }
                else record s { stage = Stage.credit },
            ok tt,
          )
          else (s, ok tt)
      | Stage.header ↦ if leb header_bytes offset then parse_header s offset buffer else (s, ok tt)
      | Stage.payload ↦
          if offset == s.length then (record s { stage = Stage.admission }, ok tt) else (s, ok tt)
      | _ ↦ (s, err Error.protocol)
    ]

-- `Lane::CreditSend` of `progress`
unfoldable pub credit_send_progress : Protocol → Protocol × Result (Unit {0}) Error
unfolding Accountability.complete
credit_send_progress s =
    if s.offsets.on_credit_send == credit_bytes
    then elim s.accountability [
      | none ↦ (record s { credited = false }, ok tt)
      | some a ↦ elim s.previous [
        | none ↦ (record s { credited = false }, panic)
        | some last ↦ (
          record s { credited = false; accountability = some (Accountability.complete a last) },
          ok tt,
        )
      ]
    ]
    else (s, ok tt)

-- `matches!(stage, Stage::Sending | Stage::Credit)`
abbrev pub awaits_credit : Stage → Bool
awaits_credit Stage.sending = true
awaits_credit Stage.credit = true
awaits_credit _ = false

-- The state after a credit for the current frame.
unfoldable pub take_credit : Protocol → Protocol
unfolding Accountability.complete
take_credit s =
    let credited = record s { credited = true; offsets = set_at s.offsets Lane.credit_receive 0 } in
    elim s.stage [
      | Stage.credit ↦ record credited {
        stage = Stage.source;
        accountability = tell (λ a. Accountability.complete a s.sequence) s.accountability;
      }
      | _ ↦ credited
    ]

-- `Lane::CreditReceive` of `progress`
unfoldable pub credit_receive_progress : Protocol → List ℕ → Protocol × Result (Unit {0}) Error
unfolding take_credit
credit_receive_progress s buffer =
    if is_import s.direction
    then (s, err Error.protocol)
    else if not (s.offsets.on_credit_receive == credit_bytes)
    then (s, ok tt)
    else if ltb (length buffer) credit_bytes
    then (s, err Error.protocol)
    else if not (equal_bytes (chunk 0 1 buffer) (1 ∷ []))
        || not (equal_bytes (chunk 1 8 buffer) (to_le 8 s.sequence))
        || s.credited
        || not (awaits_credit s.stage)
    then (s, err Error.protocol)
    else (take_credit s, ok tt)

unfoldable pub progress : Protocol → Lane → List ℕ → Protocol × Result (Unit {0}) Error
unfolding data_progress credit_send_progress credit_receive_progress
progress s Lane.data_lane buffer = data_progress s buffer
progress s Lane.credit_send buffer = credit_send_progress s
progress s Lane.credit_receive buffer = credit_receive_progress s buffer
