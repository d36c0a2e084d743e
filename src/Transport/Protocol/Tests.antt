-- ===== src/Transport/Protocol/Tests.antt =====
-- A concrete import and export, and the protocol's theorems at concrete inputs.
use hiway.Prelude.{ℕ, ◌≡◌, ◌≢◌, refl, inr, false, none, some, List, [], ◌∷◌, ◌++◌, ok, panic, take}
use hiway.Prelude.Bytes.{to_le}
use hiway.Event.{Delivery, follows}
use hiway.Transport.Operation.{OpId}
use hiway.Transport.Contract.{Error, Contract, Direction}
use hiway.Transport.Accountability.{Connection}
use hiway.Transport.Accountability
use hiway.Transport.Protocol.Parts.{Lane, Effect, IoResult, Input, Stage, at, every}
use hiway.Transport.Protocol.{
  Protocol, new, with_connection, effect, lane_effect, idle_effect, data_effect, observe_sequence,
}
use hiway.Transport.Protocol.Progress.{
  magic, is_addressed, breaks_order, enter_payload, number_at, header_of, parse_fields,
  sized_header, tested_header, parse_header, data_progress, credit_send_progress, take_credit,
  credit_receive_progress, progress,
}
use hiway.Transport.Protocol.Transition.{
  close, accept, transferred, conclude, complete_on, complete, provide, admitting, admit_frame,
  transition, settle, answer, input, run,
}
use hiway.Transport.Protocol.Admissions.{admissions, IsFollowing, new-admissions-IsFollowing}
use hiway.Transport.Protocol.Effects.{IsServable, run-effect-IsServable, run-input-ne-panic}
use hiway.Transport.Protocol.Closure.{IsFrozen, run-IsFrozen}
use hiway.Transport.Protocol.Outstanding.{run-outstanding}

abbrev contract : Contract
contract = record { event = 300; major = 2; revision = 3; delivery = Delivery.latest }

abbrev first : OpId
first = record { slot = 0; generation = 1 }

abbrev second : OpId
second = record { slot = 0; generation = 2 }

abbrev third : OpId
third = record { slot = 1; generation = 1 }

-- A new protocol with room for 64 bytes.
abbrev fresh : Direction → Stage → Protocol
fresh direction stage = record {
  contract = contract;
  direction = direction;
  capacity = 64;
  stage = stage;
  active = every none;
  offsets = every 0;
  length = 38;
  sequence = 0;
  previous = none;
  revision = 3;
  credited = false;
  closed = none;
  accountability = none;
}

abbrev importer : Protocol
importer = fresh Direction.imports Stage.header

abbrev exporter : Protocol
exporter = fresh Direction.exports Stage.source

importer-new : new contract Direction.imports 64 ≡ ok importer
unfolding new
importer-new = refl

-- A frame with a payload of two bytes.
abbrev frame : ℕ → List ℕ
frame sequence =
    magic
    ++ (to_le 16 300
        ++ (to_le 2 2 ++ (to_le 4 3 ++ (to_le 8 sequence ++ (to_le 4 2 ++ (9 ∷ 8 ∷ []))))))

-- Two frames, the first of which arrives in two parts; each is admitted and credited.
abbrev imported : List Input
imported =
    Input.accepted Lane.data_lane first
    ∷ Input.completed first (IoResult.bytes 39) (frame 5)
    ∷ Input.accepted Lane.data_lane second
    ∷ Input.completed second (IoResult.bytes 1) (frame 5)
    ∷ Input.admitted
    ∷ Input.accepted Lane.credit_send first
    ∷ Input.accepted Lane.data_lane second
    ∷ Input.completed second (IoResult.bytes 40) (frame 9)
    ∷ Input.completed first (IoResult.bytes 9) []
    ∷ Input.admitted
    ∷ []

imported-admissions : admissions importer imported ≡ 5 ∷ 9 ∷ []
unfolding admissions input answer settle close transition accept effect lane_effect idle_effect
    data_effect complete complete_on conclude transferred progress data_progress parse_header
    tested_header sized_header parse_fields enter_payload breaks_order number_at header_of
    is_addressed observe_sequence admit_frame admitting credit_send_progress follows
imported-admissions = refl

imported-effect :
    effect (run importer imported) Lane.credit_send ≡ some (Effect.transmit Lane.credit_send 0 9)
unfolding run input answer settle close transition accept effect lane_effect idle_effect data_effect
    complete complete_on conclude transferred progress data_progress parse_header tested_header
    sized_header parse_fields enter_payload breaks_order number_at header_of is_addressed
    observe_sequence admit_frame admitting credit_send_progress follows
imported-effect = refl

-- A frame that is provided, sent and credited while its last byte is on its way.
abbrev exported : List Input
exported =
    Input.provided 7 40
    ∷ Input.accepted Lane.data_lane first
    ∷ Input.accepted Lane.credit_receive third
    ∷ Input.completed third (IoResult.bytes 9) (1 ∷ to_le 8 7)
    ∷ Input.completed first (IoResult.bytes 40) []
    ∷ []

exported_stage :
    ((run exporter exported).stage ≡ Stage.source) × ((run exporter exported).closed ≡ none)
unfolding run input answer settle close transition accept effect lane_effect idle_effect data_effect
    complete complete_on conclude transferred progress data_progress credit_receive_progress
    take_credit observe_sequence provide
exported_stage = (refl, refl)

run-effect-IsServable_example :
    IsServable 64 Lane.credit_send
      (at (run importer imported).active Lane.credit_send)
      (Effect.transmit Lane.credit_send 0 9)
run-effect-IsServable_example =
    run-effect-IsServable contract Direction.imports 64 importer imported Lane.credit_send
      (Effect.transmit Lane.credit_send 0 9) importer-new imported-effect

abbrev connection : Connection
connection = record { id = 4; generation = 2 }

-- The importer with a history.
abbrev recorded : Protocol
recorded = record importer {
  accountability = some (Accountability.new connection contract Direction.imports);
}

recorded-with_connection : with_connection contract Direction.imports 64 connection ≡ ok recorded
unfolding with_connection new
recorded-with_connection = refl

-- The end of the credit of the first admission, which is recorded.
run-input-ne-panic_example :
    (input (run recorded (take 8 imported)) (Input.completed first (IoResult.bytes 9) [])).1 ≢ panic
run-input-ne-panic_example =
    run-input-ne-panic contract Direction.imports 64 recorded (take 8 imported)
      (Input.completed first (IoResult.bytes 9) []) (inr (connection, recorded-with_connection))

new-admissions-IsFollowing_example : IsFollowing Delivery.latest none (admissions importer imported)
new-admissions-IsFollowing_example =
    new-admissions-IsFollowing contract Direction.imports 64 importer imported importer-new

-- An importer that was closed with an operation outstanding.
abbrev ended : Protocol
ended = record importer {
  active = record {
    on_data = some (first, Effect.receive Lane.data_lane 0 64);
    on_credit_send = none;
    on_credit_receive = none;
  };
  closed = some Error.revoked;
}

run-IsFrozen_example : IsFrozen ended (run ended imported)
run-IsFrozen_example = run-IsFrozen ended Error.revoked imported refl

run-outstanding_example :
    at
      (run ended (Input.revoked ∷ Input.completed second IoResult.retry [] ∷ [])).active
      Lane.data_lane
    ≡ some (first, Effect.receive Lane.data_lane 0 64)
run-outstanding_example =
    run-outstanding ended Lane.data_lane first (Effect.receive Lane.data_lane 0 64)
      (Input.revoked ∷ Input.completed second IoResult.retry [] ∷ []) (refl, (refl, tt)) refl
