-- ===== src/Transport/Accountability.antt =====
-- hiway/src/transport/accountability.rs: the bounded history of one connection.
pub mod Terminal
mod Tests
use hiway.Prelude.{ℕ, Bool, true, false, Option, none, some, if◌then◌else◌}
use hiway.Transport.Contract.{Error, Contract, Direction}
use hiway.Transport.Records.{Records}
use hiway.Transport.Records

pub record Connection : Type 0 where
  pub id : ℕ
  pub generation : ℕ

pub data Outcome : Type 0 where
  admitted completed : Outcome
  rejected : Error → Outcome
  cancelled : Outcome

pub record Record : Type 0 where
  pub connection : Connection
  pub contract : Contract
  pub direction : Direction
  pub sequence : Option ℕ
  pub outcome : Outcome

pub record FrameRecord : Type 0 where
  pub sequence : Option ℕ
  pub outcome : Outcome

-- `Records<FrameRecord, 8>`
abbrev pub record_cap : ℕ
record_cap = 8

pub record Accountability : Type 0 where
  pub connection : Connection
  pub contract : Contract
  pub direction : Direction
  pub sequence : Option ℕ
  pub terminal : Bool
  pub records : Records FrameRecord

unfoldable pub new : Connection → Contract → Direction → Accountability
new connection contract direction = record {
  connection = connection;
  contract = contract;
  direction = direction;
  sequence = none;
  terminal = false;
  records = Records.new record_cap;
}

-- A record with the attribution of the connection.
abbrev pub attributed : Accountability → Option FrameRecord → Option Record
attributed a none = none
attributed a (some frame) = some (record {
  connection = a.connection;
  contract = a.contract;
  direction = a.direction;
  sequence = frame.sequence;
  outcome = frame.outcome;
})

unfoldable pub pop : Accountability → Accountability × Option Record
pop a =
    let (records, frame) = Records.pop record_cap a.records in
    (record a { records = records }, attributed a frame)

unfoldable pub lost : Accountability → ℕ
lost a = a.records.lost

unfoldable pub observe : Accountability → ℕ → Accountability
observe a sequence = record a { sequence = some sequence }

-- `record`
unfoldable pub record_outcome : Accountability → Option ℕ → Outcome → Accountability
record_outcome a sequence outcome = if a.terminal then a else record a {
  records = Records.push record_cap a.records (record { sequence = sequence; outcome = outcome });
}

unfoldable pub admit : Accountability → Accountability
unfolding record_outcome
admit a = record_outcome a a.sequence Outcome.admitted

unfoldable pub complete : Accountability → ℕ → Accountability
unfolding record_outcome
complete a sequence = record_outcome a (some sequence) Outcome.completed

unfoldable pub finish : Accountability → Error → Accountability
unfolding record_outcome
finish a error = record (record_outcome a a.sequence (Outcome.rejected error)) { terminal = true }

unfoldable pub cancel : Accountability → Accountability
unfolding record_outcome
cancel a = record (record_outcome a a.sequence Outcome.cancelled) { terminal = true }
