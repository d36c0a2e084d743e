-- ===== src/Transport/Contract.antt =====
-- hiway/src/transport/mod.rs: the contract, the errors and the sizes of a transport link, and the
-- direction and lanes of hiway/src/transport/protocol.rs.
use hiway.Prelude.{ℕ}
use hiway.Event.{EventId, Delivery}
use hiway.Errors.{TopicError, ReceiveError, SendError}
use hiway.Metadata.{WireMajor, SchemaRevision}
use hiway.Wire.{WireError}

abbrev pub header_bytes : ℕ
header_bytes = 38

abbrev pub credit_bytes : ℕ
credit_bytes = 9

-- The code of `io` is the bit pattern of an i32.
pub data Error : Type 0 where
  closed revoked protocol capacity : Error
  io : ℕ → Error
  wire : WireError → Error
  topic : TopicError → Error
  receive : ReceiveError → Error
  send : SendError (Unit {0}) → Error
  gap : ℕ → ℕ → Error

pub record Contract : Type 0 where
  pub event : EventId
  pub major : WireMajor
  pub revision : SchemaRevision
  pub delivery : Delivery

pub data Direction : Type 0 where
  imports exports : Direction
