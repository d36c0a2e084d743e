-- ===== src/Unix.antt =====
-- hiway/src/unix.rs: the header and the credit of a link over Unix sockets, and one round of its
-- exporting and importing loops. The sockets deliver bytes in order; reads and writes are the
-- arguments and the results of the steps.
pub mod Header
pub mod Credit
mod Tests
use hiway.Prelude.{
  ℕ, ◌+◌, ◌*◌, ◌^◌, Bool, true, false, not, ◌&&◌, ◌||◌, Option, none, some, List, [], ◌∷◌, ◌++◌,
  ◌==◌, ltb, if◌then◌else◌, length, replicate, Result, ok, err, panic, checked_add, u32_max,
}
use hiway.Prelude.Bytes.{equal_bytes, to_le, from_le, chunk}
use hiway.Event.{EventId, Delivery, follows}
use hiway.Errors.{TopicError, ReceiveError, SendError}
use hiway.Metadata.{SchemaRevision}
use hiway.Wire.{WireError}
use hiway.Grant.{Limits, zero_limits}
use hiway.Transport.Contract.{Error, Contract, Direction, header_bytes, credit_bytes}
use hiway.Transport.Accountability.{
  Accountability, Connection, observe, admit, complete, finish, cancel,
}
use hiway.Transport.Protocol.Progress.{magic}
use hiway.Transport.Frame.{write_frame_header}

-- The code of `io` is the raw error of the operating system, where there is one.
pub data IpcError : Type 0 where
  io : Option ℕ → IpcError
  topic : TopicError → IpcError
  wire : WireError → IpcError
  receive : ReceiveError → IpcError
  send : SendError (Unit {0}) → IpcError
  revoked protocol : IpcError
  oversized : ℕ → ℕ → IpcError
  gap : ℕ → ℕ → IpcError

unfoldable pub link_limits : ℕ → Result Limits IpcError
link_limits max_payload =
    if ltb u32_max max_payload
    then err (IpcError.topic TopicError.invalid_config)
    else elim (checked_add max_payload (header_bytes + 2 * credit_bytes)) [
      | none ↦ err (IpcError.topic TopicError.invalid_config)
      | some bytes ↦
          ok
            (record zero_limits { connections = 2; retained_items = 1; waiters = 2; bytes = bytes })
    ]

unfoldable pub encode_header : Contract → ℕ → ℕ → Result (List ℕ) WireError
encode_header contract sequence length =
    if ltb u32_max length
    then err WireError.invalid_header
    else ok (write_frame_header contract sequence length (replicate header_bytes 0))

-- The number in the bytes of a field.
unfoldable pub field : List ℕ → ℕ → ℕ → ℕ
field header offset width = from_le (chunk offset width header)

unfoldable pub has_magic : List ℕ → Bool
has_magic header = equal_bytes (chunk 0 4 header) magic

unfoldable pub is_for : Contract → List ℕ → Bool
is_for contract header =
    has_magic header && field header 4 16 == contract.event && field header 20 2 == contract.major

-- The fields of a header that a link may use.
pub record Announcement : Type 0 where
  pub sequence : ℕ
  pub revision : SchemaRevision
  pub length : ℕ

unfoldable pub decode_header : Contract → List ℕ → ℕ → Result Announcement IpcError
decode_header contract header max_payload =
    if not (is_for contract header)
    then err IpcError.protocol
    else if ltb max_payload (field header 34 4)
    then err (IpcError.oversized (field header 34 4) max_payload)
    else ok (record {
      sequence = field header 26 8;
      revision = field header 22 4;
      length = field header 34 4;
    })

-- `Trace`: the history of a link that keeps one.
abbrev pub Trace : Type 0
Trace = Option Accountability

abbrev pub traced : (Accountability → Accountability) → Trace → Trace
traced record_it none = none
traced record_it (some history) = some (record_it history)

-- The error that a history records.
unfoldable pub recorded : IpcError → Accountability → Accountability
recorded (IpcError.io none) a = finish a (Error.io 0)
recorded (IpcError.io (some code)) a = finish a (Error.io code)
recorded (IpcError.topic e) a = finish a (Error.topic e)
recorded (IpcError.wire e) a = finish a (Error.wire e)
recorded (IpcError.receive e) a = finish a (Error.receive e)
recorded (IpcError.send e) a = finish a (Error.send e)
recorded IpcError.revoked a = cancel a
recorded IpcError.protocol a = finish a Error.protocol
recorded (IpcError.oversized length limit) a = finish a Error.capacity
recorded (IpcError.gap from to) a = finish a (Error.gap from to)

-- `Trace::finish`
unfoldable pub finish_trace : Trace → Result (Unit {0}) IpcError → Trace
unfolding recorded
finish_trace trace (err e) = traced (recorded e) trace
finish_trace trace _ = trace

-- `Trace::drop`
unfoldable pub drop_trace : Trace → Trace
drop_trace trace = traced cancel trace
