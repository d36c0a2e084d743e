-- ===== src/Wire.antt =====
-- hiway/src/wire.rs: the fixed header in front of an encoded payload.
pub mod RoundTrip
pub mod Canonical
mod Tests
use hiway.Prelude.{
  ℕ, ◌+◌, ◌-◌, ◌^◌, Bool, true, false, ◌||◌, Option, none, some, List, [], ◌==◌, ltb, if◌then◌else◌,
  length, take, drop, Result, ok, err, u32_max, u64_max,
}
use hiway.Prelude.Bytes.{to_le, from_le, put}
use hiway.Event.{EventId}
use hiway.Metadata.{WireMajor, SchemaRevision, OriginId, EventMetadata, WireEnvelope}

abbrev pub envelope_header_bytes : ℕ
envelope_header_bytes = 70

pub data WireError : Type 0 where
  buffer_too_small invalid_payload unsupported_revision truncated invalid_header : WireError

pub record EnvelopeHeader : Type 0 where
  pub event : EventId
  pub wire_major : WireMajor
  pub schema_revision : SchemaRevision
  pub metadata : EventMetadata
  pub payload_len : ℕ

-- The event's constants are arguments: `S::ID`, `S::WIRE_MAJOR`, `S::SCHEMA_REVISION`.
unfoldable pub for_event :
    EventId → WireMajor → SchemaRevision → EventMetadata → ℕ → Result EnvelopeHeader WireError
for_event event major revision metadata payload_len =
    if ltb u32_max payload_len
    then err invalid_header
    else ok (record {
      event = event;
      wire_major = major;
      schema_revision = revision;
      metadata = metadata;
      payload_len = payload_len;
    })

unfoldable pub from_envelope : WireEnvelope → Result EnvelopeHeader WireError
from_envelope envelope =
    if ltb u32_max (length envelope.payload)
    then err invalid_header
    else ok (record {
      event = envelope.event;
      wire_major = envelope.wire_major;
      schema_revision = envelope.schema_revision;
      metadata = envelope.metadata;
      payload_len = length envelope.payload;
    })

abbrev pub unwrap_or : Option ℕ → ℕ → ℕ
unwrap_or none d = d
unwrap_or (some v) d = v

-- `value == Some(max)`
abbrev pub is_max : Option ℕ → ℕ → Bool
is_max none max = false
is_max (some v) max = v == max

-- The header's writes, each at the cursor of the source.
unfoldable pub write_header : EnvelopeHeader → List ℕ → List ℕ
write_header h output =
    let o1 = put output 0 (to_le 16 h.event) in
    let o2 = put o1 16 (to_le 2 h.wire_major) in
    let o3 = put o2 18 (to_le 4 h.schema_revision) in
    let o4 = put o3 22 h.metadata.origin in
    let o5 = put o4 38 (to_le 8 h.metadata.sequence) in
    let o6 = put o5 46 (to_le 8 h.metadata.origin_time) in
    let o7 = put o6 54 (to_le 4 (unwrap_or h.metadata.ttl u32_max)) in
    let o8 = put o7 58 (to_le 8 (unwrap_or h.metadata.fabric_sequence u64_max)) in
    put o8 66 (to_le 4 h.payload_len)

-- The result, and the output buffer.
unfoldable pub encode : EnvelopeHeader → List ℕ → Result (Unit {0}) WireError × List ℕ
encode h output =
    if ltb (length output) envelope_header_bytes
    then (err buffer_too_small, output)
    else if is_max h.metadata.ttl u32_max || is_max h.metadata.fabric_sequence u64_max
    then (err invalid_header, output)
    else (ok tt, write_header h output)

-- `read::<N>(input, &mut cursor)`
abbrev pub read : ℕ → List ℕ → ℕ → List ℕ × ℕ
read n input cursor = (take n (drop cursor input), cursor + n)

-- The largest value stands for an absent one.
abbrev pub present : ℕ → ℕ → Option ℕ
present max value = if value == max then none else some value

unfoldable pub read_header : List ℕ → EnvelopeHeader
read_header input =
    let (event, c1) = read 16 input 0 in
    let (wire_major, c2) = read 2 input c1 in
    let (schema_revision, c3) = read 4 input c2 in
    let (origin, c4) = read 16 input c3 in
    let (sequence, c5) = read 8 input c4 in
    let (origin_time, c6) = read 8 input c5 in
    let (ttl, c7) = read 4 input c6 in
    let (fabric_sequence, c8) = read 8 input c7 in
    let (payload_len, c9) = read 4 input c8 in
    record {
      event = from_le event;
      wire_major = from_le wire_major;
      schema_revision = from_le schema_revision;
      metadata = record {
        origin = origin;
        sequence = from_le sequence;
        origin_time = from_le origin_time;
        ttl = present u32_max (from_le ttl);
        fabric_sequence = present u64_max (from_le fabric_sequence);
      };
      payload_len = from_le payload_len;
    }

unfoldable pub decode : List ℕ → Result EnvelopeHeader WireError
decode input =
    if ltb (length input) envelope_header_bytes then err truncated else ok (read_header input)
