-- ===== src/Wire/Tests.antt =====
-- A concrete header, and the round trips at it.
use hiway.Prelude.{ℕ, ◌-◌, ◌^◌, ◌≡◌, refl, none, some, List, arith, drop, replicate, ok, err}
use hiway.Wire.{
  EnvelopeHeader, encode, decode, write_header, read_header, invalid_header, truncated,
}
use hiway.Wire.RoundTrip.{IsHeader, decode-encode}
use hiway.Wire.Canonical.{encode-decode}

abbrev header : EnvelopeHeader
header = record {
  event = 0x0102;
  wire_major = 1;
  schema_revision = 7;
  metadata = record {
    origin = replicate 16 9;
    sequence = 5;
    origin_time = 0;
    ttl = some 3;
    fabric_sequence = none;
  };
  payload_len = 12;
}

abbrev buffer : List ℕ
buffer = replicate 71 0

abbrev written : List ℕ
unfolding write_header
written = write_header header buffer

header-IsHeader : IsHeader header
header-IsHeader = omega arith

encode-header : encode header buffer ≡ (ok tt, written)
unfolding encode write_header
encode-header = refl

largest_ttl :
    (encode
      (record header { metadata = record header.metadata { ttl = some (2 ^ 32 - 1) } })
      buffer).0
    ≡ err invalid_header
unfolding encode
largest_ttl = refl

short_input : decode (replicate 69 0) ≡ err truncated
unfolding decode
short_input = refl

decode-encode_example : (decode written ≡ ok header) × (drop 70 written ≡ drop 70 buffer)
unfolding write_header
decode-encode_example = decode-encode header buffer written header-IsHeader encode-header

decode-written : decode written ≡ ok header
unfolding decode read_header write_header
decode-written = refl

encode-decode_example : IsHeader header × (encode header written ≡ (ok tt, written))
unfolding write_header
encode-decode_example = encode-decode written header (omega arith) decode-written
