-- ===== src/Wire/Canonical.antt =====
-- Every seventy bytes are the encoding of one header.
use hiway.Prelude.{ℕ, ◌^◌, ◌≤◌, ◌<◌, ◌≡◌, false, List, arith, length, All, ok, u32_max, u64_max}
use hiway.Prelude.Bytes.{
  IsByte, from_le, chunk, put-from_le, put-chunk, chunk-lt, length-chunk, IsByte-chunk,
}
use hiway.Wire.{
  EnvelopeHeader, write_header, read_header, encode, decode, unwrap_or, is_max, present,
}
use hiway.Wire.RoundTrip.{IsHeader}

unwrap_or-present : (max value : ℕ) → unwrap_or (present max value) max ≡ value
unwrap_or-present max value = ground arith

is_max-present : (max value : ℕ) → is_max (present max value) max ≡ false
is_max-present max value = ground arith

unwrap_or-present-lt :
    (max value bound : ℕ) → 0 < bound → value < bound → unwrap_or (present max value) 0 < bound
unwrap_or-present-lt max value bound h k = ground arith

decode-eq_ok :
    (input : List ℕ) (h : EnvelopeHeader)
    → decode input ≡ ok h
    → (70 ≤ length input) × (h ≡ read_header input)
unfolding decode
decode-eq_ok input h e = ground arith

module _ (input : List ℕ) (bytes : All IsByte input) (long : 70 ≤ length input) where
  write-read_header : write_header (read_header input) input ≡ input
  unfolding write_header read_header
  write-read_header = rw (
    unwrap_or-present u32_max (from_le (chunk 54 4 input)),
    unwrap_or-present u64_max (from_le (chunk 58 8 input)),
    put-from_le 0 16 input (omega arith) bytes,
    put-from_le 16 2 input (omega arith) bytes,
    put-from_le 18 4 input (omega arith) bytes,
    put-chunk 22 16 input,
    put-from_le 38 8 input (omega arith) bytes,
    put-from_le 46 8 input (omega arith) bytes,
    put-from_le 54 4 input (omega arith) bytes,
    put-from_le 58 8 input (omega arith) bytes,
    put-from_le 66 4 input (omega arith) bytes,
  )

  read_header-IsHeader : IsHeader (read_header input)
  unfolding read_header
  read_header-IsHeader = record {
    event = chunk-lt 0 16 input (omega arith) bytes;
    wire_major = chunk-lt 16 2 input (omega arith) bytes;
    schema_revision = chunk-lt 18 4 input (omega arith) bytes;
    origin = length-chunk 22 16 input (omega arith);
    origin_bytes = IsByte-chunk 22 16 input bytes;
    sequence = chunk-lt 38 8 input (omega arith) bytes;
    origin_time = chunk-lt 46 8 input (omega arith) bytes;
    ttl =
        unwrap_or-present-lt u32_max (from_le (chunk 54 4 input)) (2 ^ 32) (omega arith)
          (chunk-lt 54 4 input (omega arith) bytes);
    fabric_sequence =
        unwrap_or-present-lt u64_max (from_le (chunk 58 8 input)) (2 ^ 64) (omega arith)
          (chunk-lt 58 8 input (omega arith) bytes);
    payload_len = chunk-lt 66 4 input (omega arith) bytes;
  }

  encode-read_header : encode (read_header input) input ≡ (ok tt, input)
  unfolding encode
  encode-read_header = ground (arith, write-read_header, absent_ttl, absent_fabric)
    where
      absent_ttl : is_max (read_header input).metadata.ttl u32_max ≡ false
      absent_ttl = unfold read_header in is_max-present u32_max (from_le (chunk 54 4 input))

      absent_fabric : is_max (read_header input).metadata.fabric_sequence u64_max ≡ false
      absent_fabric = unfold read_header in is_max-present u64_max (from_le (chunk 58 8 input))

-- The header read from a buffer is in range, and writing it back leaves the buffer as it was: the
-- encoding of a header is the only one.
pub encode-decode :
    (input : List ℕ) (h : EnvelopeHeader)
    → All IsByte input
    → decode input ≡ ok h
    → IsHeader h × (encode h input ≡ (ok tt, input))
encode-decode input h bytes e =
    let (long, read) = decode-eq_ok input h e in
    rw read (read_header-IsHeader input bytes long, encode-read_header input bytes long)
