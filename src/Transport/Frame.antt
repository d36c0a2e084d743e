-- ===== src/Transport/Frame.antt =====
-- `encode_frame` of hiway/src/transport/mod.rs, and the header that the protocol reads from a frame.
-- The codec of the application is a parameter: the length that it announces, and its encoding of a
-- payload into a buffer, which returns the length written beside the buffer.
pub mod Header
mod Tests
use mathlib.Core.Path.{subst, sym, ap, ap₂, ◌∙◌}
use hiway.Prelude.{
  ℕ, zero, suc, ==_iff, ◌+◌, ◌-◌, ◌^◌, ◌≤◌, ◌<◌, ◌≡◌, ◌≢◌, refl, Bool, true, false, not, ◌&&◌, ◌||◌,
  Option, none, some, List, [], ◌∷◌, ◌++◌, ◌==◌, ltb, if◌then◌else◌, length, take, drop, Result, ok,
  err, panic, u32_max, checked_add, arith,
}
use hiway.Prelude.Bytes.{
  equal_bytes, overwrite, to_le, from_le, put, put_next, chunk, from_le-to_le,
}
use hiway.Wire.{WireError}
use hiway.Transport.Contract.{Error, Contract, Direction, header_bytes}
use hiway.Transport.Protocol.Progress.{magic, is_addressed, number_at, header_of}

-- The writes of the header, each at its place.
unfoldable pub write_frame_header : Contract → ℕ → ℕ → List ℕ → List ℕ
write_frame_header contract sequence wire_length output =
    let o1 = put output 0 magic in
    let o2 = put o1 4 (to_le 16 contract.event) in
    let o3 = put o2 20 (to_le 2 contract.major) in
    let o4 = put o3 22 (to_le 4 contract.revision) in
    let o5 = put o4 26 (to_le 8 sequence) in put o5 34 (to_le 4 wire_length)

-- The tests that end in `Error::Capacity`: an overflow, a frame that does not fit and a payload that
-- is longer than its field can say.
abbrev pub is_too_large : ℕ → ℕ → Bool
is_too_large size room = elim (checked_add header_bytes size) [
  | none ↦ true
  | some total ↦ ltb room total || ltb u32_max size
]

-- What follows the codec's encoding into the payload's place.
unfoldable pub finish_frame :
    Contract → ℕ → ℕ → Result ℕ WireError → List ℕ → Result ℕ Error × List ℕ
unfolding write_frame_header
finish_frame contract sequence size (err e) output = (err (Error.wire e), output)
finish_frame contract sequence size panic output = (panic, output)
finish_frame contract sequence size (ok written) output =
    if not (written == size)
    then (err (Error.wire WireError.invalid_payload), output)
    else (ok (header_bytes + size), write_frame_header contract sequence size output)

module _ {Payload : Type 0} (encoded_len : Payload → ℕ)
    (encode : Payload → List ℕ → Result ℕ WireError × List ℕ) where
  -- The event's constants are those of the contract.
  unfoldable pub encode_frame : Contract → ℕ → Payload → List ℕ → Result ℕ Error × List ℕ
  unfolding finish_frame
  encode_frame contract sequence payload output =
      let size = encoded_len payload in
      if is_too_large size (length output)
      then (err Error.capacity, output)
      else let (written, place) = encode payload (chunk header_bytes size output) in
        finish_frame contract sequence size written (put output header_bytes place)
