-- ===== src/Unix/Credit.antt =====
-- hiway/src/unix.rs: one round of `receive_credits`, `export_data` and `import_data`, and the link
-- that two of them make. The codec of the application is a parameter: the length it announces, its
-- encoding into a buffer, and what decoding a payload and sending it to the local stream give.
pub mod Rounds
pub mod Sent
pub mod Bounded
use hiway.Prelude.{
  ℕ, ◌+◌, ◌^◌, Bool, true, false, not, ◌&&◌, ◌||◌, Option, none, some, List, [], ◌∷◌, ◌++◌, ◌==◌,
  ltb, if◌then◌else◌, length, take, Result, ok, err, panic,
}
use hiway.Prelude.Bytes.{to_le}
use hiway.Event.{Delivery, follows}
use hiway.Wire.{WireError}
use hiway.Static.{StreamItem}
use hiway.Transport.Contract.{Contract}
use hiway.Transport.Accountability.{Accountability, observe, admit, complete}
use hiway.Unix.{IpcError, Announcement, Trace, traced, field, encode_header, decode_header}

pub record Credits : Type 0 where
  pub outstanding : Bool
  pub sent : Bool
  pub sequence : ℕ

-- `Credits::default()`
abbrev pub no_credits : Credits
no_credits = record { outstanding = false; sent = false; sequence = 0 }

-- One round of `receive_credits` on the frame that was read.
unfoldable pub receive_credit :
    Credits → Trace → List ℕ → (Credits × Trace) × Result (Unit {0}) IpcError
receive_credit c trace frame =
    let sequence = field frame 1 8 in
    if not (field frame 0 1 == 1) || not c.outstanding || not (sequence == c.sequence)
    then ((c, trace), err IpcError.protocol)
    else (
      (
        record c { outstanding = false },
        if c.sent then traced (λ a. complete a sequence) trace else trace,
      ),
      ok tt,
    )

-- The bytes that answer a frame.
unfoldable pub credit_frame : ℕ → List ℕ
credit_frame sequence = 1 ∷ to_le 8 sequence

-- The round of `export_data` for an encoded payload, up to the writes.
unfoldable pub export_encoded :
    Contract
    → Credits
    → Trace
    → ℕ
    → ℕ
    → Result ℕ WireError × List ℕ
    → (Credits × Trace) × Result (List ℕ) IpcError
export_encoded contract c trace sequence size (err e, bytes) = ((c, trace), err (IpcError.wire e))
export_encoded contract c trace sequence size (panic, bytes) = ((c, trace), panic)
export_encoded contract c trace sequence size (ok encoded, bytes) =
    if not (encoded == size)
    then ((c, trace), err (IpcError.wire WireError.invalid_payload))
    else elim (encode_header contract sequence size) [
      | err e ↦ ((c, trace), err (IpcError.wire e))
      | panic ↦ ((c, trace), panic)
      | ok header ↦ (
        (record { outstanding = true; sent = false; sequence = sequence }, traced admit trace),
        ok (header ++ bytes),
      )
    ]

module _ {Payload : Type 0} (encoded_len : Payload → ℕ)
    (encode : Payload → List ℕ → Result ℕ WireError × List ℕ) where
  -- What is written for an item that was received, through the buffer of the link.
  unfoldable pub export_item :
      Contract
      → List ℕ
      → Credits
      → Trace
      → StreamItem Payload
      → (Credits × Trace) × Result (List ℕ) IpcError
  unfolding export_encoded
  export_item contract buffer c trace (StreamItem.gap from to) =
      ((c, trace), err (IpcError.gap from to))
  export_item contract buffer c trace (StreamItem.item sequence value) =
      let observed = traced (λ a. observe a sequence) trace in
      let size = encoded_len value in
      if ltb (length buffer) size
      then ((c, observed), err (IpcError.oversized size (length buffer)))
      else export_encoded contract c observed sequence size (encode value (take size buffer))

-- The end of a round, after both writes.
unfoldable pub written : Credits → Trace → ℕ → Credits × Trace
written c trace sequence = (
  record c { sent = true },
  if not c.outstanding then traced (λ a. complete a sequence) trace else trace,
)

-- `previous.is_some_and(|last| !E::DELIVERY.follows(last, sequence))`
abbrev pub breaks_order : Delivery → Option ℕ → ℕ → Bool
breaks_order delivery none sequence = false
breaks_order delivery (some last) sequence = not (follows delivery last sequence)

-- The round of `import_data` on a header that was read.
unfoldable pub import_header :
    Contract → ℕ → Option ℕ → Trace → List ℕ → Trace × Result Announcement IpcError
import_header contract limit previous trace header =
    let observed = traced (λ a. observe a (field header 26 8)) trace in
    elim (decode_header contract header limit) [
      | err e ↦ (observed, err e)
      | panic ↦ (observed, panic)
      | ok a ↦
          if breaks_order contract.delivery previous a.sequence
          then (observed, err IpcError.protocol)
          else (observed, ok a)
    ]

-- The rest of the round: `delivered` is what decoding the payload and sending it gave. The result
-- is the sequence that the next one must follow and the credit that is written.
unfoldable pub import_payload :
    Option ℕ
    → Trace
    → ℕ
    → Result (Unit {0}) IpcError
    → (Option ℕ × Trace) × Result (List ℕ) IpcError
unfolding credit_frame
import_payload previous trace sequence (err e) = ((previous, trace), err e)
import_payload previous trace sequence panic = ((previous, trace), panic)
import_payload previous trace sequence (ok _) =
    ((some sequence, traced admit trace), ok (credit_frame sequence))
