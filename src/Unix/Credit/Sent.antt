-- ===== src/Unix/Credit/Sent.antt =====
-- What the ends of a link over sockets send: a frame that carries the sequence left outstanding, and a
-- credit that is accepted for it.
use mathlib.Core.Path.{subst, sym}
use hiway.Prelude.{
  ℕ, ◌^◌, ◌<◌, ◌≡◌, refl, ◌∙◌, true, false, List, ◌++◌, take, drop, replicate, Result, ok, err,
  panic, arith, ==_iff,
}
use hiway.Prelude.Bytes.{from_le-to_le}
use hiway.Wire.{WireError}
use hiway.Static.{StreamItem, item, gap}
use hiway.Transport.Contract.{Contract, header_bytes}
use hiway.Transport.Accountability.{observe}
use hiway.Transport.Frame.{write_frame_header}
use hiway.Transport.Frame.Header.{frame_layout, write_frame_header-layout}
use hiway.Unix.{IpcError, Trace, traced, field, encode_header}
use hiway.Unix.Credit.{Credits, receive_credit, credit_frame, export_encoded, export_item}
use hiway.Unix.Credit.Rounds.{exports, Fits}

credit-fields :
    (sequence : ℕ)
    → sequence < 2 ^ 64
    → (field (credit_frame sequence) 0 1 ≡ 1) × (field (credit_frame sequence) 1 8 ≡ sequence)
unfolding field credit_frame
credit-fields sequence h = (refl, from_le-to_le 8 sequence h)

-- The credit of the outstanding frame is accepted.
pub receive_credit-own :
    (c : Credits) (trace : Trace)
    → c.outstanding ≡ true
    → c.sequence < 2 ^ 64
    → ((receive_credit c trace (credit_frame c.sequence)).1 ≡ ok tt)
      × ((receive_credit c trace (credit_frame c.sequence)).0.0 ≡ record c { outstanding = false })
unfolding receive_credit
receive_credit-own c trace unread h =
    let (one, own) = credit-fields c.sequence h in
    rw
      (
        (==_iff (field (credit_frame c.sequence) 0 1) 1).1 one,
        unread,
        (==_iff (field (credit_frame c.sequence) 1 8) c.sequence).1 own,
      )
      (refl, refl)

-- What an export may answer: a frame with the sequence that it leaves outstanding.
unfoldable pub Sends : (Credits × Trace) × Result (List ℕ) IpcError → Type 0
Sends ((c, t), ok bytes) =
    (c.outstanding ≡ true)
    × (c.sequence < 2 ^ 64)
    × (field (take header_bytes bytes) 26 8 ≡ c.sequence)
Sends _ = Unit

frame-field :
    (contract : Contract) (sequence size : ℕ) (rest bytes : List ℕ)
    → sequence < 2 ^ 64
    → field (take header_bytes (frame_layout contract sequence size rest ++ bytes)) 26 8 ≡ sequence
unfolding field
frame-field contract sequence size rest bytes h = from_le-to_le 8 sequence h

encode_header-write_frame_header :
    (contract : Contract) (sequence size : ℕ) (header : List ℕ)
    → encode_header contract sequence size ≡ ok header
    → write_frame_header contract sequence size (replicate header_bytes 0) ≡ header
unfolding encode_header
encode_header-write_frame_header contract sequence size header e = grind arith

layout-field :
    (contract : Contract) (sequence size : ℕ) (header bytes : List ℕ)
    → sequence < 2 ^ 64
    → encode_header contract sequence size ≡ ok header
    → field (take header_bytes (header ++ bytes)) 26 8 ≡ sequence
layout-field contract sequence size header bytes h e =
    let blank = replicate header_bytes 0 in
    subst (λ header. field (take header_bytes (header ++ bytes)) 26 8 ≡ sequence)
      (sym (write_frame_header-layout contract sequence size blank (omega arith))
        ∙ encode_header-write_frame_header contract sequence size header e)
      (frame-field contract sequence size (drop header_bytes blank) bytes h)

export_encoded-Sends :
    (contract : Contract) (c : Credits) (trace : Trace) (sequence size : ℕ)
    (out : Result ℕ WireError × List ℕ)
    → sequence < 2 ^ 64
    → Sends (export_encoded contract c trace sequence size out)
unfolding export_encoded Sends
export_encoded-Sends contract c trace sequence size (err e, bytes) h = tt
export_encoded-Sends contract c trace sequence size (panic, bytes) h = tt
export_encoded-Sends contract c trace sequence size (ok encoded, bytes) h =
    grind (arith, λ (header : List ℕ). layout-field contract sequence size header bytes h)

module _ {Payload : Type 0} (encoded_len : Payload → ℕ)
    (encode : Payload → List ℕ → Result ℕ WireError × List ℕ) (source : Contract) where
  pub export_item-Sends :
      (buffer : List ℕ) (c : Credits) (trace : Trace) (value : StreamItem Payload)
      → Fits (exports buffer value)
      → Sends (export_item encoded_len encode source buffer c trace value)
  unfolding export_item Sends Fits
  export_item-Sends buffer c trace (gap from to) h = tt
  export_item-Sends buffer c trace (item sequence value) h =
      let size = encoded_len value in
      let sends =
        export_encoded-Sends source c (traced (λ a. observe a sequence) trace) sequence size
          (encode value (take size buffer)) h in
      grind arith
