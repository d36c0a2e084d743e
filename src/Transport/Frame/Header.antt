-- ===== src/Transport/Frame/Header.antt =====
-- The header of a frame that `encode_frame` writes is the one that the protocol reads.
use mathlib.Core.Path.{subst, sym, ap, ap₂, ◌∙◌}
use hiway.Prelude.{
  ℕ, zero, suc, ==_iff, ◌+◌, ◌^◌, ◌≤◌, ◌<◌, ◌≡◌, refl, true, false, not, ◌&&◌, List, [], ◌∷◌, ◌++◌,
  ◌==◌, if◌then◌else◌, length, drop, Result, ok, err, panic, arith,
}
use hiway.Prelude.Bytes.{equal_bytes, overwrite, to_le, put, put_next, chunk, from_le-to_le}
use hiway.Wire.{WireError}
use hiway.Transport.Contract.{Error, Contract, header_bytes}
use hiway.Transport.Protocol.Progress.{magic, is_addressed, number_at, header_of}
use hiway.Transport.Frame.{write_frame_header, is_too_large, finish_frame, encode_frame}

-- A frame's first bytes, one part after the other.
abbrev pub frame_layout : Contract → ℕ → ℕ → List ℕ → List ℕ
frame_layout contract sequence size rest =
    magic
    ++ (to_le 16 contract.event
        ++ (to_le 2 contract.major
            ++ (to_le 4 contract.revision ++ (to_le 8 sequence ++ (to_le 4 size ++ rest)))))

pub write_frame_header-layout :
    (contract : Contract) (sequence size : ℕ) (output : List ℕ)
    → header_bytes ≤ length output
    → write_frame_header contract sequence size output
      ≡ frame_layout contract sequence size (drop header_bytes output)
unfolding write_frame_header
write_frame_header-layout contract sequence size output long =
    let a1 : List ℕ → List ℕ = λ r. magic ++ r in
    let a2 : List ℕ → List ℕ = λ r. a1 (to_le 16 contract.event ++ r) in
    let a3 : List ℕ → List ℕ = λ r. a2 (to_le 2 contract.major ++ r) in
    let a4 : List ℕ → List ℕ = λ r. a3 (to_le 4 contract.revision ++ r) in
    let a5 : List ℕ → List ℕ = λ r. a4 (to_le 8 sequence ++ r) in
    let w2 : List ℕ → List ℕ = λ o. put o 4 (to_le 16 contract.event) in
    let w3 : List ℕ → List ℕ = λ o. put o 20 (to_le 2 contract.major) in
    let w4 : List ℕ → List ℕ = λ o. put o 22 (to_le 4 contract.revision) in
    let w5 : List ℕ → List ℕ = λ o. put o 26 (to_le 8 sequence) in
    let w6 : List ℕ → List ℕ = λ o. put o 34 (to_le 4 size) in
    ap (λ o. w6 (w5 (w4 (w3 (w2 o))))) (put_next [] output magic 0 (omega arith))
    ∙ ap (λ o. w6 (w5 (w4 (w3 o))))
        (put_next (a1 []) output (to_le 16 contract.event) 4 (omega arith))
    ∙ ap (λ o. w6 (w5 (w4 o))) (put_next (a2 []) output (to_le 2 contract.major) 20 (omega arith))
    ∙ ap (λ o. w6 (w5 o)) (put_next (a3 []) output (to_le 4 contract.revision) 22 (omega arith))
    ∙ ap w6 (put_next (a4 []) output (to_le 8 sequence) 26 (omega arith))
    ∙ put_next (a5 []) output (to_le 4 size) 34 (omega arith)

length-overwrite : (output value : List ℕ) → length (overwrite output value) ≡ length output
length-overwrite [] [] = refl
length-overwrite [] (v ∷ vs) = refl
length-overwrite (o ∷ os) [] = refl
length-overwrite (o ∷ os) (v ∷ vs) = ap suc (length-overwrite os vs)

length-put :
    (output : List ℕ) (cursor : ℕ) (value : List ℕ)
    → length (put output cursor value) ≡ length output
length-put output zero value = length-overwrite output value
length-put [] (suc cursor) value = refl
length-put (o ∷ os) (suc cursor) value = ap suc (length-put os cursor value)

equal_bytes_refl : (xs : List ℕ) → equal_bytes xs xs ≡ true
equal_bytes_refl [] = refl
equal_bytes_refl (x ∷ xs) = ap₂ ◌&&◌ ((==_iff x x).1 refl) (equal_bytes_refl xs)

-- What the protocol reads from the header of a frame.
abbrev pub Announces : Contract → ℕ → ℕ → List ℕ → Type 0
Announces contract sequence total bytes =
    (is_addressed contract (header_of bytes) ≡ true)
    × (number_at 22 4 (header_of bytes) ≡ contract.revision)
    × (number_at 26 8 (header_of bytes) ≡ sequence)
    × (header_bytes + number_at 34 4 (header_of bytes) ≡ total)

frame_layout-Announces :
    (contract : Contract) (sequence size : ℕ) (rest : List ℕ)
    → contract.revision < 2 ^ 32
    → sequence < 2 ^ 64
    → size < 2 ^ 32
    → Announces contract sequence (header_bytes + size) (frame_layout contract sequence size rest)
unfolding is_addressed number_at header_of
frame_layout-Announces contract sequence size rest r q l = (
  ap₂ ◌&&◌ (equal_bytes_refl (to_le 16 contract.event)) (equal_bytes_refl (to_le 2 contract.major)),
  from_le-to_le 4 contract.revision r,
  from_le-to_le 8 sequence q,
  ap (λ n. header_bytes + n) (from_le-to_le 4 size l),
)

-- What an outcome of `encode_frame` shows.
abbrev AnnouncesOk : Contract → ℕ → Result ℕ Error × List ℕ → Type 0
AnnouncesOk contract sequence (ok total, bytes) = Announces contract sequence total bytes
AnnouncesOk contract sequence (err e, bytes) = Unit
AnnouncesOk contract sequence (panic, bytes) = Unit

write_frame_header-Announces :
    (contract : Contract) (sequence size : ℕ) (output : List ℕ)
    → contract.revision < 2 ^ 32
    → sequence < 2 ^ 64
    → size < 2 ^ 32
    → header_bytes ≤ length output
    → Announces contract sequence
        (header_bytes + size)
        (write_frame_header contract sequence size output)
write_frame_header-Announces contract sequence size output r q l long =
    subst (Announces contract sequence (header_bytes + size))
      (sym (write_frame_header-layout contract sequence size output long))
      (frame_layout-Announces contract sequence size (drop header_bytes output) r q l)

is_too_large-false :
    (size room : ℕ)
    → is_too_large size room ≡ false
    → (header_bytes + size ≤ room) × (size < 2 ^ 32)
is_too_large-false size room e = grind arith

finish_frame-AnnouncesOk :
    (contract : Contract) (sequence size : ℕ) (written : Result ℕ WireError) (output : List ℕ)
    → contract.revision < 2 ^ 32
    → sequence < 2 ^ 64
    → size < 2 ^ 32
    → header_bytes ≤ length output
    → AnnouncesOk contract sequence (finish_frame contract sequence size written output)
unfolding finish_frame
finish_frame-AnnouncesOk contract sequence size (err e) output r q l long = tt
finish_frame-AnnouncesOk contract sequence size panic output r q l long = tt
finish_frame-AnnouncesOk contract sequence size (ok written) output r q l long =
    elim (written == size)
      as (λ b. AnnouncesOk contract sequence (
        if not b
        then (err (Error.wire WireError.invalid_payload), output)
        else (ok (header_bytes + size), write_frame_header contract sequence size output))) [
          | true ↦ write_frame_header-Announces contract sequence size output r q l long
          | false ↦ tt
        ]

module _ {Payload : Type 0} (encoded_len : Payload → ℕ)
    (encode : Payload → List ℕ → Result ℕ WireError × List ℕ) where
  encode_frame-AnnouncesOk :
      (contract : Contract) (sequence : ℕ) (payload : Payload) (output : List ℕ)
      → contract.revision < 2 ^ 32
      → sequence < 2 ^ 64
      → AnnouncesOk contract sequence
          (encode_frame encoded_len encode contract sequence payload output)
  unfolding encode_frame
  encode_frame-AnnouncesOk contract sequence payload output r q =
      let size = encoded_len payload in
      let out = encode payload (chunk header_bytes size output) in
      elim (is_too_large size (length output))
          as (λ b.
            (b ≡ is_too_large size (length output))
            → AnnouncesOk contract sequence (
                if b
                then (err Error.capacity, output)
                else finish_frame contract sequence size out.0 (put output header_bytes out.1))) [
                  | true ↦ λ e. tt
                  | false ↦ λ e.
                      let (fits, small) = is_too_large-false size (length output) (sym e) in
                      finish_frame-AnnouncesOk contract sequence size out.0
                        (put output header_bytes out.1) r q small
                        (omega (arith, length-put output header_bytes out.1, fits))
                ]
        refl

  -- For any codec, a frame that is encoded for a contract and a sequence in range has a header that
  -- the protocol of that contract accepts as its own, with the contract's revision, the sequence and
  -- the length of the frame.
  pub encode_frame-Announces :
      (contract : Contract) (sequence total : ℕ) (payload : Payload) (output bytes : List ℕ)
      → contract.revision < 2 ^ 32
      → sequence < 2 ^ 64
      → encode_frame encoded_len encode contract sequence payload output ≡ (ok total, bytes)
      → Announces contract sequence total bytes
  encode_frame-Announces contract sequence total payload output bytes r q e =
      subst (AnnouncesOk contract sequence) e
        (encode_frame-AnnouncesOk contract sequence payload output r q)
