-- ===== src/Unix/Header.antt =====
-- What `encode_header` writes is what `decode_header` reads, whatever the importing side's revision.
use mathlib.Core.Path.{subst, sym}
use hiway.Prelude.{
  ==_iff, ℕ, ◌^◌, ◌≤◌, ◌<◌, ◌≡◌, refl, ◌∙◌, true, false, List, ltb, replicate, drop, ok, arith,
}
use hiway.Prelude.Bytes.{from_le-to_le}
use hiway.Transport.Contract.{Contract, header_bytes}
use hiway.Transport.Frame.Header.{frame_layout, write_frame_header-layout}
use hiway.Transport.Frame.{write_frame_header}
use hiway.Unix.{encode_header, field, is_for, has_magic, decode_header}

-- The fields of a contract fit their bytes.
abbrev pub InRange : Contract → Type 0
InRange c = (c.event < 2 ^ 128) × (c.major < 2 ^ 16) × (c.revision < 2 ^ 32)

-- The fields of a header that is laid out.
abbrev Fields : Contract → ℕ → ℕ → List ℕ → Type 0
Fields c sequence size header =
    (field header 4 16 ≡ c.event)
    × (field header 20 2 ≡ c.major)
    × (field header 22 4 ≡ c.revision)
    × (field header 26 8 ≡ sequence)
    × (field header 34 4 ≡ size)

layout-Fields :
    (c : Contract) (sequence size : ℕ) (rest : List ℕ)
    → InRange c
    → sequence < 2 ^ 64
    → size < 2 ^ 32
    → Fields c sequence size (frame_layout c sequence size rest)
unfolding field
layout-Fields c sequence size rest h q l = (
  from_le-to_le 16 c.event h.0,
  from_le-to_le 2 c.major h.1,
  from_le-to_le 4 c.revision h.2,
  from_le-to_le 8 sequence q,
  from_le-to_le 4 size l,
)

ltb-false : (a b : ℕ) → b ≤ a → ltb a b ≡ false
ltb-false a b h = ground arith

Fields-is_for :
    (c : Contract) (sequence size : ℕ) (header : List ℕ)
    → has_magic header ≡ true
    → Fields c sequence size header
    → is_for c header ≡ true
unfolding is_for
Fields-is_for c sequence size header start h =
    rw
      (
        start,
        (==_iff (field header 4 16) c.event).1 h.0,
        (==_iff (field header 20 2) c.major).1 h.1,
      )
      refl

-- A header with the magic and the fields of a contract is read as its announcement.
decode_header-Fields :
    (c : Contract) (sequence size max_payload : ℕ) (header : List ℕ)
    → has_magic header ≡ true
    → Fields c sequence size header
    → size ≤ max_payload
    → decode_header c header max_payload
      ≡ ok (record { sequence = sequence; revision = c.revision; length = size })
unfolding decode_header
decode_header-Fields c sequence size max_payload header start h small =
    rw
      (
        Fields-is_for c sequence size header start h,
        h.2,
        h.3,
        h.4,
        ltb-false max_payload size small,
      )
      refl

layout-decode_header :
    (c : Contract) (sequence size max_payload : ℕ) (rest : List ℕ)
    → InRange c
    → sequence < 2 ^ 64
    → size ≤ max_payload
    → size < 2 ^ 32
    → decode_header c (frame_layout c sequence size rest) max_payload
      ≡ ok (record { sequence = sequence; revision = c.revision; length = size })
unfolding has_magic
layout-decode_header c sequence size max_payload rest h q small l =
    decode_header-Fields c sequence size max_payload (frame_layout c sequence size rest) refl
      (layout-Fields c sequence size rest h q l) small

encoded :
    (c : Contract) (sequence size : ℕ) (header : List ℕ)
    → encode_header c sequence size ≡ ok header
    → (size < 2 ^ 32) × (write_frame_header c sequence size (replicate header_bytes 0) ≡ header)
unfolding encode_header
encoded c sequence size header e = grind arith

-- For a contract in range, the header that an exporting link writes for a sequence and a payload within
-- the importing link's bound is read there as exactly this revision, sequence and length.
pub decode_header-encode_header :
    (c : Contract) (sequence size max_payload : ℕ) (header : List ℕ)
    → InRange c
    → sequence < 2 ^ 64
    → size ≤ max_payload
    → encode_header c sequence size ≡ ok header
    → decode_header c header max_payload
      ≡ ok (record { sequence = sequence; revision = c.revision; length = size })
decode_header-encode_header c sequence size max_payload header h q small e =
    let blank = replicate header_bytes 0 in
    let rest = drop header_bytes blank in
    let (l, written) = encoded c sequence size header e in
    subst
      (λ header.
        decode_header c header max_payload
        ≡ ok (record { sequence = sequence; revision = c.revision; length = size }))
      (sym (write_frame_header-layout c sequence size blank (omega arith)) ∙ written)
      (layout-decode_header c sequence size max_payload rest h q small l)
