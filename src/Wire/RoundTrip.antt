-- ===== src/Wire/RoundTrip.antt =====
-- The header's bytes, and the round trips of `encode` and `decode`.
use hiway.Prelude.{
  ℕ, ◌^◌, ◌≤◌, ◌<◌, ◌≡◌, refl, sym, ap, ◌∙◌, false, Option, none, some, List, [], ◌++◌, arith,
  length, drop, All, ok, u32_max, u64_max,
}
use hiway.Prelude.Bytes.{
  IsByte, to_le, from_le, put, from_le-to_le, to_le-from_le, overwrite-append, put_next,
}
use hiway.Wire.{
  EnvelopeHeader, write_header, read_header, encode, decode, unwrap_or, is_max, present,
}

-- Every field fits its width, and the origin has sixteen bytes.
pub record IsHeader (h : EnvelopeHeader) : Type 0 where
  pub event : h.event < 2 ^ 128
  pub wire_major : h.wire_major < 2 ^ 16
  pub schema_revision : h.schema_revision < 2 ^ 32
  pub origin : length h.metadata.origin ≡ 16
  pub origin_bytes : All IsByte h.metadata.origin
  pub sequence : h.metadata.sequence < 2 ^ 64
  pub origin_time : h.metadata.origin_time < 2 ^ 64
  pub ttl : unwrap_or h.metadata.ttl 0 < 2 ^ 32
  pub fabric_sequence : unwrap_or h.metadata.fabric_sequence 0 < 2 ^ 64
  pub payload_len : h.payload_len < 2 ^ 32

-- The bytes of a header whose origin is the number `origin`, in front of others.
abbrev pub layout : EnvelopeHeader → ℕ → List ℕ → List ℕ
layout h origin rest =
    to_le 16 h.event
    ++ (to_le 2 h.wire_major
        ++ (to_le 4 h.schema_revision
            ++ (to_le 16 origin
                ++ (to_le 8 h.metadata.sequence
                    ++ (to_le 8 h.metadata.origin_time
                        ++ (to_le 4 (unwrap_or h.metadata.ttl u32_max)
                            ++ (to_le 8 (unwrap_or h.metadata.fabric_sequence u64_max)
                                ++ (to_le 4 h.payload_len ++ rest))))))))

origin-to_le :
    (h : EnvelopeHeader) → IsHeader h → h.metadata.origin ≡ to_le 16 (from_le h.metadata.origin)
origin-to_le h v =
    sym (to_le-from_le h.metadata.origin v.origin_bytes)
    ∙ ap (λ n. to_le n (from_le h.metadata.origin)) v.origin

module _ (h : EnvelopeHeader) (x : ℕ) (output : List ℕ) (e : h.metadata.origin ≡ to_le 16 x)
    (long : 70 ≤ length output) where
  abbrev a1 : List ℕ → List ℕ
  a1 r = to_le 16 h.event ++ r

  abbrev a2 : List ℕ → List ℕ
  a2 r = a1 (to_le 2 h.wire_major ++ r)

  abbrev a3 : List ℕ → List ℕ
  a3 r = a2 (to_le 4 h.schema_revision ++ r)

  abbrev a4 : List ℕ → List ℕ
  a4 r = a3 (to_le 16 x ++ r)

  write_four :
      put
        (put
          (put (put output 0 (to_le 16 h.event)) 16 (to_le 2 h.wire_major))
          18
          (to_le 4 h.schema_revision))
        22
        h.metadata.origin
      ≡ a4 (drop 38 output)
  write_four = rw e (
      ap
        (λ o.
          put (put (put o 16 (to_le 2 h.wire_major)) 18 (to_le 4 h.schema_revision)) 22
            (to_le 16 x))
        (overwrite-append output (to_le 16 h.event) (omega arith))
      ∙ ap (λ o. put (put o 18 (to_le 4 h.schema_revision)) 22 (to_le 16 x))
          (put_next (a1 []) output (to_le 2 h.wire_major) 16 (omega arith))
      ∙ ap (λ o. put o 22 (to_le 16 x))
          (put_next (a2 []) output (to_le 4 h.schema_revision) 18 (omega arith))
      ∙ put_next (a3 []) output (to_le 16 x) 22 (omega arith))

  abbrev a5 : List ℕ → List ℕ
  a5 r = a4 (to_le 8 h.metadata.sequence ++ r)

  abbrev a6 : List ℕ → List ℕ
  a6 r = a5 (to_le 8 h.metadata.origin_time ++ r)

  abbrev a7 : List ℕ → List ℕ
  a7 r = a6 (to_le 4 (unwrap_or h.metadata.ttl u32_max) ++ r)

  abbrev a8 : List ℕ → List ℕ
  a8 r = a7 (to_le 8 (unwrap_or h.metadata.fabric_sequence u64_max) ++ r)

  abbrev w5 : List ℕ → List ℕ
  w5 o = put o 38 (to_le 8 h.metadata.sequence)

  abbrev w6 : List ℕ → List ℕ
  w6 o = put o 46 (to_le 8 h.metadata.origin_time)

  abbrev w7 : List ℕ → List ℕ
  w7 o = put o 54 (to_le 4 (unwrap_or h.metadata.ttl u32_max))

  abbrev w8 : List ℕ → List ℕ
  w8 o = put o 58 (to_le 8 (unwrap_or h.metadata.fabric_sequence u64_max))

  abbrev w9 : List ℕ → List ℕ
  w9 o = put o 66 (to_le 4 h.payload_len)

  -- The writes fill the first seventy bytes with the fields in order, and leave the rest.
  write_header-layout : write_header h output ≡ layout h x (drop 70 output)
  unfolding write_header
  write_header-layout =
      ap (λ o. w9 (w8 (w7 (w6 (w5 o))))) write_four
      ∙ ap (λ o. w9 (w8 (w7 (w6 o))))
          (put_next (a4 []) output (to_le 8 h.metadata.sequence) 38 (omega arith))
      ∙ ap (λ o. w9 (w8 (w7 o)))
          (put_next (a5 []) output (to_le 8 h.metadata.origin_time) 46 (omega arith))
      ∙ ap (λ o. w9 (w8 o))
          (put_next (a6 []) output (to_le 4 (unwrap_or h.metadata.ttl u32_max)) 54 (omega arith))
      ∙ ap w9 (
          put_next (a7 []) output (to_le 8 (unwrap_or h.metadata.fabric_sequence u64_max)) 58
            (omega arith))
      ∙ put_next (a8 []) output (to_le 4 h.payload_len) 66 (omega arith)

present-unwrap_or :
    (max : ℕ) (o : Option ℕ) → is_max o max ≡ false → present max (unwrap_or o max) ≡ o
present-unwrap_or max none e = ground arith
present-unwrap_or max (some v) e = ground arith

unwrap_or-lt :
    (max bound : ℕ) (o : Option ℕ) → max < bound → unwrap_or o 0 < bound → unwrap_or o max < bound
unwrap_or-lt max bound none h k = h
unwrap_or-lt max bound (some v) h k = k

read_header-layout :
    (h : EnvelopeHeader) (x : ℕ) (rest : List ℕ)
    → IsHeader h
    → h.metadata.origin ≡ to_le 16 x
    → is_max h.metadata.ttl u32_max ≡ false
    → is_max h.metadata.fabric_sequence u64_max ≡ false
    → read_header (layout h x rest) ≡ h
unfolding read_header
read_header-layout h x rest v e no_ttl no_fabric = rw (
  from_le-to_le 16 h.event v.event,
  from_le-to_le 2 h.wire_major v.wire_major,
  from_le-to_le 4 h.schema_revision v.schema_revision,
  ← e,
  from_le-to_le 8 h.metadata.sequence v.sequence,
  from_le-to_le 8 h.metadata.origin_time v.origin_time,
  from_le-to_le 4 (unwrap_or h.metadata.ttl u32_max)
      (unwrap_or-lt u32_max (2 ^ 32) h.metadata.ttl (omega arith) v.ttl),
  from_le-to_le 8 (unwrap_or h.metadata.fabric_sequence u64_max)
      (unwrap_or-lt u64_max (2 ^ 64) h.metadata.fabric_sequence (omega arith) v.fabric_sequence),
  from_le-to_le 4 h.payload_len v.payload_len,
  present-unwrap_or u32_max h.metadata.ttl no_ttl,
  present-unwrap_or u64_max h.metadata.fabric_sequence no_fabric,
)

encode-eq_ok :
    (h : EnvelopeHeader) (output bytes : List ℕ)
    → encode h output ≡ (ok tt, bytes)
    → (70 ≤ length output)
      × (is_max h.metadata.ttl u32_max ≡ false)
      × (is_max h.metadata.fabric_sequence u64_max ≡ false)
      × (bytes ≡ write_header h output)
unfolding encode
encode-eq_ok h output bytes e = ground arith

decode-layout :
    (h : EnvelopeHeader) (x : ℕ) (rest : List ℕ)
    → read_header (layout h x rest) ≡ h
    → decode (layout h x rest) ≡ ok h
unfolding decode
decode-layout h x rest e = ground arith

-- A header that is written into a buffer is read back from it, and the bytes behind it stay.
pub decode-encode :
    (h : EnvelopeHeader) (output bytes : List ℕ)
    → IsHeader h
    → encode h output ≡ (ok tt, bytes)
    → (decode bytes ≡ ok h) × (drop 70 bytes ≡ drop 70 output)
decode-encode h output bytes v e =
    let (long, no_ttl, no_fabric, written) = encode-eq_ok h output bytes e in
    let x = from_le h.metadata.origin in
    let origin = origin-to_le h v in
    rw (written, write_header-layout h x output origin long)
      (
        decode-layout h x (drop 70 output)
            (read_header-layout h x (drop 70 output) v origin no_ttl no_fabric),
        refl,
      )
