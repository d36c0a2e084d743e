-- ===== src/Transport/Protocol/Cases.antt =====
-- The branches of the protocol's progress on the data lane.
use hiway.Prelude.{
  ℕ, ◌<◌, ◌≡◌, ◌≢◌, true, false, Option, List, Result, ok, err, arith, ltb, length, if◌then◌else◌,
}
use hiway.Transport.Accountability.{Accountability}
use hiway.Transport.Contract.{Error, header_bytes}
use hiway.Transport.Protocol.Parts.{Stage}
use hiway.Transport.Protocol.{Protocol, observe_sequence}
use hiway.Transport.Protocol.Progress.{
  data_progress, parse_header, header_of, number_at, tested_header, is_addressed,
}

pub parse_header_cases :
    (P : Protocol × Result (Unit {0}) Error → Type 0) (s : Protocol) (offset : ℕ) (buffer : List ℕ)
    → P (s, err Error.protocol)
    → ((sequence : ℕ) (header : List ℕ)
        → P (
            tested_header
              (observe_sequence s sequence)
              offset
              header
              (is_addressed s.contract header)))
    → P (parse_header s offset buffer)
unfolding parse_header
parse_header_cases P s offset buffer short long =
    let header = header_of buffer in
    let sequence = number_at 26 8 header in
    elim (ltb (length buffer) header_bytes)
      as (λ is_short. P (
        if is_short
        then (s, err Error.protocol)
        else tested_header (observe_sequence s sequence) offset header
            (is_addressed s.contract header))) [ true ↦ short | false ↦ long sequence header ]

pub data_progress_cases :
    (P : Protocol × Result (Unit {0}) Error → Type 0) (s : Protocol) (buffer : List ℕ)
    → ((a : Option Accountability)
        → s.stage ≡ Stage.sending
        → P (record s { stage = Stage.source; accountability = a }, ok tt))
    → (s.stage ≡ Stage.sending → P (record s { stage = Stage.credit }, ok tt))
    → (s.stage ≡ Stage.sending → s.offsets.on_data ≢ s.length → P (s, ok tt))
    → (s.stage ≡ Stage.header → s.offsets.on_data < header_bytes → P (s, ok tt))
    → (s.stage ≡ Stage.header → P (parse_header s s.offsets.on_data buffer))
    → (s.stage ≡ Stage.payload
        → s.offsets.on_data ≡ s.length
        → P (record s { stage = Stage.admission }, ok tt))
    → (s.stage ≡ Stage.payload → s.offsets.on_data ≢ s.length → P (s, ok tt))
    → P (s, err Error.protocol)
    → P (data_progress s buffer)
unfolding data_progress
data_progress_cases P s buffer sent sent_first sends reads parses ends fills refuses = grind arith
