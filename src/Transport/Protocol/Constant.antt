-- ===== src/Transport/Protocol/Constant.antt =====
-- What the inputs of a protocol never change: its contract, direction and capacity, and, but for an
-- admission, the last admitted sequence.
use hiway.Prelude.{
  ℕ, ◌≡◌, refl, Bool, true, false, Option, none, some, List, Result, ok, err, panic, arith, length,
  checked_add,
}
use hiway.Transport.Contract.{Error, header_bytes}
use hiway.Transport.Operation.{OpId}
use hiway.Transport.Protocol.Parts.{Lane, Effect, IoResult, Input, Stage, at, set_at, requested}
use hiway.Transport.Protocol.{Protocol, observe_sequence}
use hiway.Transport.Protocol.Progress.{
  progress, data_progress, credit_send_progress, credit_receive_progress, take_credit, parse_header,
  number_at, tested_header, sized_header, parse_fields, enter_payload, is_addressed,
}
use hiway.Transport.Protocol.Cases.{parse_header_cases}
use hiway.Transport.Protocol.Transition.{
  accept, complete, complete_on, conclude, transferred, provide, admit_frame, admitting, transition,
  settle, close, answer, input, position,
}

-- The same constants and the same last admitted sequence.
abbrev pub Keeps : Protocol → Protocol × Result (Unit {0}) Error → Type 0
Keeps s out =
    (out.0.contract ≡ s.contract)
    × (out.0.direction ≡ s.direction)
    × (out.0.capacity ≡ s.capacity)
    × (out.0.previous ≡ s.previous)

-- The same outstanding operations too.
abbrev pub KeepsActive : Protocol → Protocol × Result (Unit {0}) Error → Type 0
KeepsActive s out =
    (out.0.contract ≡ s.contract)
    × (out.0.direction ≡ s.direction)
    × (out.0.capacity ≡ s.capacity)
    × (out.0.previous ≡ s.previous)
    × (out.0.active ≡ s.active)

enter_payload-KeepsActive : (s : Protocol) (offset : ℕ) → KeepsActive s (enter_payload s offset)
unfolding enter_payload
enter_payload-KeepsActive s offset = grind arith

sized_header-KeepsActive :
    (s : Protocol) (offset : ℕ) (header : List ℕ) (total : Option ℕ)
    → KeepsActive s (sized_header s offset header total)
unfolding sized_header parse_fields
sized_header-KeepsActive s offset header none = (refl, refl, refl, refl, refl)
sized_header-KeepsActive s offset header (some total) =
    enter_payload-KeepsActive (parse_fields s header total) offset

tested_header-KeepsActive :
    (s : Protocol) (offset : ℕ) (header : List ℕ) (addressed : Bool)
    → KeepsActive s (tested_header s offset header addressed)
unfolding tested_header
tested_header-KeepsActive s offset header false = (refl, refl, refl, refl, refl)
tested_header-KeepsActive s offset header true =
    sized_header-KeepsActive s offset header (checked_add header_bytes (number_at 34 4 header))

parse_header-KeepsActive :
    (s : Protocol) (offset : ℕ) (buffer : List ℕ) → KeepsActive s (parse_header s offset buffer)
unfolding observe_sequence
parse_header-KeepsActive s offset buffer =
    parse_header_cases (KeepsActive s) s offset buffer (refl, refl, refl, refl, refl)
      (λ sequence header.
        tested_header-KeepsActive (observe_sequence s sequence) offset header
          (is_addressed s.contract header))

data_progress-KeepsActive :
    (s : Protocol) (buffer : List ℕ) → KeepsActive s (data_progress s buffer)
unfolding data_progress
data_progress-KeepsActive s buffer =
    grind (arith, parse_header-KeepsActive s s.offsets.on_data buffer)

credit_send_progress-KeepsActive : (s : Protocol) → KeepsActive s (credit_send_progress s)
unfolding credit_send_progress
credit_send_progress-KeepsActive s = grind arith

credit_receive_progress-KeepsActive :
    (s : Protocol) (buffer : List ℕ) → KeepsActive s (credit_receive_progress s buffer)
unfolding credit_receive_progress take_credit
credit_receive_progress-KeepsActive s buffer = grind arith

progress-KeepsActive :
    (s : Protocol) (lane : Lane) (buffer : List ℕ) → KeepsActive s (progress s lane buffer)
unfolding progress
progress-KeepsActive s Lane.data_lane buffer = data_progress-KeepsActive s buffer
progress-KeepsActive s Lane.credit_send buffer = credit_send_progress-KeepsActive s
progress-KeepsActive s Lane.credit_receive buffer = credit_receive_progress-KeepsActive s buffer

transferred-KeepsActive :
    (s : Protocol) (lane : Lane) (asked : Option ℕ) (count : ℕ) (buffer : List ℕ)
    → KeepsActive s (transferred s lane asked count buffer)
unfolding transferred
transferred-KeepsActive s lane none count buffer = (refl, refl, refl, refl, refl)
transferred-KeepsActive s lane (some asked) count buffer = grind (
  arith,
  λ (offset : ℕ).
      progress-KeepsActive (record s { offsets = set_at s.offsets lane offset }) lane buffer,
)

pub conclude-KeepsActive :
    (s : Protocol) (lane : Lane) (e : Effect) (result : IoResult) (buffer : List ℕ)
    → KeepsActive s (conclude s lane e result buffer)
unfolding conclude
conclude-KeepsActive s lane e result buffer =
    grind (arith, λ (count : ℕ). transferred-KeepsActive s lane (requested e) count buffer)

complete_on-Keeps :
    (s : Protocol) (lane : Lane) (active : Option (OpId × Effect)) (result : IoResult)
    (buffer : List ℕ)
    → Keeps s (complete_on s lane active result buffer)
unfolding complete_on
complete_on-Keeps s lane none result buffer = (refl, refl, refl, refl)
complete_on-Keeps s lane (some (id, e)) result buffer =
    let k =
      conclude-KeepsActive (record s { active = set_at s.active lane none }) lane e result buffer in
    (k.0, k.1, k.2, k.3)

complete-Keeps :
    (s : Protocol) (op : OpId) (result : IoResult) (buffer : List ℕ)
    → Keeps s (complete s op result buffer)
unfolding complete
complete-Keeps s op result buffer =
    elim (position s.active op)
      as (λ place. Keeps s (elim place [
        | none ↦ (s, ok tt)
        | some lane ↦ complete_on s lane (at s.active lane) result buffer
      ])) [
        | none ↦ (refl, refl, refl, refl)
        | some lane ↦ complete_on-Keeps s lane (at s.active lane) result buffer
      ]

accept-Keeps : (s : Protocol) (lane : Lane) (op : OpId) → Keeps s (accept s lane op)
unfolding accept
accept-Keeps s lane op = grind arith

provide-Keeps : (s : Protocol) (sequence length : ℕ) → Keeps s (provide s sequence length)
unfolding provide observe_sequence
provide-Keeps s sequence length = grind arith

-- Whether an input is a call of `Admitted`.
abbrev pub is_admitted : Input → Bool
is_admitted Input.admitted = true
is_admitted _ = false

transition-Keeps : (s : Protocol) (i : Input) → is_admitted i ≡ false → Keeps s (transition s i)
unfolding transition close
transition-Keeps s Input.revoked h = (refl, refl, refl, refl)
transition-Keeps s (Input.closes error) h = (refl, refl, refl, refl)
transition-Keeps s (Input.accepted lane op) h = accept-Keeps s lane op
transition-Keeps s (Input.completed op result buffer) h = complete-Keeps s op result buffer
transition-Keeps s (Input.provided sequence length) h = provide-Keeps s sequence length
transition-Keeps s Input.admitted h = absurd (ground arith)

answer-Keeps :
    (s : Protocol) (out : Protocol × Result (Unit {0}) Error) (i : Input)
    → Keeps s out
    → Keeps s (answer out i)
unfolding answer settle close
answer-Keeps s (s', ok done) i h = h
answer-Keeps s (s', err error) i h = h
answer-Keeps s (s', panic) i h = h

pub input-Keeps : (s : Protocol) (i : Input) → is_admitted i ≡ false → Keeps s (input s i)
unfolding input
input-Keeps s i h = answer-Keeps s (transition s i) i (transition-Keeps s i h)

-- What a call of `Admitted` does: a refusal keeps all, and a success needs an open protocol at the
-- end of a frame and makes the frame's sequence the last admitted one.
pub input_admitted_cases :
    (P : Protocol × Result (Unit {0}) Error → Type 0) (s : Protocol)
    → ((s' : Protocol) (error : Error) → Keeps s (s', ok tt) → P (s', err error))
    → ((s' : Protocol)
        → s.closed ≡ none
        → s.stage ≡ Stage.admission
        → s'.contract ≡ s.contract
        → s'.direction ≡ s.direction
        → s'.capacity ≡ s.capacity
        → s'.previous ≡ some s.sequence
        → P (s', ok tt))
    → P (input s Input.admitted)
unfolding input answer transition admit_frame admitting close settle
input_admitted_cases P s refuses admits = grind arith
