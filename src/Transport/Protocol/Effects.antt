-- ===== src/Transport/Protocol/Effects.antt =====
-- The effects that a protocol asks of its backend, whatever its inputs were.
use mathlib.Core.Path.{subst, ◌∙◌}
use hiway.Prelude.{
  ℕ, ◌+◌, ◌≤◌, ◌<◌, ◌≡◌, ◌≢◌, refl, ◌⊎◌, inl, inr, Option, none, some, List, [], ◌∷◌, ok, panic,
  arith,
}
use hiway.Transport.Operation.{OpId}
use hiway.Transport.Contract.{Error, Contract, Direction, header_bytes}
use hiway.Transport.Accountability.{Connection}
use hiway.Transport.Protocol.Parts.{Lane, Effect, Input, at}
use hiway.Transport.Protocol.{
  Protocol, new, with_connection, effect, lane_effect, idle_effect, data_effect,
}
use hiway.Transport.Protocol.Transition.{input, run}
use hiway.Transport.Protocol.Constant.{input-Keeps, input_admitted_cases}
use hiway.Transport.Protocol.Invariant.{IsBounded, IsOpen, IsSound, size}
use hiway.Transport.Protocol.Runs.{
  input-IsSound, run-IsSound, new-IsSound, with_connection-IsSound, new_fields,
}

-- What a backend may rely on: a transfer is on the lane it is asked for, of at least one byte, and
-- ends within the lane's buffer; an admission is of the payload of a frame in the buffer; a
-- cancellation is for the operation on the lane.
abbrev pub IsServable : ℕ → Lane → Option (OpId × Effect) → Effect → Type 0
IsServable capacity lane active (Effect.receive own offset length) =
    (own ≡ lane) × (0 < length) × (offset + length ≤ size capacity lane)
IsServable capacity lane active (Effect.transmit own offset length) =
    (own ≡ lane) × (0 < length) × (offset + length ≤ size capacity lane)
IsServable capacity lane active Effect.provide = lane ≡ Lane.data_lane
IsServable capacity lane active (Effect.admit length revision) =
    (lane ≡ Lane.data_lane) × (header_bytes + length ≤ capacity)
IsServable capacity lane active (Effect.cancel own target) =
    (own ≡ lane) × (e : Effect) × (active ≡ some (target, e))

abbrev AreServable : ℕ → Lane → Option (OpId × Effect) → Option Effect → Type 0
AreServable capacity lane active none = Unit
AreServable capacity lane active (some e) = IsServable capacity lane active e

idle-AreServable :
    (s : Protocol) (lane : Lane)
    → IsBounded s
    → IsOpen s
    → AreServable s.capacity lane (at s.active lane) (idle_effect s lane)
unfolding idle_effect data_effect
idle-AreServable s lane b o = grind arith

lane_effect-AreServable :
    (capacity : ℕ) (s : Protocol) (lane : Lane) (active : Option (OpId × Effect))
    (closed : Option Error)
    → (closed ≡ none → AreServable capacity lane active (idle_effect s lane))
    → AreServable capacity lane active (lane_effect s lane active closed)
unfolding lane_effect
lane_effect-AreServable capacity s lane (some (target, own)) (some error) h = (refl, own, refl)
lane_effect-AreServable capacity s lane (some (target, own)) none h = tt
lane_effect-AreServable capacity s lane none (some error) h = tt
lane_effect-AreServable capacity s lane none none h = h refl

effect-IsServable :
    (s : Protocol) (lane : Lane) (e : Effect)
    → IsSound s
    → effect s lane ≡ some e
    → IsServable s.capacity lane (at s.active lane) e
unfolding effect
effect-IsServable s lane e h f = subst (AreServable s.capacity lane (at s.active lane)) f (
    lane_effect-AreServable s.capacity s lane (at s.active lane) s.closed
      (λ c. idle-AreServable s lane h.0 (h.1 c)))

input-capacity : (s : Protocol) (i : Input) → (input s i).0.capacity ≡ s.capacity
input-capacity s Input.admitted =
    input_admitted_cases (λ out. out.0.capacity ≡ s.capacity) s (λ s' error k. k.2)
      (λ s' c stage contract direction capacity previous. capacity)
input-capacity s Input.revoked = (input-Keeps s Input.revoked refl).2
input-capacity s (Input.closes error) = (input-Keeps s (Input.closes error) refl).2
input-capacity s (Input.accepted lane op) = (input-Keeps s (Input.accepted lane op) refl).2
input-capacity s (Input.completed op result buffer) =
    (input-Keeps s (Input.completed op result buffer) refl).2
input-capacity s (Input.provided sequence length) =
    (input-Keeps s (Input.provided sequence length) refl).2

run-capacity : (s : Protocol) (is : List Input) → (run s is).capacity ≡ s.capacity
unfolding run
run-capacity s [] = refl
run-capacity s (i ∷ is) = run-capacity (input s i).0 is ∙ input-capacity s i

-- After any inputs of a new protocol, every effect that a lane offers is servable within the capacity
-- given: transfers end within the buffer of their lane and are not empty, an admission is of a
-- payload in the buffer, and a cancellation names the operation that is on the lane.
pub run-effect-IsServable :
    (contract : Contract) (direction : Direction) (capacity : ℕ) (s : Protocol) (is : List Input)
    (lane : Lane) (e : Effect)
    → new contract direction capacity ≡ ok s
    → effect (run s is) lane ≡ some e
    → IsServable capacity lane (at (run s is).active lane) e
run-effect-IsServable contract direction capacity s is lane e h f =
    subst (λ c. IsServable c lane (at (run s is).active lane) e)
      (run-capacity s is ∙ (new_fields contract direction capacity s h).1)
      (effect-IsServable (run s is) lane e
        (run-IsSound s is (new-IsSound contract direction capacity s h)) f)

-- After any inputs of a new protocol, with a history of its connection or without, the next input does
-- not panic: no offset overflows, no completion is for an effect that is no transfer, and no credit
-- that is to be recorded is sent before an admission.
pub run-input-ne-panic :
    (contract : Contract) (direction : Direction) (capacity : ℕ) (s : Protocol) (is : List Input)
    (i : Input)
    → (new contract direction capacity ≡ ok s)
      ⊎ ((connection : Connection) × (with_connection contract direction capacity connection
            ≡ ok s))
    → (input (run s is) i).1 ≢ panic
run-input-ne-panic contract direction capacity s is i h =
    let sound : IsSound s = elim h [
      | inl e ↦ new-IsSound contract direction capacity s e
      | inr (connection, e) ↦ with_connection-IsSound contract direction capacity connection s e
    ] in
    (input-IsSound (run s is) i (run-IsSound s is sound)).1
