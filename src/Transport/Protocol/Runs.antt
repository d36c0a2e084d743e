-- ===== src/Transport/Protocol/Runs.antt =====
-- Runs of a protocol over any inputs.
use mathlib.Core.Path.{subst}
use hiway.Prelude.{
  ℕ, ◌≡◌, ◌≢◌, true, false, none, some, List, [], ◌∷◌, Result, ok, err, panic, arith,
}
use hiway.Transport.Operation.{OpId}
use hiway.Transport.Contract.{Error, Contract, Direction}
use hiway.Transport.Accountability.{Connection}
use hiway.Transport.Protocol.Parts.{Lane, Effect, Input, is_transfer, at, set_at}
use hiway.Transport.Protocol.{
  Protocol, idle_effect, data_effect, lane_effect, effect, observe_sequence, new, with_connection,
}
use hiway.Transport.Protocol.Progress.{breaks_order}
use hiway.Transport.Protocol.Transition.{
  accept, provide, admit_frame, admitting, transition, settle, close, answer, input, run, in_use,
}
use hiway.Transport.Protocol.Invariant.{IsWithin, IsBounded, IsOpen, IsSound, Steps}
use hiway.Transport.Protocol.Sound.{idle_effect-IsWithin}
use hiway.Transport.Protocol.Transfers.{complete-Steps}

accept_cases :
    (P : Protocol × Result (Unit {0}) Error → Type 0) (s : Protocol) (lane : Lane) (op : OpId)
    → P (s, err Error.protocol)
    → ((e : Effect)
        → s.closed ≡ none
        → at s.active lane ≡ none
        → idle_effect s lane ≡ some e
        → is_transfer e ≡ true
        → in_use s.active op ≡ false
        → P (record s { active = set_at s.active lane (some (op, e)) }, ok tt))
    → P (accept s lane op)
unfolding accept effect lane_effect
accept_cases P s Lane.data_lane op refuses accepts = grind arith
accept_cases P s Lane.credit_send op refuses accepts = grind arith
accept_cases P s Lane.credit_receive op refuses accepts = grind arith

placed-IsBounded :
    (s : Protocol) (lane : Lane) (op : OpId) (e : Effect)
    → IsBounded s
    → IsWithin s.capacity lane e
    → IsBounded (record s { active = set_at s.active lane (some (op, e)) })
placed-IsBounded s Lane.data_lane op e b w = (b.0, b.1, w, b.3, b.4)
placed-IsBounded s Lane.credit_send op e b w = (b.0, b.1, b.2, w, b.4)
placed-IsBounded s Lane.credit_receive op e b w = (b.0, b.1, b.2, b.3, w)

placed-IsOpen :
    (s : Protocol) (lane : Lane) (op : OpId) (e : Effect)
    → IsOpen s
    → idle_effect s lane ≡ some e
    → IsOpen (record s { active = set_at s.active lane (some (op, e)) })
unfolding idle_effect data_effect breaks_order
placed-IsOpen s Lane.data_lane op e o i = (o.0, o.1, o.2, i, o.4, o.5)
placed-IsOpen s Lane.credit_send op e o i = (o.0, o.1, o.2, o.3, i, o.5)
placed-IsOpen s Lane.credit_receive op e o i = (o.0, o.1, o.2, o.3, o.4, i)

accept-Steps : (s : Protocol) (lane : Lane) (op : OpId) → IsSound s → Steps (accept s lane op)
accept-Steps s lane op h = accept_cases Steps s lane op h.0 (λ e c a i t u. (
  placed-IsBounded s lane op e h.0 (idle_effect-IsWithin s lane e h.0 (h.1 c) i t),
  λ c'. placed-IsOpen s lane op e (h.1 c) i,
))

provide-Steps : (s : Protocol) (sequence length : ℕ) → IsSound s → Steps (provide s sequence length)
unfolding provide observe_sequence idle_effect data_effect breaks_order
provide-Steps s sequence length h = grind arith

admit_frame-Steps : (s : Protocol) → IsSound s → Steps (admit_frame s)
unfolding admit_frame admitting idle_effect data_effect breaks_order
admit_frame-Steps s h = grind arith

close-IsSound : (s : Protocol) (error : Error) → IsBounded s → IsSound (close s error)
unfolding close idle_effect breaks_order
close-IsSound s error b = (b, λ c. absurd (ground arith))

pub transition-Steps : (s : Protocol) (i : Input) → IsSound s → Steps (transition s i)
unfolding transition idle_effect breaks_order
transition-Steps s Input.revoked h = close-IsSound s Error.revoked h.0
transition-Steps s (Input.closes error) h = close-IsSound s error h.0
transition-Steps s (Input.accepted lane op) h = accept-Steps s lane op h
transition-Steps s (Input.completed op result buffer) h = complete-Steps s op result buffer h
transition-Steps s (Input.provided sequence length) h = provide-Steps s sequence length h
transition-Steps s Input.admitted h = admit_frame-Steps s h

settle-IsSound : (s : Protocol) (i : Input) → IsSound s → IsSound (settle s i)
unfolding settle idle_effect data_effect breaks_order
settle-IsSound s i h = h

answer-IsSound :
    (out : Protocol × Result (Unit {0}) Error) (i : Input)
    → Steps out
    → IsSound (answer out i).0 × ((answer out i).1 ≢ panic)
unfolding answer
answer-IsSound (s, ok done) i h = (settle-IsSound s i h, λ e. ground arith)
answer-IsSound (s, err error) i h =
    (settle-IsSound (close s error) i (close-IsSound s error h), λ e. ground arith)
answer-IsSound (s, panic) i h = absurd h

-- One input keeps the invariant and does not panic.
pub input-IsSound :
    (s : Protocol) (i : Input) → IsSound s → IsSound (input s i).0 × ((input s i).1 ≢ panic)
unfolding input
input-IsSound s i h = answer-IsSound (transition s i) i (transition-Steps s i h)

pub run-IsSound : (s : Protocol) (is : List Input) → IsSound s → IsSound (run s is)
unfolding run
run-IsSound s [] h = h
run-IsSound s (i ∷ is) h = run-IsSound (input s i).0 is (input-IsSound s i h).0

-- What `new` returns.
abbrev Starts : Result Protocol Error → Type 0
Starts (ok s) = IsSound s
Starts (err error) = Unit
Starts panic = ⊥

new-Starts :
    (contract : Contract) (direction : Direction) (capacity : ℕ)
    → Starts (new contract direction capacity)
unfolding new idle_effect data_effect breaks_order
new-Starts contract direction capacity = grind arith

pub new-IsSound :
    (contract : Contract) (direction : Direction) (capacity : ℕ) (s : Protocol)
    → new contract direction capacity ≡ ok s
    → IsSound s
new-IsSound contract direction capacity s e =
    subst Starts e (new-Starts contract direction capacity)

with_connection-Starts :
    (contract : Contract) (direction : Direction) (capacity : ℕ) (connection : Connection)
    → Starts (with_connection contract direction capacity connection)
unfolding with_connection new idle_effect data_effect breaks_order
with_connection-Starts contract direction capacity connection = grind arith

pub with_connection-IsSound :
    (contract : Contract) (direction : Direction) (capacity : ℕ) (connection : Connection)
    (s : Protocol)
    → with_connection contract direction capacity connection ≡ ok s
    → IsSound s
with_connection-IsSound contract direction capacity connection s e =
    subst Starts e (with_connection-Starts contract direction capacity connection)

-- The fields of what `new` returns.
abbrev StartsWith : Contract → ℕ → Result Protocol Error → Type 0
StartsWith contract capacity (ok s) =
    (s.contract ≡ contract) × (s.capacity ≡ capacity) × (s.previous ≡ none)
StartsWith contract capacity (err error) = Unit
StartsWith contract capacity panic = Unit

new-StartsWith :
    (contract : Contract) (direction : Direction) (capacity : ℕ)
    → StartsWith contract capacity (new contract direction capacity)
unfolding new
new-StartsWith contract direction capacity = grind arith

pub new_fields :
    (contract : Contract) (direction : Direction) (capacity : ℕ) (s : Protocol)
    → new contract direction capacity ≡ ok s
    → (s.contract ≡ contract) × (s.capacity ≡ capacity) × (s.previous ≡ none)
new_fields contract direction capacity s e =
    subst (StartsWith contract capacity) e (new-StartsWith contract direction capacity)
