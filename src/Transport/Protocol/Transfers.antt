-- ===== src/Transport/Protocol/Transfers.antt =====
-- Completions of transfers keep the protocol's invariant and do not panic.
use hiway.Prelude.{
  ℕ, ◌+◌, ◌^◌, ◌≤◌, ◌<◌, ◌≡◌, refl, true, Option, none, some, List, Result, ok, err, arith,
}
use mathlib.Core.Path.{subst, sym}
use hiway.Transport.Operation.{OpId}
use hiway.Transport.Contract.{Error}
use hiway.Transport.Protocol.Parts.{Lane, Effect, Lanes, IoResult, requested, at, set_at, is_of}
use hiway.Transport.Protocol.{Protocol, idle_effect, data_effect}
use hiway.Transport.Protocol.Progress.{progress, breaks_order}
use hiway.Transport.Protocol.Transition.{transferred, conclude, complete, complete_on, position}
use hiway.Transport.Protocol.Invariant.{IsWithin, IsBounded, IsOpen, IsSound, Steps}
use hiway.Transport.Protocol.Sound.{
  data_progress-Steps, credit_send_progress-Steps, credit_receive_progress-Steps, DataReached,
  OthersFit, DataStands,
}

-- The state with an operation taken off its lane and the lane's offset moved.
abbrev pub moved : Protocol → Lane → ℕ → Protocol
moved s lane offset = record s {
  active = set_at s.active lane none;
  offsets = set_at s.offsets lane offset;
}

-- A lane's progress after a transfer of some of the bytes that its operation asked for.
progress-Steps :
    (s : Protocol) (lane : Lane) (op : OpId) (e : Effect) (count asked : ℕ) (buffer : List ℕ)
    → IsBounded s
    → IsOpen s
    → at s.active lane ≡ some (op, e)
    → requested e ≡ some asked
    → count ≤ asked
    → Steps (progress (moved s lane (at s.offsets lane + count)) lane buffer)
unfolding progress idle_effect data_effect breaks_order
progress-Steps s Lane.data_lane op e count asked buffer b o a q c =
    let s' = moved s Lane.data_lane (s.offsets.on_data + count) in
    let others : OthersFit s' = grind arith in
    let reached : DataReached s.direction s.stage s'.offsets.on_data s.length s.capacity =
      grind arith in
    data_progress-Steps s' buffer others reached o.2
progress-Steps s Lane.credit_send op e count asked buffer b o a q c =
    let s' = moved s Lane.credit_send (s.offsets.on_credit_send + count) in
    let stands : DataStands s' = grind arith in
    credit_send_progress-Steps s' stands (grind arith) (grind arith) (grind arith) (grind arith)
      (grind arith) refl o.5
progress-Steps s Lane.credit_receive op e count asked buffer b o a q c =
    let s' = moved s Lane.credit_receive (s.offsets.on_credit_receive + count) in
    let stands : DataStands s' = grind arith in
    credit_receive_progress-Steps s' buffer stands refl (grind arith) o.4

-- The state with an operation taken off its lane.
abbrev pub taken : Protocol → Lane → Protocol
taken s lane = record s { active = set_at s.active lane none }

taken-IsBounded : (s : Protocol) (lane : Lane) → IsBounded s → IsBounded (taken s lane)
taken-IsBounded s Lane.data_lane b = (b.0, b.1, tt, b.3, b.4)
taken-IsBounded s Lane.credit_send b = (b.0, b.1, b.2, tt, b.4)
taken-IsBounded s Lane.credit_receive b = (b.0, b.1, b.2, b.3, tt)

taken-IsOpen : (s : Protocol) (lane : Lane) → IsOpen s → IsOpen (taken s lane)
unfolding idle_effect data_effect breaks_order
taken-IsOpen s Lane.data_lane o = (o.0, o.1, o.2, tt, o.4, o.5)
taken-IsOpen s Lane.credit_send o = (o.0, o.1, o.2, o.3, tt, o.5)
taken-IsOpen s Lane.credit_receive o = (o.0, o.1, o.2, o.3, o.4, tt)

-- An outstanding transfer ends within the range of a machine word.
asked-lt :
    (s : Protocol) (lane : Lane) (op : OpId) (e : Effect) (asked : ℕ)
    → IsBounded s
    → IsOpen s
    → at s.active lane ≡ some (op, e)
    → requested e ≡ some asked
    → at s.offsets lane + asked < 2 ^ 64
unfolding idle_effect data_effect
asked-lt s Lane.data_lane op e asked b o a q = grind arith
asked-lt s Lane.credit_send op e asked b o a q = grind arith
asked-lt s Lane.credit_receive op e asked b o a q = grind arith

pub at-IsWithin :
    (s : Protocol) (lane : Lane) (op : OpId) (e : Effect)
    → IsBounded s
    → at s.active lane ≡ some (op, e)
    → IsWithin s.capacity lane e
at-IsWithin s Lane.data_lane op e b a = grind arith
at-IsWithin s Lane.credit_send op e b a = grind arith
at-IsWithin s Lane.credit_receive op e b a = grind arith

requested-some :
    (capacity : ℕ) (lane : Lane) (e : Effect)
    → IsWithin capacity lane e
    → (asked : ℕ) × (requested e ≡ some asked)
requested-some capacity lane (Effect.receive own offset asked) w = (asked, refl)
requested-some capacity lane (Effect.transmit own offset asked) w = (asked, refl)
requested-some capacity lane Effect.provide w = absurd w
requested-some capacity lane (Effect.admit asked revision) w = absurd w
requested-some capacity lane (Effect.cancel own target) w = absurd w

transferred_cases :
    (P : Protocol × Result (Unit {0}) Error → Type 0) (s : Protocol) (lane : Lane) (asked count : ℕ)
    (buffer : List ℕ)
    → at s.offsets lane + asked < 2 ^ 64
    → P (taken s lane, err Error.protocol)
    → (count ≤ asked → P (progress (moved s lane (at s.offsets lane + count)) lane buffer))
    → P (transferred (taken s lane) lane (some asked) count buffer)
unfolding transferred
transferred_cases P s Lane.data_lane asked count buffer l refuses progresses = grind arith
transferred_cases P s Lane.credit_send asked count buffer l refuses progresses = grind arith
transferred_cases P s Lane.credit_receive asked count buffer l refuses progresses = grind arith

transferred-Steps :
    (s : Protocol) (lane : Lane) (op : OpId) (e : Effect) (count : ℕ) (buffer : List ℕ)
    → IsBounded s
    → IsOpen s
    → at s.active lane ≡ some (op, e)
    → Steps (transferred (taken s lane) lane (requested e) count buffer)
transferred-Steps s lane op e count buffer b o a =
    let (asked, q) = requested-some s.capacity lane e (at-IsWithin s lane op e b a) in
    subst (λ length. Steps (transferred (taken s lane) lane length count buffer)) (sym q)
      (transferred_cases Steps s lane asked count buffer (asked-lt s lane op e asked b o a q)
        (taken-IsBounded s lane b) (progress-Steps s lane op e count asked buffer b o a q))

conclude_cases :
    (P : Protocol × Result (Unit {0}) Error → Type 0) (s : Protocol) (lane : Lane) (e : Effect)
    (result : IoResult) (buffer : List ℕ)
    → P (s, ok tt)
    → ((error : Error) → P (s, err error))
    → ((count : ℕ) → s.closed ≡ none → P (transferred s lane (requested e) count buffer))
    → P (conclude s lane e result buffer)
unfolding conclude
conclude_cases P s lane e result buffer ignores fails transfers = grind arith

taken-IsSound : (s : Protocol) (lane : Lane) → IsSound s → IsSound (taken s lane)
unfolding idle_effect breaks_order
taken-IsSound s lane h = (taken-IsBounded s lane h.0, λ c. taken-IsOpen s lane (h.1 c))

conclude-Steps :
    (s : Protocol) (lane : Lane) (op : OpId) (e : Effect) (result : IoResult) (buffer : List ℕ)
    → IsSound s
    → at s.active lane ≡ some (op, e)
    → Steps (conclude (taken s lane) lane e result buffer)
conclude-Steps s lane op e result buffer h a =
    conclude_cases Steps (taken s lane) lane e result buffer (taken-IsSound s lane h)
      (λ error. taken-IsBounded s lane h.0)
      (λ count c. transferred-Steps s lane op e count buffer h.0 (h.1 c) a)

is_of-some :
    (active : Option (OpId × Effect)) (op : OpId)
    → is_of active op ≡ true
    → (e : Effect) × (active ≡ some (op, e))
is_of-some none op h = absurd (ground arith)
is_of-some (some (id, e)) op h = (e, ground arith)

-- The lane that `position` finds has an operation with the id.
pub position-at :
    (active : Lanes (Option (OpId × Effect))) (op : OpId) (lane : Lane)
    → position active op ≡ some lane
    → (e : Effect) × (at active lane ≡ some (op, e))
position-at active op Lane.data_lane h = is_of-some active.on_data op (grind arith)
position-at active op Lane.credit_send h = is_of-some active.on_credit_send op (grind arith)
position-at active op Lane.credit_receive h = is_of-some active.on_credit_receive op (grind arith)

complete_on_cases :
    (P : Protocol × Result (Unit {0}) Error → Type 0) (s : Protocol) (op : OpId) (result : IoResult)
    (buffer : List ℕ) (place : Option Lane)
    → P (s, ok tt)
    → ((lane : Lane) → place ≡ some lane → P (complete_on s lane (at s.active lane) result buffer))
    → P (elim place [
      | none ↦ (s, ok tt)
      | some lane ↦ complete_on s lane (at s.active lane) result buffer
    ])
complete_on_cases P s op result buffer none unknown known = unknown
complete_on_cases P s op result buffer (some lane) unknown known = known lane refl

complete_on-Steps :
    (s : Protocol) (op : OpId) (result : IoResult) (buffer : List ℕ) (lane : Lane)
    → IsSound s
    → position s.active op ≡ some lane
    → Steps (complete_on s lane (at s.active lane) result buffer)
unfolding complete_on
complete_on-Steps s op result buffer lane h p =
    let (e, a) = position-at s.active op lane p in
    subst (λ active. Steps (complete_on s lane active result buffer)) (sym a)
      (conclude-Steps s lane op e result buffer h a)

pub complete-Steps :
    (s : Protocol) (op : OpId) (result : IoResult) (buffer : List ℕ)
    → IsSound s
    → Steps (complete s op result buffer)
unfolding complete
complete-Steps s op result buffer h =
    complete_on_cases Steps s op result buffer (position s.active op) h
      (λ lane. complete_on-Steps s op result buffer lane h)
