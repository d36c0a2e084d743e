-- ===== src/Transport/Protocol/Closure.antt =====
-- Closure of a protocol, and the operations that are outstanding.
use mathlib.Core.Path.{subst, sym, ◌∙◌}
use hiway.Prelude.{
  ℕ, ◌≡◌, refl, ◌⊎◌, inl, inr, Option, none, some, List, [], ◌∷◌, Result, ok, err, panic, arith,
}
use hiway.Transport.Operation.{OpId}
use hiway.Transport.Contract.{Error}
use hiway.Transport.Protocol.Parts.{Lane, Lanes, Effect, IoResult, Input, at, set_at}
use hiway.Transport.Protocol.{Protocol, effect, lane_effect, observe_sequence}
use hiway.Transport.Protocol.Transition.{
  accept, complete, complete_on, conclude, provide, admit_frame, admitting, transition, close,
  settle, answer, input, run, position,
}

-- Every lane keeps the operation on it, or none is left on it.
abbrev pub OnlyRetires : Lanes (Option (OpId × Effect)) → Lanes (Option (OpId × Effect)) → Type 0
OnlyRetires xs ys = (lane : Lane) → (at ys lane ≡ at xs lane) ⊎ (at ys lane ≡ none)

-- The same state but for the history and operations that are retired.
abbrev pub IsFrozen : Protocol → Protocol → Type 0
IsFrozen s s' =
    (s'.stage ≡ s.stage)
    × (s'.offsets ≡ s.offsets)
    × (s'.length ≡ s.length)
    × (s'.sequence ≡ s.sequence)
    × (s'.previous ≡ s.previous)
    × (s'.revision ≡ s.revision)
    × (s'.credited ≡ s.credited)
    × (s'.closed ≡ s.closed)
    × OnlyRetires s.active s'.active

conclude-IsFrozen :
    (s : Protocol) (error : Error) (lane : Lane) (e : Effect) (result : IoResult) (buffer : List ℕ)
    → s.closed ≡ some error
    → conclude s lane e result buffer ≡ (s, ok tt)
unfolding conclude
conclude-IsFrozen s error lane e result buffer c = ground arith

set_at-OnlyRetires :
    (xs : Lanes (Option (OpId × Effect))) (lane : Lane) → OnlyRetires xs (set_at xs lane none)
set_at-OnlyRetires xs lane other = grind arith

OnlyRetires-trans :
    (xs ys zs : Lanes (Option (OpId × Effect)))
    → OnlyRetires xs ys
    → OnlyRetires ys zs
    → OnlyRetires xs zs
OnlyRetires-trans xs ys zs f g lane = elim (g lane) [
  | inr gone ↦ inr gone
  | inl kept ↦ elim (f lane) [ inl same ↦ inl (kept ∙ same) | inr gone ↦ inr (kept ∙ gone) ]
]

complete_on-IsFrozen :
    (s : Protocol) (error : Error) (lane : Lane) (active : Option (OpId × Effect))
    (result : IoResult) (buffer : List ℕ)
    → s.closed ≡ some error
    → IsFrozen s (complete_on s lane active result buffer).0
unfolding complete_on
complete_on-IsFrozen s error lane none result buffer c =
    (refl, refl, refl, refl, refl, refl, refl, refl, λ other. inl refl)
complete_on-IsFrozen s error lane (some (id, e)) result buffer c =
    let s' = record s { active = set_at s.active lane none } in
    subst (λ out. IsFrozen s out.0) (sym (conclude-IsFrozen s' error lane e result buffer c))
      (refl, refl, refl, refl, refl, refl, refl, refl, set_at-OnlyRetires s.active lane)

complete-IsFrozen :
    (s : Protocol) (error : Error) (op : OpId) (result : IoResult) (buffer : List ℕ)
    → s.closed ≡ some error
    → IsFrozen s (complete s op result buffer).0
unfolding complete
complete-IsFrozen s error op result buffer c =
    elim (position s.active op)
      as (λ place.
        let out : Protocol × Result (Unit {0}) Error = elim place [
          | none ↦ (s, ok tt)
          | some lane ↦ complete_on s lane (at s.active lane) result buffer
        ] in
        IsFrozen s out.0) [
          | none ↦ (refl, refl, refl, refl, refl, refl, refl, refl, λ other. inl refl)
          | some lane ↦ complete_on-IsFrozen s error lane (at s.active lane) result buffer c
        ]

transition-IsFrozen :
    (s : Protocol) (error : Error) (i : Input)
    → s.closed ≡ some error
    → IsFrozen s (transition s i).0
unfolding transition close accept effect lane_effect provide observe_sequence admit_frame admitting
transition-IsFrozen s error Input.revoked c = grind arith
transition-IsFrozen s error (Input.closes e) c = grind arith
transition-IsFrozen s error (Input.accepted lane op) c = grind arith
transition-IsFrozen s error (Input.completed op result buffer) c =
    complete-IsFrozen s error op result buffer c
transition-IsFrozen s error (Input.provided sequence length) c = grind arith
transition-IsFrozen s error Input.admitted c = grind arith

answer-IsFrozen :
    (s : Protocol) (error : Error) (out : Protocol × Result (Unit {0}) Error) (i : Input)
    → s.closed ≡ some error
    → IsFrozen s out.0
    → IsFrozen s (answer out i).0
unfolding answer settle close
answer-IsFrozen s error (s', ok done) i c h = h
answer-IsFrozen s error (s', err e) i c h = grind arith
answer-IsFrozen s error (s', panic) i c h = h

input-IsFrozen :
    (s : Protocol) (error : Error) (i : Input) → s.closed ≡ some error → IsFrozen s (input s i).0
unfolding input
input-IsFrozen s error i c =
    answer-IsFrozen s error (transition s i) i c (transition-IsFrozen s error i c)

-- Once a protocol is closed, no inputs change its first error, its stage, its offsets or the frame and
-- sequences it holds, and none is accepted on a lane: a lane keeps its operation or has none.
pub run-IsFrozen :
    (s : Protocol) (error : Error) (is : List Input) → s.closed ≡ some error → IsFrozen s (run s is)
unfolding run
run-IsFrozen s error [] c = (refl, refl, refl, refl, refl, refl, refl, refl, λ lane. inl refl)
run-IsFrozen s error (i ∷ is) c =
    let first = input-IsFrozen s error i c in
    let rest = run-IsFrozen (input s i).0 error is (first.7 ∙ c) in
    (
      rest.0 ∙ first.0,
      rest.1 ∙ first.1,
      rest.2 ∙ first.2,
      rest.3 ∙ first.3,
      rest.4 ∙ first.4,
      rest.5 ∙ first.5,
      rest.6 ∙ first.6,
      rest.7 ∙ first.7,
      OnlyRetires-trans s.active (input s i).0.active (run (input s i).0 is).active first.8 rest.8,
    )
