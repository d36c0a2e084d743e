-- ===== src/Transport/Protocol/Outstanding.antt =====
-- The operations that a protocol has outstanding.
use mathlib.Core.Path.{sym, ap, ◌∙◌}
use hiway.Prelude.{
  ℕ, ◌≡◌, ◌≢◌, refl, Bool, false, Option, none, some, List, [], ◌∷◌, Result, ok, err, panic, arith,
  All,
}
use hiway.Transport.Operation.{OpId, same_id}
use hiway.Transport.Contract.{Error}
use hiway.Transport.Protocol.Parts.{Lane, Lanes, Effect, IoResult, Input, at, set_at}
use hiway.Transport.Protocol.{Protocol, effect, lane_effect, observe_sequence}
use hiway.Transport.Protocol.Transition.{
  accept, complete, complete_on, provide, admit_frame, admitting, transition, close, settle, answer,
  input, run, position,
}
use hiway.Transport.Protocol.Constant.{conclude-KeepsActive}
use hiway.Transport.Protocol.Transfers.{position-at}

-- Whether an input completes an operation.
abbrev pub completes : Input → OpId → Bool
completes (Input.completed id result buffer) op = same_id id op
completes _ op = false

-- The operation is still on its lane.
abbrev pub Holds : Lane → OpId → Effect → Protocol × Result (Unit {0}) Error → Type 0
Holds lane op e out = at out.0.active lane ≡ some (op, e)

at-set_at_ne :
    (xs : Lanes (Option (OpId × Effect))) (lane other : Lane)
    → other ≢ lane
    → at (set_at xs other none) lane ≡ at xs lane
at-set_at_ne xs Lane.data_lane other ne = grind arith
at-set_at_ne xs Lane.credit_send other ne = grind arith
at-set_at_ne xs Lane.credit_receive other ne = grind arith

complete_on-Holds :
    (s : Protocol) (other lane : Lane) (active : Option (OpId × Effect)) (op : OpId) (e : Effect)
    (result : IoResult) (buffer : List ℕ)
    → other ≢ lane
    → at s.active lane ≡ some (op, e)
    → Holds lane op e (complete_on s other active result buffer)
unfolding complete_on
complete_on-Holds s other lane none op e result buffer ne h = h
complete_on-Holds s other lane (some (id, own)) op e result buffer ne h =
    let s' = record s { active = set_at s.active other none } in
    ap (λ xs. at xs lane) (conclude-KeepsActive s' other own result buffer).4
    ∙ at-set_at_ne s.active lane other ne
    ∙ h

-- The lane of another operation is another lane.
position-ne :
    (active : Lanes (Option (OpId × Effect))) (op id : OpId) (e : Effect) (lane other : Lane)
    → same_id id op ≡ false
    → at active lane ≡ some (op, e)
    → position active id ≡ some other
    → other ≢ lane
position-ne active op id e lane other differ h p same =
    let (own, a) = position-at active id other p in
    let both : some (id, own) ≡ some (op, e) = sym a ∙ ap (at active) same ∙ h in
    absurd (grind arith)

complete-Holds :
    (s : Protocol) (lane : Lane) (op id : OpId) (e : Effect) (result : IoResult) (buffer : List ℕ)
    → same_id id op ≡ false
    → at s.active lane ≡ some (op, e)
    → Holds lane op e (complete s id result buffer)
unfolding complete
complete-Holds s lane op id e result buffer differ h =
    elim (position s.active id)
        as (λ place.
          (place ≡ position s.active id)
          → Holds lane op e (elim place [
            | none ↦ (s, ok tt)
            | some other ↦ complete_on s other (at s.active other) result buffer
          ])) [
            | none ↦ λ p. h
            | some other ↦ λ p.
                complete_on-Holds s other lane (at s.active other) op e result buffer
                  (position-ne s.active op id e lane other differ h (sym p)) h
          ]
      refl

accept-Holds :
    (s : Protocol) (lane own : Lane) (op id : OpId) (e : Effect)
    → at s.active lane ≡ some (op, e)
    → Holds lane op e (accept s own id)
unfolding accept effect lane_effect
accept-Holds s Lane.data_lane own op id e h = grind arith
accept-Holds s Lane.credit_send own op id e h = grind arith
accept-Holds s Lane.credit_receive own op id e h = grind arith

provide-Holds :
    (s : Protocol) (lane : Lane) (op : OpId) (e : Effect) (sequence length : ℕ)
    → at s.active lane ≡ some (op, e)
    → Holds lane op e (provide s sequence length)
unfolding provide observe_sequence
provide-Holds s Lane.data_lane op e sequence length h = grind arith
provide-Holds s Lane.credit_send op e sequence length h = grind arith
provide-Holds s Lane.credit_receive op e sequence length h = grind arith

admit_frame-Holds :
    (s : Protocol) (lane : Lane) (op : OpId) (e : Effect)
    → at s.active lane ≡ some (op, e)
    → Holds lane op e (admit_frame s)
unfolding admit_frame admitting
admit_frame-Holds s Lane.data_lane op e h = grind arith
admit_frame-Holds s Lane.credit_send op e h = grind arith
admit_frame-Holds s Lane.credit_receive op e h = grind arith

transition-Holds :
    (s : Protocol) (lane : Lane) (op : OpId) (e : Effect) (i : Input)
    → completes i op ≡ false
    → at s.active lane ≡ some (op, e)
    → Holds lane op e (transition s i)
unfolding transition close
transition-Holds s lane op e Input.revoked n h = h
transition-Holds s lane op e (Input.closes error) n h = h
transition-Holds s lane op e (Input.accepted own id) n h = accept-Holds s lane own op id e h
transition-Holds s lane op e (Input.completed id result buffer) n h =
    complete-Holds s lane op id e result buffer n h
transition-Holds s lane op e (Input.provided sequence length) n h =
    provide-Holds s lane op e sequence length h
transition-Holds s lane op e Input.admitted n h = admit_frame-Holds s lane op e h

answer-Holds :
    (out : Protocol × Result (Unit {0}) Error) (lane : Lane) (op : OpId) (e : Effect) (i : Input)
    → Holds lane op e out
    → Holds lane op e (answer out i)
unfolding answer settle close
answer-Holds (s, ok done) lane op e i h = h
answer-Holds (s, err error) lane op e i h = h
answer-Holds (s, panic) lane op e i h = h

-- An accepted operation stays on its lane with its effect through any inputs that do not complete it,
-- closure and revocation among them.
pub run-outstanding :
    (s : Protocol) (lane : Lane) (op : OpId) (e : Effect) (is : List Input)
    → All (λ i. completes i op ≡ false) is
    → at s.active lane ≡ some (op, e)
    → at (run s is).active lane ≡ some (op, e)
unfolding run input
run-outstanding s lane op e [] n h = h
run-outstanding s lane op e (i ∷ is) n h =
    run-outstanding (input s i).0 lane op e is n.1
      (answer-Holds (transition s i) lane op e i (transition-Holds s lane op e i n.0 h))
