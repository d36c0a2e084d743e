-- ===== src/Transport/Protocol/Admissions.antt =====
-- The sequences of the frames that an importer admits.
use mathlib.Core.Path.{subst, sym, ap}
use hiway.Prelude.{
  ℕ, ◌≡◌, refl, Bool, true, false, Option, none, some, List, [], ◌∷◌, Result, ok, err, arith,
}
use hiway.Event.{Delivery, follows}
use hiway.Transport.Contract.{Error, Contract, Direction}
use hiway.Transport.Protocol.Parts.{Input}
use hiway.Transport.Protocol.{Protocol, new, idle_effect}
use hiway.Transport.Protocol.Progress.{breaks_order}
use hiway.Transport.Protocol.Transition.{input}
use hiway.Transport.Protocol.Constant.{Keeps, input-Keeps, input_admitted_cases}
use hiway.Transport.Protocol.Invariant.{IsSound, IsOrdered}
use hiway.Transport.Protocol.Runs.{input-IsSound, new-IsSound, new_fields}

-- Whether an input and its result are an admission.
abbrev pub admits : Input → Result (Unit {0}) Error → Bool
admits Input.admitted (ok done) = true
admits _ _ = false

-- The sequence of the current frame, in front if it is admitted.
abbrev pub admitted_first : Bool → ℕ → List ℕ → List ℕ
admitted_first true sequence rest = sequence ∷ rest
admitted_first false sequence rest = rest

-- The sequences of the admitted frames, in their order.
unfoldable pub admissions : Protocol → List Input → List ℕ
unfolding input
admissions s [] = []
admissions s (i ∷ is) =
    let (s', result) = input s i in admitted_first (admits i result) s.sequence (admissions s' is)

-- Each sequence follows the one before it, the first one the last of an earlier time.
abbrev pub IsFollowing : Delivery → Option ℕ → List ℕ → Type 0
IsFollowing delivery last [] = Unit
IsFollowing delivery none (sequence ∷ rest) = IsFollowing delivery (some sequence) rest
IsFollowing delivery (some last) (sequence ∷ rest) =
    (follows delivery last sequence ≡ true) × IsFollowing delivery (some sequence) rest

IsFollowing-first :
    (s : Protocol) (rest : List ℕ)
    → breaks_order s ≡ false
    → IsFollowing s.contract.delivery (some s.sequence) rest
    → IsFollowing s.contract.delivery s.previous (s.sequence ∷ rest)
unfolding breaks_order
IsFollowing-first s rest b h = ground arith

-- What the rest of a run shows of the whole run, for the outcome of an input.
abbrev Continues : Protocol → Input → List Input → Protocol × Result (Unit {0}) Error → Type 0
Continues s i is out =
    IsFollowing out.0.contract.delivery out.0.previous (admissions out.0 is)
    → IsFollowing s.contract.delivery s.previous
        (admitted_first (admits i out.1) s.sequence (admissions out.0 is))

IsFollowing-same :
    (delivery delivery' : Delivery) (last last' : Option ℕ) (rest : List ℕ)
    → delivery' ≡ delivery
    → last' ≡ last
    → IsFollowing delivery' last' rest
    → IsFollowing delivery last rest
IsFollowing-same delivery delivery' last last' rest d l h =
    subst (λ x. IsFollowing x last rest) d (subst (λ x. IsFollowing delivery' x rest) l h)

kept_Continues :
    (s : Protocol) (i : Input) (is : List Input) (out : Protocol × Result (Unit {0}) Error)
    → Keeps s out
    → admits i out.1 ≡ false
    → Continues s i is out
kept_Continues s i is out k a h =
    let rest = admissions out.0 is in
    subst (λ b. IsFollowing s.contract.delivery s.previous (admitted_first b s.sequence rest))
      (sym a)
      (IsFollowing-same s.contract.delivery out.0.contract.delivery s.previous out.0.previous rest
        (ap (λ c. c.delivery) k.0) k.3 h)

admitted-Continues :
    (s : Protocol) (is : List Input)
    → IsSound s
    → Continues s Input.admitted is (input s Input.admitted)
unfolding idle_effect breaks_order
admitted-Continues s is h =
    input_admitted_cases (Continues s Input.admitted is) s
      (λ s' error k. kept_Continues s Input.admitted is (s', err error) k refl)
      (λ s' c stage contract direction capacity previous rest.
        IsFollowing-first s (admissions s' is)
          (subst (λ x. IsOrdered x (breaks_order s)) stage (h.1 c).2)
          (IsFollowing-same s.contract.delivery s'.contract.delivery (some s.sequence) s'.previous
            (admissions s' is) (ap (λ c. c.delivery) contract) previous rest))

input-Continues :
    (s : Protocol) (i : Input) (is : List Input) → IsSound s → Continues s i is (input s i)
input-Continues s Input.admitted is h = admitted-Continues s is h
input-Continues s Input.revoked is h =
    let i = Input.revoked in kept_Continues s i is (input s i) (input-Keeps s i refl) refl
input-Continues s (Input.closes error) is h =
    let i = Input.closes error in kept_Continues s i is (input s i) (input-Keeps s i refl) refl
input-Continues s (Input.accepted lane op) is h =
    let i = Input.accepted lane op in kept_Continues s i is (input s i) (input-Keeps s i refl) refl
input-Continues s (Input.completed op result buffer) is h =
    let i = Input.completed op result buffer in
    kept_Continues s i is (input s i) (input-Keeps s i refl) refl
input-Continues s (Input.provided sequence length) is h =
    let i = Input.provided sequence length in
    kept_Continues s i is (input s i) (input-Keeps s i refl) refl

admissions-IsFollowing :
    (s : Protocol) (is : List Input)
    → IsSound s
    → IsFollowing s.contract.delivery s.previous (admissions s is)
unfolding admissions
admissions-IsFollowing s [] h = tt
admissions-IsFollowing s (i ∷ is) h =
    input-Continues s i is h (admissions-IsFollowing (input s i).0 is (input-IsSound s i h).0)

-- Whatever the inputs of a new protocol, each frame that it admits follows the frame that it admitted
-- before under the delivery of its contract.
pub new-admissions-IsFollowing :
    (contract : Contract) (direction : Direction) (capacity : ℕ) (s : Protocol) (is : List Input)
    → new contract direction capacity ≡ ok s
    → IsFollowing contract.delivery none (admissions s is)
new-admissions-IsFollowing contract direction capacity s is e =
    let (fixed, capacity_same, previous) = new_fields contract direction capacity s e in
    IsFollowing-same contract.delivery s.contract.delivery none s.previous (admissions s is)
      (ap (λ c. c.delivery) fixed) previous
      (admissions-IsFollowing s is (new-IsSound contract direction capacity s e))
