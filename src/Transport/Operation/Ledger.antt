-- ===== src/Transport/Operation/Ledger.antt =====
-- What a slot has accepted and what has ended, over any sequence of calls.
use hiway.Prelude.{ℕ, ◌+◌, ◌≤◌, ◌≡◌, Bool, true, false, Option, List, [], ◌∷◌, arith}
use hiway.Transport.Operation.{
  OpId, Phase, Cancellation, Operation, new, prepare, accepted, cancel, cancel_accepted,
  cancel_completed, completed, reclaim, is_phase, is_cancellation,
}

pub data Call : Type 0 where
  prepares cancels reclaims : Call
  accepts cancel_accepts cancel_completes completes : OpId → Call

-- Counts of the calls that took effect.
pub record Ledger : Type 0 where
  pub submissions : ℕ
  pub completions : ℕ
  pub cancel_submissions : ℕ
  pub cancel_completions : ℕ

abbrev pub blank : Ledger
blank = record { submissions = 0; completions = 0; cancel_submissions = 0; cancel_completions = 0 }

abbrev pub tally : Bool → ℕ
tally true = 1
tally false = 0

unfoldable pub step : Operation × Ledger → Call → Operation × Ledger
step (o, l) prepares = ((prepare o).0, l)
step (o, l) (accepts id) =
    let (o', done) = accepted o id in (o', record l { submissions = l.submissions + tally done })
step (o, l) cancels = (cancel o, l)
step (o, l) (cancel_accepts id) =
    let (o', done) = cancel_accepted o id in
    (o', record l { cancel_submissions = l.cancel_submissions + tally done })
step (o, l) (cancel_completes id) =
    let (o', done) = cancel_completed o id in
    (o', record l { cancel_completions = l.cancel_completions + tally done })
step (o, l) (completes id) =
    let (o', done) = completed o id in (o', record l { completions = l.completions + tally done })
step (o, l) reclaims = ((reclaim o).0, l)

unfoldable pub run : Operation × Ledger → List Call → Operation × Ledger
run s [] = s
run s (c ∷ cs) = run (step s c) cs

-- Every accepted request is open or has ended, and a slot that is not in use has none open.
pub record IsBalanced (s : Operation × Ledger) : Type 0 where
  pub operations : s.1.submissions ≡ s.1.completions + tally (is_phase s.0.phase Phase.submitted)
  pub cancellations :
      s.1.cancel_submissions
      ≡ s.1.cancel_completions + tally (is_cancellation s.0.cancellation Cancellation.submitted)
  pub idle : s.0.phase ≡ Phase.available → s.0.cancellation ≡ Cancellation.none
  pub unsubmitted : s.0.phase ≡ Phase.prepared → s.0.cancellation ≡ Cancellation.none

new-IsBalanced : (slot : ℕ) → IsBalanced (new slot, blank)
unfolding new
new-IsBalanced slot = ground arith

step-IsBalanced : (s : Operation × Ledger) (c : Call) → IsBalanced s → IsBalanced (step s c)
unfolding step prepare accepted cancel cancel_accepted cancel_completed completed reclaim
step-IsBalanced (o, l) prepares b = ground arith
step-IsBalanced (o, l) (accepts id) b = ground arith
step-IsBalanced (o, l) cancels b = ground arith
step-IsBalanced (o, l) (cancel_accepts id) b = ground arith
step-IsBalanced (o, l) (cancel_completes id) b = ground arith
step-IsBalanced (o, l) (completes id) b = ground arith
step-IsBalanced (o, l) reclaims b = ground arith

run-IsBalanced : (s : Operation × Ledger) (cs : List Call) → IsBalanced s → IsBalanced (run s cs)
unfolding run
run-IsBalanced s [] b = b
run-IsBalanced s (c ∷ cs) b = run-IsBalanced (step s c) cs (step-IsBalanced s c b)

-- After any calls on a new slot, an identity is handed out only when every accepted request and
-- every accepted cancellation has ended.
pub run-prepare-retired :
    (slot : ℕ) (cs : List Call) (id : OpId)
    → let (o, l) = run (new slot, blank) cs in
      (prepare o).1 ≡ Option.some id
      → (l.submissions ≡ l.completions) × (l.cancel_submissions ≡ l.cancel_completions)
unfolding prepare
run-prepare-retired slot cs id e =
    ground (arith, run-IsBalanced (new slot, blank) cs (new-IsBalanced slot))

-- A slot is never owed more than one completion of each kind.
pub run-owed-le_one :
    (slot : ℕ) (cs : List Call)
    → let (o, l) = run (new slot, blank) cs in
      (l.completions ≤ l.submissions)
      × (l.submissions ≤ l.completions + 1)
      × (l.cancel_completions ≤ l.cancel_submissions)
      × (l.cancel_submissions ≤ l.cancel_completions + 1)
run-owed-le_one slot cs = ground (arith, run-IsBalanced (new slot, blank) cs (new-IsBalanced slot))
