-- ===== src/Transport/Operation/Tests.antt =====
-- Concrete runs of an operation slot, and its theorems at concrete inputs.
use hiway.Prelude.{◌-◌, ◌^◌, ◌≡◌, ◌≢◌, refl, true, Option, List, [], ◌∷◌, arith}
use hiway.Transport.Operation.{
  OpId, Phase, Cancellation, Operation, new, prepare, accepted, cancel, cancellation,
  cancel_accepted, cancel_completed, completed, reclaim,
}
use hiway.Transport.Operation.Ledger.{
  Call, prepares, cancels, reclaims, accepts, cancel_accepts, cancel_completes, completes, blank,
  step, run, run-prepare-retired,
}
use hiway.Transport.Operation.Identity.{all_handed, prepare-fresh, retire-reclaim}

abbrev first : OpId
first = record { slot = 7; generation = 1 }

abbrev second : OpId
second = record { slot = 7; generation = 2 }

-- A whole use of the slot, with a cancellation that ends before the operation does.
abbrev used : List Call
used =
    prepares
    ∷ accepts first
    ∷ cancels
    ∷ cancel_accepts first
    ∷ cancel_completes first
    ∷ completes first
    ∷ reclaims
    ∷ []

used_runs : run (new 7, blank) used ≡ (
  record { id = first; phase = Phase.available; cancellation = Cancellation.none },
  record { submissions = 1; completions = 1; cancel_submissions = 1; cancel_completions = 1 },
)
unfolding run step new prepare accepted cancel cancellation cancel_accepted cancel_completed
    completed reclaim
used_runs = refl

wraps :
    (prepare (record {
      id = record { slot = 7; generation = 2 ^ 32 - 1 };
      phase = Phase.available;
      cancellation = Cancellation.none;
    })).1
    ≡ Option.some (record { slot = 7; generation = 0 })
unfolding prepare
wraps = refl

abbrev submitted : Operation
submitted = record { id = first; phase = Phase.submitted; cancellation = Cancellation.none }

second_prepared : (prepare (run (new 7, blank) used).0).1 ≡ Option.some second
unfolding run step new prepare accepted cancel cancellation cancel_accepted cancel_completed
    completed reclaim
second_prepared = refl

run-prepare-retired_example :
    let (o, l) = run (new 7, blank) used in
    (l.submissions ≡ l.completions) × (l.cancel_submissions ≡ l.cancel_completions)
run-prepare-retired_example = run-prepare-retired 7 used second second_prepared

-- Two uses of the slot with a whole use between them.
prepare-fresh_example : first ≢ record { slot = 7; generation = 3 }
unfolding run step new prepare accepted cancel cancellation cancel_accepted cancel_completed
    completed reclaim all_handed
prepare-fresh_example =
    prepare-fresh 7 []
      (accepts first ∷ completes first ∷ reclaims ∷ prepares ∷ cancels ∷ reclaims ∷ []) first
      (record { slot = 7; generation = 3 }) refl refl (omega arith)

retire-reclaim_example :
    ((reclaim (cancel_completed (completed (cancel submitted) first).0 first).0).1 ≡ true)
    × ((reclaim (completed (cancel_completed (cancel submitted) first).0 first).0).1 ≡ true)
retire-reclaim_example = retire-reclaim submitted (λ e. cc)
