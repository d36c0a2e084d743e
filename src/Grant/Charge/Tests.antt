-- ===== src/Grant/Charge/Tests.antt =====
-- Charges of a pool, alone and interleaved.
use hiway.Prelude.{◌≡◌, refl, ◌≤◌, List, [], ◌∷◌, ok, total, arith}
use hiway.Grant.{Limits, zero_limits, values, validate}
use hiway.Grant.Charge.{
  Pool, charge_pool, release, raise, lower, raised, raise_from, lower_all, settle,
}
use hiway.Grant.Charge.Exact.{Within, atomic_charge, charge_pool-atomic, release-charge_pool}
use hiway.Grant.Charge.Threads.{Action, at, run, fresh, held}
use hiway.Grant.Charge.Threads.Sums.{run-held}

abbrev pool : Pool
pool = record {
  limits = record zero_limits { subscriptions = 4; waiters = 2 };
  usage = 0 ∷ 0 ∷ 3 ∷ 0 ∷ 0 ∷ 0 ∷ 0 ∷ [];
}

abbrev fitting : Limits
fitting = record zero_limits { subscriptions = 1; waiters = 2 }

-- The third counter is raised before the fifth has no room.
abbrev excessive : Limits
excessive = record zero_limits { subscriptions = 1; waiters = 3 }

abbrev charged : Pool
charged = record pool { usage = 0 ∷ 0 ∷ 4 ∷ 0 ∷ 2 ∷ 0 ∷ 0 ∷ [] }

charge-fitting : charge_pool pool fitting ≡ (charged, ok tt)
unfolding charge_pool raise lower raised raise_from lower_all settle
charge-fitting = refl

charge_pool-atomic_example : charge_pool pool excessive ≡ atomic_charge pool excessive
charge_pool-atomic_example = charge_pool-atomic pool excessive (omega arith)

release-charge_pool_example :
    Within (values charged.limits) charged.usage × (release charged fitting ≡ pool)
release-charge_pool_example = release-charge_pool pool charged fitting (omega arith) charge-fitting

-- Two charges meet on the third counter; one fails on the fifth and is undone.
abbrev actions : List Action
actions =
    Action.starts excessive
    ∷ Action.starts fitting
    ∷ Action.iterates 0
    ∷ Action.iterates 0
    ∷ Action.iterates 1
    ∷ Action.iterates 0
    ∷ Action.iterates 0
    ∷ Action.iterates 0
    ∷ Action.iterates 0
    ∷ Action.iterates 0
    ∷ Action.iterates 0
    ∷ Action.iterates 0
    ∷ []

run-held_example :
    (at (run (fresh pool.limits) actions).usage 2
      ≡ total (held 2) (run (fresh pool.limits) actions).threads)
    × (at (run (fresh pool.limits) actions).usage 2 ≤ at (values pool.limits) 2)
unfolding validate
run-held_example = run-held pool.limits actions 2 refl (omega arith)
