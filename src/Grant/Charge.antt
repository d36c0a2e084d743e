-- ===== src/Grant/Charge.antt =====
-- hiway/src/grant.rs: the seven counters of a pool, and how a charge raises and lowers them.
pub mod Exact
pub mod Threads
mod Tests
use hiway.Prelude.{
  ℕ, ◌+◌, ◌-◌, ◌%◌, ◌^◌, Bool, true, false, Option, none, some, List, [], ◌∷◌, ◌==◌, ltb, leb,
  if◌then◌else◌, any, replicate, take, Result, ok, err, panic, checked_add,
}
use hiway.Errors.{TopicError}
use hiway.Grant.{Limits, values}

pub record Pool : Type 0 where
  pub limits : Limits
  pub usage : List ℕ

unfoldable pub new : Limits → Pool
new limits = record { limits = limits; usage = replicate 7 0 }

-- The closure of `fetch_update`: the sum, if it does not overflow and stays within the limit.
unfoldable pub raise : ℕ → ℕ → ℕ → Option ℕ
raise limit amount current = elim (checked_add current amount) [
  | none ↦ none
  | some sum ↦ if leb sum limit then some sum else none
]

-- `counter.fetch_sub(amount)`, which wraps, behind its test
unfoldable pub lower : ℕ → ℕ → ℕ
lower amount current = if ltb 0 amount then (current + (2 ^ 64 - amount)) % 2 ^ 64 else current

-- What the update of one counter gives, with what the rest of the loop gives if it goes on.
unfoldable pub raised : ℕ → ℕ → List ℕ → List ℕ × Option ℕ → Option ℕ → List ℕ × Option ℕ
raised index current usage rest none = (current ∷ usage, some index)
raised index current usage rest (some sum) = (sum ∷ rest.0, rest.1)

-- The loop of `charge` over the counters from `index` on: the counters after it, and the index
-- of the counter that could not be raised.
unfoldable pub raise_from : ℕ → List ℕ → List ℕ → List ℕ → List ℕ × Option ℕ
unfolding raise raised
raise_from index (amount ∷ requested) (limit ∷ limits) (current ∷ usage) =
    let rest = raise_from (index + 1) requested limits usage in
    if amount == 0
    then (current ∷ rest.0, rest.1)
    else raised index current usage rest (raise limit amount current)
raise_from index _ _ usage = (usage, none)

-- `usage.iter().zip(amounts)`, each counter lowered by its amount
unfoldable pub lower_all : List ℕ → List ℕ → List ℕ
lower_all (amount ∷ amounts) (current ∷ usage) = lower amount current ∷ lower_all amounts usage
lower_all _ usage = usage

-- What follows the loop: nothing, or the counters before the failed one are lowered again.
unfoldable pub settle : List ℕ → List ℕ × Option ℕ → List ℕ × Result (Unit {0}) TopicError
settle requested (usage, none) = (usage, ok tt)
settle requested (usage, some index) =
    (lower_all (take index requested) usage, err TopicError.capacity)

unfoldable pub charge_pool : Pool → Limits → Pool × Result (Unit {0}) TopicError
charge_pool pool amounts =
    let r =
      settle (values amounts) (raise_from 0 (values amounts) (values pool.limits) pool.usage) in
    (record pool { usage = r.0 }, r.1)

-- `Lease::drop`
unfoldable pub release : Pool → Limits → Pool
release pool amounts = record pool { usage = lower_all (values amounts) pool.usage }
