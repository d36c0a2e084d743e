-- ===== src/Grant/Charge/Threads.antt =====
-- hiway/src/grant.rs: any number of charges and releases on one pool, interleaved at each counter.
pub mod Iterations
pub mod Sums
use hiway.Prelude.{
  ℕ, ◌+◌, ◌-◌, ◌^◌, ◌<◌, ◌≤◌, ◌≡◌, Bool, true, false, ◌&&◌, Option, none, some, List, [], ◌∷◌, ◌++◌,
  ◌==◌, ltb, leb, if◌then◌else◌, get_elem?, set, length, replicate,
}
use hiway.Grant.{Limits, values}
use hiway.Grant.Charge.{raise, lower}

-- Where a thread is: in the loop of `charge`, holding a lease, or lowering counters, after a
-- failure or for the drop of its lease.
pub data Stage : Type 0 where
  charging leased releasing : Stage

-- A thread with the amounts it asked for and the range of counters that it has raised.
pub record Thread : Type 0 where
  pub amounts : List ℕ
  pub from : ℕ
  pub upto : ℕ
  pub stage : Stage

pub record Counters : Type 0 where
  pub limits : List ℕ
  pub usage : List ℕ
  pub threads : List Thread

-- An access to an array of counters.
unfoldable pub at : List ℕ → ℕ → ℕ
at xs i = elim (get_elem? xs i) [ none ↦ 0 | some x ↦ x ]

unfoldable pub replace : Counters → ℕ → Thread → Counters
replace s i t = record s { threads = set s.threads i t }

-- What one `fetch_update` of the loop does to its thread.
unfoldable pub updated : Counters → ℕ → Thread → Option ℕ → Counters
unfolding replace
updated s i t none = replace s i (record t { stage = Stage.releasing })
updated s i t (some sum) =
    replace (record s { usage = set s.usage t.upto sum }) i (record t { upto = t.upto + 1 })

-- One iteration of the loop that the thread is in.
unfoldable pub iterate : Counters → ℕ → Thread → Stage → Counters
unfolding raise lower at replace updated
iterate s i t Stage.charging =
    if leb (length t.amounts) t.upto
    then replace s i (record t { stage = Stage.leased })
    else if at t.amounts t.upto == 0
    then replace s i (record t { upto = t.upto + 1 })
    else updated s i t (raise (at s.limits t.upto) (at t.amounts t.upto) (at s.usage t.upto))
iterate s i t Stage.leased = s
iterate s i t Stage.releasing =
    if ltb t.from t.upto
    then replace
        (record s { usage = set s.usage t.from (lower (at t.amounts t.from) (at s.usage t.from)) })
        i (record t { from = t.from + 1 })
    else s

-- The drop of a lease; no other thread has one.
unfoldable pub drop_lease : Counters → ℕ → Thread → Stage → Counters
unfolding replace
drop_lease s i t Stage.leased = replace s i (record t { stage = Stage.releasing })
drop_lease s i t _ = s

pub data Action : Type 0 where
  starts : Limits → Action
  iterates : ℕ → Action
  drops : ℕ → Action

unfoldable pub on_thread : Counters → (Thread → Counters) → Option Thread → Counters
on_thread s f none = s
on_thread s f (some t) = f t

unfoldable pub step : Counters → Action → Counters
unfolding on_thread iterate drop_lease
step s (starts limits) = record s {
  threads =
      s.threads
      ++ record { amounts = values limits; from = 0; upto = 0; stage = Stage.charging } ∷ [];
}
step s (iterates i) = on_thread s (λ t. iterate s i t t.stage) (get_elem? s.threads i)
step s (drops i) = on_thread s (λ t. drop_lease s i t t.stage) (get_elem? s.threads i)

unfoldable pub run : Counters → List Action → Counters
run s [] = s
run s (a ∷ rest) = run (step s a) rest

-- The counters of a new pool.
unfoldable pub fresh : Limits → Counters
fresh limits = record { limits = values limits; usage = replicate 7 0; threads = [] }

-- What a thread holds in a counter.
unfoldable pub held : ℕ → Thread → ℕ
held k t = if leb t.from k && ltb k t.upto then at t.amounts k else 0
