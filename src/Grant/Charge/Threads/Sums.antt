-- ===== src/Grant/Charge/Threads/Sums.antt =====
-- Each counter is the sum of what the threads hold in it, and within its limit.
use mathlib.Core.Path.{subst, sym}
use hiway.Prelude.{
  ℕ, ◌^◌, ◌<◌, ◌≤◌, ◌≡◌, refl, false, Option, none, some, List, [], ◌∷◌, ltb, get_elem?, length,
  replicate, total, All, arith, total-append, All-append, ◌∙◌, ok, any, any-false, suc, zero,
}
use hiway.Grant.{Limits, values, validate, isize_max}
use hiway.Grant.Charge.Threads.Iterations.{
  Valid, Ranged, iterate-Valid, drop_lease-Valid, iterate-length, drop_lease-length,
}
use hiway.Grant.Charge.Threads.{
  Stage, Thread, Counters, at, replace, updated, iterate, drop_lease, Action, on_thread, step, run,
  fresh, held,
}

started : Limits → Thread
started limits = record { amounts = values limits; from = 0; upto = 0; stage = Stage.charging }

held-started : (k : ℕ) (limits : Limits) → held k (started limits) ≡ 0
unfolding held started
held-started k limits = grind arith

-- A thread that has raised no counter that it has not lowered again.
abbrev pub IsIdle : Thread → Type 0
IsIdle t = t.upto ≤ t.from

-- A pool has as many counters as there are amounts.
abbrev pub Sized : Counters → Type 0
Sized s = (length s.usage ≡ 7) × Valid s

starts-Valid : (s : Counters) (limits : Limits) → Sized s → Valid (step s (Action.starts limits))
unfolding step started
starts-Valid s limits h = (
  (λ k small. omega (
    arith,
    h.1.0 k small,
    total-append (held k) s.threads (started limits ∷ []),
    held-started k limits,
  )),
  All-append (Ranged (length s.usage)) s.threads (started limits ∷ []) h.1.1
      ((sym h.0, omega arith, omega arith), tt),
)

on_thread-Sized :
    (s : Counters) (i : ℕ) (f : Thread → Counters)
    → ((t : Thread) → get_elem? s.threads i ≡ some t → Sized (f t))
    → Sized s
    → (o : Option Thread) → get_elem? s.threads i ≡ o
    → Sized (on_thread s f o)
unfolding on_thread
on_thread-Sized s i f keep h none e = h
on_thread-Sized s i f keep h (some t) e = keep t e

step-Sized : (s : Counters) (a : Action) → Sized s → Sized (step s a)
unfolding step
step-Sized s (Action.starts limits) h = (h.0, starts-Valid s limits h)
step-Sized s (Action.iterates i) h =
    on_thread-Sized s i (λ t. iterate s i t t.stage)
      (λ t e. (iterate-length s i t t.stage ∙ h.0, iterate-Valid s i t t.stage e h.1)) h
      (get_elem? s.threads i) refl
step-Sized s (Action.drops i) h =
    on_thread-Sized s i (λ t. drop_lease s i t t.stage)
      (λ t e. (drop_lease-length s i t t.stage ∙ h.0, drop_lease-Valid s i t t.stage e h.1)) h
      (get_elem? s.threads i) refl

run-Sized : (s : Counters) (actions : List Action) → Sized s → Sized (run s actions)
unfolding run
run-Sized s [] h = h
run-Sized s (a ∷ rest) h = run-Sized (step s a) rest (step-Sized s a h)

-- Limits that `validate` accepts are below the top bit.
at-small : (xs : List ℕ) (k : ℕ) → All (λ value. ltb isize_max value ≡ false) xs → at xs k < 2 ^ 63
unfolding at
at-small [] k h = omega arith
at-small (x ∷ xs) zero h = ground arith
at-small (x ∷ xs) (suc k) h = at-small xs k h.1

accepted :
    (limits : Limits)
    → validate limits ≡ ok tt
    → any (λ value. ltb isize_max value) (values limits) ≡ false
unfolding validate
accepted limits h = grind arith

at-values : (limits : Limits) (k : ℕ) → validate limits ≡ ok tt → at (values limits) k < 2 ^ 63
at-values limits k h =
    at-small (values limits) k
      (any-false (λ value. ltb isize_max value) (values limits) (accepted limits h))

at-replicate : (n k : ℕ) → at (replicate n 0) k ≡ 0
unfolding at
at-replicate zero k = refl
at-replicate (suc n) zero = refl
at-replicate (suc n) (suc k) = at-replicate n k

fresh-Sized : (limits : Limits) → validate limits ≡ ok tt → Sized (fresh limits)
unfolding fresh
fresh-Sized limits h =
    (refl, ((λ k small. omega (arith, at-replicate 7 k, at-values limits k h)), tt))

-- No step changes a limit.
iterate-limits :
    (s : Counters) (i : ℕ) (t : Thread) (stage : Stage) → (iterate s i t stage).limits ≡ s.limits
unfolding iterate updated replace
iterate-limits s i t Stage.charging = grind arith
iterate-limits s i t Stage.leased = refl
iterate-limits s i t Stage.releasing = grind arith

drop_lease-limits :
    (s : Counters) (i : ℕ) (t : Thread) (stage : Stage) → (drop_lease s i t stage).limits ≡ s.limits
unfolding drop_lease replace
drop_lease-limits s i t Stage.leased = refl
drop_lease-limits s i t _ = refl

step-limits : (s : Counters) (a : Action) → (step s a).limits ≡ s.limits
unfolding step on_thread drop_lease replace
step-limits s (Action.starts limits) = refl
step-limits s (Action.iterates i) =
    elim (get_elem? s.threads i)
      as (λ o. (on_thread s (λ t. iterate s i t t.stage) o).limits ≡ s.limits) [
        | none ↦ refl
        | some t ↦ iterate-limits s i t t.stage
      ]
step-limits s (Action.drops i) =
    elim (get_elem? s.threads i)
      as (λ o. (on_thread s (λ t. drop_lease s i t t.stage) o).limits ≡ s.limits) [
        | none ↦ refl
        | some t ↦ drop_lease-limits s i t t.stage
      ]

run-limits : (s : Counters) (actions : List Action) → (run s actions).limits ≡ s.limits
unfolding run
run-limits s [] = refl
run-limits s (a ∷ rest) = run-limits (step s a) rest ∙ step-limits s a

held-idle : (k : ℕ) (ts : List Thread) → All IsIdle ts → total (held k) ts ≡ 0
unfolding held
held-idle k [] h = refl
held-idle k (t ∷ ts) h = grind (arith, held-idle k ts h.1)

-- Whatever charges and releases do to a new pool of valid limits, interleaved at each counter, every
-- counter is the sum of what the threads hold in it and never above its limit.
pub run-held :
    (limits : Limits) (actions : List Action) (k : ℕ)
    → validate limits ≡ ok tt
    → k < 7
    → (at (run (fresh limits) actions).usage k
        ≡ total (held k) (run (fresh limits) actions).threads)
      × (at (run (fresh limits) actions).usage k ≤ at (values limits) k)
unfolding fresh
run-held limits actions k h small =
    let (sized, valid) = run-Sized (fresh limits) actions (fresh-Sized limits h) in
    let b = valid.0 k (omega arith) in
    (
      b.0,
      subst (λ ls. at (run (fresh limits) actions).usage k ≤ at ls k)
          (run-limits (fresh limits) actions) b.1,
    )

-- Whatever charges and releases did to a new pool of valid limits, once no thread has a counter raised
-- that it has not lowered again, every counter is back at zero: no interleaving leaks an allowance.
pub run-idle :
    (limits : Limits) (actions : List Action) (k : ℕ)
    → validate limits ≡ ok tt
    → k < 7
    → All IsIdle (run (fresh limits) actions).threads
    → at (run (fresh limits) actions).usage k ≡ 0
run-idle limits actions k h small idle =
    (run-held limits actions k h small).0 ∙ held-idle k (run (fresh limits) actions).threads idle
