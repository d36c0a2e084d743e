-- ===== src/Grant/Charge/Threads/Iterations.antt =====
-- One step of a thread keeps each counter the sum of what the threads hold in it.
use hiway.Prelude.{
  ℕ, ◌+◌, ◌-◌, ◌^◌, ◌<◌, ◌≤◌, ◌≡◌, refl, ◌≢◌, ◌⊎◌, inl, inr, some, List, get_elem?, set, length,
  total, All, arith, get_elem?-set_self, get_elem?-set_ne, length-set, total-set, le-total, All-set,
  All-get_elem?,
}
use hiway.Grant.Charge.{raise, lower}
use hiway.Grant.Charge.Threads.{
  Stage, Thread, Counters, at, replace, updated, iterate, drop_lease, held,
}

at-set_self : (xs : List ℕ) (i v : ℕ) → i < length xs → at (set xs i v) i ≡ v
unfolding at
at-set_self xs i v h = rw (at, get_elem?-set_self xs i v h) refl

at-set_ne : (xs : List ℕ) (i j v : ℕ) → i ≢ j → at (set xs i v) j ≡ at xs j
unfolding at
at-set_ne xs i j v h = rw (at, get_elem?-set_ne xs i j v h) refl

eq-cases : (k j : ℕ) → (k ≡ j) ⊎ (k ≢ j)
eq-cases k j = grind arith

-- A counter of these threads.
abbrev Balanced : Counters → ℕ → Type 0
Balanced s k =
    (at s.usage k ≡ total (held k) s.threads)
    × (at s.usage k ≤ at s.limits k)
    × (at s.limits k < 2 ^ 63)

-- A thread asks for an amount of each counter and has raised counters of the pool only.
abbrev pub Ranged : ℕ → Thread → Type 0
Ranged n t = (length t.amounts ≡ n) × (t.upto ≤ n) × (t.from ≤ t.upto)

abbrev pub Valid : Counters → Type 0
Valid s = ((k : ℕ) → k < length s.usage → Balanced s k) × All (Ranged (length s.usage)) s.threads

-- A thread changes and what it holds does not.
replace-Valid :
    (s : Counters) (i : ℕ) (t t' : Thread)
    → get_elem? s.threads i ≡ some t
    → Valid s
    → Ranged (length s.usage) t'
    → ((k : ℕ) → held k t' ≡ held k t)
    → Valid (replace s i t')
unfolding replace
replace-Valid s i t t' e h r same = (
  (λ k small. grind (arith, h.0 k small, total-set (held k) s.threads i t' t e, same k)),
  All-set (Ranged (length s.usage)) s.threads i t' h.1 r,
)

-- A thread and one counter change, by the same amount.
pub moved : Counters → ℕ → ℕ → ℕ → Thread → Counters
moved s j v i t = replace (record s { usage = set s.usage j v }) i t

moved-Balanced :
    (s : Counters) (i j v k : ℕ) (t t' : Thread)
    → get_elem? s.threads i ≡ some t
    → Valid s
    → ((k : ℕ) → k ≢ j → held k t' ≡ held k t)
    → v + held j t ≡ at s.usage j + held j t'
    → v ≤ at s.limits j
    → k < length s.usage
    → (k ≡ j) ⊎ (k ≢ j)
    → Balanced (moved s j v i t') k
unfolding moved replace
moved-Balanced s i j v k t t' e h same sum bound small (inl at_j) =
    grind (arith, h.0 k small, total-set (held k) s.threads i t' t e, at-set_self s.usage j v)
moved-Balanced s i j v k t t' e h same sum bound small (inr other) = grind (
  arith,
  h.0 k small,
  total-set (held k) s.threads i t' t e,
  same k other,
  at-set_ne s.usage j k v,
)

moved-Valid :
    (s : Counters) (i j v : ℕ) (t t' : Thread)
    → get_elem? s.threads i ≡ some t
    → Valid s
    → Ranged (length s.usage) t'
    → ((k : ℕ) → k ≢ j → held k t' ≡ held k t)
    → v + held j t ≡ at s.usage j + held j t'
    → v ≤ at s.limits j
    → Valid (moved s j v i t')
unfolding moved replace
moved-Valid s i j v t t' e h r same sum bound = (
  (λ k small.
      moved-Balanced s i j v k t t' e h same sum bound
        (omega (arith, small, length-set s.usage j v)) (eq-cases k j)),
  rw (length-set s.usage j v) (All-set (Ranged (length s.usage)) s.threads i t' h.1 r),
)

-- What an iteration of the loop of `charge` can do.
charging-cases :
    (P : Counters → Type 0) (s : Counters) (i : ℕ) (t : Thread)
    → (t.upto < length t.amounts
        → (at s.usage t.upto ≤ at s.limits t.upto) × (at s.limits t.upto < 2 ^ 63))
    → P (replace s i (record t { stage = Stage.leased }))
    → (at t.amounts t.upto ≡ 0
        → t.upto < length t.amounts
        → P (replace s i (record t { upto = t.upto + 1 })))
    → P (replace s i (record t { stage = Stage.releasing }))
    → (t.upto < length t.amounts
        → at s.usage t.upto + at t.amounts t.upto ≤ at s.limits t.upto
        → P (
            moved s t.upto
              (at s.usage t.upto + at t.amounts t.upto)
              i
              (record t { upto = t.upto + 1 })))
    → P (iterate s i t Stage.charging)
unfolding iterate updated moved raise
charging-cases P s i t h leased skipped full taken = grind arith

-- One more counter that is raised, or has nothing to be raised by.
held-next : (k : ℕ) (t : Thread) → k ≢ t.upto → held k (record t { upto = t.upto + 1 }) ≡ held k t
unfolding held
held-next k t h = grind arith

held-zero :
    (k : ℕ) (t : Thread)
    → at t.amounts t.upto ≡ 0
    → held k (record t { upto = t.upto + 1 }) ≡ held k t
unfolding held
held-zero k t h = grind arith

held-stage : (k : ℕ) (t : Thread) (stage : Stage) → held k (record t { stage = stage }) ≡ held k t
unfolding held
held-stage k t stage = refl

held-raised :
    (t : Thread)
    → t.from ≤ t.upto
    → held t.upto (record t { upto = t.upto + 1 }) ≡ held t.upto t + at t.amounts t.upto
unfolding held
held-raised t h = grind arith

charging-Valid :
    (s : Counters) (i : ℕ) (t : Thread)
    → get_elem? s.threads i ≡ some t
    → Valid s
    → Ranged (length s.usage) t
    → Valid (iterate s i t Stage.charging)
charging-Valid s i t e h r =
    charging-cases Valid s i t (λ small. let b = h.0 t.upto (omega arith) in (b.1, b.2))
      (replace-Valid s i t (record t { stage = Stage.leased }) e h r
        (λ k. held-stage k t Stage.leased))
      (λ none_asked small.
        replace-Valid s i t (record t { upto = t.upto + 1 }) e h (r.0, omega arith, omega arith)
          (λ k. held-zero k t none_asked))
      (replace-Valid s i t (record t { stage = Stage.releasing }) e h r
        (λ k. held-stage k t Stage.releasing))
      (λ small room.
        moved-Valid s i t.upto (at s.usage t.upto + at t.amounts t.upto) t
          (record t { upto = t.upto + 1 }) e h (r.0, omega arith, omega arith)
          (λ k other. held-next k t other) (omega (arith, held-raised t r.2)) room)

-- One iteration of the loops that lower the counters.
releasing-cases :
    (P : Counters → Type 0) (s : Counters) (i : ℕ) (t : Thread)
    → (t.from < t.upto → (at t.amounts t.from ≤ at s.usage t.from) × (at s.usage t.from < 2 ^ 63))
    → P s
    → (t.from < t.upto
        → P (
            moved s t.from
              (at s.usage t.from - at t.amounts t.from)
              i
              (record t { from = t.from + 1 })))
    → P (iterate s i t Stage.releasing)
unfolding iterate moved lower
releasing-cases P s i t h ended lowered = grind arith

held-lowered :
    (t : Thread)
    → t.from < t.upto
    → (held t.from (record t { from = t.from + 1 }) ≡ 0) × (held t.from t ≡ at t.amounts t.from)
unfolding held
held-lowered t h = grind arith

held-after : (k : ℕ) (t : Thread) → k ≢ t.from → held k (record t { from = t.from + 1 }) ≡ held k t
unfolding held
held-after k t h = grind arith

-- What a thread is to give back is in the counter.
held-in :
    (s : Counters) (i : ℕ) (t : Thread)
    → get_elem? s.threads i ≡ some t
    → Valid s
    → Ranged (length s.usage) t
    → t.from < t.upto
    → (at t.amounts t.from ≤ at s.usage t.from) × (at s.usage t.from < 2 ^ 63)
held-in s i t e h r small =
    let b = h.0 t.from (omega arith) in
    let sum = le-total (held t.from) s.threads i t e in
    let now = (held-lowered t small).1 in (omega arith, omega arith)

releasing-Valid :
    (s : Counters) (i : ℕ) (t : Thread)
    → get_elem? s.threads i ≡ some t
    → Valid s
    → Ranged (length s.usage) t
    → Valid (iterate s i t Stage.releasing)
releasing-Valid s i t e h r = releasing-cases Valid s i t (held-in s i t e h r) h (λ small.
    let b = h.0 t.from (omega arith) in
    let back = held-in s i t e h r small in
    let now = held-lowered t small in
    moved-Valid s i t.from (at s.usage t.from - at t.amounts t.from) t
      (record t { from = t.from + 1 }) e h (r.0, r.1, omega arith) (λ k. held-after k t)
      (omega arith) (omega arith))

pub iterate-Valid :
    (s : Counters) (i : ℕ) (t : Thread) (stage : Stage)
    → get_elem? s.threads i ≡ some t
    → Valid s
    → Valid (iterate s i t stage)
unfolding iterate
iterate-Valid s i t Stage.charging e h =
    charging-Valid s i t e h (All-get_elem? (Ranged (length s.usage)) s.threads i t h.1 e)
iterate-Valid s i t Stage.leased e h = h
iterate-Valid s i t Stage.releasing e h =
    releasing-Valid s i t e h (All-get_elem? (Ranged (length s.usage)) s.threads i t h.1 e)

pub drop_lease-Valid :
    (s : Counters) (i : ℕ) (t : Thread) (stage : Stage)
    → get_elem? s.threads i ≡ some t
    → Valid s
    → Valid (drop_lease s i t stage)
unfolding drop_lease
drop_lease-Valid s i t Stage.leased e h =
    replace-Valid s i t (record t { stage = Stage.releasing }) e h
      (All-get_elem? (Ranged (length s.usage)) s.threads i t h.1 e)
      (λ k. held-stage k t Stage.releasing)
drop_lease-Valid s i t _ e h = h

-- No step adds or removes a counter.
pub iterate-length :
    (s : Counters) (i : ℕ) (t : Thread) (stage : Stage)
    → length (iterate s i t stage).usage ≡ length s.usage
unfolding iterate updated replace
iterate-length s i t Stage.charging = grind (arith, length-set s.usage)
iterate-length s i t Stage.leased = refl
iterate-length s i t Stage.releasing = grind (arith, length-set s.usage)

pub drop_lease-length :
    (s : Counters) (i : ℕ) (t : Thread) (stage : Stage)
    → length (drop_lease s i t stage).usage ≡ length s.usage
unfolding drop_lease replace
drop_lease-length s i t Stage.leased = refl
drop_lease-length s i t _ = refl
