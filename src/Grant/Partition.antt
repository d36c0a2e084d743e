-- ===== src/Grant/Partition.antt =====
-- A partition gives each event its capacity once and keeps the rest.
use mathlib.Core.Path.{subst, sym}
use hiway.Prelude.{
  ℕ, ◌+◌, ◌≡◌, refl, Option, none, some, List, [], ◌∷◌, ◌++◌, Result, ok, err, panic, arith, total,
}
use hiway.Errors.{TopicError}
use hiway.Grant.{
  Limits, StreamLimits, Permission, find_event, reserve, partition_step, partition_from, partition,
}

-- The permissions for an event that no earlier one is for.
unfoldable pub firsts : List Permission → List Permission → List Permission
firsts before [] = []
firsts before (p ∷ ps) = elim (find_event before p.event) [
  | none ↦ p ∷ firsts (before ++ p ∷ []) ps
  | some _ ↦ firsts (before ++ p ∷ []) ps
]

-- A sum over the limits of permissions.
unfoldable pub reserved_total : (StreamLimits → ℕ) → List Permission → ℕ
reserved_total field ps = total (λ p. field p.limits) ps

-- What is left and what is reserved are what there was.
abbrev pub Splits : Limits → List Permission → Limits → Type 0
Splits limits reserved generic =
    (generic.retained_items + reserved_total (λ l. l.retained_items) reserved
      ≡ limits.retained_items)
    × (generic.subscriptions + reserved_total (λ l. l.subscriptions) reserved
        ≡ limits.subscriptions)
    × (generic.waiters + reserved_total (λ l. l.waiters) reserved ≡ limits.waiters)
    × (generic.streams ≡ limits.streams)
    × (generic.grants ≡ limits.grants)
    × (generic.connections ≡ limits.connections)
    × (generic.bytes ≡ limits.bytes)

partition_from-err :
    (before ps : List Permission) (r : Result Limits TopicError) (generic : Limits)
    → partition_from before r ps ≡ ok generic
    → (middle : Limits) × (r ≡ ok middle)
unfolding partition_from
partition_from-err before ps (ok middle) generic e = (middle, refl)
partition_from-err before ps (err x) generic e = absurd (grind arith)
partition_from-err before ps panic generic e = absurd (grind arith)

reserve-Splits :
    (limits middle : Limits) (p : Permission)
    → reserve limits p.limits ≡ ok middle
    → Splits limits (p ∷ []) middle
unfolding reserve reserved_total
reserve-Splits limits middle p e = grind arith

Splits-trans :
    (limits middle generic : Limits) (p : Permission) (rest : List Permission)
    → Splits limits (p ∷ []) middle
    → Splits middle rest generic
    → Splits limits (p ∷ rest) generic
unfolding reserved_total
Splits-trans limits middle generic p rest first later = grind arith

kept-step :
    (limits middle : Limits) (p previous : Permission)
    → partition_step limits p (some previous) ≡ ok middle
    → limits ≡ middle
unfolding partition_step
kept-step limits middle p previous e = grind arith

-- What one permission reserves, by the earlier permission for its event.
abbrev reserved_by : Option Permission → Permission → List Permission → List Permission
reserved_by found p rest = elim found [ none ↦ p ∷ rest | some _ ↦ rest ]

step-Splits :
    (before ps rest : List Permission) (limits generic : Limits) (p : Permission)
    (found : Option Permission)
    → ((middle : Limits)
        → partition_from before (ok middle) ps ≡ ok generic
        → Splits middle rest generic)
    → partition_from before (partition_step limits p found) ps ≡ ok generic
    → Splits limits (reserved_by found p rest) generic
unfolding partition_step
step-Splits before ps rest limits generic p none later e =
    let (middle, r) = partition_from-err before ps (reserve limits p.limits) generic e in
    Splits-trans limits middle generic p rest (reserve-Splits limits middle p r)
      (later middle (subst (λ x. partition_from before x ps ≡ ok generic) r e))
step-Splits before ps rest limits generic p (some previous) later e =
    let (middle, r) =
      partition_from-err before ps (partition_step limits p (some previous)) generic e in
    subst (λ l. Splits l rest generic) (sym (kept-step limits middle p previous r))
      (later middle (subst (λ x. partition_from before x ps ≡ ok generic) r e))

partition_from-Splits :
    (before ps : List Permission) (limits generic : Limits)
    → partition_from before (ok limits) ps ≡ ok generic
    → Splits limits (firsts before ps) generic
unfolding partition_from firsts reserved_total
partition_from-Splits before [] limits generic e = grind arith
partition_from-Splits before (p ∷ ps) limits generic e =
    let before' = before ++ p ∷ [] in
    step-Splits before' ps (firsts before' ps) limits generic p (find_event before p.event)
      (λ middle. partition_from-Splits before' ps middle generic) e

-- If a partition succeeds, each event's capacity is reserved once, by the first permission for it, and
-- what is reserved and what is left add up to the limits there were.
pub partition-Splits :
    (limits generic : Limits) (permissions : List Permission)
    → partition limits permissions ≡ ok generic
    → Splits limits (firsts [] permissions) generic
unfolding partition
partition-Splits limits generic permissions e =
    partition_from-Splits [] permissions limits generic e
