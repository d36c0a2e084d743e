-- ===== src/Grant/Tree/Shape/Charged.antt =====
-- Charges keep a tree in order, and a lease that is granted is on the node that was charged.
use hiway.Prelude.{
  ℕ, ◌≡◌, refl, inl, inr, true, false, Option, none, some, List, [], ◌∷◌, ◌++◌, get_elem?, set,
  Result, ok, err, panic, arith, Option-cases, if◌then◌else◌,
}
use hiway.Event.{EventId}
use hiway.Errors.{TopicError}
use hiway.Grant.{Limits, StreamLimits, Permission, as_limits}
use hiway.Grant.Charge.{charge_pool}
use hiway.Grant.Tree.{Lease, EventAllowance, GrantNode, Tree, is_revoked}
use hiway.Grant.Tree.Leases.{
  pool_of, with_pool, drop_lease, drop_leases, grant_lease, charge_open, charge, event_index,
  try_charge_stream,
}
use hiway.Grant.Tree.Restrict.{attempt, charge_events, reserve_events}
use hiway.Grant.Tree.Shape.{Shaped, pool-Shaped, drop_lease-Shaped, drop_leases-Shaped}

-- What a charge leaves: a tree in order, and a lease on the node.
unfoldable pub Charged : ℕ → Tree × Result Lease TopicError → Type 0
Charged node (tree, ok lease) = Shaped tree × (lease.node ≡ node)
Charged node (tree, err e) = Shaped tree
Charged node (tree, panic) = Shaped tree

pub Charged-Shaped : (node : ℕ) (r : Tree × Result Lease TopicError) → Charged node r → Shaped r.0
unfolding Charged
Charged-Shaped node (tree, ok lease) h = h.0
Charged-Shaped node (tree, err e) h = h
Charged-Shaped node (tree, panic) h = h

grant_lease-Charged :
    (tree : Tree) (lease : Lease) (r : Result (Unit {0}) TopicError)
    → Shaped tree
    → Charged lease.node (grant_lease tree lease r)
unfolding grant_lease Charged
grant_lease-Charged tree lease (err e) h = h
grant_lease-Charged tree lease panic h = h
grant_lease-Charged tree lease (ok u) h =
    elim (is_revoked tree lease.node)
      as (λ b.
        Charged lease.node
          (if b then (drop_lease tree lease, err TopicError.revoked) else (tree, ok lease))) [
            | true ↦ drop_lease-Shaped tree lease h
            | false ↦ (h, refl)
          ]

charge_open-Charged :
    (tree : Tree) (node : ℕ) (event : Option ℕ) (usage : Limits) (n : GrantNode)
    → get_elem? tree node ≡ some n
    → Shaped tree
    → Charged node (charge_open tree node event usage n)
unfolding charge_open Charged
charge_open-Charged tree node event usage n at h =
    elim (pool_of n event)
      as (λ o. Charged node (elim o as (λ _. Tree × Result Lease TopicError) [
        | none ↦ (tree, panic)
        | some pool ↦
            let (charged, result) = charge_pool pool usage in
            grant_lease (set tree node (with_pool n event charged))
              (record { node = node; usage = usage; event = event }) result
      ])) [
        | none ↦ h
        | some pool ↦
            let r = charge_pool pool usage in
            grant_lease-Charged (set tree node (with_pool n event r.0))
              (record { node = node; usage = usage; event = event }) r.1
              (pool-Shaped tree node n event r.0 at h)
      ]

pub charge-Charged :
    (tree : Tree) (node : ℕ) (event : Option ℕ) (usage : Limits)
    → Shaped tree
    → Charged node (charge tree node event usage)
unfolding charge Charged
charge-Charged tree node event usage h = elim (Option-cases (get_elem? tree node)) [
  | inl gone ↦ grind arith
  | inr (n, at) ↦ grind (arith, charge_open-Charged tree node event usage n at h)
]

try_charge_stream-Charged :
    (tree : Tree) (node : ℕ) (event : EventId) (usage : StreamLimits)
    → Shaped tree
    → Charged node (try_charge_stream tree node event usage)
unfolding try_charge_stream Charged
try_charge_stream-Charged tree node event usage h = elim (Option-cases (get_elem? tree node)) [
  | inl gone ↦ grind arith
  | inr (n, at) ↦
      elim (event_index n event)
          as (λ r.
            event_index n event ≡ r → Charged node (try_charge_stream tree node event usage)) [
              | ok index ↦
                  λ e. grind (arith, charge-Charged tree node (some index) (as_limits usage) h)
              | err x ↦ λ e. grind arith
              | panic ↦ λ e. grind arith
            ]
        refl
]

pub attempt-Shaped :
    {A B : Type 0} (tree : Tree) (r : Result A TopicError) (next : A → Tree × Result B TopicError)
    → Shaped tree
    → ((a : A) → r ≡ ok a → Shaped (next a).0)
    → Shaped (attempt tree r next).0
unfolding attempt
attempt-Shaped tree (ok a) next h k = k a refl
attempt-Shaped tree (err e) next h k = h
attempt-Shaped tree panic next h k = h

-- One reservation for an event, and those after it.
charge_events-Shaped :
    (tree : Tree) (node : ℕ) (leases : List Lease) (ps : List Permission)
    → Shaped tree
    → Shaped (charge_events tree node leases ps).0
unfolding charge_events
charge_events-Shaped tree node leases [] h = h
charge_events-Shaped tree node leases (p ∷ ps) h =
    let r = try_charge_stream tree node p.event p.limits in
    let kept = Charged-Shaped node r (try_charge_stream-Charged tree node p.event p.limits h) in
    elim r.1
      as (λ result.
        Shaped
          (elim result as (λ _. Tree × Result (List Lease) TopicError) [
            | ok lease ↦ charge_events r.0 node (leases ++ lease ∷ []) ps
            | err e ↦ (drop_leases r.0 leases, err e)
            | panic ↦ (r.0, panic)
          ]).0) [
            | ok lease ↦ charge_events-Shaped r.0 node (leases ++ lease ∷ []) ps kept
            | err e ↦ drop_leases-Shaped r.0 leases kept
            | panic ↦ kept
          ]

pub reserve_events-Shaped :
    (tree : Tree) (node : ℕ) (held : Option (List EventAllowance)) (ps : List Permission)
    → Shaped tree
    → Shaped (reserve_events tree node held ps).0
unfolding reserve_events
reserve_events-Shaped tree node none ps h = h
reserve_events-Shaped tree node (some entries) ps h = charge_events-Shaped tree node [] ps h
