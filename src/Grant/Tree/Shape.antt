-- ===== src/Grant/Tree/Shape.antt =====
-- Every operation on the grants of a scope keeps the tree in order: a node is made after its parent,
-- and the children of a node after it, in the order in which they were made.
pub mod Charged
pub mod Linked
pub mod Restricted
pub mod Stepped
use mathlib.Core.Path.{subst, sym}
use hiway.Prelude.{
  ℕ, zero, suc, ◌+◌, ◌<◌, ◌≤◌, ◌≡◌, refl, ◌∙◌, ◌⊎◌, inl, inr, Bool, true, false, Option, none, some,
  List, [], ◌∷◌, ◌++◌, get_elem?, set, length, length-append, length-set, Result, ok, err, panic,
  arith, Option-cases, Bool-cases, get_elem?-eq_some, get_elem?-append_left, get_elem?-append_last,
  get_elem?-none, if◌then◌else◌,
}
use hiway.Event.{EventId}
use hiway.Errors.{TopicError}
use hiway.Grant.{Limits, Rights, StreamLimits, Permission, validate, partition, as_limits}
use hiway.Grant.Charge.{Pool, charge_pool, release}
use hiway.Grant.Tree.{
  Lease, EventAllowance, GrantNode, Tree, parent, new, root, is_revoked, end_operation, admit,
  enter_checked, enter_mode, check,
}
use hiway.Grant.Tree.Ancestors.{Rooted}
use hiway.Grant.Tree.Leases.{
  pool_of, with_pool, drop_lease, drop_leases, grant_lease, charge_open, charge, try_charge,
  event_index, try_charge_stream,
}
use hiway.Grant.Tree.Revoke.{
  Revocation, mark, mark_all, started, start, poll, complete_all, release_waiter, await_drained,
}
use hiway.Grant.Tree.Revoke.Descendants.{write-Parents}
use hiway.Grant.Tree.Revoke.Enough.{Increasing, Orderly, write-Orderly}

abbrev pub Shaped : Tree → Type 0
Shaped tree = Rooted tree × Orderly tree

-- A write that keeps a node's reservation and its children.
pub write-Shaped :
    (tree : Tree) (node : ℕ) (n m : GrantNode)
    → get_elem? tree node ≡ some n
    → m.parent_reservation ≡ n.parent_reservation
    → m.children ≡ n.children
    → Shaped tree
    → Shaped (set tree node m)
write-Shaped tree node n m at same kin h = (
  (λ i p e. h.0 i p (sym (write-Parents tree node n m at same i) ∙ e)),
  write-Orderly tree node n m at kin h.1,
)

with_pool-kin :
    (n : GrantNode) (event : Option ℕ) (pool : Pool)
    → ((with_pool n event pool).parent_reservation ≡ n.parent_reservation)
      × ((with_pool n event pool).children ≡ n.children)
unfolding with_pool
with_pool-kin n none pool = (refl, refl)
with_pool-kin n (some index) pool = (refl, refl)

pub pool-Shaped :
    (tree : Tree) (node : ℕ) (n : GrantNode) (event : Option ℕ) (pool : Pool)
    → get_elem? tree node ≡ some n
    → Shaped tree
    → Shaped (set tree node (with_pool n event pool))
pool-Shaped tree node n event pool at h =
    let kin = with_pool-kin n event pool in
    write-Shaped tree node n (with_pool n event pool) at kin.0 kin.1 h

pub drop_lease-Shaped : (tree : Tree) (lease : Lease) → Shaped tree → Shaped (drop_lease tree lease)
unfolding drop_lease
drop_lease-Shaped tree lease h = dropped (get_elem? tree lease.node) refl
  where
    dropped :
        (o : Option GrantNode)
        → get_elem? tree lease.node ≡ o
        → Shaped (elim o as (λ _. Tree) [
          | none ↦ tree
          | some n ↦ elim (pool_of n lease.event) as (λ _. Tree) [
            | none ↦ tree
            | some pool ↦ set tree lease.node (with_pool n lease.event (release pool lease.usage))
          ]
        ])
    dropped none at = h
    dropped (some n) at =
        elim (pool_of n lease.event)
          as (λ o. Shaped (elim o as (λ _. Tree) [
            | none ↦ tree
            | some pool ↦ set tree lease.node (with_pool n lease.event (release pool lease.usage))
          ])) [
            | none ↦ h
            | some pool ↦ pool-Shaped tree lease.node n lease.event (release pool lease.usage) at h
          ]

pub drop_leases-Shaped :
    (tree : Tree) (leases : List Lease) → Shaped tree → Shaped (drop_leases tree leases)
unfolding drop_leases
drop_leases-Shaped tree [] h = h
drop_leases-Shaped tree (lease ∷ leases) h =
    drop_leases-Shaped (drop_lease tree lease) leases (drop_lease-Shaped tree lease h)
