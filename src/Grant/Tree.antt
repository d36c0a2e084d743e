-- ===== src/Grant/Tree.antt =====
-- hiway/src/grant.rs: the nodes of the grants of a scope, and what each operation does to them.
-- An Arc of a node is its index; a node is made after its parent, so its parent's index is smaller.
pub mod Ancestors
pub mod Leases
pub mod Restrict
pub mod Revoke
pub mod Shape
pub mod Runs
mod Tests
use hiway.Prelude.{
  ℕ, zero, suc, ◌+◌, Bool, true, false, not, ◌&&◌, ◌||◌, Option, none, some, List, [], ◌∷◌, ◌==◌,
  ltb, if◌then◌else◌, get_elem?, set, length, map, Result, ok, err, panic,
}
use hiway.Event.{EventId}
use hiway.Errors.{TopicError}
use hiway.Grant.{Limits, StreamLimits, Permission, Rights, contains, as_limits}
use hiway.Grant.Admission.{count, count_deferred, leave, is_cut_off, cut_off}
use hiway.Grant.Charge.{Pool, charge_pool, release}

-- An allowance taken from the pool of a node, or from the pool of one of its events.
pub record Lease : Type 0 where
  pub node : ℕ
  pub usage : Limits
  pub event : Option ℕ

pub record EventAllowance : Type 0 where
  pub permission : Permission
  pub pool : Pool

pub record GrantNode : Type 0 where
  pub limits : Limits
  pub pool : Pool
  pub permissions : Option (List EventAllowance)
  pub parent_reservation : Option Lease
  pub event_reservations : List Lease
  pub state : ℕ
  pub revoker : Bool
  pub revocation_complete : Bool
  pub children : List ℕ

abbrev pub Tree : Type 0
Tree = List GrantNode

unfoldable pub new :
    Limits → Limits → Option (List EventAllowance) → Option Lease → List Lease → GrantNode
new limits generic permissions parent_reservation event_reservations = record {
  limits = limits;
  pool = hiway.Grant.Charge.new generic;
  permissions = permissions;
  parent_reservation = parent_reservation;
  event_reservations = event_reservations;
  state = 0;
  revoker = false;
  revocation_complete = false;
  children = [];
}

unfoldable pub root : Limits → GrantNode
unfolding new
root limits = new limits limits none none []

-- The next node of the loop of `is_revoked`.
abbrev pub parent : Tree → ℕ → Option ℕ
parent tree node = elim (get_elem? tree node) [
  | none ↦ none
  | some n ↦ elim n.parent_reservation [ none ↦ none | some reservation ↦ some reservation.node ]
]

-- Whether the bit of the node itself is set.
unfoldable pub is_marked : Tree → ℕ → Bool
is_marked tree node = elim (get_elem? tree node) [ none ↦ false | some n ↦ is_cut_off n.state ]

-- The loop of `is_revoked`: nothing when the fuel runs out.
unfoldable pub walk : ℕ → Tree → ℕ → Option Bool
unfolding is_marked
walk zero tree node = none
walk (suc fuel) tree node =
    let rest : Option Bool = elim (parent tree node) [
      | none ↦ some false
      | some above ↦ walk fuel tree above
    ] in
    if is_marked tree node then some true else rest

-- The answer of the loop with as many turns as there are nodes up to this one.
unfoldable pub is_revoked : Tree → ℕ → Bool
unfolding walk
is_revoked tree node = elim (walk (suc node) tree node) [ none ↦ false | some answer ↦ answer ]

-- The binary search of the permissions, which are sorted by their distinct events.
unfoldable pub find_index : List EventAllowance → EventId → Option ℕ
find_index [] event = none
find_index (entry ∷ entries) event =
    if entry.permission.event == event
    then some 0
    else elim (find_index entries event) [ none ↦ none | some index ↦ some (suc index) ]

unfoldable pub permits : List EventAllowance → EventId → Rights → Result (Unit {0}) TopicError
unfolding find_index
permits permissions event right = elim (find_index permissions event) [
  | none ↦ err TopicError.denied
  | some index ↦ elim (get_elem? permissions index) [
    | none ↦ panic
    | some entry ↦ if contains entry.permission.rights right then ok tt else err TopicError.denied
  ]
]

-- The permissions of a node; the root has every right.
unfoldable pub permitted :
    Option (List EventAllowance) → EventId → Rights → Result (Unit {0}) TopicError
unfolding permits
permitted none event right = ok tt
permitted (some permissions) event right = permits permissions event right

unfoldable pub check : Tree → ℕ → EventId → Rights → Result (Unit {0}) TopicError
unfolding is_revoked permitted
check tree node event right = elim (get_elem? tree node) [
  | none ↦ panic
  | some n ↦
      if is_revoked tree node then err TopicError.revoked else permitted n.permissions event right
]

abbrev pub with_state : Tree → ℕ → GrantNode → ℕ → Tree
with_state tree node n state = set tree node (record n { state = state })

-- The drop of an operation, and whether it wakes a revocation.
unfoldable pub end_operation : Tree → ℕ → Bool → Tree × Bool
end_operation tree node notify = elim (get_elem? tree node) [
  | none ↦ (tree, false)
  | some n ↦ let (state, wakes) = leave notify n.state in (with_state tree node n state, wakes)
]

-- The last look at the ancestors; an operation that they refuse is dropped.
unfoldable pub admit :
    Tree → ℕ → Bool → Result (Unit {0}) TopicError → Tree × Result (Unit {0}) TopicError
unfolding is_revoked end_operation
admit tree node notify (ok _) =
    if is_revoked tree node
    then ((end_operation tree node notify).0, err TopicError.revoked)
    else (tree, ok tt)
admit tree node notify refused = (tree, refused)

-- `enter_mode` once the node has passed its check; without `notify` the word is compared with
-- what was loaded from it.
unfoldable pub enter_checked :
    Tree
    → ℕ
    → Bool
    → Option GrantNode
    → Result (Unit {0}) TopicError
    → Tree × Result (Unit {0}) TopicError
unfolding count count_deferred admit
enter_checked tree node notify (some n) (ok _) =
    let (state, counted) = if notify then count n.state else count_deferred n.state n.state in
    admit (with_state tree node n state) node notify counted
enter_checked tree node notify none (ok _) = (tree, panic)
enter_checked tree node notify n refused = (tree, refused)

unfoldable pub enter_mode : Tree → ℕ → EventId → Rights → Bool → Tree × Result (Unit {0}) TopicError
unfolding enter_checked check
enter_mode tree node event right notify =
    enter_checked tree node notify (get_elem? tree node) (check tree node event right)
