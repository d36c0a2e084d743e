-- ===== src/Transport/Reservation.antt =====
-- hiway/src/transport/grant.rs and hiway/src/resources.rs: transport storage and decoded resources
-- that are charged to a grant, and the entries of a link through its reservation.
use hiway.Prelude.{
  ℕ, ◌≡◌, Bool, true, false, not, ◌&&◌, ◌||◌, some, get_elem?, ltb, ◌==◌, if◌then◌else◌, Result, ok,
  err, panic, arith,
}
use hiway.Event.{Delivery}
use hiway.Errors.{TopicError}
use hiway.Grant.{Limits, Rights, zero_limits, publish, observe}
use hiway.Grant.Tree.{Lease, GrantNode, Tree, enter_mode, end_operation, is_marked}
use hiway.Grant.Tree.Ancestors.{Ancestor, Rooted, enter-revoked}
use hiway.Grant.Tree.Leases.{try_charge}
use hiway.Transport.Contract.{Contract, Direction}

-- `_lease` is the allowance that is held while the reservation lives.
pub record GrantReservation : Type 0 where
  pub node : ℕ
  pub contract : Contract
  pub direction : Direction
  pub bytes : ℕ
  pub rights : Rights
  pub lease : Lease

unfoldable pub rights_for : Direction → Rights
rights_for Direction.imports = publish
rights_for Direction.exports = observe

abbrev pub transport_limits : ℕ → Limits
transport_limits bytes = record zero_limits {
  connections = 2;
  retained_items = 1;
  waiters = 1;
  bytes = bytes;
}

-- The charge, once the operation is entered; the operation ends with the call.
unfoldable pub reserve_entered :
    ℕ
    → Contract
    → Direction
    → ℕ
    → Tree × Result (Unit {0}) TopicError
    → Tree × Result GrantReservation TopicError
unfolding try_charge end_operation rights_for
reserve_entered node contract direction bytes (tree, ok _) =
    let (charged, result) = try_charge tree node (transport_limits bytes) in
    (
      (end_operation charged node true).0,
      elim result [
        | err e ↦ err e
        | panic ↦ panic
        | ok lease ↦ ok (record {
          node = node;
          contract = contract;
          direction = direction;
          bytes = bytes;
          rights = rights_for direction;
          lease = lease;
        })
      ],
    )
reserve_entered node contract direction bytes (tree, err e) = (tree, err e)
reserve_entered node contract direction bytes (tree, panic) = (tree, panic)

unfoldable pub reserve_transport :
    Tree → ℕ → Contract → Direction → ℕ → Tree × Result GrantReservation TopicError
unfolding reserve_entered rights_for
reserve_transport tree node contract direction bytes =
    reserve_entered node contract direction bytes
      (enter_mode tree node contract.event (rights_for direction) true)

abbrev pub same_delivery : Delivery → Delivery → Bool
same_delivery Delivery.ordered Delivery.ordered = true
same_delivery Delivery.latest Delivery.latest = true
same_delivery _ _ = false

abbrev pub same_direction : Direction → Direction → Bool
same_direction Direction.imports Direction.imports = true
same_direction Direction.exports Direction.exports = true
same_direction _ _ = false

abbrev pub same_contract : Contract → Contract → Bool
same_contract a b =
    a.event == b.event
    && a.major == b.major
    && a.revision == b.revision
    && same_delivery a.delivery b.delivery

-- `Reservation::check`
unfoldable pub check_reservation :
    GrantReservation → Contract → Direction → ℕ → Result (Unit {0}) TopicError
check_reservation r contract direction bytes =
    if not (same_contract contract r.contract) || not (same_direction direction r.direction)
    then err TopicError.denied
    else if ltb r.bytes bytes
    then err TopicError.capacity
    else ok tt

-- `Reservation::enter` and `StrictReservation::enter_deferred`
unfoldable pub enter_reservation :
    Tree → GrantReservation → Bool → Tree × Result (Unit {0}) TopicError
enter_reservation tree r notify = enter_mode tree r.node r.contract.event r.rights notify

-- `reserve_resources`
unfoldable pub reserve_resources : Tree → ℕ → ℕ → ℕ → Tree × Result Lease TopicError
unfolding try_charge
reserve_resources tree node retained_items bytes =
    try_charge tree node (record zero_limits { retained_items = retained_items; bytes = bytes })

pub reserve_transport-revoked :
    (tree : Tree) (node a : ℕ) (contract : Contract) (direction : Direction) (bytes : ℕ)
    (n : GrantNode)
    → Rooted tree
    → get_elem? tree node ≡ some n
    → Ancestor tree a node
    → is_marked tree a ≡ true
    → reserve_transport tree node contract direction bytes ≡ (tree, err TopicError.revoked)
unfolding reserve_transport reserve_entered
reserve_transport-revoked tree node a contract direction bytes n rooted at up marked = grind (
  arith,
  (enter-revoked tree node a contract.event (rights_for direction) true n rooted at up marked).1,
)
