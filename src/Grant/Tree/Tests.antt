-- ===== src/Grant/Tree/Tests.antt =====
-- A root grant and a child that is derived from it.
use hiway.Prelude.{
  ◌∙◌, get_elem?, ℕ, ◌≡◌, refl, ◌↔◌, ◌≢◌, true, false, none, some, List, [], ◌∷◌, ok, panic, ap,
}
use hiway.Grant.{
  Limits, Permission, zero_limits, publish, observe, union, contains, validate, partition,
  partition_from, partition_step, reserve, as_limits,
}
use hiway.Grant.Admission.{revoked, is_cut_off, cut_off}
use hiway.Grant.Charge.{charge_pool, raise, raised, raise_from, settle, lower, lower_all}
use hiway.Grant.Tree.{
  parent, Lease, GrantNode, Tree, new, root, is_marked, walk, is_revoked, find_index, permits,
  permitted, check,
}
use hiway.Grant.Tree.Leases.{pool_of, with_pool, grant_lease, charge_open, charge, try_charge}
use hiway.Grant.Tree.Ancestors.{Ancestor, self, above}
use hiway.Grant.Tree.Restrict.{
  retain, attempt, check_all, insert, sort_by_event, dedup_from, dedup, adopt, register,
  reserve_events, derive, with_slot, reserve_child, check_child, restrict,
}
use hiway.Grant.Tree.Runs.{Call, run, step, scope, run-ends, run-start-revokes}
use hiway.Grant.Tree.Restrict.Attenuation.{restrict-attenuates}
use hiway.Grant.Tree.Revoke.{Revocation, Started, start, started, mark_all, mark, upgrade}

abbrev limits : Limits
limits = record zero_limits { streams = 2; grants = 3; retained_items = 10; subscriptions = 4 }

abbrev top : GrantNode
top = record {
  limits = limits;
  pool = record { limits = limits; usage = 0 ∷ 0 ∷ 0 ∷ 0 ∷ 0 ∷ 0 ∷ 0 ∷ [] };
  permissions = none;
  parent_reservation = none;
  event_reservations = [];
  state = 0;
  revoker = false;
  revocation_complete = false;
  children = [];
}

root-limits : root limits ≡ top
unfolding root new hiway.Grant.Charge.new
root-limits = refl

-- Two permissions for one event, out of order with another.
abbrev permissions : List Permission
permissions =
    record {
      event = 9;
      rights = publish;
      limits = record { retained_items = 2; subscriptions = 0; waiters = 0 };
    }
    ∷ record {
      event = 9;
      rights = observe;
      limits = record { retained_items = 2; subscriptions = 0; waiters = 0 };
    }
    ∷ []

abbrev part : Limits
part = record zero_limits { streams = 2; retained_items = 5 }

abbrev lease : Lease
lease = record { node = 0; usage = record part { grants = 1 }; event = none }

abbrev child : GrantNode
child = record {
  limits = part;
  pool = record {
    limits = record part { retained_items = 3 };
    usage = 0 ∷ 0 ∷ 0 ∷ 0 ∷ 0 ∷ 0 ∷ 0 ∷ [];
  };
  permissions = some (
      record {
        permission = record {
          event = 9;
          rights = 3;
          limits = record { retained_items = 2; subscriptions = 0; waiters = 0 };
        };
        pool = record {
          limits = record zero_limits { retained_items = 2 };
          usage = 0 ∷ 0 ∷ 0 ∷ 0 ∷ 0 ∷ 0 ∷ 0 ∷ [];
        };
      }
      ∷ []);
  parent_reservation = some lease;
  event_reservations = [];
  state = 0;
  revoker = false;
  revocation_complete = false;
  children = [];
}

abbrev tree : Tree
tree =
    record top {
      pool = record { limits = limits; usage = 2 ∷ 1 ∷ 0 ∷ 5 ∷ 0 ∷ 0 ∷ 0 ∷ [] };
      children = 1 ∷ [];
    }
    ∷ child
    ∷ []

restrict-tree : restrict (λ _. true) (top ∷ []) 0 permissions part ≡ (tree, ok 1)
unfolding restrict attempt validate check_child check_all check is_revoked walk is_marked is_cut_off
    permitted partition partition_from partition_step reserve reserve_child with_slot try_charge
    charge charge_open pool_of with_pool grant_lease charge_pool raise raised raise_from settle
    derive dedup dedup_from sort_by_event insert union reserve_events register adopt retain new
    as_limits hiway.Grant.Charge.new
restrict-tree = refl

restrict-attenuates_example : permitted none 9 observe ≡ ok tt
unfolding permitted permits find_index contains
restrict-attenuates_example =
    restrict-attenuates (λ _. true) (top ∷ []) tree 0 1 top child permissions part 9 observe refl
      restrict-tree refl refl

-- The revocation of the root of the tree marks both nodes.
abbrev marked_tree : Tree
marked_tree =
    record top {
      pool = record { limits = limits; usage = 2 ∷ 1 ∷ 0 ∷ 5 ∷ 0 ∷ 0 ∷ 0 ∷ [] };
      state = revoked;
      revoker = true;
      children = 1 ∷ [];
    }
    ∷ record child { state = revoked }
    ∷ []

abbrev revocation : Revocation
revocation = record { node = 0; waiting = 0 ∷ 1 ∷ []; nodes = 0 ∷ 1 ∷ [] }

start-marked_tree : start (λ _. true) tree 0 ≡ (marked_tree, ok (Started.waits revocation))
unfolding start started mark_all mark upgrade cut_off
start-marked_tree = refl

abbrev calls : List Call
calls = Call.restricts (λ _. true) 0 permissions part ∷ []

run-tree : run (scope limits) calls ≡ tree
unfolding run step root restrict attempt validate check_child check_all check is_revoked walk
    is_marked is_cut_off permitted partition partition_from partition_step reserve reserve_child
    with_slot try_charge charge charge_open pool_of with_pool grant_lease charge_pool raise raised
    raise_from settle derive dedup dedup_from sort_by_event insert union reserve_events register
    adopt retain new as_limits hiway.Grant.Charge.new
run-tree = refl

run-ends_example :
    (walk 2 (run (scope limits) calls) 1 ≡ some (is_revoked (run (scope limits) calls) 1))
    × ((is_revoked (run (scope limits) calls) 1 ≡ true) ↔ (
        (a : ℕ) × Ancestor (run (scope limits) calls) a 1
        × (is_marked (run (scope limits) calls) a ≡ true)))
    × ((start (λ _. true) (run (scope limits) calls) 1).1 ≢ panic)
run-ends_example =
    run-ends limits calls (λ _. true) 1 child (ap (λ tree. get_elem? tree 1) run-tree)

run-start-revokes_example : is_revoked marked_tree 1 ≡ true
run-start-revokes_example =
    run-start-revokes limits calls (λ _. true) marked_tree 0 1
      (record top {
        pool = record { limits = limits; usage = 2 ∷ 1 ∷ 0 ∷ 5 ∷ 0 ∷ 0 ∷ 0 ∷ [] };
        children = 1 ∷ [];
      })
      revocation (ap (λ tree. get_elem? tree 0) run-tree)
      (ap (λ tree. start (λ _. true) tree 0) run-tree ∙ start-marked_tree)
      (above (ap (λ tree. parent tree 1) run-tree) self)
