-- ===== src/Grant/Tree/Shape/Restricted.antt =====
-- The derivation of a child keeps a tree in order.
use hiway.Prelude.{ℕ, ◌≡◌, refl, Bool, Option, none, some, List, Result, ok, err, panic, arith, map}
use hiway.Errors.{TopicError}
use hiway.Grant.{Limits, Permission, partition}
use hiway.Grant.Tree.{Lease, EventAllowance, Tree, new}
use hiway.Grant.Tree.Leases.{drop_lease, charge, try_charge}
use hiway.Grant.Tree.Restrict.{
  attempt, reserve_events, derive, with_slot, reserve_child, check_child, check_all, allowance,
  dedup, sort_by_event, restrict,
}
use hiway.Grant.Tree.Shape.{Shaped, drop_lease-Shaped}
use hiway.Grant.Tree.Shape.Charged.{
  Charged, Charged-Shaped, charge-Charged, attempt-Shaped, reserve_events-Shaped,
}
use hiway.Grant.Tree.Shape.Linked.{register-Shaped}

derive-Shaped :
    (is_alive : ℕ → Bool) (tree : Tree) (node : ℕ) (held : Option (List EventAllowance))
    (ps : List Permission) (limits generic : Limits) (reservation : Lease)
    → reservation.node ≡ node
    → Shaped tree
    → Shaped (derive is_alive tree node held ps limits generic reservation).0
unfolding derive new
derive-Shaped is_alive tree node held ps limits generic reservation here h =
    let r = reserve_events tree node held ps in
    let kept = reserve_events-Shaped tree node held ps h in
    attempt-Shaped (drop_lease r.0 reservation) r.1 _ (drop_lease-Shaped r.0 reservation kept)
      (λ leases reserved.
        register-Shaped is_alive r.0 node
          (new limits generic (some (map allowance ps)) (some reservation) leases) reservation
          leases refl here refl kept)

Charged-here :
    (node : ℕ) (r : Tree × Result Lease TopicError) (lease : Lease)
    → Charged node r
    → r.1 ≡ ok lease
    → lease.node ≡ node
unfolding Charged
Charged-here node (tree, ok x) lease h e = same_node x lease node h.1 e
  where
    same_node :
        (x y : Lease) (node : ℕ)
        → x.node ≡ node
        → ◌≡◌ {A = Result Lease TopicError} (ok x) (ok y)
        → y.node ≡ node
    same_node x y node h e = grind arith
Charged-here node (tree, err x) lease h e = absurd (grind arith)
Charged-here node (tree, panic) lease h e = absurd (grind arith)

reserve_child-Shaped :
    (is_alive : ℕ → Bool) (tree : Tree) (node : ℕ) (held : Option (List EventAllowance))
    (ps : List Permission) (limits generic : Limits)
    → Shaped tree
    → Shaped (reserve_child is_alive tree node held ps limits generic).0
unfolding reserve_child try_charge
reserve_child-Shaped is_alive tree node held ps limits generic h =
    attempt-Shaped tree (with_slot (elim held [ none ↦ limits | some _ ↦ generic ])) _ h
      (λ amounts slot.
        let r = charge tree node none amounts in
        let charged = charge-Charged tree node none amounts h in
        let kept = Charged-Shaped node r charged in
        attempt-Shaped r.0 r.1 _ kept (λ reservation reserved.
          derive-Shaped is_alive r.0 node held (dedup (sort_by_event ps)) limits generic reservation
            (Charged-here node r reservation charged reserved) kept))

check_child-Shaped :
    (is_alive : ℕ → Bool) (tree : Tree) (node : ℕ) (held : Option (List EventAllowance))
    (ps : List Permission) (limits : Limits)
    → Shaped tree
    → Shaped (check_child is_alive tree node held ps limits).0
unfolding check_child
check_child-Shaped is_alive tree node held ps limits h =
    attempt-Shaped tree (check_all tree node ps) _ h (λ _ checked.
      attempt-Shaped tree (partition limits ps) _ h
        (λ generic split. reserve_child-Shaped is_alive tree node held ps limits generic h))

restrict-cases :
    (P : Tree → Type 0) (is_alive : ℕ → Bool) (tree : Tree) (node : ℕ) (ps : List Permission)
    (limits : Limits)
    → P tree
    → ((held : Option (List EventAllowance)) → P (check_child is_alive tree node held ps limits).0)
    → P (restrict is_alive tree node ps limits).0
unfolding restrict attempt
restrict-cases P is_alive tree node ps limits same checked = grind arith

pub restrict-Shaped :
    (is_alive : ℕ → Bool) (tree : Tree) (node : ℕ) (ps : List Permission) (limits : Limits)
    → Shaped tree
    → Shaped (restrict is_alive tree node ps limits).0
restrict-Shaped is_alive tree node ps limits h =
    restrict-cases Shaped is_alive tree node ps limits h
      (λ held. check_child-Shaped is_alive tree node held ps limits h)
