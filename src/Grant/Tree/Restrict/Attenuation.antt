-- ===== src/Grant/Tree/Restrict/Attenuation.antt =====
-- A child grant permits nothing that its parent does not.
use mathlib.Core.Path.{subst}
use hiway.Prelude.{
  ℕ, ◌≡◌, refl, Bool, Option, none, some, List, [], ◌∷◌, ◌++◌, get_elem?, set, length, map, Result,
  ok, err, panic, arith, get_elem?-append_last, length-set,
}
use hiway.Event.{EventId}
use hiway.Errors.{TopicError}
use hiway.Grant.{Limits, Permission, Rights, partition}
use hiway.Grant.Tree.{Lease, EventAllowance, GrantNode, Tree, new, permitted}
use hiway.Grant.Tree.Leases.{drop_lease, try_charge}
use hiway.Grant.Tree.Restrict.Allowed.{
  Allowed, check_all-Allowed, sort-All, dedup-Allowed, permits-Allowed,
}
use hiway.Grant.Tree.Restrict.{
  attempt, check_all, sort_by_event, dedup, allowance, refuse, register, reserve_events, derive,
  with_slot, reserve_child, check_child, restrict,
}

-- A sequence of attempts that gives a value passed each of them.
attempt-ok :
    {A B : Type 0} (tree tree' : Tree) (r : Result A TopicError)
    (next : A → Tree × Result B TopicError) (b : B)
    → attempt tree r next ≡ (tree', ok b)
    → (a : A) × (r ≡ ok a) × (next a ≡ (tree', ok b))
unfolding attempt
attempt-ok tree tree' (ok a) next b e = (a, refl, e)
attempt-ok tree tree' (err x) next b e = absurd (grind arith)
attempt-ok tree tree' panic next b e = absurd (grind arith)

-- A child that is returned is the node at its index.
Places : GrantNode → Tree × Result ℕ TopicError → Type 0
Places child (tree, ok index) = get_elem? tree index ≡ some child
Places child _ = Unit

placed_last :
    (tree : Tree) (node : ℕ) (n child : GrantNode)
    → get_elem? (set tree node n ++ child ∷ []) (length tree) ≡ some child
placed_last tree node n child =
    subst (λ index. get_elem? (set tree node n ++ child ∷ []) index ≡ some child)
      (length-set tree node n) (get_elem?-append_last (set tree node n) child)

register-Places :
    (is_alive : ℕ → Bool) (tree : Tree) (node : ℕ) (child : GrantNode) (reservation : Lease)
    (leases : List Lease)
    → Places child (register is_alive tree node child reservation leases)
unfolding register refuse Places
register-Places is_alive tree node child reservation leases = grind (arith, placed_last tree node)

derive-child :
    (is_alive : ℕ → Bool) (tree tree' : Tree) (node index : ℕ) (held : Option (List EventAllowance))
    (ps : List Permission) (limits generic : Limits) (reservation : Lease)
    → derive is_alive tree node held ps limits generic reservation ≡ (tree', ok index)
    → (child : GrantNode) × (get_elem? tree' index ≡ some child)
      × (child.permissions ≡ some (map allowance ps))
unfolding derive new Places
derive-child is_alive tree tree' node index held ps limits generic reservation e =
    let r = reserve_events tree node held ps in
    let child = λ (leases : List Lease).
      new limits generic (some (map allowance ps)) (some reservation) leases in
    let (leases, reserved, placed) =
      attempt-ok (drop_lease r.0 reservation) tree' r.1
        (λ leases. register is_alive r.0 node (child leases) reservation leases) index e in
    (
      child leases,
      subst (Places (child leases)) placed
          (register-Places is_alive r.0 node (child leases) reservation leases),
      refl,
    )

-- What a child that is returned was made from.
abbrev Derived : Tree → ℕ → List Permission → Type 0
Derived tree index ps =
    (child : GrantNode) × (get_elem? tree index ≡ some child)
    × (child.permissions ≡ some (map allowance (dedup (sort_by_event ps))))

reserve_child-Derived :
    (is_alive : ℕ → Bool) (tree tree' : Tree) (node index : ℕ) (held : Option (List EventAllowance))
    (ps : List Permission) (limits generic : Limits)
    → reserve_child is_alive tree node held ps limits generic ≡ (tree', ok index)
    → Derived tree' index ps
unfolding reserve_child
reserve_child-Derived is_alive tree tree' node index held ps limits generic e =
    let (amounts, slot, later) =
      attempt-ok tree tree' (with_slot (elim held [ none ↦ limits | some _ ↦ generic ])) _ index
        e in
    let r = try_charge tree node amounts in
    let (reservation, reserved, derived) = attempt-ok r.0 tree' r.1 _ index later in
    derive-child is_alive r.0 tree' node index held (dedup (sort_by_event ps)) limits generic
      reservation derived

check_child-Derived :
    (is_alive : ℕ → Bool) (tree tree' : Tree) (node index : ℕ) (held : Option (List EventAllowance))
    (ps : List Permission) (limits : Limits)
    → check_child is_alive tree node held ps limits ≡ (tree', ok index)
    → (check_all tree node ps ≡ ok tt) × Derived tree' index ps
unfolding check_child
check_child-Derived is_alive tree tree' node index held ps limits e =
    let (_, checked, later) = attempt-ok tree tree' (check_all tree node ps) _ index e in
    let (generic, split, reserved) = attempt-ok tree tree' (partition limits ps) _ index later in
    (checked, reserve_child-Derived is_alive tree tree' node index held ps limits generic reserved)

restrict-check_child :
    (is_alive : ℕ → Bool) (tree tree' : Tree) (node index : ℕ) (n : GrantNode)
    (ps : List Permission) (limits : Limits)
    → get_elem? tree node ≡ some n
    → restrict is_alive tree node ps limits ≡ (tree', ok index)
    → check_child is_alive tree node n.permissions ps limits ≡ (tree', ok index)
unfolding restrict attempt
restrict-check_child is_alive tree tree' node index n ps limits at e = grind arith

-- If a grant derives a child, every right that the child has for an event is one that the grant has
-- for it.
pub restrict-attenuates :
    (is_alive : ℕ → Bool) (tree tree' : Tree) (node index : ℕ) (n child : GrantNode)
    (ps : List Permission) (limits : Limits) (event : EventId) (right : Rights)
    → get_elem? tree node ≡ some n
    → restrict is_alive tree node ps limits ≡ (tree', ok index)
    → get_elem? tree' index ≡ some child
    → permitted child.permissions event right ≡ ok tt
    → permitted n.permissions event right ≡ ok tt
unfolding permitted
restrict-attenuates is_alive tree tree' node index n child ps limits event right at e last allowed =
    let (checked, (derived, placed, made)) =
      check_child-Derived is_alive tree tree' node index n.permissions ps limits
        (restrict-check_child is_alive tree tree' node index n ps limits at e) in
    let all =
      dedup-Allowed n.permissions (sort_by_event ps)
        (sort-All (Allowed n.permissions) ps (check_all-Allowed tree node n ps at checked)) in
    permits-Allowed n.permissions (dedup (sort_by_event ps)) event right all (grind arith)
