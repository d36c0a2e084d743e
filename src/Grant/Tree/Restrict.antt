-- ===== src/Grant/Tree/Restrict.antt =====
-- hiway/src/grant.rs: the derivation of a child grant with attenuated permissions.
pub mod Allowed
pub mod Attenuation
use hiway.Prelude.{
  ℕ, ◌+◌, Bool, true, false, Option, none, some, List, [], ◌∷◌, ◌++◌, ◌==◌, ltb, leb, if◌then◌else◌,
  get_elem?, set, length, map, Result, ok, err, panic, checked_add,
}
use hiway.Errors.{TopicError}
use hiway.Grant.{Limits, Permission, EventId, validate, union, as_limits, partition}
use hiway.Grant.Tree.{Lease, EventAllowance, GrantNode, Tree, new, is_revoked, check}
use hiway.Grant.Tree.Leases.{drop_lease, drop_leases, try_charge, try_charge_stream}

-- `?`: what follows runs on a value, and a failure is returned.
unfoldable pub attempt {ℓ κ} :
    {A : Type ℓ} {B : Type κ}
    → Tree
    → Result A TopicError
    → (A → Tree × Result B TopicError)
    → Tree × Result B TopicError
attempt tree (ok a) next = next a
attempt tree (err e) next = (tree, err e)
attempt tree panic next = (tree, panic)

-- The loop of `self.check(permission.event, permission.rights)?`
unfoldable pub check_all : Tree → ℕ → List Permission → Result (Unit {0}) TopicError
unfolding check
check_all tree node [] = ok tt
check_all tree node (p ∷ ps) = elim (check tree node p.event p.rights) [
  | ok _ ↦ check_all tree node ps
  | err e ↦ err e
  | panic ↦ panic
]

-- `sort_unstable_by_key(event)`
unfoldable pub insert : Permission → List Permission → List Permission
insert p [] = p ∷ []
insert p (q ∷ qs) = if leb p.event q.event then p ∷ q ∷ qs else q ∷ insert p qs

unfoldable pub sort_by_event : List Permission → List Permission
unfolding insert
sort_by_event [] = []
sort_by_event (p ∷ ps) = insert p (sort_by_event ps)

-- `dedup_by`, with the permission kept last: an equal event adds its rights to it.
unfoldable pub dedup_from : Permission → List Permission → List Permission
dedup_from earlier [] = earlier ∷ []
dedup_from earlier (later ∷ rest) =
    let is_same = later.event == earlier.event in
    let merged = record earlier { rights = union earlier.rights later.rights } in
    let kept = dedup_from (if is_same then merged else later) rest in
    if is_same then kept else earlier ∷ kept

unfoldable pub dedup : List Permission → List Permission
unfolding dedup_from
dedup [] = []
dedup (p ∷ ps) = dedup_from p ps

-- The events' reservations in the parent. When one fails, those before it are dropped.
unfoldable pub charge_events :
    Tree → ℕ → List Lease → List Permission → Tree × Result (List Lease) TopicError
unfolding try_charge_stream drop_leases
charge_events tree node leases [] = (tree, ok leases)
charge_events tree node leases (p ∷ ps) =
    let (charged, result) = try_charge_stream tree node p.event p.limits in
    elim result [
      | ok lease ↦ charge_events charged node (leases ++ lease ∷ []) ps
      | err e ↦ (drop_leases charged leases, err e)
      | panic ↦ (charged, panic)
    ]

abbrev pub allowance : Permission → EventAllowance
allowance p = record { permission = p; pool = hiway.Grant.Charge.new (as_limits p.limits) }

-- `children.retain(|child| child.strong_count() > 0)`
unfoldable pub retain : (ℕ → Bool) → List ℕ → List ℕ
retain is_alive [] = []
retain is_alive (c ∷ cs) = if is_alive c then c ∷ retain is_alive cs else retain is_alive cs

-- `retain`, then `push`
unfoldable pub adopt : (ℕ → Bool) → GrantNode → ℕ → GrantNode
unfolding retain
adopt is_alive n child = record n { children = retain is_alive n.children ++ child ∷ [] }

-- What is left of a child that is refused: its leases are dropped with it.
unfoldable pub refuse : Tree → Lease → List Lease → Tree × Result ℕ TopicError
unfolding drop_lease drop_leases
refuse tree reservation leases =
    (drop_lease (drop_leases tree leases) reservation, err TopicError.revoked)

-- The registration of the child at its parent, and the last look at the ancestors.
unfoldable pub register :
    (ℕ → Bool) → Tree → ℕ → GrantNode → Lease → List Lease → Tree × Result ℕ TopicError
unfolding is_revoked refuse adopt
register is_alive tree node child reservation leases = elim (get_elem? tree node) [
  | none ↦ (tree, panic)
  | some n ↦
      if is_revoked tree node
      then refuse tree reservation leases
      else let linked = set tree node (adopt is_alive n (length tree)) ++ child ∷ [] in
        if is_revoked linked node
        then refuse linked reservation leases
        else (linked, ok (length tree))
]

-- The reservations of the events; the root has none.
unfoldable pub reserve_events :
    Tree
    → ℕ
    → Option (List EventAllowance)
    → List Permission
    → Tree × Result (List Lease) TopicError
unfolding charge_events
reserve_events tree node none permissions = (tree, ok [])
reserve_events tree node (some _) permissions = charge_events tree node [] permissions

-- The child of a node once its own reservation is held.
unfoldable pub derive :
    (ℕ → Bool)
    → Tree
    → ℕ
    → Option (List EventAllowance)
    → List Permission
    → Limits
    → Limits
    → Lease
    → Tree × Result ℕ TopicError
unfolding reserve_events attempt new register
derive is_alive tree node held permissions limits generic reservation =
    let (charged, reserved) = reserve_events tree node held permissions in
    attempt (drop_lease charged reservation) reserved (λ leases.
      register is_alive charged node
        (new limits generic (some (map allowance permissions)) (some reservation) leases)
        reservation leases)

-- `reservation.grants.checked_add(1)`
unfoldable pub with_slot : Limits → Result Limits TopicError
with_slot l = elim (checked_add l.grants 1) [
  | none ↦ err TopicError.invalid_config
  | some grants ↦ ok (record l { grants = grants })
]

-- The reservation in the parent's own pool: all the limits from the root, else the generic part.
unfoldable pub reserve_child :
    (ℕ → Bool)
    → Tree
    → ℕ
    → Option (List EventAllowance)
    → List Permission
    → Limits
    → Limits
    → Tree × Result ℕ TopicError
unfolding attempt with_slot try_charge derive dedup sort_by_event
reserve_child is_alive tree node held permissions limits generic =
    attempt tree (with_slot (elim held [ none ↦ limits | some _ ↦ generic ])) (λ amounts.
      let (charged, reserved) = try_charge tree node amounts in
      attempt charged reserved (λ reservation.
        derive is_alive charged node held (dedup (sort_by_event permissions)) limits generic
          reservation))

-- The checks of the permissions against the parent and against the limits.
unfoldable pub check_child :
    (ℕ → Bool)
    → Tree
    → ℕ
    → Option (List EventAllowance)
    → List Permission
    → Limits
    → Tree × Result ℕ TopicError
unfolding attempt check_all reserve_child
check_child is_alive tree node held permissions limits =
    attempt tree (check_all tree node permissions) (λ _.
      attempt tree (partition limits permissions)
        (reserve_child is_alive tree node held permissions limits))

-- `restrict`; `is_alive` says which nodes still have a strong count.
unfoldable pub restrict :
    (ℕ → Bool) → Tree → ℕ → List Permission → Limits → Tree × Result ℕ TopicError
unfolding attempt check_child
restrict is_alive tree node permissions limits = elim (get_elem? tree node) [
  | none ↦ (tree, panic)
  | some n ↦ attempt tree (validate limits) (λ _.
      if ltb limits.streams (length permissions)
      then (tree, err TopicError.capacity)
      else check_child is_alive tree node n.permissions permissions limits)
]
