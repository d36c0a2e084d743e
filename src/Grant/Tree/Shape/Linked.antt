-- ===== src/Grant/Tree/Shape/Linked.antt =====
-- The registration of a child keeps a tree in order.
use mathlib.Core.Path.{subst, sym}
use hiway.Prelude.{
  ℕ, zero, suc, ◌+◌, ◌<◌, ◌≡◌, refl, ◌∙◌, ◌⊎◌, inl, inr, Bool, true, false, some, List, [], ◌∷◌,
  ◌++◌, get_elem?, set, length, length-append, length-set, arith, Option-cases, get_elem?-eq_some,
  get_elem?-set, ap, if◌then◌else◌,
}
use hiway.Grant.Tree.{Lease, GrantNode, Tree, parent}
use hiway.Grant.Tree.Ancestors.{Rooted}
use hiway.Grant.Tree.Leases.{drop_leases}
use hiway.Grant.Tree.Restrict.{retain, adopt, refuse, register}
use hiway.Grant.Tree.Revoke.Descendants.{write-Parents}
use hiway.Grant.Tree.Revoke.Enough.{Increasing, Orderly, same_children, Increasing-weaken}
use hiway.Grant.Tree.Shape.{Shaped, drop_lease-Shaped, drop_leases-Shaped}

Increasing-bound : (b bound : ℕ) (cs : List ℕ) → Increasing b bound cs → Increasing b (bound + 1) cs
Increasing-bound b bound [] h = tt
Increasing-bound b bound (c ∷ cs) h = (h.0, omega arith, Increasing-bound c bound cs h.2)

Increasing-append :
    (b bound : ℕ) (cs : List ℕ)
    → b < bound
    → Increasing b bound cs
    → Increasing b (bound + 1) (cs ++ bound ∷ [])
Increasing-append b bound [] low h = (low, omega arith, tt)
Increasing-append b bound (c ∷ cs) low h = (h.0, omega arith, Increasing-append c bound cs h.1 h.2)

append_cases :
    {A : Type 0} (xs : List A) (c k : A) (i : ℕ)
    → get_elem? (xs ++ c ∷ []) i ≡ some k
    → (get_elem? xs i ≡ some k) ⊎ ((i ≡ length xs) × (c ≡ k))
append_cases [] c k zero e = inr (refl, grind arith)
append_cases [] c k (suc i) e = absurd (grind arith)
append_cases (x ∷ xs) c k zero e = inl e
append_cases (x ∷ xs) c k (suc i) e = elim (append_cases xs c k i e) [
  | inl old ↦ inl old
  | inr (last, same) ↦ inr (omega arith, same)
]

parent-some :
    (tree : Tree) (i p : ℕ)
    → parent tree i ≡ some p
    → (n : GrantNode) × (lease : Lease) × (get_elem? tree i ≡ some n)
      × (n.parent_reservation ≡ some lease)
      × (lease.node ≡ p)
parent-some tree i p e = elim (Option-cases (get_elem? tree i)) [
  | inl gone ↦ absurd (grind arith)
  | inr (n, at) ↦ elim (Option-cases n.parent_reservation) [
    | inl top ↦ absurd (grind arith)
    | inr (lease, up) ↦ (n, lease, at, up, grind arith)
  ]
]

parent-intro :
    (tree : Tree) (i : ℕ) (n : GrantNode) (lease : Lease)
    → get_elem? tree i ≡ some n
    → n.parent_reservation ≡ some lease
    → parent tree i ≡ some lease.node
parent-intro tree i n lease at up = grind arith

same_lease :
    (a b : GrantNode) (x y : Lease)
    → a ≡ b
    → a.parent_reservation ≡ some x
    → b.parent_reservation ≡ some y
    → x.node ≡ y.node
same_lease a b x y e h k = grind arith

link-Rooted :
    (tree : Tree) (node : ℕ) (n m child : GrantNode) (reservation : Lease)
    → get_elem? tree node ≡ some n
    → m.parent_reservation ≡ n.parent_reservation
    → child.parent_reservation ≡ some reservation
    → reservation.node ≡ node
    → Rooted tree
    → Rooted (set tree node m ++ child ∷ [])
link-Rooted tree node n m child reservation at same up here h i p e =
    let (k, lease, found, above, below) = parent-some (set tree node m ++ child ∷ []) i p e in
    elim (append_cases (set tree node m) child k i found) [
      | inl old ↦ h i p (
          sym (write-Parents tree node n m at same i)
          ∙ parent-intro (set tree node m) i k lease old above
          ∙ ap some below)
      | inr (last, it) ↦
          let low = get_elem?-eq_some tree node n at in
          let own = same_lease child k reservation lease it up above in
          omega (arith, length-set tree node m)
    ]

link-Orderly :
    (tree : Tree) (node : ℕ) (n m child : GrantNode)
    → get_elem? tree node ≡ some n
    → Increasing node (length tree + 1) m.children
    → child.children ≡ []
    → Orderly tree
    → Orderly (set tree node m ++ child ∷ [])
link-Orderly tree node n m child at grown none_yet h i k e =
    rw (length-append (set tree node m) (child ∷ []), length-set tree node m)
      (elim (append_cases (set tree node m) child k i e) [
        | inl old ↦ elim (get_elem?-set tree node i m) [
          | inl kept ↦ Increasing-bound i (length tree) k.children (h i k (sym kept ∙ old))
          | inr (it, fresh) ↦
              subst (Increasing i (length tree + 1))
                (same_children (get_elem? (set tree node m) i) m m k fresh old refl)
                (subst (λ j. Increasing j (length tree + 1) m.children) it grown)
        ]
        | inr (last, it) ↦
            subst (Increasing i (length tree + 1)) (sym none_yet ∙ ap (λ c. c.children) it) tt
      ])

Increasing-retain :
    (is_alive : ℕ → Bool) (b bound : ℕ) (cs : List ℕ)
    → Increasing b bound cs
    → Increasing b bound (retain is_alive cs)
unfolding retain
Increasing-retain is_alive b bound [] h = tt
Increasing-retain is_alive b bound (c ∷ cs) h =
    elim (is_alive c)
      as (λ alive.
        Increasing b bound (if alive then c ∷ retain is_alive cs else retain is_alive cs)) [
          | true ↦ (h.0, h.1, Increasing-retain is_alive c bound cs h.2)
          | false ↦
              Increasing-weaken b c bound (retain is_alive cs) (omega arith)
                (Increasing-retain is_alive c bound cs h.2)
        ]

refuse-Shaped :
    (tree : Tree) (reservation : Lease) (leases : List Lease)
    → Shaped tree
    → Shaped (refuse tree reservation leases).0
unfolding refuse
refuse-Shaped tree reservation leases h =
    drop_lease-Shaped (drop_leases tree leases) reservation (drop_leases-Shaped tree leases h)

register-cases :
    (P : Tree → Type 0) (is_alive : ℕ → Bool) (tree : Tree) (node : ℕ) (child : GrantNode)
    (reservation : Lease) (leases : List Lease)
    → P tree
    → P (refuse tree reservation leases).0
    → ((n : GrantNode)
        → get_elem? tree node ≡ some n
        → P
            (refuse
              (set tree node (adopt is_alive n (length tree)) ++ child ∷ [])
              reservation
              leases).0
          × P (set tree node (adopt is_alive n (length tree)) ++ child ∷ []))
    → P (register is_alive tree node child reservation leases).0
unfolding register
register-cases P is_alive tree node child reservation leases same refused linked = grind arith

pub register-Shaped :
    (is_alive : ℕ → Bool) (tree : Tree) (node : ℕ) (child : GrantNode) (reservation : Lease)
    (leases : List Lease)
    → child.parent_reservation ≡ some reservation
    → reservation.node ≡ node
    → child.children ≡ []
    → Shaped tree
    → Shaped (register is_alive tree node child reservation leases).0
unfolding adopt
register-Shaped is_alive tree node child reservation leases up here none_yet h =
    register-cases Shaped is_alive tree node child reservation leases h
      (refuse-Shaped tree reservation leases h)
      (λ n at.
        let m = adopt is_alive n (length tree) in
        let grown =
          Increasing-append node (length tree) (retain is_alive n.children)
            (get_elem?-eq_some tree node n at)
            (Increasing-retain is_alive node (length tree) n.children (h.1 node n at)) in
        let linked : Shaped (set tree node m ++ child ∷ []) = (
          link-Rooted tree node n m child reservation at refl up here h.0,
          link-Orderly tree node n m child at grown none_yet h.1,
        ) in
        (refuse-Shaped (set tree node m ++ child ∷ []) reservation leases linked, linked))
