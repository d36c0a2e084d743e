-- ===== src/Grant/Tree/Revoke/Enough.antt =====
-- The loop over the grants below a revoked one ends: its fuel is enough for every tree in which the
-- children of a node were made after it, each once.
use mathlib.Core.Path.{subst, sym}
use hiway.Prelude.{
  ℕ, zero, suc, ◌+◌, ◌-◌, ◌^◌, ◌<◌, ◌≤◌, ◌≡◌, refl, ◌∙◌, ◌≢◌, inl, inr, Bool, true, Option, some,
  List, [], ◌∷◌, ◌++◌, get_elem?, set, length, total, total-append, length-set, panic, arith,
  Option-cases, Bool-cases, get_elem?-set,
}
use hiway.Grant.Tree.{GrantNode, Tree}
use hiway.Grant.Tree.Revoke.{mark, mark_all, upgrade, started, start}

-- Nodes in the order in which they were made, all after `b` and before `bound`.
abbrev pub Increasing : ℕ → ℕ → List ℕ → Type 0
Increasing b bound [] = Unit
Increasing b bound (c ∷ cs) = (b < c) × (c < bound) × Increasing c bound cs

abbrev pub Orderly : Tree → Type 0
Orderly tree =
    (i : ℕ) (n : GrantNode) → get_elem? tree i ≡ some n → Increasing i (length tree) n.children

pub Increasing-weaken :
    (a b bound : ℕ) (cs : List ℕ) → a ≤ b → Increasing b bound cs → Increasing a bound cs
Increasing-weaken a b bound [] h k = tt
Increasing-weaken a b bound (c ∷ cs) h k = (omega arith, k.1, k.2)

Increasing-upgrade :
    (is_alive : ℕ → Bool) (b bound : ℕ) (cs : List ℕ)
    → Increasing b bound cs
    → Increasing b bound (upgrade is_alive cs)
unfolding upgrade
Increasing-upgrade is_alive b bound [] h = tt
Increasing-upgrade is_alive b bound (c ∷ cs) h = elim (Bool-cases (is_alive c)) [
  | inl alive ↦ rw (alive) (h.0, h.1, Increasing-upgrade is_alive c bound cs h.2)
  | inr dead ↦ rw (dead) (
      Increasing-weaken b c bound (upgrade is_alive cs) (omega arith)
        (Increasing-upgrade is_alive c bound cs h.2))
]

-- How many visits a node can still cause.
unfoldable weight : ℕ → ℕ → ℕ
weight bound i = 2 ^ (bound - i)

pow_pos : (k : ℕ) → 1 ≤ 2 ^ k
pow_pos zero = omega arith
pow_pos (suc k) = omega (arith, pow_pos k)

pow_mono : (k j : ℕ) → k ≤ j → 2 ^ k ≤ 2 ^ j
pow_mono zero j h = pow_pos j
pow_mono (suc k) zero h = absurd (omega arith)
pow_mono (suc k) (suc j) h = omega (arith, pow_mono k j (omega arith))

weight_after :
    (bound b c : ℕ) → b < c → c < bound → weight bound c + weight bound c ≤ weight bound b
unfolding weight
weight_after bound b c h k = omega (arith, pow_mono (suc (bound - c)) (bound - b) (omega arith))

-- The children of a node weigh less than it.
children_weigh :
    (bound b : ℕ) (cs : List ℕ)
    → Increasing b bound cs
    → total (weight bound) cs + 1 ≤ weight bound b
unfolding weight
children_weigh bound b [] h = pow_pos (bound - b)
children_weigh bound b (c ∷ cs) h =
    omega (arith, weight_after bound b c h.0 h.1, children_weigh bound c cs h.2)

weight_pos : (bound i : ℕ) → 1 ≤ weight bound i
unfolding weight
weight_pos bound i = pow_pos (bound - i)

pub same_children :
    (found : Option GrantNode) (n m k : GrantNode)
    → found ≡ some m
    → found ≡ some k
    → m.children ≡ n.children
    → n.children ≡ k.children
same_children found n m k e at same = grind arith

pub write-Orderly :
    (tree : Tree) (node : ℕ) (n m : GrantNode)
    → get_elem? tree node ≡ some n
    → m.children ≡ n.children
    → Orderly tree
    → Orderly (set tree node m)
write-Orderly tree node n m at same h i k at' = elim (get_elem?-set tree node i m) [
  | inl e ↦ rw (length-set tree node m) (h i k (sym e ∙ at'))
  | inr (here, e) ↦ rw (length-set tree node m) (
      subst (Increasing i (length tree))
        (same_children (get_elem? (set tree node m) i) n m k e at' same)
        (h i n (subst (λ j. get_elem? tree j ≡ some n) here at)))
]

mark-Orderly :
    (tree : Tree) (node : ℕ) (n : GrantNode)
    → get_elem? tree node ≡ some n
    → Orderly tree
    → Orderly (mark tree node n)
unfolding mark
mark-Orderly tree node n at h = write-Orderly tree node n _ at refl h

mark-length : (tree : Tree) (node : ℕ) (n : GrantNode) → length (mark tree node n) ≡ length tree
unfolding mark
mark-length tree node n = length-set tree node _

-- A visit takes one unit of fuel and no more weight than the node had.
visit_weighs :
    (is_alive : ℕ → Bool) (fuel : ℕ) (tree : Tree) (node : ℕ) (n : GrantNode) (rest : List ℕ)
    → get_elem? tree node ≡ some n
    → Orderly tree
    → total (weight (length tree)) (node ∷ rest) ≤ suc fuel
    → total (weight (length (mark tree node n))) (rest ++ upgrade is_alive n.children) ≤ fuel
visit_weighs is_alive fuel tree node n rest at h enough = rw (mark-length tree node n) (
    omega (
      arith,
      total-append (weight (length tree)) rest (upgrade is_alive n.children),
      children_weigh (length tree) node (upgrade is_alive n.children)
          (Increasing-upgrade is_alive node (length tree) n.children (h node n at)),
    ))

first_weighs :
    (tree : Tree) (node : ℕ) (m : GrantNode)
    → total (weight (length (set tree node m))) (node ∷ []) ≤ 2 ^ length tree
unfolding weight
first_weighs tree node m =
    rw (length-set tree node m)
      (omega (arith, pow_mono (length tree - node) (length tree) (omega arith)))

-- With fuel for the weight of the queue, the loop has a result.
mark_all-some :
    (is_alive : ℕ → Bool) (fuel : ℕ) (tree : Tree) (visited queue : List ℕ)
    → Orderly tree
    → total (weight (length tree)) queue ≤ fuel
    → (r : Tree × List ℕ) × (mark_all is_alive fuel tree visited queue ≡ some r)
unfolding mark_all
mark_all-some is_alive fuel tree visited [] h enough = ((tree, visited), refl)
mark_all-some is_alive zero tree visited (node ∷ rest) h enough =
    absurd (omega (arith, weight_pos (length tree) node))
mark_all-some is_alive (suc fuel) tree visited (node ∷ rest) h enough =
    elim (Option-cases (get_elem? tree node)) [
      | inl gone ↦
          let (r, e) =
            mark_all-some is_alive fuel tree (visited ++ node ∷ []) rest h
              (omega (arith, weight_pos (length tree) node)) in
          (r, grind arith)
      | inr (n, at) ↦
          let (r, e) =
            mark_all-some is_alive fuel (mark tree node n) (visited ++ node ∷ [])
              (rest ++ upgrade is_alive n.children) (mark-Orderly tree node n at h)
              (visit_weighs is_alive fuel tree node n rest at h enough) in
          (r, grind arith)
    ]

owned-Orderly :
    (tree : Tree) (node : ℕ) (n : GrantNode)
    → get_elem? tree node ≡ some n
    → Orderly tree
    → Orderly (set tree node (record n { revoker = true }))
owned-Orderly tree node n at h = write-Orderly tree node n (record n { revoker = true }) at refl h

-- If the children of every node of a tree come in the order in which they were made, after it, the
-- loop of a revocation ends: it either has completed before, is owned by another, or waits.
pub start-ne-panic :
    (is_alive : ℕ → Bool) (tree : Tree) (node : ℕ) (n : GrantNode)
    → Orderly tree
    → get_elem? tree node ≡ some n
    → (start is_alive tree node).1 ≢ panic
unfolding start started
start-ne-panic is_alive tree node n h at =
    let owned = set tree node (record n { revoker = true }) in
    let (r, e) =
      mark_all-some is_alive (2 ^ length tree) owned [] (node ∷ []) (owned-Orderly tree node n at h)
        (first_weighs tree node (record n { revoker = true })) in
    λ stuck. grind arith
