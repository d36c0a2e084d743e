-- ===== src/Grant/Tree/Revoke/Descendants.antt =====
-- A revocation that has started revokes every grant below its own.
use mathlib.Core.Path.{subst, sym}
use hiway.Prelude.{
  ℕ, zero, suc, ◌^◌, ◌≡◌, refl, ◌∙◌, inl, inr, Bool, true, none, some, List, [], ◌∷◌, ◌++◌,
  get_elem?, set, length, ok, arith, Option-cases, get_elem?-set, get_elem?-set_self,
  get_elem?-eq_some, ap,
}
use hiway.Prelude.Masks.{bit_and-bit_or}
use hiway.Grant.Admission.{cut_off, is_cut_off}
use hiway.Grant.Tree.{GrantNode, Tree, parent, is_marked, is_revoked}
use hiway.Grant.Tree.Ancestors.{Ancestor, self, above, Rooted, is_revoked_iff}
use hiway.Grant.Tree.Revoke.{mark, mark_all, upgrade, Revocation, Started, started, start}

-- One tree keeps the parents and the marks of another.
abbrev pub Keeps : Tree → Tree → Type 0
Keeps tree later =
    ((i : ℕ) → parent later i ≡ parent tree i)
    × ((i : ℕ) → is_marked tree i ≡ true → is_marked later i ≡ true)

Keeps-trans : (a b c : Tree) → Keeps a b → Keeps b c → Keeps a c
Keeps-trans a b c h k = ((λ i. k.0 i ∙ h.0 i), (λ i marked. k.1 i (h.1 i marked)))

pub write-Parents :
    (tree : Tree) (node : ℕ) (n m : GrantNode)
    → get_elem? tree node ≡ some n
    → m.parent_reservation ≡ n.parent_reservation
    → (i : ℕ) → parent (set tree node m) i ≡ parent tree i
write-Parents tree node n m at same i = grind (arith, get_elem?-set tree node i m)

-- A write of a node with the same reservation and at least the mark.
write-Keeps :
    (tree : Tree) (node : ℕ) (n m : GrantNode)
    → get_elem? tree node ≡ some n
    → m.parent_reservation ≡ n.parent_reservation
    → (is_cut_off n.state ≡ true → is_cut_off m.state ≡ true)
    → Keeps tree (set tree node m)
unfolding is_marked
write-Keeps tree node n m at same marks = (
  (λ i. grind (arith, get_elem?-set tree node i m)),
  (λ i marked. grind (arith, get_elem?-set tree node i m)),
)

cut_off-is_cut_off : (state : ℕ) → is_cut_off (cut_off state).0 ≡ true
unfolding cut_off is_cut_off
cut_off-is_cut_off state = grind (arith, bit_and-bit_or 63 state)

mark-Keeps :
    (tree : Tree) (node : ℕ) (n : GrantNode)
    → get_elem? tree node ≡ some n
    → Keeps tree (mark tree node n)
unfolding mark
mark-Keeps tree node n at =
    write-Keeps tree node n (record n { state = (cut_off n.state).0 }) at refl
      (λ _. cut_off-is_cut_off n.state)

mark-is_marked :
    (tree : Tree) (node : ℕ) (n : GrantNode)
    → get_elem? tree node ≡ some n
    → is_marked (mark tree node n) node ≡ true
unfolding mark is_marked
mark-is_marked tree node n at = grind (
  arith,
  get_elem?-set_self tree node (record n { state = (cut_off n.state).0 }),
  get_elem?-eq_some tree node n at,
  cut_off-is_cut_off n.state,
)

-- The loop keeps what is marked.
mark_all-Keeps :
    (is_alive : ℕ → Bool) (fuel : ℕ) (tree marked : Tree) (visited queue nodes : List ℕ)
    → mark_all is_alive fuel tree visited queue ≡ some (marked, nodes)
    → Keeps tree marked
unfolding mark_all
mark_all-Keeps is_alive fuel tree marked visited [] nodes e =
    subst (Keeps tree) (ap (λ r. elim r [ none ↦ tree | some p ↦ p.0 ]) e) ((λ i. refl), (λ i h. h))
mark_all-Keeps is_alive zero tree marked visited (node ∷ rest) nodes e = absurd (grind arith)
mark_all-Keeps is_alive (suc fuel) tree marked visited (node ∷ rest) nodes e =
    elim (Option-cases (get_elem? tree node)) [
      | inl gone ↦
          mark_all-Keeps is_alive fuel tree marked (visited ++ node ∷ []) rest nodes (grind arith)
      | inr (n, at) ↦ Keeps-trans tree (mark tree node n) marked (mark-Keeps tree node n at) (
          mark_all-Keeps is_alive fuel (mark tree node n) marked (visited ++ node ∷ [])
            (rest ++ upgrade is_alive n.children) nodes (grind arith))
    ]

-- The first node of the loop is marked at its end.
mark_all-first :
    (is_alive : ℕ → Bool) (fuel : ℕ) (tree marked : Tree) (node : ℕ) (n : GrantNode)
    (nodes : List ℕ)
    → get_elem? tree node ≡ some n
    → mark_all is_alive fuel tree [] (node ∷ []) ≡ some (marked, nodes)
    → is_marked marked node ≡ true
unfolding mark_all
mark_all-first is_alive zero tree marked node n nodes at e = absurd (grind arith)
mark_all-first is_alive (suc fuel) tree marked node n nodes at e =
    (mark_all-Keeps is_alive fuel (mark tree node n) marked (node ∷ [])
        (upgrade is_alive n.children) nodes (grind arith)).1
      node (mark-is_marked tree node n at)

Ancestor-Keeps :
    (tree later : Tree) (a i : ℕ) → Keeps tree later → Ancestor tree a i → Ancestor later a i
Ancestor-Keeps tree later a i k self = self
Ancestor-Keeps tree later a i k (above {p = p} at up) =
    above (k.0 i ∙ at) (Ancestor-Keeps tree later a p k up)

abbrev owned_by : Tree → ℕ → GrantNode → Tree
owned_by tree node n = set tree node (record n { revoker = true })

-- A revocation that waits has marked its nodes.
start-mark_all :
    (is_alive : ℕ → Bool) (tree later : Tree) (node : ℕ) (n : GrantNode) (r : Revocation)
    → get_elem? tree node ≡ some n
    → start is_alive tree node ≡ (later, ok (Started.waits r))
    → mark_all is_alive (2 ^ length tree) (owned_by tree node n) [] (node ∷ [])
      ≡ some (later, r.nodes)
unfolding start started
start-mark_all is_alive tree later node n r at e =
    elim (Option-cases
      (mark_all is_alive (2 ^ length tree) (owned_by tree node n) [] (node ∷ []))) [
        | inl stuck ↦ absurd (grind arith)
        | inr (found, marked) ↦ grind arith
      ]

-- A revocation that starts leaves its own node marked and keeps the tree.
start-Keeps :
    (is_alive : ℕ → Bool) (tree later : Tree) (node : ℕ) (n : GrantNode) (r : Revocation)
    → get_elem? tree node ≡ some n
    → start is_alive tree node ≡ (later, ok (Started.waits r))
    → Keeps tree later × (is_marked later node ≡ true)
start-Keeps is_alive tree later node n r at e =
    let m = record n { revoker = true } in
    let owned = owned_by tree node n in
    let at' = get_elem?-set_self tree node m (get_elem?-eq_some tree node n at) in
    let marked = start-mark_all is_alive tree later node n r at e in
    (
      Keeps-trans tree owned later (write-Keeps tree node n m at refl (λ h. h))
          (mark_all-Keeps is_alive (2 ^ length tree) owned later [] (node ∷ []) r.nodes marked),
      mark_all-first is_alive (2 ^ length tree) owned later node m r.nodes at' marked,
    )

-- If every node of a tree is made after its parent and a revocation of a grant starts to wait, the
-- grant and every grant below it are revoked, whether or not the loop reached them.
pub start-revokes :
    (is_alive : ℕ → Bool) (tree later : Tree) (node i : ℕ) (n : GrantNode) (r : Revocation)
    → Rooted tree
    → get_elem? tree node ≡ some n
    → start is_alive tree node ≡ (later, ok (Started.waits r))
    → Ancestor tree node i
    → is_revoked later i ≡ true
start-revokes is_alive tree later node i n r rooted at e up =
    let (keeps, marked) = start-Keeps is_alive tree later node n r at e in
    (is_revoked_iff later i (λ j p h. rooted j p (sym (keeps.0 j) ∙ h))).1
      (node, Ancestor-Keeps tree later node i keeps up, marked)
