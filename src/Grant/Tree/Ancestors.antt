-- ===== src/Grant/Tree/Ancestors.antt =====
-- A grant is revoked exactly if it or an ancestor has its bit set.
use mathlib.Core.Path.{ap, ◌∙◌}
use hiway.Prelude.{
  ℕ, zero, suc, ◌<◌, ◌≡◌, ◌↔◌, inl, inr, Bool, true, false, some, get_elem?, Result, err, arith,
  Bool-cases, Option-cases,
}
use hiway.Event.{EventId}
use hiway.Errors.{TopicError}
use hiway.Grant.{Rights}
use hiway.Grant.Tree.{
  GrantNode, Tree, parent, is_marked, walk, is_revoked, check, enter_checked, enter_mode,
}

-- `a` is the node `i` or holds, through any number of grants between, the reservation it lives on.
pub data Ancestor (tree : Tree) (a : ℕ) : ℕ → Type 0 where
  self : Ancestor tree a a
  above : {i p : ℕ} → parent tree i ≡ some p → Ancestor tree a p → Ancestor tree a i

-- A node is made after its parent.
abbrev pub Rooted : Tree → Type 0
Rooted tree = (i p : ℕ) → parent tree i ≡ some p → p < i

walk_sound :
    (fuel : ℕ) (tree : Tree) (i : ℕ)
    → walk fuel tree i ≡ some true
    → (a : ℕ) × Ancestor tree a i × (is_marked tree a ≡ true)
unfolding walk
walk_sound zero tree i e = absurd (grind arith)
walk_sound (suc fuel) tree i e = elim (Bool-cases (is_marked tree i)) [
  | inl here ↦ (i, self, here)
  | inr unmarked ↦ elim (Option-cases (parent tree i)) [
    | inl top ↦ absurd (grind arith)
    | inr (p, at) ↦
        let (a, up, marked) = walk_sound fuel tree p (grind arith) in (a, above at up, marked)
  ]
]

walk_complete :
    (fuel : ℕ) (tree : Tree) (a i : ℕ)
    → Rooted tree
    → i < fuel
    → Ancestor tree a i
    → is_marked tree a ≡ true
    → walk fuel tree i ≡ some true
unfolding walk
walk_complete zero tree a i rooted h up marked = absurd (omega arith)
walk_complete (suc fuel) tree a i rooted h self marked = grind arith
walk_complete (suc fuel) tree a i rooted h (above {p = p} at up) marked = grind (
  arith,
  rooted i p at,
  walk_complete fuel tree a p rooted (omega (arith, rooted i p at)) up marked,
)

-- As many turns as there are nodes up to the first are enough: the loop answers.
walk_total :
    (fuel : ℕ) (tree : Tree) (i : ℕ)
    → Rooted tree
    → i < fuel
    → (answer : Bool) × (walk fuel tree i ≡ some answer)
unfolding walk
walk_total zero tree i rooted h = absurd (omega arith)
walk_total (suc fuel) tree i rooted h = elim (Bool-cases (is_marked tree i)) [
  | inl here ↦ (true, grind arith)
  | inr unmarked ↦ elim (Option-cases (parent tree i)) [
    | inl top ↦ (false, grind arith)
    | inr (p, at) ↦
        let (answer, e) = walk_total fuel tree p rooted (omega (arith, rooted i p at)) in
        (answer, grind arith)
  ]
]

pub walk-is_revoked :
    (tree : Tree) (node : ℕ) → Rooted tree → walk (suc node) tree node ≡ some (is_revoked tree node)
unfolding is_revoked
walk-is_revoked tree node rooted =
    let (answer, e) = walk_total (suc node) tree node rooted (omega arith) in grind arith

-- In a tree in which every node is made after its parent, the loop over the ancestors ends and finds
-- a grant revoked exactly if the bit of the grant or of one of its ancestors is set.
pub is_revoked_iff :
    (tree : Tree) (node : ℕ)
    → Rooted tree
    → (is_revoked tree node ≡ true) ↔ ((a : ℕ) × Ancestor tree a node × (is_marked tree a ≡ true))
unfolding is_revoked
is_revoked_iff tree node rooted = (
  (λ e. walk_sound (suc node) tree node (walk-is_revoked tree node rooted ∙ ap some e)),
  (λ (a, up, marked).
      let found = walk_complete (suc node) tree a node rooted (omega arith) up marked in
      grind arith),
)

-- What an operation on a grant answers if an ancestor is revoked.
abbrev pub Refused : Tree → Tree × Result (Unit {0}) TopicError → Type 0
Refused tree r = r ≡ (tree, err TopicError.revoked)

check-revoked :
    (tree : Tree) (node : ℕ) (event : EventId) (right : Rights) (n : GrantNode)
    → get_elem? tree node ≡ some n
    → is_revoked tree node ≡ true
    → check tree node event right ≡ err TopicError.revoked
unfolding check
check-revoked tree node event right n at e = grind arith

-- If a grant or an ancestor of it is revoked, no right of it passes a check, and neither kind of
-- entry changes anything.
pub enter-revoked :
    (tree : Tree) (node a : ℕ) (event : EventId) (right : Rights) (notify : Bool) (n : GrantNode)
    → Rooted tree
    → get_elem? tree node ≡ some n
    → Ancestor tree a node
    → is_marked tree a ≡ true
    → (check tree node event right ≡ err TopicError.revoked)
      × Refused tree (enter_mode tree node event right notify)
unfolding enter_mode enter_checked
enter-revoked tree node a event right notify n rooted at up marked =
    let e =
      check-revoked tree node event right n at
        ((is_revoked_iff tree node rooted).1 (a, up, marked)) in
    (e, grind arith)
