-- ===== src/Grant/Tree/Runs.antt =====
-- Sequences of calls on the grants of a scope.
use mathlib.Core.Path.{subst, sym}
use hiway.Prelude.{
  ℕ, zero, suc, ◌≡◌, ◌≢◌, ◌↔◌, refl, ◌∙◌, Bool, true, Option, none, some, List, [], ◌∷◌, get_elem?,
  ok, panic, arith, ap,
}
use hiway.Event.{EventId}
use hiway.Grant.{Limits, Rights, Permission}
use hiway.Grant.Tree.{
  Lease, GrantNode, Tree, parent, new, root, is_marked, walk, is_revoked, end_operation, enter_mode,
  check,
}
use hiway.Grant.Tree.Ancestors.{Ancestor, Rooted, walk-is_revoked, is_revoked_iff}
use hiway.Grant.Tree.Leases.{drop_lease, charge}
use hiway.Grant.Tree.Restrict.{restrict}
use hiway.Grant.Tree.Revoke.{Revocation, Started, start, release_waiter, poll}
use hiway.Grant.Tree.Revoke.Descendants.{start-revokes}
use hiway.Grant.Tree.Revoke.Enough.{Orderly, Increasing, start-ne-panic}
use hiway.Grant.Tree.Shape.{Shaped, drop_lease-Shaped}
use hiway.Grant.Tree.Shape.Charged.{Charged-Shaped, charge-Charged}
use hiway.Grant.Tree.Shape.Stepped.{
  end_operation-Shaped, enter_checked-Shaped, start-Shaped, release_waiter-Shaped, poll-Shaped,
}
use hiway.Grant.Tree.Shape.Restricted.{restrict-Shaped}

abbrev children_of : Option GrantNode → List ℕ
children_of none = []
children_of (some n) = n.children

-- A call on a handle of a grant, the drop of an operation or a lease, or one step of a revocation.
-- The function says which nodes still have a strong count.
pub data Call : Type 0 where
  restricts : (ℕ → Bool) → ℕ → List Permission → Limits → Call
  enters : ℕ → EventId → Rights → Bool → Call
  ends : ℕ → Bool → Call
  charges : ℕ → Option ℕ → Limits → Call
  drops : Lease → Call
  starts : (ℕ → Bool) → ℕ → Call
  polls : Revocation → Call
  cancels : ℕ → Call

unfoldable pub step : Tree → Call → Tree
step tree (restricts is_alive node ps limits) = (restrict is_alive tree node ps limits).0
step tree (enters node event right notify) = (enter_mode tree node event right notify).0
step tree (ends node notify) = (end_operation tree node notify).0
step tree (charges node event usage) = (charge tree node event usage).0
step tree (drops lease) = drop_lease tree lease
step tree (starts is_alive node) = (start is_alive tree node).0
step tree (polls r) = (poll tree r).0
step tree (cancels node) = release_waiter tree node

unfoldable pub run : Tree → List Call → Tree
run tree [] = tree
run tree (c ∷ cs) = run (step tree c) cs

step-Shaped : (tree : Tree) (c : Call) → Shaped tree → Shaped (step tree c)
unfolding step enter_mode
step-Shaped tree (restricts is_alive node ps limits) h =
    restrict-Shaped is_alive tree node ps limits h
step-Shaped tree (enters node event right notify) h =
    enter_checked-Shaped tree node notify (get_elem? tree node) (check tree node event right) refl h
step-Shaped tree (ends node notify) h = end_operation-Shaped tree node notify h
step-Shaped tree (charges node event usage) h =
    Charged-Shaped node (charge tree node event usage) (charge-Charged tree node event usage h)
step-Shaped tree (drops lease) h = drop_lease-Shaped tree lease h
step-Shaped tree (starts is_alive node) h = start-Shaped is_alive tree node h
step-Shaped tree (polls r) h = poll-Shaped tree r h
step-Shaped tree (cancels node) h = release_waiter-Shaped tree node h

run-Shaped : (tree : Tree) (calls : List Call) → Shaped tree → Shaped (run tree calls)
unfolding run
run-Shaped tree [] h = h
run-Shaped tree (c ∷ cs) h = run-Shaped (step tree c) cs (step-Shaped tree c h)

-- The root of a new scope.
abbrev pub scope : Limits → Tree
scope limits = root limits ∷ []

alone : (limits : Limits) → (parent (scope limits) 0 ≡ none) × ((root limits).children ≡ [])
unfolding root new
alone limits = (refl, refl)

scope-Shaped : (limits : Limits) → Shaped (scope limits)
scope-Shaped limits = (rooted limits, orderly limits)
  where
    rooted : (limits : Limits) → Rooted (scope limits)
    rooted limits zero p e = absurd (grind (arith, (alone limits).0))
    rooted limits (suc i) p e = absurd (grind arith)

    orderly : (limits : Limits) → Orderly (scope limits)
    orderly limits zero n e = subst (Increasing 0 1) (sym (alone limits).1 ∙ ap children_of e) tt
    orderly limits (suc i) n e = absurd (grind arith)

-- After any calls on the grants of a new scope, for every grant, the loop over its ancestors ends, after
-- at most as many turns as there are grants made up to this one, and finds it revoked exactly if its own bit or that of an ancestor is set, and the loop of a revocation over
-- the grants below it ends too, so that a revocation answers.
pub run-ends :
    (limits : Limits) (calls : List Call) (is_alive : ℕ → Bool) (node : ℕ) (n : GrantNode)
    → get_elem? (run (scope limits) calls) node ≡ some n
    → (walk (suc node) (run (scope limits) calls) node
        ≡ some (is_revoked (run (scope limits) calls) node))
      × ((is_revoked (run (scope limits) calls) node ≡ true) ↔ (
          (a : ℕ) × Ancestor (run (scope limits) calls) a node
          × (is_marked (run (scope limits) calls) a ≡ true)))
      × ((start is_alive (run (scope limits) calls) node).1 ≢ panic)
run-ends limits calls is_alive node n at =
    let (rooted, orderly) = run-Shaped (scope limits) calls (scope-Shaped limits) in
    (
      walk-is_revoked (run (scope limits) calls) node rooted,
      is_revoked_iff (run (scope limits) calls) node rooted,
      start-ne-panic is_alive (run (scope limits) calls) node n orderly at,
    )

-- After any calls on the grants of a new scope, if a revocation of a grant starts to wait, the grant and
-- every grant below it are revoked, whether or not the loop reached them.
pub run-start-revokes :
    (limits : Limits) (calls : List Call) (is_alive : ℕ → Bool) (later : Tree) (node i : ℕ)
    (n : GrantNode) (r : Revocation)
    → get_elem? (run (scope limits) calls) node ≡ some n
    → start is_alive (run (scope limits) calls) node ≡ (later, ok (Started.waits r))
    → Ancestor (run (scope limits) calls) node i
    → is_revoked later i ≡ true
run-start-revokes limits calls is_alive later node i n r at e up =
    start-revokes is_alive (run (scope limits) calls) later node i n r
      (run-Shaped (scope limits) calls (scope-Shaped limits)).0 at e up
