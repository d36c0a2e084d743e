-- ===== src/Grant/Tree/Shape/Stepped.antt =====
-- Entries, the drops of operations and revocations keep a tree in order.
use hiway.Prelude.{
  ℕ, zero, suc, ◌≡◌, refl, inl, inr, if◌then◌else◌, Bool, true, false, Option, none, some, List, [],
  ◌∷◌, get_elem?, set, length, ◌++◌, ◌^◌, Result, ok, err, panic, arith, Option-cases,
}
use hiway.Errors.{TopicError}
use hiway.Grant.Admission.{count, count_deferred, leave, cut_off}
use hiway.Grant.Tree.{with_state, GrantNode, Tree, is_revoked, end_operation, admit, enter_checked}
use hiway.Grant.Tree.Revoke.{
  Revocation, mark, mark_all, upgrade, started, start, await_drained, complete_all, release_waiter,
  poll,
}
use hiway.Grant.Tree.Shape.{Shaped, write-Shaped}

state-Shaped :
    (tree : Tree) (node state : ℕ) (n : GrantNode)
    → get_elem? tree node ≡ some n
    → Shaped tree
    → Shaped (set tree node (record n { state = state }))
state-Shaped tree node state n at h =
    write-Shaped tree node n (record n { state = state }) at refl refl h

pub end_operation-Shaped :
    (tree : Tree) (node : ℕ) (notify : Bool)
    → Shaped tree
    → Shaped (end_operation tree node notify).0
unfolding end_operation
end_operation-Shaped tree node notify h = ended (get_elem? tree node) refl
  where
    ended :
        (o : Option GrantNode)
        → get_elem? tree node ≡ o
        → Shaped
            (elim o as (λ _. Tree × Bool) [
              | none ↦ (tree, false)
              | some n ↦
                  let (state, wakes) = leave notify n.state in (with_state tree node n state, wakes)
            ]).0
    ended none at = h
    ended (some n) at = state-Shaped tree node (leave notify n.state).0 n at h

admit-Shaped :
    (tree : Tree) (node : ℕ) (notify : Bool) (r : Result (Unit {0}) TopicError)
    → Shaped tree
    → Shaped (admit tree node notify r).0
unfolding admit
admit-Shaped tree node notify (err e) h = h
admit-Shaped tree node notify panic h = h
admit-Shaped tree node notify (ok u) h =
    elim (is_revoked tree node)
      as (λ b.
        Shaped
          (if◌then◌else◌ {A = Tree × Result (Unit {0}) TopicError} b
            ((end_operation tree node notify).0, err TopicError.revoked) (tree, ok tt)).0) [
              | true ↦ end_operation-Shaped tree node notify h
              | false ↦ h
            ]

pub enter_checked-Shaped :
    (tree : Tree) (node : ℕ) (notify : Bool) (o : Option GrantNode)
    (r : Result (Unit {0}) TopicError)
    → get_elem? tree node ≡ o
    → Shaped tree
    → Shaped (enter_checked tree node notify o r).0
unfolding enter_checked
enter_checked-Shaped tree node notify none (ok u) at h = h
enter_checked-Shaped tree node notify (some n) (ok u) at h =
    let c = if notify then count n.state else count_deferred n.state n.state in
    admit-Shaped (with_state tree node n c.0) node notify c.1 (state-Shaped tree node c.0 n at h)
enter_checked-Shaped tree node notify none (err e) at h = h
enter_checked-Shaped tree node notify (some n) (err e) at h = h
enter_checked-Shaped tree node notify none panic at h = h
enter_checked-Shaped tree node notify (some n) panic at h = h

-- What the loop over the nodes of a revocation leaves, if it ends.
unfoldable MarkedShaped : Option (Tree × List ℕ) → Type 0
MarkedShaped none = Unit
MarkedShaped (some (tree, nodes)) = Shaped tree

mark_all-Shaped :
    (is_alive : ℕ → Bool) (fuel : ℕ) (tree : Tree) (visited queue : List ℕ)
    → Shaped tree
    → MarkedShaped (mark_all is_alive fuel tree visited queue)
unfolding mark_all mark MarkedShaped
mark_all-Shaped is_alive fuel tree visited [] h = h
mark_all-Shaped is_alive zero tree visited (node ∷ rest) h = tt
mark_all-Shaped is_alive (suc fuel) tree visited (node ∷ rest) h =
    elim (Option-cases (get_elem? tree node)) [
      | inl gone ↦ grind (arith, mark_all-Shaped is_alive fuel tree (visited ++ node ∷ []) rest h)
      | inr (n, at) ↦ grind (
        arith,
        mark_all-Shaped is_alive fuel (mark tree node n) (visited ++ node ∷ [])
            (rest ++ upgrade is_alive n.children)
            (state-Shaped tree node (cut_off n.state).0 n at h),
      )
    ]

started-Shaped :
    (node : ℕ) (tree : Tree) (o : Option (Tree × List ℕ))
    → Shaped tree
    → MarkedShaped o
    → Shaped (started node tree o).0
unfolding started MarkedShaped
started-Shaped node tree none h k = h
started-Shaped node tree (some (marked, nodes)) h k = k

pub start-Shaped :
    (is_alive : ℕ → Bool) (tree : Tree) (node : ℕ)
    → Shaped tree
    → Shaped (start is_alive tree node).0
unfolding start
start-Shaped is_alive tree node h = elim (Option-cases (get_elem? tree node)) [
  | inl gone ↦ grind arith
  | inr (n, at) ↦
      let owned = set tree node (record n { revoker = true }) in
      let kept = write-Shaped tree node n (record n { revoker = true }) at refl refl h in
      grind (
        arith,
        started-Shaped node owned (mark_all is_alive (2 ^ length tree) owned [] (node ∷ [])) kept
            (mark_all-Shaped is_alive (2 ^ length tree) owned [] (node ∷ []) kept),
      )
]

complete_all-Shaped :
    (tree : Tree) (nodes : List ℕ) → Shaped tree → Shaped (complete_all tree nodes)
unfolding complete_all
complete_all-Shaped tree [] h = h
complete_all-Shaped tree (node ∷ rest) h = elim (Option-cases (get_elem? tree node)) [
  | inl gone ↦ grind (arith, complete_all-Shaped tree rest h)
  | inr (n, at) ↦ grind (
    arith,
    complete_all-Shaped (set tree node (record n { revocation_complete = true })) rest
        (write-Shaped tree node n (record n { revocation_complete = true }) at refl refl h),
  )
]

pub release_waiter-Shaped :
    (tree : Tree) (node : ℕ) → Shaped tree → Shaped (release_waiter tree node)
unfolding release_waiter
release_waiter-Shaped tree node h = elim (Option-cases (get_elem? tree node)) [
  | inl gone ↦ grind arith
  | inr (n, at) ↦
      grind (arith, write-Shaped tree node n (record n { revoker = false }) at refl refl h)
]

pub poll-Shaped : (tree : Tree) (r : Revocation) → Shaped tree → Shaped (poll tree r).0
unfolding poll
poll-Shaped tree r h =
    elim (await_drained tree r.waiting)
      as (λ waiting.
        Shaped
          (elim waiting as (λ _. Tree × Option Revocation) [
            | [] ↦ (release_waiter (complete_all tree r.nodes) r.node, none)
            | (node ∷ rest) ↦ (tree, some (record r { waiting = node ∷ rest }))
          ]).0) [
            | [] ↦
                release_waiter-Shaped (complete_all tree r.nodes) r.node
                  (complete_all-Shaped tree r.nodes h)
            | (node ∷ rest) ↦ h
          ]
