-- ===== src/Grant/Tree/Revoke.antt =====
-- hiway/src/grant.rs: the future of `revoke`, from its first poll to its end or its drop.
pub mod Descendants
pub mod Enough
use hiway.Prelude.{
  ℕ, zero, suc, ◌^◌, Bool, true, false, Option, none, some, List, [], ◌∷◌, ◌++◌, if◌then◌else◌,
  get_elem?, set, length, Result, ok, err, panic,
}
use hiway.Errors.{TopicError}
use hiway.Grant.Admission.{cut_off, is_drained}
use hiway.Grant.Tree.{GrantNode, Tree}

-- `iter().filter_map(Weak::upgrade)`
unfoldable pub upgrade : (ℕ → Bool) → List ℕ → List ℕ
upgrade is_alive [] = []
upgrade is_alive (c ∷ cs) = if is_alive c then c ∷ upgrade is_alive cs else upgrade is_alive cs

-- What a visit of one node changes.
unfoldable pub mark : Tree → ℕ → GrantNode → Tree
mark tree node n = set tree node (record n { state = (cut_off n.state).0 })

-- The loop over the nodes from the index on, with the nodes before it: the marked tree and all the
-- nodes that were visited. Without fuel there is no result.
unfoldable pub mark_all : (ℕ → Bool) → ℕ → Tree → List ℕ → List ℕ → Option (Tree × List ℕ)
unfolding upgrade mark
mark_all is_alive fuel tree visited [] = some (tree, visited)
mark_all is_alive zero tree visited (node ∷ rest) = none
mark_all is_alive (suc fuel) tree visited (node ∷ rest) = elim (get_elem? tree node) [
  | none ↦ mark_all is_alive fuel tree (visited ++ node ∷ []) rest
  | some n ↦
      mark_all is_alive fuel (mark tree node n) (visited ++ node ∷ [])
        (rest ++ upgrade is_alive n.children)
]

-- A revocation that waits for the operations of these nodes, and of all it has marked.
pub record Revocation : Type 0 where
  pub node : ℕ
  pub waiting : List ℕ
  pub nodes : List ℕ

pub data Started : Type 0 where
  complete : Started
  waits : Revocation → Started

unfoldable pub started : ℕ → Tree → Option (Tree × List ℕ) → Tree × Result Started TopicError
started node tree none = (tree, panic)
started node tree (some (marked, nodes)) =
    (marked, ok (Started.waits (record { node = node; waiting = nodes; nodes = nodes })))

-- `revoke` up to its first wait.
unfoldable pub start : (ℕ → Bool) → Tree → ℕ → Tree × Result Started TopicError
unfolding mark_all started
start is_alive tree node = elim (get_elem? tree node) [
  | none ↦ (tree, panic)
  | some n ↦
      if n.revocation_complete
      then (tree, ok Started.complete)
      else if n.revoker
      then (tree, err TopicError.capacity)
      else let owned = set tree node (record n { revoker = true }) in
        started node owned (mark_all is_alive (2 ^ length tree) owned [] (node ∷ []))
]

unfoldable pub has_drained : Tree → ℕ → Bool
has_drained tree node = elim (get_elem? tree node) [ none ↦ true | some n ↦ is_drained n.state ]

-- The nodes that are still waited for: those from the first that has not drained.
unfoldable pub await_drained : Tree → List ℕ → List ℕ
unfolding has_drained
await_drained tree [] = []
await_drained tree (node ∷ rest) =
    let later = await_drained tree rest in if has_drained tree node then later else node ∷ rest

unfoldable pub complete_all : Tree → List ℕ → Tree
complete_all tree [] = tree
complete_all tree (node ∷ rest) = elim (get_elem? tree node) [
  | none ↦ complete_all tree rest
  | some n ↦ complete_all (set tree node (record n { revocation_complete = true })) rest
]

-- `Revoker::drop`
unfoldable pub release_waiter : Tree → ℕ → Tree
release_waiter tree node = elim (get_elem? tree node) [
  | none ↦ tree
  | some n ↦ set tree node (record n { revoker = false })
]

-- One poll: the revocation ends with its nodes completed, or goes on.
unfoldable pub poll : Tree → Revocation → Tree × Option Revocation
unfolding await_drained complete_all release_waiter
poll tree r = elim (await_drained tree r.waiting) [
  | [] ↦ (release_waiter (complete_all tree r.nodes) r.node, none)
  | (node ∷ rest) ↦ (tree, some (record r { waiting = node ∷ rest }))
]
