-- ===== src/Grant/Tree/Leases.antt =====
-- hiway/src/grant.rs: charges against the pools of a node, the leases they give, and their drops.
use hiway.Prelude.{
  ℕ, ◌+◌, Option, none, some, List, [], ◌∷◌, if◌then◌else◌, get_elem?, set, total, Result, ok, err,
  panic,
}
use hiway.Event.{EventId}
use hiway.Errors.{TopicError}
use hiway.Grant.{Limits, StreamLimits, as_limits}
use hiway.Grant.Charge.{Pool, charge_pool, release}
use hiway.Grant.Charge.Threads.{at}
use hiway.Grant.Tree.{Lease, EventAllowance, GrantNode, Tree, find_index, is_revoked}

-- `pool`: the generic pool, or that of the permission at an index.
unfoldable pub pool_of : GrantNode → Option ℕ → Option Pool
pool_of n none = some n.pool
pool_of n (some index) = elim n.permissions [
  | none ↦ none
  | some entries ↦ elim (get_elem? entries index) [ none ↦ none | some entry ↦ some entry.pool ]
]

abbrev pub set_pool : List EventAllowance → ℕ → Pool → List EventAllowance
set_pool entries index pool = elim (get_elem? entries index) [
  | none ↦ entries
  | some entry ↦ set entries index (record entry { pool = pool })
]

-- The node with its counters changed in place.
unfoldable pub with_pool : GrantNode → Option ℕ → Pool → GrantNode
with_pool n none pool = record n { pool = pool }
with_pool n (some index) pool = record n {
  permissions = elim n.permissions [
    | none ↦ none
    | some entries ↦ some (set_pool entries index pool)
  ];
}

-- `Lease::drop`
unfoldable pub drop_lease : Tree → Lease → Tree
unfolding pool_of with_pool
drop_lease tree lease = elim (get_elem? tree lease.node) [
  | none ↦ tree
  | some n ↦ elim (pool_of n lease.event) [
    | none ↦ tree
    | some pool ↦ set tree lease.node (with_pool n lease.event (release pool lease.usage))
  ]
]

-- The drop of a vector of leases.
unfoldable pub drop_leases : Tree → List Lease → Tree
drop_leases tree [] = tree
drop_leases tree (lease ∷ leases) = drop_leases (drop_lease tree lease) leases

-- The last look at the ancestors; a lease that they refuse is dropped.
unfoldable pub grant_lease :
    Tree → Lease → Result (Unit {0}) TopicError → Tree × Result Lease TopicError
unfolding is_revoked drop_lease
grant_lease tree lease (ok _) =
    if is_revoked tree lease.node
    then (drop_lease tree lease, err TopicError.revoked)
    else (tree, ok lease)
grant_lease tree lease (err e) = (tree, err e)
grant_lease tree lease panic = (tree, panic)

unfoldable pub charge_open :
    Tree → ℕ → Option ℕ → Limits → GrantNode → Tree × Result Lease TopicError
unfolding pool_of with_pool grant_lease
charge_open tree node event usage n = elim (pool_of n event) [
  | none ↦ (tree, panic)
  | some pool ↦
      let (charged, result) = charge_pool pool usage in
      grant_lease (set tree node (with_pool n event charged))
        (record { node = node; usage = usage; event = event }) result
]

unfoldable pub charge : Tree → ℕ → Option ℕ → Limits → Tree × Result Lease TopicError
unfolding is_revoked charge_open
charge tree node event usage = elim (get_elem? tree node) [
  | none ↦ (tree, panic)
  | some n ↦
      if is_revoked tree node
      then (tree, err TopicError.revoked)
      else charge_open tree node event usage n
]

unfoldable pub try_charge : Tree → ℕ → Limits → Tree × Result Lease TopicError
unfolding charge
try_charge tree node usage = charge tree node none usage

-- `event_index`
unfoldable pub event_index : GrantNode → EventId → Result ℕ TopicError
unfolding find_index
event_index n event = elim n.permissions [
  | none ↦ err TopicError.denied
  | some entries ↦ elim (find_index entries event) [
    | none ↦ err TopicError.denied
    | some index ↦ ok index
  ]
]

unfoldable pub try_charge_stream :
    Tree → ℕ → EventId → StreamLimits → Tree × Result Lease TopicError
unfolding event_index charge
try_charge_stream tree node event usage = elim (get_elem? tree node) [
  | none ↦ (tree, panic)
  | some n ↦ elim (event_index n event) [
    | ok index ↦ charge tree node (some index) (as_limits usage)
    | err e ↦ (tree, err e)
    | panic ↦ (tree, panic)
  ]
]

-- `usage`: one counter of the node with those of its events.
unfoldable pub used : GrantNode → ℕ → ℕ
used n index = at n.pool.usage index + elim n.permissions [
  | none ↦ 0
  | some entries ↦ total (λ entry. at entry.pool.usage index) entries
]

unfoldable pub usage : GrantNode → Limits
unfolding used
usage n = record {
  streams = used n 0;
  grants = used n 1;
  subscriptions = used n 2;
  retained_items = used n 3;
  waiters = used n 4;
  connections = used n 5;
  bytes = used n 6;
}

unfoldable pub stream_limits : GrantNode → EventId → Result StreamLimits TopicError
unfolding event_index
stream_limits n event = elim (event_index n event) [
  | ok index ↦ elim n.permissions [
    | none ↦ panic
    | some entries ↦ elim (get_elem? entries index) [
      | none ↦ panic
      | some entry ↦ ok entry.permission.limits
    ]
  ]
  | err e ↦ err e
  | panic ↦ panic
]

unfoldable pub stream_usage : GrantNode → EventId → Result StreamLimits TopicError
unfolding event_index pool_of
stream_usage n event = elim (event_index n event) [
  | ok index ↦ elim (pool_of n (some index)) [
    | none ↦ panic
    | some pool ↦ ok (record {
      retained_items = at pool.usage 3;
      subscriptions = at pool.usage 2;
      waiters = at pool.usage 4;
    })
  ]
  | err e ↦ err e
  | panic ↦ panic
]
