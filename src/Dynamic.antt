-- ===== src/Dynamic.antt =====
-- hiway/src/alloc_local.rs: the retained stream in shared storage. What the lock, the grants and
-- their pools answer is an argument of each operation: a lock that is held elsewhere, the result of
-- an entry or of a charge, and which nodes are revoked. A function here is what runs under one use of
-- the lock; Dynamic/Work puts the sections of `maintain`, `reserve` and the receiver's drop together.
pub mod Calls
pub mod Work
pub mod Advance
pub mod Retained
pub mod Kept
pub mod Moved
pub mod Runs
mod Tests
use hiway.Prelude.{
  ℕ, zero, suc, ◌+◌, ◌-◌, max, Bool, true, false, not, ◌&&◌, ◌||◌, Option, none, some, List, [],
  ◌∷◌, ◌++◌, ◌==◌, ltb, leb, if◌then◌else◌, get_elem?, set, length, replicate, any, Result, ok, err,
  panic, checked_add, u64_max,
}
use hiway.Event.{Delivery, ordered, latest}
use hiway.Errors.{TopicError, CloseReason, TrySendError, ReceiveError}
use hiway.Grant.{validate, zero_limits}
use hiway.Static.{SubscriptionRole, StreamItem, item, gap}

pub record StreamConfig : Type 0 where
  pub capacity : ℕ
  pub subscribers : ℕ
  pub waiters : ℕ

-- `StreamConfig::default()`
abbrev pub default_config : StreamConfig
default_config = record { capacity = 64; subscribers = 16; waiters = 32 }

-- `owner` is the node that the lease of the entry charges.
pub record Entry (T : Type 0) : Type 0 where
  pub sequence : ℕ
  pub value : T
  pub owner : ℕ

pub record CursorKey : Type 0 where
  pub index : ℕ
  pub id : ℕ

pub record Cursor : Type 0 where
  pub id : ℕ
  pub next : ℕ
  pub role : SubscriptionRole
  pub grant : ℕ

pub record State (T : Type 0) : Type 0 where
  pub entries : List (Entry T)
  pub subscribers : List (Option Cursor)
  pub tail : ℕ
  pub next_cursor : ℕ
  pub closed : Bool
  pub needs_room : Bool
  pub retired : Option (Entry T)

-- A new stream, with the room for its subscribers.
unfoldable pub new : {T : Type 0} → StreamConfig → State T
new config = record {
  entries = [];
  subscribers = replicate config.subscribers none;
  tail = 0;
  next_cursor = 0;
  closed = false;
  needs_room = false;
  retired = none;
}

abbrev pub is_latest : Delivery → Bool
is_latest latest = true
is_latest ordered = false

abbrev pub is_required : SubscriptionRole → Bool
is_required SubscriptionRole.required = true
is_required SubscriptionRole.observer = false

-- The bounds that `create_stream` accepts.
unfoldable pub check_config : Delivery → StreamConfig → Result (Unit {0}) TopicError
unfolding validate
check_config delivery config =
    elim (validate (record zero_limits {
      streams = 1;
      retained_items = config.capacity;
      subscriptions = config.subscribers;
      waiters = config.waiters;
    })) [
      | err e ↦ err e
      | panic ↦ panic
      | ok _ ↦
          if config.capacity == 0 || (is_latest delivery && not (config.capacity == 1))
          then err TopicError.invalid_config
          else ok tt
    ]

-- Whether a live required cursor has yet to read a sequence.
unfoldable pub needs : (ℕ → Bool) → ℕ → Option Cursor → Bool
needs revoked sequence none = false
needs revoked sequence (some c) = is_required c.role && leb c.next sequence && not (revoked c.grant)

-- Whether a cursor, if it is live, has read a sequence.
unfoldable pub has_read : (ℕ → Bool) → ℕ → Option Cursor → Bool
has_read revoked sequence none = true
has_read revoked sequence (some c) = ltb sequence c.next || revoked c.grant

-- `subscribers.iter().position(Option::is_none)`
unfoldable pub free_slot : List (Option Cursor) → Option ℕ
free_slot [] = none
free_slot (none ∷ cs) = some 0
free_slot (some c ∷ cs) = elim (free_slot cs) [ none ↦ none | some i ↦ some (suc i) ]

module _ {T : Type 0} where
  unfoldable pub required_needs : (ℕ → Bool) → State T → ℕ → Bool
  unfolding needs
  required_needs revoked s sequence = any (needs revoked sequence) s.subscribers

  unfoldable pub consumed : (ℕ → Bool) → State T → ℕ → Bool
  unfolding has_read
  consumed revoked s sequence = not (any (λ c. not (has_read revoked sequence c)) s.subscribers)

  -- `entries.front().is_some_and(|entry| test(entry.sequence))`
  unfoldable pub front_is : (ℕ → Bool) → List (Entry T) → Bool
  front_is test [] = false
  front_is test (e ∷ es) = test e.sequence

  -- `pop_front`
  abbrev pub pop_front : List (Entry T) → List (Entry T)
  pop_front [] = []
  pop_front (e ∷ es) = es

  abbrev pub front : List (Entry T) → Option (Entry T)
  front [] = none
  front (e ∷ es) = some e

  unfoldable pub popped : State T → State T
  popped s = record s { entries = pop_front s.entries }

  -- The first use of the lock in `Stream::maintain`, which a lock that is held elsewhere skips.
  unfoldable pub drop_retired : Bool → State T → State T
  drop_retired busy s = if busy then s else record s { retired = none }

  -- One turn of the loop of `retire_consumed`, and whether the loop goes on.
  unfoldable pub retire_turn : (ℕ → Bool) → Bool → State T → State T × Bool
  unfolding front_is consumed popped
  retire_turn revoked busy s =
      if busy then (s, false) else elim (front_is (consumed revoked s) s.entries) [
        | false ↦ (s, false)
        | true ↦ (popped s, true)
      ]

  -- The last use of the lock in `Stream::maintain`: the room that a deferred publication has asked
  -- for, unless the lock is held elsewhere.
  unfoldable pub make_room : ℕ → (ℕ → Bool) → Bool → State T → State T
  unfolding front_is required_needs popped
  make_room capacity revoked busy s =
      if busy
      then s
      else if s.needs_room
          && length s.entries == capacity
          && front_is (λ sequence. not (required_needs revoked s sequence)) s.entries
      then record (popped s) { needs_room = false }
      else record s { needs_room = false }

  -- `Grant::subscribe` under the lock.
  unfoldable pub subscribe_at :
      State T → ℕ → ℕ → SubscriptionRole → ℕ → Option ℕ → State T × Result CursorKey TopicError
  subscribe_at s grant next role index none = (s, err TopicError.capacity)
  subscribe_at s grant next role index (some next_id) = (
    record s {
      next_cursor = next_id;
      subscribers =
          set s.subscribers index
            (some (record { id = s.next_cursor; next = next; role = role; grant = grant }));
    },
    ok (record { index = index; id = s.next_cursor }),
  )

  unfoldable pub subscribe :
      Delivery → State T → ℕ → SubscriptionRole → State T × Result CursorKey TopicError
  unfolding free_slot subscribe_at
  subscribe delivery s grant role =
      if is_latest delivery && is_required role
      then (s, err TopicError.invalid_config)
      else if s.closed
      then (s, err TopicError.denied)
      else elim (free_slot s.subscribers) [
        | none ↦ (s, err TopicError.capacity)
        | some index ↦
            subscribe_at s grant (if is_latest delivery then s.tail - 1 else s.tail) role index
              (checked_add s.next_cursor 1)
      ]

  -- What `ReceiverInner::drop` does under its lock.
  unfoldable pub remove_cursor : State T → CursorKey → State T
  remove_cursor s key = record s { subscribers = set s.subscribers key.index none }

  -- `DynamicFabric::close_stream` under the lock.
  unfoldable pub close : State T → State T
  close s = record s { closed = true; entries = []; subscribers = []; retired = none }
