-- ===== src/Dynamic/Calls.antt =====
-- hiway/src/alloc_local.rs: publications and receptions on the stream in shared storage.
use hiway.Prelude.{
  ℕ, ◌+◌, ◌-◌, max, Bool, true, not, ◌&&◌, Option, none, some, List, [], ◌∷◌, ◌++◌, ◌==◌, ltb,
  if◌then◌else◌, get_elem?, set, length, Result, ok, err, panic, checked_add, u64_max,
}
use hiway.Event.{Delivery}
use hiway.Errors.{TopicError, CloseReason, TrySendError, ReceiveError}
use hiway.Static.{StreamItem, item, gap}
use hiway.Dynamic.{
  Entry, CursorKey, Cursor, State, is_latest, required_needs, front_is, front, popped,
}

-- `subscribers[key.index].as_ref().filter(|cursor| cursor.id == key.id)`; the index is in range.
unfoldable pub cursor_of : List (Option Cursor) → CursorKey → Option Cursor
cursor_of cs key = elim (get_elem? cs key.index) [
  | none ↦ none
  | some none ↦ none
  | some (some c) ↦ if c.id == key.id then some c else none
]

module _ {T : Type 0} where
  -- `entries.iter().find(|entry| entry.lease.belongs_to(node))`
  unfoldable pub find_owned : ℕ → List (Entry T) → Option (Entry T)
  find_owned node [] = none
  find_owned node (e ∷ es) = if e.owner == node then some e else find_owned node es

  -- `is_none_or(|entry| state.required_needs(entry.sequence))`
  unfoldable pub is_held : (ℕ → Bool) → State T → Option (Entry T) → Bool
  unfolding required_needs
  is_held revoked s none = true
  is_held revoked s (some e) = required_needs revoked s e.sequence

  -- The checks at the top of the loop of `reserve`, the last ones under the lock.
  unfoldable pub check_turn : ℕ → (ℕ → Bool) → Bool → ℕ → State T → T → Option (TrySendError T)
  unfolding front_is required_needs
  check_turn capacity revoked busy node s value =
      if revoked node
      then some (TrySendError.revoked value)
      else if busy
      then some (TrySendError.contended value)
      else if s.closed
      then some (TrySendError.closed value)
      else if s.tail == u64_max
      then some (TrySendError.sequence_exhausted value)
      else if length s.entries == capacity && front_is (required_needs revoked s) s.entries
      then some (TrySendError.full value)
      else none

  -- What is left after the charge of one item, by its result: an answer, or to free an own entry.
  unfoldable pub charge_turn :
      Delivery → T → Result (Unit {0}) TopicError → Option (Result (Unit {0}) (TrySendError T))
  charge_turn delivery value (ok _) = some (ok tt)
  charge_turn delivery value panic = some panic
  charge_turn delivery value (err TopicError.revoked) = some (err (TrySendError.revoked value))
  charge_turn delivery value (err _) =
      if is_latest delivery then some (err (TrySendError.full value)) else none

  -- The second use of the lock in the loop of `reserve`, after a charge that its pool refused.
  unfoldable pub free_turn : (ℕ → Bool) → Bool → ℕ → State T → T → State T × Option (TrySendError T)
  unfolding find_owned is_held popped
  free_turn revoked busy node s value =
      if busy
      then (s, some (TrySendError.contended value))
      else if s.closed
      then (s, some (TrySendError.closed value))
      else if is_held revoked s (find_owned node s.entries)
      then (s, some (TrySendError.full value))
      else (popped s, none)

  unfoldable pub push : State T → ℕ → T → ℕ → State T
  push s next value node = record s {
    entries = s.entries ++ record { sequence = s.tail; value = value; owner = node } ∷ [];
    tail = next;
  }

  -- Room for one more entry, or why there is none: the state with what is retired.
  unfoldable pub retire_front :
      Delivery → ℕ → (ℕ → Bool) → Bool → State T → T → State T × Option (TrySendError T)
  unfolding front_is popped
  retire_front delivery capacity revoked deferred s value =
      if not (length s.entries == capacity)
      then (s, none)
      else if front_is (required_needs revoked s) s.entries
      then (s, some (TrySendError.full value))
      else if not deferred
      then (popped s, none)
      else if is_latest delivery
      then elim s.retired [
        | some _ ↦ (s, some (TrySendError.maintenance_required value))
        | none ↦ (record (popped s) { retired = front s.entries }, none)
      ]
      else (record s { needs_room = true }, some (TrySendError.maintenance_required value))

  unfoldable pub push_after :
      ℕ → ℕ → T → State T × Option (TrySendError T) → State T × Result (Unit {0}) (TrySendError T)
  unfolding push
  push_after next node value (s, none) = (push s next value node, ok tt)
  push_after next node value (s, some error) = (s, err error)

  -- `commit`, by the result of the entry and whether the lock is held elsewhere.
  unfoldable pub commit :
      Delivery
      → ℕ
      → (ℕ → Bool)
      → ℕ
      → Bool
      → Result (Unit {0}) TopicError
      → Bool
      → State T
      → T
      → State T × Result (Unit {0}) (TrySendError T)
  unfolding retire_front push_after
  commit delivery capacity revoked node deferred entered busy s value = elim entered [
    | err TopicError.contended ↦ (s, err (TrySendError.contended value))
    | err TopicError.capacity ↦ (s, err (TrySendError.contended value))
    | err _ ↦ (s, err (TrySendError.revoked value))
    | panic ↦ (s, panic)
    | ok _ ↦
        if busy
        then (s, err (TrySendError.contended value))
        else if s.closed
        then (s, err (TrySendError.closed value))
        else elim (checked_add s.tail 1) [
          | none ↦ (s, err (TrySendError.sequence_exhausted value))
          | some next ↦
              push_after next node value (retire_front delivery capacity revoked deferred s value)
        ]
  ]

  unfoldable pub moved : State T → CursorKey → Cursor → ℕ → State T
  moved s key c next = record s {
    subscribers = set s.subscribers key.index (some (record c { next = next }));
  }

  -- The sequence of the front, or the tail.
  unfoldable pub head : List (Entry T) → ℕ → ℕ
  head [] tail = tail
  head (e ∷ es) tail = e.sequence

  unfoldable pub first_unread : Delivery → State T → Cursor → ℕ
  first_unread delivery s c = if is_latest delivery then max c.next (s.tail - 1) else c.next

  unfoldable pub read_at :
      State T → CursorKey → Cursor → ℕ → State T × Result (Option (StreamItem T)) ReceiveError
  unfolding head moved
  read_at s key c next =
      let first = head s.entries s.tail in
      if ltb next first
      then (moved s key c first, ok (some (gap next first)))
      else if ltb next s.tail
      then elim (get_elem? s.entries (next - first)) [
        | none ↦ (s, panic)
        | some e ↦ (moved s key c (next + 1), ok (some (item next e.value)))
      ]
      else (s, ok none)

  -- `try_recv`, by the result of the entry and whether the lock is held elsewhere.
  unfoldable pub try_recv :
      Delivery
      → Result (Unit {0}) TopicError
      → Bool
      → State T
      → CursorKey
      → State T × Result (Option (StreamItem T)) ReceiveError
  unfolding cursor_of first_unread read_at
  try_recv delivery entered busy s key = elim entered [
    | err TopicError.contended ↦ (s, err ReceiveError.contended)
    | err TopicError.capacity ↦ (s, err ReceiveError.contended)
    | err _ ↦ (s, err (ReceiveError.closed CloseReason.revoked))
    | panic ↦ (s, panic)
    | ok _ ↦
        if busy
        then (s, err ReceiveError.contended)
        else if s.closed
        then (s, err (ReceiveError.closed CloseReason.closed))
        else elim (cursor_of s.subscribers key) [
          | none ↦ (s, err (ReceiveError.closed CloseReason.closed))
          | some c ↦ read_at s key c (first_unread delivery s c)
        ]
  ]
