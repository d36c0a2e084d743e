-- ===== src/Static.antt =====
-- hiway/src/local.rs: the retained stream in caller-owned storage (`State`).
-- `CAP` is the argument `cap`; the arrays are lists, `values` of length CAP and `cursors` of
-- length SUBS. u64 arithmetic is checked or saturating in the source and is so here.
pub mod Cases
pub mod Invariant
pub mod Log
pub mod Receive
pub mod Calls
pub mod Backpressure
pub mod Runs
pub mod Stale
pub mod Delivered
pub mod Trace
pub mod Order
mod Tests
use hiway.Prelude.{
  ℕ, suc, ◌+◌, ◌-◌, ◌%◌, max, bit_or, Bool, true, false, ◌&&◌, not, Option, none, some, List, [],
  ◌∷◌, ltb, leb, ◌==◌, if◌then◌else◌, get_elem?, set, replicate, any, Result, ok, err, panic,
  checked_add,
}
use hiway.Event.{Delivery, ordered, latest}
use hiway.Errors.{TopicError, CloseReason, TrySendError, ReceiveError}

pub data SubscriptionRole : Type 0 where
  observer required : SubscriptionRole

pub data StreamItem (T : Type 0) : Type 0 where
  item : ℕ → T → StreamItem T
  gap : ℕ → ℕ → StreamItem T

-- `StreamItem::map`
unfoldable pub map_item : {T U : Type 0} → (T → U) → StreamItem T → StreamItem U
map_item f (item sequence value) = item sequence (f value)
map_item f (gap from to) = gap from to

pub record SubscriberKey : Type 0 where
  pub index : ℕ
  pub generation : ℕ

pub record Cursor : Type 0 where
  pub generation : ℕ
  pub next : ℕ
  pub role : SubscriptionRole

-- `Interest::Send as u8` and `Interest::Receive as u8`
abbrev pub interest_send : ℕ
interest_send = 1

abbrev pub interest_receive : ℕ
interest_receive = 2

pub record State (T : Type 0) : Type 0 where
  pub delivery : Delivery
  pub values : List (Option T)
  pub tail : ℕ
  pub cursors : List (Option Cursor)
  pub next_generation : ℕ
  pub closed : Option CloseReason
  pub changed : ℕ

abbrev pub is_required : SubscriptionRole → Bool
is_required required = true
is_required observer = false

abbrev pub is_latest : Delivery → Bool
is_latest latest = true
is_latest ordered = false

-- `iter().position(Option::is_none)`
unfoldable pub free_slot : List (Option Cursor) → Option ℕ
free_slot [] = none
free_slot (none ∷ cs) = some 0
free_slot (some c ∷ cs) = elim (free_slot cs) [ none ↦ none | some i ↦ some (suc i) ]

-- The test of the `any` in `send_now`: a required cursor that still needs the sequence.
abbrev pub holds : ℕ → Option Cursor → Bool
holds overwritten none = false
holds overwritten (some c) = is_required c.role && leb c.next overwritten

-- `get_mut(key.index).and_then(Option::as_mut).filter(|c| c.generation == key.generation)`
unfoldable pub find_cursor : List (Option Cursor) → SubscriberKey → Option Cursor
find_cursor cursors key = elim (get_elem? cursors key.index) [
  | none ↦ none
  | some none ↦ none
  | some (some c) ↦ if c.generation == key.generation then some c else none
]

abbrev pub topic_closed : CloseReason → TopicError
topic_closed CloseReason.revoked = TopicError.revoked
topic_closed _ = TopicError.denied

module _ {T : Type 0} where
  abbrev pub send_closed : CloseReason → T → TrySendError T
  send_closed CloseReason.revoked value = TrySendError.revoked value
  send_closed _ value = TrySendError.closed value

  unfoldable pub new : ℕ → ℕ → Delivery → State T
  new cap subs delivery = record {
    delivery = delivery;
    values = replicate cap none;
    tail = 0;
    cursors = replicate subs none;
    next_generation = 0;
    closed = none;
    changed = 0;
  }

  -- The asserts of `StaticStream::with_lock`, and the state it starts with.
  unfoldable pub with_lock : ℕ → ℕ → Delivery → Result (State T) (Unit {0})
  unfolding new
  with_lock cap subs delivery =
      if cap == 0
      then panic
      else if is_latest delivery && not (cap == 1)
      then panic
      else ok (new cap subs delivery)

  -- The cursor that `subscribe` stores.
  abbrev pub new_cursor : State T → SubscriptionRole → Cursor
  new_cursor s role = record {
    generation = s.next_generation;
    next = if is_latest s.delivery then s.tail - 1 else s.tail;
    role = role;
  }

  unfoldable pub subscribe : State T → SubscriptionRole → Result SubscriberKey TopicError × State T
  subscribe s role = elim s.closed [
    | some reason ↦ (err (topic_closed reason), s)
    | none ↦
        if is_latest s.delivery && is_required role
        then (err TopicError.invalid_config, s)
        else elim (free_slot s.cursors) [
          | none ↦ (err TopicError.capacity, s)
          | some index ↦ elim (checked_add s.next_generation 1) [
            | none ↦ (err TopicError.capacity, s)
            | some following ↦ (
              ok (record { index = index; generation = s.next_generation }),
              record s {
                next_generation = following;
                cursors = set s.cursors index (some (new_cursor s role));
              },
            )
          ]
        ]
  ]

  unfoldable pub send_now : ℕ → State T → T → Result (Unit {0}) (TrySendError T) × State T
  send_now cap s value = elim s.closed [
    | some reason ↦ (err (send_closed reason value), s)
    | none ↦ elim (checked_add s.tail 1) [
      | none ↦ (err (TrySendError.sequence_exhausted value), s)
      | some next ↦
          if leb cap s.tail && any (holds (s.tail - cap)) s.cursors
          then (err (TrySendError.full value), s)
          else (
            ok tt,
            record s {
              values = set s.values (s.tail % cap) (some value);
              tail = next;
              changed = bit_or s.changed interest_receive;
            },
          )
    ]
  ]

  -- The cursor after the coalescing of a latest-state stream.
  abbrev pub coalesce : State T → Cursor → Cursor
  coalesce s c = record c {
    next = if is_latest s.delivery then max c.next (s.tail - 1) else c.next;
  }

  -- The state with the cursor of `key` moved to `next`, and senders to be woken.
  abbrev pub advance : State T → ℕ → Cursor → ℕ → State T
  advance s index c next = record s {
    cursors = set s.cursors index (some (record c { next = next }));
    changed = bit_or s.changed interest_send;
  }

  -- `recv_now` once the cursor is found and coalesced. The `expect` on the slot is the panic.
  unfoldable pub recv_at :
      ℕ → State T → ℕ → Cursor → Result (Option (StreamItem T)) ReceiveError × State T
  recv_at cap s index c =
      if ltb c.next (s.tail - cap)
      then (ok (some (gap c.next (s.tail - cap))), advance s index c (s.tail - cap))
      else if c.next == s.tail
      then (ok none, record s { cursors = set s.cursors index (some c) })
      else elim (get_elem? s.values (c.next % cap)) [
        | some (some value) ↦ (ok (some (item c.next value)), advance s index c (c.next + 1))
        | _ ↦ (panic, s)
      ]

  unfoldable pub recv_now :
      ℕ → State T → SubscriberKey → Result (Option (StreamItem T)) ReceiveError × State T
  recv_now cap s key = elim s.closed [
    | some reason ↦ (err (ReceiveError.closed reason), s)
    | none ↦ elim (find_cursor s.cursors key) [
      | none ↦ (err (ReceiveError.closed CloseReason.closed), s)
      | some c ↦ recv_at cap s key.index (coalesce s c)
    ]
  ]

  -- The access of `StaticStream::close`.
  unfoldable pub close : ℕ → State T → CloseReason → State T
  close cap s reason = record s {
    closed = elim s.closed [ none ↦ some reason | some first ↦ some first ];
    values = replicate cap none;
    changed = 255;
  }

  -- The access of `StaticReceiver::drop`. An index out of range would panic.
  unfoldable pub detach : State T → SubscriberKey → Result (State T) (Unit {0})
  detach s key = elim (get_elem? s.cursors key.index) [
    | none ↦ panic
    | some none ↦ ok s
    | some (some c) ↦
        if c.generation == key.generation
        then ok (record s {
          cursors = set s.cursors key.index none;
          changed = bit_or s.changed interest_send;
        })
        else ok s
  ]
