-- ===== src/Static/Cases.antt =====
-- The branches of the static stream's operations, each with the facts that lead to it.
use hiway.Prelude.{
  ℕ, ◌+◌, ◌-◌, ◌%◌, ◌^◌, ◌<◌, ◌≤◌, ◌≢◌, bit_or, ◌≡◌, true, false, ◌&&◌, Option, none, some, arith,
  set, any, ok, err, leb, Result, get_elem?, panic,
}
use hiway.Errors.{CloseReason, TrySendError, TopicError, ReceiveError}
use hiway.Static.{
  SubscriptionRole, SubscriberKey, Cursor, State, subscribe, send_now, holds, is_required,
  is_latest, interest_receive, interest_send, send_closed, new_cursor, free_slot, recv_at, recv_now,
  StreamItem, item, gap, advance, find_cursor, coalesce, detach,
}

module _ {T : Type 0} where
  -- The state after an accepted send.
  abbrev pub sent : ℕ → State T → T → State T
  sent cap s value = record s {
    values = set s.values (s.tail % cap) (some value);
    tail = s.tail + 1;
    changed = bit_or s.changed interest_receive;
  }

  -- The state after an accepted subscription.
  abbrev pub subscribed : State T → SubscriptionRole → ℕ → State T
  subscribed s role index = record s {
    next_generation = s.next_generation + 1;
    cursors = set s.cursors index (some (new_cursor s role));
  }

module _ {T : Type 0} where
  pub send_now_cases :
      (P : Result (Unit {0}) (TrySendError T) × State T → Type 0) (cap : ℕ) (s : State T)
      (value : T)
      → ((reason : CloseReason) → s.closed ≡ some reason → P (err (send_closed reason value), s))
      → (2 ^ 64 < s.tail + 2 → P (err (TrySendError.sequence_exhausted value), s))
      → ((leb cap s.tail && any (holds (s.tail - cap)) s.cursors) ≡ true
          → P (err (TrySendError.full value), s))
      → (s.closed ≡ none
          → s.tail + 1 < 2 ^ 64
          → (leb cap s.tail && any (holds (s.tail - cap)) s.cursors) ≡ false
          → P (ok tt, sent cap s value))
      → P (send_now cap s value)
  unfolding send_now
  send_now_cases P cap s value on_closed on_exhausted on_full on_ok = grind arith

  pub subscribe_cases :
      (P : Result SubscriberKey TopicError × State T → Type 0) (s : State T)
      (role : SubscriptionRole)
      → ((e : TopicError) → P (err e, s))
      → ((index : ℕ)
          → s.closed ≡ none
          → free_slot s.cursors ≡ some index
          → s.next_generation + 1 < 2 ^ 64
          → (is_latest s.delivery && is_required role) ≡ false
          → P (
            ok (record { index = index; generation = s.next_generation }),
            subscribed s role index,
          ))
      → P (subscribe s role)
  unfolding subscribe
  subscribe_cases P s role on_err on_ok = grind arith

  pub recv_at_cases :
      (P : Result (Option (StreamItem T)) ReceiveError × State T → Type 0) (cap : ℕ) (s : State T)
      (index : ℕ) (c : Cursor)
      → (c.next < s.tail - cap
          → P (ok (some (gap c.next (s.tail - cap))), advance s index c (s.tail - cap)))
      → (c.next ≡ s.tail → P (ok none, record s { cursors = set s.cursors index (some c) }))
      → ((value : T)
          → s.tail - cap ≤ c.next
          → c.next ≢ s.tail
          → get_elem? s.values (c.next % cap) ≡ some (some value)
          → P (ok (some (item c.next value)), advance s index c (c.next + 1)))
      → (s.tail - cap ≤ c.next
          → c.next ≢ s.tail
          → ((value : T) → get_elem? s.values (c.next % cap) ≢ some (some value))
          → P (panic, s))
      → P (recv_at cap s index c)
  unfolding recv_at
  recv_at_cases P cap s index c on_gap on_empty on_item on_panic = grind arith

  pub recv_now_cases :
      (P : Result (Option (StreamItem T)) ReceiveError × State T → Type 0) (cap : ℕ) (s : State T)
      (key : SubscriberKey)
      → ((reason : CloseReason) → s.closed ≡ some reason → P (err (ReceiveError.closed reason), s))
      → (find_cursor s.cursors key ≡ none → P (err (ReceiveError.closed CloseReason.closed), s))
      → ((c : Cursor)
          → s.closed ≡ none
          → find_cursor s.cursors key ≡ some c
          → P (recv_at cap s key.index (coalesce s c)))
      → P (recv_now cap s key)
  unfolding recv_now
  recv_now_cases P cap s key on_closed on_missing on_found = grind arith

  pub detach_cases :
      (P : Result (State T) (Unit {0}) → Type 0) (s : State T) (key : SubscriberKey)
      → (find_cursor s.cursors key ≡ none → get_elem? s.cursors key.index ≡ none → P panic)
      → (find_cursor s.cursors key ≡ none → P (ok s))
      → ((c : Cursor)
          → find_cursor s.cursors key ≡ some c
          → P (
              ok (record s {
                cursors = set s.cursors key.index none;
                changed = bit_or s.changed interest_send;
              })))
      → P (detach s key)
  unfolding detach find_cursor
  detach_cases P s key on_panic on_missing on_found = grind arith
