-- ===== src/Static/Tests.antt =====
-- Concrete runs of the static stream, and its theorems at concrete inputs.
use hiway.Prelude.{ℕ, ◌≡◌, ◌≢◌, ◌↔◌, refl, none, some, List, [], ◌∷◌, arith, ok, err, panic}
use hiway.Event.{ordered}
use hiway.Errors.{CloseReason, TrySendError, ReceiveError}
use hiway.Static.{
  observer, required, SubscriberKey, Cursor, State, item, gap, find_cursor, free_slot, new,
  subscribe, send_now, recv_at, recv_now, close,
}
use hiway.Static.Invariant.{IsValid}
use hiway.Static.Log.{start, read, position}
use hiway.Static.Receive.{recv_now-read}
use hiway.Static.Backpressure.{IsHeld, send_now-full_iff}
use hiway.Static.Calls.{
  Call, subscribes, sends, receives, detaches, step, extend, run, published, handed, delivered,
}
use hiway.Static.Runs.{run-new-IsValid}
use hiway.Static.Stale.{detach-then-recv_now}
use hiway.Static.Delivered.{IsFaithful}
use hiway.Static.Order.{delivered-IsFaithful, recv_now-required, recv_now-ne-panic}

abbrev key : SubscriberKey
key = record { index = 0; generation = 0 }

-- A required subscriber, then two values into a ring of two.
abbrev opening : List (Call ℕ)
opening = subscribes required ∷ sends 7 ∷ sends 8 ∷ []

abbrev fresh : State ℕ
unfolding new
fresh = new 2 2 ordered

abbrev sent : List ℕ
sent = 7 ∷ 8 ∷ []

abbrev cursor : Cursor
cursor = record { generation = 0; next = 0; role = required }

abbrev filled : State ℕ
filled = record {
  delivery = ordered;
  values = some 7 ∷ some 8 ∷ [];
  tail = 2;
  cursors = some cursor ∷ none ∷ [];
  next_generation = 1;
  closed = none;
  changed = 0;
}

run-opening : run 2 (new 2 2 ordered) opening ≡ filled
unfolding run step new subscribe send_now free_slot
run-opening = refl

full_when_held : (send_now 2 filled 9).0 ≡ err (TrySendError.full 9)
unfolding send_now
full_when_held = refl

closed_with_first_reason :
    (recv_now 2 (close 2 (close 2 filled CloseReason.revoked) CloseReason.closed) key).0
    ≡ err (ReceiveError.closed CloseReason.revoked)
unfolding recv_now close
closed_with_first_reason = refl

filled-IsValid : IsValid 2 sent filled
unfolding run step new subscribe send_now free_slot published extend
filled-IsValid = run-new-IsValid 2 2 ordered opening (omega arith)

filled_finds : find_cursor filled.cursors key ≡ some cursor
unfolding find_cursor
filled_finds = refl

run-new-IsValid_example :
    IsValid 2 (published 2 [] (new 2 2 ordered) opening) (run 2 (new 2 2 ordered) opening)
run-new-IsValid_example = run-new-IsValid 2 2 ordered opening (omega arith)

recv_now-read_example :
    ((recv_now 2 filled key).0 ≡ ok (read 2 sent (start ordered sent 0)))
    × ((recv_now 2 filled key).1.cursors
        ≡ some (record cursor { next = position 2 sent (start ordered sent 0) }) ∷ none ∷ [])
recv_now-read_example = recv_now-read 2 sent filled key cursor filled-IsValid refl filled_finds

send_now-full_iff_example : ((send_now 2 filled 9).0 ≡ err (TrySendError.full 9)) ↔ IsHeld 2 filled
send_now-full_iff_example = send_now-full_iff 2 sent filled 9 filled-IsValid refl (omega arith)

delivered-IsFaithful_example :
    IsFaithful ordered
      (published 2 sent filled (receives key ∷ sends 9 ∷ receives key ∷ []))
      0
      (delivered 2 filled key (receives key ∷ sends 9 ∷ receives key ∷ []))
delivered-IsFaithful_example =
    delivered-IsFaithful 2 sent filled key cursor (receives key ∷ sends 9 ∷ receives key ∷ [])
      filled-IsValid filled_finds

delivered_in_order :
    delivered 2 filled key (receives key ∷ sends 9 ∷ receives key ∷ []) ≡ item 0 7 ∷ item 1 8 ∷ []
unfolding delivered handed step recv_now recv_at find_cursor send_now
delivered_in_order = refl

recv_now-required_example : (recv_now 2 filled key).0 ≢ ok (some (gap 0 1))
recv_now-required_example =
    recv_now-required 2 sent filled key cursor 0 1 filled-IsValid filled_finds refl

recv_now-ne-panic_example : (recv_now 2 filled key).0 ≢ panic
recv_now-ne-panic_example = recv_now-ne-panic 2 sent filled key filled-IsValid

detach-then-recv_now_example :
    (reason : CloseReason) × ((recv_now 2
        (run 2 (step 2 filled (detaches key)) (subscribes observer ∷ []))
        key).0
      ≡ err (ReceiveError.closed reason))
detach-then-recv_now_example =
    detach-then-recv_now 2 filled key cursor (subscribes observer ∷ []) filled_finds (omega arith)
