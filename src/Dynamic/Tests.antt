-- ===== src/Dynamic/Tests.antt =====
-- A stream of capacity two with a required and an observing subscription.
use hiway.Prelude.{
  ℕ, ◌≡◌, refl, true, false, none, some, List, [], ◌∷◌, ◌++◌, replicate, ok, err, arith,
}
use hiway.Event.{ordered}
use hiway.Errors.{TopicError}
use hiway.Grant.{validate}
use hiway.Static.{SubscriptionRole}
use hiway.Dynamic.{
  Cursor, State, StreamConfig, check_config, new, subscribe, free_slot, subscribe_at,
  required_needs, needs, front_is, popped, remove_cursor, drop_retired, retire_turn, make_room,
  consumed, has_read,
}
use hiway.Dynamic.Calls.{
  commit, retire_front, push_after, push, try_recv, cursor_of, first_unread, read_at, head, moved,
  check_turn, charge_turn, free_turn, find_owned, is_held,
}
use hiway.Dynamic.Work.{Goal, Work, Around, begin_reserve, advance}
use hiway.Dynamic.Advance.{Moment}
use hiway.Dynamic.Retained.{Valid, Consecutive, Fine}
use hiway.Dynamic.Runs.{
  Call, run, step, advance_at, opened, run-opened-Valid, InOrder, try_recv-required,
}

abbrev config : StreamConfig
config = record { capacity = 2; subscribers = 2; waiters = 4 }

abbrev free : Around
free = record { busy = false; charged = ok tt }

abbrev refused : Around
refused = record { busy = false; charged = err TopicError.capacity }

abbrev busy : Around
busy = record { busy = true; charged = ok tt }

-- A publication whose charge is refused until the required subscription has read the front, with a
-- maintenance that meets a lock held elsewhere, a drop of a receiver, and a revocation in between.
abbrev calls : List (Call ℕ)
calls =
    Call.subscribes 1 SubscriptionRole.required
    ∷ Call.subscribes 2 SubscriptionRole.observer
    ∷ Call.commits 3 false (ok tt) false 10
    ∷ Call.commits 3 false (ok tt) false 11
    ∷ Call.receives (ok tt) false (record { index = 0; id = 0 })
    ∷ Call.reserves (ok tt) 3 12
    ∷ Call.advances 0 free
    ∷ Call.advances 0 refused
    ∷ Call.maintains
    ∷ Call.advances 1 free
    ∷ Call.advances 1 busy
    ∷ Call.advances 0 free
    ∷ Call.advances 0 free
    ∷ Call.advances 0 free
    ∷ Call.commits 3 false (ok tt) false 12
    ∷ Call.detaches (record { index = 1; id = 1 })
    ∷ Call.revokes 1
    ∷ Call.advances 2 free
    ∷ Call.advances 2 free
    ∷ Call.advances 2 free
    ∷ []

run-opened-Valid_example :
    Valid 2
      (run ordered 2 (opened config) calls).revoked
      (run ordered 2 (opened config) calls).stream
unfolding check_config validate
run-opened-Valid_example = run-opened-Valid ordered config calls refl

-- The publication has its lease and the drop of the observer has retired what was left.
run-ends :
    ((run ordered 2 (opened config) calls).works
      ≡ Work.answered (ok tt) ∷ Work.making_room Goal.stops ∷ Work.finished ∷ [])
    × ((run ordered 2 (opened config) calls).stream.entries ≡ [])
    × ((run ordered 2 (opened config) calls).stream.tail ≡ 3)
unfolding run step new subscribe free_slot subscribe_at commit retire_front push_after push front_is
    required_needs needs popped try_recv cursor_of first_unread read_at head moved begin_reserve
    advance_at advance remove_cursor drop_retired retire_turn make_room check_turn charge_turn
    free_turn find_owned is_held consumed has_read
run-ends = (refl, refl, refl)

-- A moment at which the lock is held elsewhere, and one at which the pool refuses the charge.
abbrev moments : List (Moment ℕ)
moments =
    replicate 8 (record { stream = new config; revoked = λ n. false; around = refused })
    ++ replicate 7 (record { stream = new config; revoked = λ n. false; around = busy })

abbrev reader : Cursor
reader = record { id = 0; next = 4; role = SubscriptionRole.required; grant = 1 }

abbrev stream : State ℕ
stream = record {
  entries =
      record { sequence = 3; value = 13; owner = 3 }
      ∷ record { sequence = 4; value = 14; owner = 3 }
      ∷ [];
  subscribers = some reader ∷ none ∷ [];
  tail = 5;
  next_cursor = 1;
  closed = false;
  needs_room = false;
  retired = none;
}

stream-Valid : Valid 2 (λ n. false) stream
unfolding Consecutive Fine head
stream-Valid =
    ((refl, (refl, refl)), omega arith, omega arith, ((omega arith, λ live. omega arith), (tt, tt)))

try_recv-required_example :
    InOrder stream reader (try_recv ordered (ok tt) false stream (record { index = 0; id = 0 })).1
unfolding cursor_of
try_recv-required_example =
    try_recv-required 2 (λ n. false) stream (record { index = 0; id = 0 }) reader stream-Valid refl
      refl refl refl
