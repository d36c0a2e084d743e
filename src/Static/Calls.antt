-- ===== src/Static/Calls.antt =====
-- Sequences of calls on one static stream, by any number of senders, subscribers and owners.
-- Every call holds the stream's lock while it runs, so an execution is a list of calls.
use hiway.Prelude.{ℕ, Option, some, List, [], ◌∷◌, ◌++◌, Result, ok, if◌then◌else◌, ◌==◌, ◌&&◌}
use hiway.Errors.{CloseReason, ReceiveError}
use hiway.Static.{
  SubscriptionRole, SubscriberKey, State, StreamItem, subscribe, send_now, recv_now, close, detach,
}
use hiway.Static.Invariant.{admitted}

pub data Call (T : Type 0) : Type 0 where
  subscribes : SubscriptionRole → Call T
  sends : T → Call T
  receives : SubscriberKey → Call T
  closes : CloseReason → Call T
  detaches : SubscriberKey → Call T

module _ {T : Type 0} where
  abbrev pub kept : State T → Result (State T) (Unit {0}) → State T
  kept s (ok t) = t
  kept s _ = s

  -- `core::mem::take(&mut state.changed)` at the end of an access; what it returns goes to the wakers.
  abbrev pub released : State T → State T
  released s = record s { changed = 0 }

  unfoldable pub step : ℕ → State T → Call T → State T
  step cap s (subscribes role) = released (subscribe s role).1
  step cap s (sends value) = released (send_now cap s value).1
  step cap s (receives key) = released (recv_now cap s key).1
  step cap s (closes reason) = released (close cap s reason)
  step cap s (detaches key) = released (kept s (detach s key))

  -- What a call adds to the history of publications.
  unfoldable pub extend : ℕ → List T → State T → Call T → List T
  extend cap history s (sends value) = admitted history value (send_now cap s value).0
  extend cap history s _ = history

  unfoldable pub run : ℕ → State T → List (Call T) → State T
  run cap s [] = s
  run cap s (c ∷ cs) = run cap (step cap s c) cs

  unfoldable pub published : ℕ → List T → State T → List (Call T) → List T
  published cap history s [] = history
  published cap history s (c ∷ cs) = published cap (extend cap history s c) (step cap s c) cs

  abbrev pub items : Result (Option (StreamItem T)) ReceiveError → List (StreamItem T)
  items (ok (some i)) = i ∷ []
  items _ = []

  -- What one call hands to the subscription of `key`.
  unfoldable pub handed : ℕ → State T → SubscriberKey → Call T → List (StreamItem T)
  handed cap s key (receives by) =
      if by.index == key.index && by.generation == key.generation
      then items (recv_now cap s key).0
      else []
  handed cap s key _ = []

  -- What a sequence of calls hands to it.
  unfoldable pub delivered : ℕ → State T → SubscriberKey → List (Call T) → List (StreamItem T)
  delivered cap s key [] = []
  delivered cap s key (c ∷ cs) = handed cap s key c ++ delivered cap (step cap s c) key cs
