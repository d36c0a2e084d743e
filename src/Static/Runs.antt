-- ===== src/Static/Runs.antt =====
-- Every sequence of calls keeps the invariant, against the history that it publishes.
use hiway.Prelude.{
  ℕ, ◌<◌, ◌≡◌, none, List, [], ◌∷◌, arith, length-replicate, Option-cases, inl, inr,
}
use hiway.Event.{Delivery}
use hiway.Errors.{CloseReason}
use hiway.Static.{SubscriberKey, State, new, subscribe, send_now, recv_now, close, detach}
use hiway.Static.Cases.{detach_cases}
use hiway.Static.Invariant.{
  admitted, IsValid, new-IsValid, send_now-IsValid, subscribe-IsValid, move-IsValid,
}
use hiway.Static.Receive.{recv_now-IsValid}
use hiway.Static.Calls.{
  released, Call, subscribes, sends, receives, closes, detaches, kept, step, extend, run, published,
}

module _ {T : Type 0} where
  close-ne-open :
      (cap : ℕ) (s : State T) (reason : CloseReason) → ¬ ((close cap s reason).closed ≡ none)
  unfolding close
  close-ne-open cap s reason e = elim (Option-cases s.closed) [
    | inl o ↦ ground arith
    | inr (r, o) ↦ ground arith
  ]

  close-IsValid :
      (cap : ℕ) (history : List T) (s : State T) (reason : CloseReason)
      → IsValid cap history s
      → IsValid cap history (close cap s reason)
  unfolding close
  close-IsValid cap history s reason v = record {
    cap_pos = v.cap_pos;
    slots = length-replicate cap none;
    counted = v.counted;
    in_u64 = v.in_u64;
    issued_u64 = v.issued_u64;
    retained = λ o i lo hi. absurd (close-ne-open cap s reason o);
    placed = v.placed;
  }

  detach-IsValid :
      (cap : ℕ) (history : List T) (s : State T) (key : SubscriberKey)
      → IsValid cap history s
      → IsValid cap history (kept s (detach s key))
  detach-IsValid cap history s key v =
      detach_cases (λ out. IsValid cap history (kept s out)) s key (λ _ _. v) (λ _. v)
        λ c _. move-IsValid cap history s key.index none _ v tt

  released-IsValid :
      (cap : ℕ) (history : List T) (s : State T)
      → IsValid cap history s
      → IsValid cap history (released s)
  released-IsValid cap history s v = record {
    cap_pos = v.cap_pos;
    slots = v.slots;
    counted = v.counted;
    in_u64 = v.in_u64;
    issued_u64 = v.issued_u64;
    retained = v.retained;
    placed = v.placed;
  }

  -- Every call keeps the invariant.
  pub step-IsValid :
      (cap : ℕ) (history : List T) (s : State T) (call : Call T)
      → IsValid cap history s
      → IsValid cap (extend cap history s call) (step cap s call)
  unfolding step extend
  step-IsValid cap history s (subscribes role) v =
      released-IsValid cap history (subscribe s role).1 (subscribe-IsValid cap history s role v)
  step-IsValid cap history s (sends value) v =
      released-IsValid cap (admitted history value (send_now cap s value).0)
        (send_now cap s value).1 (send_now-IsValid cap history s value v)
  step-IsValid cap history s (receives key) v =
      released-IsValid cap history (recv_now cap s key).1 (recv_now-IsValid cap history s key v)
  step-IsValid cap history s (closes reason) v =
      released-IsValid cap history (close cap s reason) (close-IsValid cap history s reason v)
  step-IsValid cap history s (detaches key) v =
      released-IsValid cap history (kept s (detach s key)) (detach-IsValid cap history s key v)

  pub run-IsValid :
      (cap : ℕ) (history : List T) (s : State T) (calls : List (Call T))
      → IsValid cap history s
      → IsValid cap (published cap history s calls) (run cap s calls)
  unfolding run published
  run-IsValid cap history s [] v = v
  run-IsValid cap history s (c ∷ cs) v =
      run-IsValid cap (extend cap history s c) (step cap s c) cs (step-IsValid cap history s c v)

  -- After any sequence of calls on a new stream, the invariant holds against what was published.
  pub run-new-IsValid :
      (cap subs : ℕ) (delivery : Delivery) (calls : List (Call T))
      → 0 < cap
      → IsValid cap
          (published cap [] (new cap subs delivery) calls)
          (run cap (new cap subs delivery) calls)
  run-new-IsValid cap subs delivery calls h =
      run-IsValid cap [] (new cap subs delivery) calls (new-IsValid cap subs delivery h)
