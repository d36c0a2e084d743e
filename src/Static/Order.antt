-- ===== src/Static/Order.antt =====
-- The order and the completeness of what a subscription receives.
use hiway.Prelude.{
  ℕ, ◌≡◌, ◌≢◌, refl, some, List, [], ◌∷◌, ◌++◌, arith, Bool-cases, inl, inr, true, ok, panic, ◌==◌,
  ◌&&◌,
}
use mathlib.Core.Path.{subst}
use hiway.Static.{
  SubscriberKey, Cursor, State, gap, find_cursor, recv_now, coalesce, is_required, close,
}
use hiway.Static.Cases.{
  send_now_cases, subscribe_cases, recv_now_cases, recv_at_cases, detach_cases,
}
use hiway.Static.Invariant.{IsValid, find_cursor-IsPlaced}
use hiway.Static.Stale.{IsStale, step-IsStale}
use hiway.Static.Receive.{coalesce-IsPlaced, recv_at_reads}
use hiway.Static.Runs.{step-IsValid}
use hiway.Static.Delivered.{IsFaithful, IsWithin, extend-IsWithin, published-IsWithin}
use hiway.Static.Trace.{IsServed, step-IsServed}
use hiway.Static.Calls.{
  Call, subscribes, sends, receives, closes, detaches, kept, step, items, handed, delivered, extend,
  published,
}

module _ {T : Type 0} where
  -- No call changes the delivery of a stream.
  delivery-step : (cap : ℕ) (s : State T) (call : Call T) → (step cap s call).delivery ≡ s.delivery
  unfolding step close
  delivery-step cap s (subscribes role) =
      subscribe_cases (λ out. out.1.delivery ≡ s.delivery) s role (λ _. refl) (λ _ _ _ _ _. refl)
  delivery-step cap s (sends value) =
      send_now_cases (λ out. out.1.delivery ≡ s.delivery) cap s value (λ _ _. refl) (λ _. refl)
        (λ _. refl) (λ _ _ _. refl)
  delivery-step cap s (receives by) =
      recv_now_cases (λ out. out.1.delivery ≡ s.delivery) cap s by (λ _ _. refl) (λ _. refl)
        λ c _ _.
          recv_at_cases (λ out. out.1.delivery ≡ s.delivery) cap s by.index (coalesce s c)
            (λ _. refl) (λ _. refl) (λ _ _ _ _. refl) (λ _ _ _. refl)
  delivery-step cap s (closes reason) = refl
  delivery-step cap s (detaches by) =
      detach_cases (λ out. (kept s out).delivery ≡ s.delivery) s by (λ _ _. refl) (λ _. refl)
        (λ _ _. refl)

  handed-IsStale :
      (cap : ℕ) (s : State T) (key : SubscriberKey) (call : Call T)
      → IsStale key s
      → handed cap s key call ≡ []
  unfolding handed
  handed-IsStale cap s key (receives by) st =
      elim (Bool-cases (by.index == key.index && by.generation == key.generation)) [
        | inl same ↦
            let key_eq : by ≡ key = ground arith in
            rw same (
              recv_now_cases (λ out. items out.0 ≡ []) cap s key (λ _ _. refl) (λ _. refl)
                (λ c _ found. absurd (cc (st.0))))
        | inr ne ↦ rw ne
      ]
  handed-IsStale cap s key (sends value) st = refl
  handed-IsStale cap s key (subscribes role) st = refl
  handed-IsStale cap s key (closes reason) st = refl
  handed-IsStale cap s key (detaches by) st = refl

  delivered-IsStale :
      (cap : ℕ) (s : State T) (key : SubscriberKey) (calls : List (Call T))
      → IsStale key s
      → delivered cap s key calls ≡ []
  unfolding delivered
  delivered-IsStale cap s key [] st = refl
  delivered-IsStale cap s key (c ∷ cs) st =
      rw (handed-IsStale cap s key c st)
        (delivered-IsStale cap (step cap s c) key cs (step-IsStale cap s key c st))

  -- What the later calls hand over stands behind what this call handed over.
  joined :
      (cap : ℕ) (final : List T) (s : State T) (key : SubscriberKey) (c : Cursor) (call : Call T)
      (calls : List (Call T))
      → ((b : Cursor)
          → find_cursor (step cap s call).cursors key ≡ some b
          → IsFaithful
              (step cap s call).delivery
              final
              b.next
              (delivered cap (step cap s call) key calls))
      → IsServed key final s.delivery c.next (handed cap s key call) (step cap s call)
      → IsFaithful s.delivery final c.next
          (handed cap s key call ++ delivered cap (step cap s call) key calls)
  joined cap final s key c call calls later (inl (b, still, behind)) =
      behind (delivered cap (step cap s call) key calls) (
        subst (λ d. IsFaithful d final b.next (delivered cap (step cap s call) key calls))
          (delivery-step cap s call) (later b still))
  joined cap final s key c call calls later (inr (gone, issued, nothing)) =
      rw (nothing, delivered-IsStale cap (step cap s call) key calls (gone, issued)) tt

  delivered_from :
      (cap : ℕ) (history final : List T) (s : State T) (key : SubscriberKey) (c : Cursor)
      (calls : List (Call T))
      → IsValid cap history s
      → find_cursor s.cursors key ≡ some c
      → IsWithin (published cap history s calls) final
      → IsFaithful s.delivery final c.next (delivered cap s key calls)
  unfolding delivered published
  delivered_from cap history final s key c [] v found within = tt
  delivered_from cap history final s key c (call ∷ calls) v found within =
      joined cap final s key c call calls
        (λ b still.
          delivered_from cap (extend cap history s call) final (step cap s call) key b calls
            (step-IsValid cap history s call v) still within)
        (step-IsServed key final cap history s c call v
          (λ i a at. within i a (
            published-IsWithin cap (extend cap history s call) (step cap s call) calls i a
              (extend-IsWithin cap history s call i a at)))
          found)

  -- Whatever senders, other subscribers and the owner call in between, a subscription of an ordered
  -- stream receives every publication from its cursor on, once and in order, as a value that agrees
  -- with what was published or inside a reported gap; on a latest-state stream, in order.
  pub delivered-IsFaithful :
      (cap : ℕ) (history : List T) (s : State T) (key : SubscriberKey) (c : Cursor)
      (calls : List (Call T))
      → IsValid cap history s
      → find_cursor s.cursors key ≡ some c
      → IsFaithful s.delivery (published cap history s calls) c.next (delivered cap s key calls)
  delivered-IsFaithful cap history s key c calls v found =
      delivered_from cap history (published cap history s calls) s key c calls v found
        (λ i a at. at)

  -- A required subscription never receives a gap.
  pub recv_now-required :
      (cap : ℕ) (history : List T) (s : State T) (key : SubscriberKey) (c : Cursor) (from to : ℕ)
      → IsValid cap history s
      → find_cursor s.cursors key ≡ some c
      → is_required c.role ≡ true
      → (recv_now cap s key).0 ≢ ok (some (gap from to))
  recv_now-required cap history s key c from to v found r =
      recv_now_cases (λ out. out.0 ≢ ok (some (gap from to))) cap s key (λ _ _ e. cc) (λ _ e. cc)
        λ b _ other.
          recv_at_cases (λ out. out.0 ≢ ok (some (gap from to))) cap s key.index (coalesce s b)
            (λ lo _. ground (arith, (find_cursor-IsPlaced cap history s key c v found).0.1 r))
            (λ _ e. cc) (λ _ _ _ _ e. cc) (λ _ _ _ e. cc)

  -- Receiving never panics.
  pub recv_now-ne-panic :
      (cap : ℕ) (history : List T) (s : State T) (key : SubscriberKey)
      → IsValid cap history s
      → (recv_now cap s key).0 ≢ panic
  recv_now-ne-panic cap history s key v =
      recv_now_cases (λ out. out.0 ≢ panic) cap s key (λ _ _ e. cc) (λ _ e. cc)
        λ c open_ found e.
          let placed = (find_cursor-IsPlaced cap history s key c v found).0 in
          absurd (
            cc (
              (recv_at_reads cap history s key.index (coalesce s c) v open_
                (coalesce-IsPlaced cap s.next_generation s c placed)).0))
