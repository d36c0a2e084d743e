-- ===== src/Static/Stale.antt =====
-- A key whose subscription has ended is never served again, and a closed stream stays closed.
use hiway.Prelude.{
  ℕ, ◌<◌, ◌≡◌, ◌≢◌, refl, none, some, List, [], ◌∷◌, arith, Option, Option-cases, inl, inr,
  get_elem?, set, get_elem?-set, get_elem?-set_self, get_elem?-eq_some, err,
}
use hiway.Errors.{CloseReason, ReceiveError}
use hiway.Static.{
  SubscriberKey, Cursor, State, find_cursor, recv_now, recv_at, close, new_cursor, coalesce,
}
use hiway.Static.Cases.{
  send_now_cases, subscribe_cases, recv_now_cases, recv_at_cases, detach_cases,
}
use hiway.Static.Calls.{Call, subscribes, sends, receives, closes, detaches, kept, step, run}

-- The key was issued, and no cursor answers to it.
abbrev pub IsStale : {T : Type 0} → SubscriberKey → State T → Type 0
IsStale key s = (find_cursor s.cursors key ≡ none) × (key.generation < s.next_generation)

-- A cursor of another generation in some slot does not answer to the key.
find_cursor-set_other :
    (cursors : List (Option Cursor)) (key : SubscriberKey) (index : ℕ) (c : Cursor)
    → find_cursor cursors key ≡ none
    → c.generation ≢ key.generation
    → find_cursor (set cursors index (some c)) key ≡ none
unfolding find_cursor
find_cursor-set_other cursors key index c h ne =
    elim (get_elem?-set cursors index key.index (some c)) [
      | inl same ↦ rw (same, find_cursor) h
      | inr (e, at) ↦ rw (at, find_cursor) (ground arith)
    ]

find_cursor-set-none :
    (cursors : List (Option Cursor)) (key : SubscriberKey) (index : ℕ)
    → find_cursor cursors key ≡ none
    → find_cursor (set cursors index none) key ≡ none
unfolding find_cursor
find_cursor-set-none cursors key index h = elim (get_elem?-set cursors index key.index none) [
  | inl same ↦ rw (same, find_cursor) h
  | inr (e, at) ↦ rw (at, find_cursor)
]

-- What answers to a key has its generation.
pub find_cursor-generation :
    (cursors : List (Option Cursor)) (key : SubscriberKey) (c : Cursor)
    → find_cursor cursors key ≡ some c
    → c.generation ≡ key.generation
unfolding find_cursor
find_cursor-generation cursors key c h = ground arith

pub find_cursor-slot :
    (cursors : List (Option Cursor)) (key : SubscriberKey) (c : Cursor)
    → find_cursor cursors key ≡ some c
    → get_elem? cursors key.index ≡ some (some c)
unfolding find_cursor
find_cursor-slot cursors key c h = ground arith

-- A rewritten cursor of the same generation answers to the same key.
find_cursor-set_same :
    (cursors : List (Option Cursor)) (key : SubscriberKey) (index : ℕ) (c d : Cursor)
    → find_cursor cursors key ≡ none
    → get_elem? cursors index ≡ some (some c)
    → d.generation ≡ c.generation
    → find_cursor (set cursors index (some d)) key ≡ none
unfolding find_cursor
find_cursor-set_same cursors key index c d h at e =
    elim (get_elem?-set cursors index key.index (some d)) [
      | inl same ↦ rw (same, find_cursor) h
      | inr (here, now) ↦
          let before : get_elem? cursors key.index ≡ some (some c) = rw (← here) at in
          rw (now, find_cursor) (ground arith)
    ]

pub find_cursor-detached :
    (cursors : List (Option Cursor)) (key : SubscriberKey)
    → find_cursor (set cursors key.index none) key ≡ none
unfolding find_cursor
find_cursor-detached cursors key = elim (get_elem?-set cursors key.index key.index none) [
  | inl same ↦ elim (Option-cases (get_elem? cursors key.index)) [
    | inl out ↦ rw (same, find_cursor, out)
    | inr (o, at) ↦
        let now =
          get_elem?-set_self cursors key.index none (get_elem?-eq_some cursors key.index o at) in
        rw (now, find_cursor)
  ]
  | inr (e, at) ↦ rw (at, find_cursor)
]

module _ {T : Type 0} where
  recv_at-IsStale :
      (cap : ℕ) (s : State T) (key : SubscriberKey) (index : ℕ) (c d : Cursor)
      → IsStale key s
      → get_elem? s.cursors index ≡ some (some c)
      → d.generation ≡ c.generation
      → IsStale key (recv_at cap s index d).1
  recv_at-IsStale cap s key index c d (h, lt) at e =
      recv_at_cases (λ out. IsStale key out.1) cap s index d
        (λ _. (find_cursor-set_same s.cursors key index c _ h at e, lt))
        (λ _. (find_cursor-set_same s.cursors key index c d h at e, lt))
        (λ _ _ _ _. (find_cursor-set_same s.cursors key index c _ h at e, lt)) (λ _ _ _. (h, lt))

  pub step-IsStale :
      (cap : ℕ) (s : State T) (key : SubscriberKey) (call : Call T)
      → IsStale key s
      → IsStale key (step cap s call)
  unfolding step close
  step-IsStale cap s key (subscribes role) st =
      subscribe_cases (λ out. IsStale key out.1) s role (λ _. st)
        λ index _ _ _ _. (
          find_cursor-set_other s.cursors key index (new_cursor s role) st.0 (omega (arith, st.1)),
          omega (arith, st.1),
        )
  step-IsStale cap s key (sends value) st =
      send_now_cases (λ out. IsStale key out.1) cap s value (λ _ _. st) (λ _. st) (λ _. st)
        (λ _ _ _. st)
  step-IsStale cap s key (receives by) st =
      recv_now_cases (λ out. IsStale key out.1) cap s by (λ _ _. st) (λ _. st)
        λ c _ found.
          recv_at-IsStale cap s key by.index c (coalesce s c) st
            (find_cursor-slot s.cursors by c found) refl
  step-IsStale cap s key (closes reason) st = st
  step-IsStale cap s key (detaches by) st =
      detach_cases (λ out. IsStale key (kept s out)) s by (λ _ _. st) (λ _. st)
        λ c _. (find_cursor-set-none s.cursors key by.index st.0, st.1)

  pub run-IsStale :
      (cap : ℕ) (s : State T) (key : SubscriberKey) (calls : List (Call T))
      → IsStale key s
      → IsStale key (run cap s calls)
  unfolding run
  run-IsStale cap s key [] st = st
  run-IsStale cap s key (c ∷ cs) st =
      run-IsStale cap (step cap s c) key cs (step-IsStale cap s key c st)

  detached-IsStale :
      (cap : ℕ) (s : State T) (key : SubscriberKey) (c : Cursor)
      → find_cursor s.cursors key ≡ some c
      → key.generation < s.next_generation
      → IsStale key (step cap s (detaches key))
  unfolding step
  detached-IsStale cap s key c found issued =
      detach_cases (λ out. IsStale key (kept s out)) s key (λ gone _. absurd (cc))
        (λ gone. absurd (cc)) (λ d _. (find_cursor-detached s.cursors key, issued))

  -- Once a subscription is dropped, its key is answered only by the stream's termination, whatever
  -- is called in between; the slot's next subscriber is out of its reach.
  pub detach-then-recv_now :
      (cap : ℕ) (s : State T) (key : SubscriberKey) (c : Cursor) (calls : List (Call T))
      → find_cursor s.cursors key ≡ some c
      → key.generation < s.next_generation
      → let later = run cap (step cap s (detaches key)) calls in
        (reason : CloseReason) × ((recv_now cap later key).0 ≡ err (ReceiveError.closed reason))
  detach-then-recv_now cap s key c calls found issued =
      ended (run cap (step cap s (detaches key)) calls) (
        run-IsStale cap (step cap s (detaches key)) key calls
          (detached-IsStale cap s key c found issued))
    where
      ended :
          (later : State T)
          → IsStale key later
          → (reason : CloseReason) × ((recv_now cap later key).0 ≡ err (ReceiveError.closed reason))
      ended later st =
          recv_now_cases
            (λ out. (reason : CloseReason) × (out.0 ≡ err (ReceiveError.closed reason))) cap later
            key (λ reason _. (reason, refl)) (λ _. (CloseReason.closed, refl))
            (λ d _ e. absurd (cc (st.0)))
