-- ===== src/Dynamic/Moved.antt =====
-- Publications and receptions keep a stream in shared storage valid.
use mathlib.Core.Path.{subst}
use hiway.Prelude.{
  ℕ, ◌+◌, ◌-◌, ◌<◌, ◌≤◌, ◌≡◌, refl, ◌≢◌, Bool, true, false, Option, none, some, List, [], ◌∷◌, ◌++◌,
  length, All-set, Result, arith, u64_max,
}
use hiway.Event.{Delivery}
use hiway.Errors.{TopicError, TrySendError}
use hiway.Dynamic.{
  Entry, Cursor, CursorKey, State, required_needs, front_is, pop_front, front, popped,
}
use hiway.Dynamic.Calls.{
  push, retire_front, push_after, commit, moved, head, first_unread, read_at, try_recv,
}
use hiway.Dynamic.Retained.{Fine, Sound, Valid, pop-Sound, push-Sound, Consecutive-le}

module _ {T : Type 0} where
  length-pop_front : (entries : List (Entry T)) → length (pop_front entries) ≡ length entries - 1
  length-pop_front [] = omega arith
  length-pop_front (x ∷ es) = omega arith

  -- A stream with room for one more entry, with the same tail.
  unfoldable Ready : ℕ → (ℕ → Bool) → ℕ → State T × Option (TrySendError T) → Type 0
  Ready capacity revoked tail (s, none) =
      Valid capacity revoked s × (length s.entries < capacity) × (s.tail ≡ tail)
  Ready capacity revoked tail (s, some e) = Valid capacity revoked s

  retire_front-cases :
      (P : State T × Option (TrySendError T) → Type 0) (delivery : Delivery) (capacity : ℕ)
      (revoked : ℕ → Bool) (deferred : Bool) (s : State T) (value : T)
      → (length s.entries ≢ capacity → P (s, none))
      → ((e : TrySendError T) → P (s, some e))
      → ((e : TrySendError T) → P (record s { needs_room = true }, some e))
      → (length s.entries ≡ capacity
          → front_is (required_needs revoked s) s.entries ≡ false
          → P (popped s, none) × P (record (popped s) { retired = front s.entries }, none))
      → P (retire_front delivery capacity revoked deferred s value)
  unfolding retire_front
  retire_front-cases P delivery capacity revoked deferred s value room refused asked freed =
      grind arith

  retire_front-Ready :
      (delivery : Delivery) (capacity : ℕ) (revoked : ℕ → Bool) (deferred : Bool) (s : State T)
      (value : T)
      → 0 < capacity
      → Valid capacity revoked s
      → Ready capacity revoked s.tail (retire_front delivery capacity revoked deferred s value)
  unfolding Ready popped required_needs
  retire_front-Ready delivery capacity revoked deferred s value some_room h =
      retire_front-cases (Ready capacity revoked s.tail) delivery capacity revoked deferred s value
        (λ other. (h, omega (arith, h.1, other), refl)) (λ e. h) (λ e. h)
        (λ full free.
          let kept = pop-Sound capacity revoked s.entries s.subscribers s.tail free h in
          let short = length-pop_front s.entries in
          ((kept, omega arith, refl), (kept, omega arith, refl)))

  push_after-Valid :
      (capacity : ℕ) (revoked : ℕ → Bool) (tail node : ℕ) (value : T)
      (r : State T × Option (TrySendError T))
      → tail < u64_max
      → Ready capacity revoked tail r
      → Valid capacity revoked (push_after (tail + 1) node value r).0
  unfolding push_after push Ready
  push_after-Valid capacity revoked tail node value (s, some e) small h = h
  push_after-Valid capacity revoked tail node value (s, none) small h =
      let e : Entry T = record { sequence = s.tail; value = value; owner = node } in
      subst (λ t. Sound capacity revoked (s.entries ++ e ∷ []) s.subscribers (t + 1)) h.2
        (push-Sound capacity revoked s.entries s.subscribers s.tail e refl h.1 (omega (arith, h.2))
          h.0)

  -- A commit leaves the state, or pushes at the tail where there is room.
  commit-cases :
      (P : State T → Type 0) (delivery : Delivery) (capacity : ℕ) (revoked : ℕ → Bool) (node : ℕ)
      (deferred : Bool) (entered : Result (Unit {0}) TopicError) (busy : Bool) (s : State T)
      (value : T)
      → P s
      → (s.tail < u64_max
          → P
              (push_after
                (s.tail + 1)
                node
                value
                (retire_front delivery capacity revoked deferred s value)).0)
      → P (commit delivery capacity revoked node deferred entered busy s value).0
  unfolding commit
  commit-cases P delivery capacity revoked node deferred entered busy s value same pushed =
      grind arith

  pub commit-Valid :
      (delivery : Delivery) (capacity : ℕ) (revoked : ℕ → Bool) (node : ℕ) (deferred : Bool)
      (entered : Result (Unit {0}) TopicError) (busy : Bool) (s : State T) (value : T)
      → 0 < capacity
      → Valid capacity revoked s
      → Valid capacity revoked
          (commit delivery capacity revoked node deferred entered busy s value).0
  commit-Valid delivery capacity revoked node deferred entered busy s value some_room h =
      commit-cases (Valid capacity revoked) delivery capacity revoked node deferred entered busy s
        value h
        (λ small.
          push_after-Valid capacity revoked s.tail node value
            (retire_front delivery capacity revoked deferred s value) small
            (retire_front-Ready delivery capacity revoked deferred s value some_room h))

  -- A reception moves the cursor up to the head, or past one retained sequence.
  read_at-cases :
      (P : State T → Type 0) (s : State T) (key : CursorKey) (c : Cursor) (next : ℕ)
      → P s
      → P (moved s key c (head s.entries s.tail))
      → (head s.entries s.tail ≤ next → next < s.tail → P (moved s key c (next + 1)))
      → P (read_at s key c next).0
  unfolding read_at
  read_at-cases P s key c next same skipped read = grind arith

  moved-Valid :
      (capacity : ℕ) (revoked : ℕ → Bool) (s : State T) (key : CursorKey) (c : Cursor) (next : ℕ)
      → Valid capacity revoked s
      → head s.entries s.tail ≤ next
      → next ≤ s.tail
      → Valid capacity revoked (moved s key c next)
  unfolding moved Fine
  moved-Valid capacity revoked s key c next h low high = (
    h.0,
    h.1,
    h.2,
    All-set (Fine revoked (head s.entries s.tail) s.tail) s.subscribers key.index
        (some (record c { next = next })) h.3 (high, λ live. low),
  )

  read_at-Valid :
      (capacity : ℕ) (revoked : ℕ → Bool) (s : State T) (key : CursorKey) (c : Cursor) (next : ℕ)
      → Valid capacity revoked s
      → Valid capacity revoked (read_at s key c next).0
  read_at-Valid capacity revoked s key c next h =
      let first = head s.entries s.tail in
      read_at-cases (Valid capacity revoked) s key c next h
        (moved-Valid capacity revoked s key c first h (omega arith)
          (Consecutive-le first s.entries s.tail h.0))
        (λ low small. moved-Valid capacity revoked s key c (next + 1) h (omega arith) (omega arith))

  try_recv-cases :
      (P : State T → Type 0) (delivery : Delivery) (entered : Result (Unit {0}) TopicError)
      (busy : Bool) (s : State T) (key : CursorKey)
      → P s
      → ((c : Cursor) → P (read_at s key c (first_unread delivery s c)).0)
      → P (try_recv delivery entered busy s key).0
  unfolding try_recv
  try_recv-cases P delivery entered busy s key same read = grind arith

  pub try_recv-Valid :
      (capacity : ℕ) (revoked : ℕ → Bool) (delivery : Delivery)
      (entered : Result (Unit {0}) TopicError) (busy : Bool) (s : State T) (key : CursorKey)
      → Valid capacity revoked s
      → Valid capacity revoked (try_recv delivery entered busy s key).0
  try_recv-Valid capacity revoked delivery entered busy s key h =
      try_recv-cases (Valid capacity revoked) delivery entered busy s key h
        (λ c. read_at-Valid capacity revoked s key c (first_unread delivery s c) h)
