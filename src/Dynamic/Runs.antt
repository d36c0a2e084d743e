-- ===== src/Dynamic/Runs.antt =====
-- Sequences of calls on a stream in shared storage, by the owners of its endpoints and grants.
use hiway.Prelude.{
  ℕ, zero, suc, ◌+◌, ◌-◌, ◌<◌, ◌≤◌, ◌≡◌, refl, ◌⊎◌, inl, inr, Bool, true, false, ◌||◌, Option, none,
  some, List, [], ◌∷◌, ◌==◌, ◌++◌, set, get_elem?, All-map, All-get_elem?, All-replicate, Result,
  ok, arith,
}
use hiway.Event.{Delivery, ordered}
use hiway.Errors.{TopicError, ReceiveError}
use hiway.Static.{SubscriptionRole, StreamItem, item}
use hiway.Dynamic.{
  Entry, Cursor, CursorKey, State, StreamConfig, new, is_required, check_config, subscribe,
  remove_cursor, close,
}
use hiway.Dynamic.Calls.{commit, cursor_of, head, first_unread, read_at, try_recv}
use hiway.Dynamic.Retained.{Consecutive, Fine, Valid}
use hiway.Dynamic.Kept.{subscribe-Valid, remove_cursor-Valid}
use hiway.Dynamic.Work.{Work, maintaining, retiring, stops, Around, begin_reserve, advance}
use hiway.Dynamic.Advance.{advance-Valid}
use hiway.Dynamic.Moved.{commit-Valid, try_recv-Valid}

-- A stream, which nodes are revoked, and where the threads are that have begun a call of several
-- sections.
pub record World (T : Type 0) : Type 0 where
  pub stream : State T
  pub revoked : ℕ → Bool
  pub works : List (Work T)

-- What runs under one use of the lock, so that an execution is a list of these in any order; a node may
-- be revoked between any two. `maintains`, `detaches` and `reserves` begin a call whose sections are
-- run by `advances`, each at any later moment. A reservation and `commits` are the halves of a
-- `send_now`.
pub data Call (T : Type 0) : Type 0 where
  subscribes : ℕ → SubscriptionRole → Call T
  detaches : CursorKey → Call T
  maintains : Call T
  reserves : Result (Unit {0}) TopicError → ℕ → T → Call T
  advances : ℕ → Around → Call T
  commits : ℕ → Bool → Result (Unit {0}) TopicError → Bool → T → Call T
  receives : Result (Unit {0}) TopicError → Bool → CursorKey → Call T
  closes : Call T
  revokes : ℕ → Call T

module _ {T : Type 0} where
  -- One section of the thread at an index, if there is one.
  unfoldable pub advance_at : Delivery → ℕ → World T → ℕ → Around → Option (Work T) → World T
  advance_at delivery capacity w i around none = w
  advance_at delivery capacity w i around (some work) =
      let (stream, later) = advance delivery capacity w.revoked around w.stream work in
      record w { stream = stream; works = set w.works i later }

  unfoldable pub step : Delivery → ℕ → World T → Call T → World T
  unfolding begin_reserve remove_cursor advance_at
  step delivery capacity w (subscribes node role) = record w {
    stream = (subscribe delivery w.stream node role).0;
  }
  step delivery capacity w (detaches key) = record w {
    stream = remove_cursor w.stream key;
    works = w.works ++ retiring capacity none ∷ [];
  }
  step delivery capacity w maintains = record w { works = w.works ++ maintaining stops ∷ [] }
  step delivery capacity w (reserves entered node value) = record w {
    works = w.works ++ begin_reserve delivery capacity entered node value ∷ [];
  }
  step delivery capacity w (advances i around) =
      advance_at delivery capacity w i around (get_elem? w.works i)
  step delivery capacity w (commits node deferred entered busy value) = record w {
    stream = (commit delivery capacity w.revoked node deferred entered busy w.stream value).0;
  }
  step delivery capacity w (receives entered busy key) = record w {
    stream = (try_recv delivery entered busy w.stream key).0;
  }
  step delivery capacity w closes = record w { stream = close w.stream }
  step delivery capacity w (revokes node) = record w { revoked = λ n. n == node || w.revoked n }

  unfoldable pub run : Delivery → ℕ → World T → List (Call T) → World T
  run delivery capacity w [] = w
  run delivery capacity w (c ∷ cs) = run delivery capacity (step delivery capacity w c) cs

  abbrev pub opened : StreamConfig → World T
  opened config = record { stream = new config; revoked = λ n. false; works = [] }

positive :
    (delivery : Delivery) (config : StreamConfig)
    → check_config delivery config ≡ ok tt
    → 0 < config.capacity
unfolding check_config
positive delivery config e = grind arith

at_or_below : (a b : ℕ) → a ≤ b → (a ≡ b) ⊎ (a < b)
at_or_below a b h = grind arith

cursor_of-slot :
    (cs : List (Option Cursor)) (key : CursorKey) (c : Cursor)
    → cursor_of cs key ≡ some c
    → get_elem? cs key.index ≡ some (some c)
unfolding cursor_of
cursor_of-slot cs key c e = grind arith

revoked-Fine :
    (revoked : ℕ → Bool) (node first tail : ℕ) (c : Option Cursor)
    → Fine revoked first tail c
    → Fine (λ n. n == node || revoked n) first tail c
unfolding Fine
revoked-Fine revoked node first tail none h = tt
revoked-Fine revoked node first tail (some c) h = (h.0, λ live. grind arith)

module _ {T : Type 0} where
  advance_at-Valid :
      (delivery : Delivery) (capacity : ℕ) (w : World T) (i : ℕ) (around : Around)
      (work : Option (Work T))
      → Valid capacity w.revoked w.stream
      → Valid capacity
          (advance_at delivery capacity w i around work).revoked
          (advance_at delivery capacity w i around work).stream
  unfolding advance_at
  advance_at-Valid delivery capacity w i around none h = h
  advance_at-Valid delivery capacity w i around (some work) h =
      advance-Valid delivery capacity w.revoked around w.stream work h

  step-Valid :
      (delivery : Delivery) (capacity : ℕ) (w : World T) (c : Call T)
      → 0 < capacity
      → Valid capacity w.revoked w.stream
      → Valid capacity (step delivery capacity w c).revoked (step delivery capacity w c).stream
  unfolding step close head Consecutive
  step-Valid delivery capacity w (subscribes node role) room h =
      subscribe-Valid capacity w.revoked delivery w.stream node role h
  step-Valid delivery capacity w (detaches key) room h =
      remove_cursor-Valid capacity w.revoked w.stream key h
  step-Valid delivery capacity w maintains room h = h
  step-Valid delivery capacity w (reserves entered node value) room h = h
  step-Valid delivery capacity w (advances i around) room h =
      advance_at-Valid delivery capacity w i around (get_elem? w.works i) h
  step-Valid delivery capacity w (commits node deferred entered busy value) room h =
      commit-Valid delivery capacity w.revoked node deferred entered busy w.stream value room h
  step-Valid delivery capacity w (receives entered busy key) room h =
      try_recv-Valid capacity w.revoked delivery entered busy w.stream key h
  step-Valid delivery capacity w closes room h = (refl, omega arith, h.2, tt)
  step-Valid delivery capacity w (revokes node) room h =
      let s = w.stream in
      let first = head s.entries s.tail in
      (
        h.0,
        h.1,
        h.2,
        All-map (Fine w.revoked first s.tail) (Fine (λ n. n == node || w.revoked n) first s.tail)
            s.subscribers (λ c. revoked-Fine w.revoked node first s.tail c) h.3,
      )

  run-Valid :
      (delivery : Delivery) (capacity : ℕ) (w : World T) (calls : List (Call T))
      → 0 < capacity
      → Valid capacity w.revoked w.stream
      → Valid capacity
          (run delivery capacity w calls).revoked
          (run delivery capacity w calls).stream
  unfolding run
  run-Valid delivery capacity w [] room h = h
  run-Valid delivery capacity w (c ∷ cs) room h =
      run-Valid delivery capacity (step delivery capacity w c) cs room
        (step-Valid delivery capacity w c room h)

  -- After any calls on a new stream with bounds that creation accepts, with the sections of concurrent
  -- calls in any order, each with the lock free or held elsewhere and whatever the grants and their
  -- pools answer, and whichever nodes are revoked in between, the retained entries are consecutive up
  -- to the tail and at most as many as the capacity, the tail fits a u64, no cursor is past the tail,
  -- and no sequence that a required cursor of a grant that is not revoked has yet to read is gone.
  pub run-opened-Valid :
      (delivery : Delivery) (config : StreamConfig) (calls : List (Call T))
      → check_config delivery config ≡ ok tt
      → Valid config.capacity
          (run delivery config.capacity (opened config) calls).revoked
          (run delivery config.capacity (opened config) calls).stream
  unfolding new Consecutive head Fine
  run-opened-Valid delivery config calls accepted =
      run-Valid delivery config.capacity (opened config) calls (positive delivery config accepted) (
        refl,
        omega arith,
        omega arith,
        All-replicate (Fine (λ n. false) 0 0) config.subscribers none tt,
      )

  -- The entry at a distance from the head.
  Consecutive-get_elem? :
      (n : ℕ) (entries : List (Entry T)) (tail i : ℕ)
      → Consecutive n entries tail
      → n + i < tail
      → (e : Entry T) × (get_elem? entries i ≡ some e) × (e.sequence ≡ n + i)
  unfolding Consecutive
  Consecutive-get_elem? n [] tail i h small = absurd (omega arith)
  Consecutive-get_elem? n (x ∷ es) tail zero h small = (x, refl, omega (arith, h.0))
  Consecutive-get_elem? n (x ∷ es) tail (suc i) h small =
      let (e, at, same) = Consecutive-get_elem? (n + 1) es tail i h.1 (omega arith) in
      (e, at, omega arith)

  -- What a reception hands out of a stream for a cursor.
  abbrev pub InOrder : State T → Cursor → Result (Option (StreamItem T)) ReceiveError → Type 0
  InOrder s c answer =
      ((c.next ≡ s.tail) × (answer ≡ ok none))
      ⊎ ((i : ℕ) × (e : Entry T) × (get_elem? s.entries i ≡ some e)
          × (e.sequence ≡ c.next)
          × (answer ≡ ok (some (item c.next e.value))))

  read_at-none :
      (s : State T) (key : CursorKey) (c : Cursor)
      → head s.entries s.tail ≤ c.next
      → s.tail ≤ c.next
      → (read_at s key c c.next).1 ≡ ok none
  unfolding read_at
  read_at-none s key c low high = grind arith

  read_at-item :
      (s : State T) (key : CursorKey) (c : Cursor) (e : Entry T)
      → head s.entries s.tail ≤ c.next
      → c.next < s.tail
      → get_elem? s.entries (c.next - head s.entries s.tail) ≡ some e
      → (read_at s key c c.next).1 ≡ ok (some (item c.next e.value))
  unfolding read_at
  read_at-item s key c e low high at = grind arith

  read_at-InOrder :
      (s : State T) (key : CursorKey) (c : Cursor)
      → Consecutive (head s.entries s.tail) s.entries s.tail
      → head s.entries s.tail ≤ c.next
      → (c.next ≡ s.tail) ⊎ (c.next < s.tail)
      → InOrder s c (read_at s key c c.next).1
  read_at-InOrder s key c h low (inl at_tail) =
      inl (at_tail, read_at-none s key c low (omega arith))
  read_at-InOrder s key c h low (inr small) =
      let first = head s.entries s.tail in
      let (e, at, same) =
        Consecutive-get_elem? first s.entries s.tail (c.next - first) h (omega arith) in
      inr (c.next - first, e, at, omega arith, read_at-item s key c e low small at)

  cursor_of-Fine :
      (capacity : ℕ) (revoked : ℕ → Bool) (s : State T) (key : CursorKey) (c : Cursor)
      → Valid capacity revoked s
      → cursor_of s.subscribers key ≡ some c
      → Fine revoked (head s.entries s.tail) s.tail (some c)
  cursor_of-Fine capacity revoked s key c h at =
      All-get_elem? (Fine revoked (head s.entries s.tail) s.tail) s.subscribers key.index (some c)
        h.3 (cursor_of-slot s.subscribers key c at)

  -- An admitted reception of a required subscription on an ordered valid stream, while its grant is not
  -- revoked, neither panics nor reports a gap: it answers the retained entry of exactly its next
  -- sequence, or nothing if that is the tail.
  pub try_recv-required :
      (capacity : ℕ) (revoked : ℕ → Bool) (s : State T) (key : CursorKey) (c : Cursor)
      → Valid capacity revoked s
      → s.closed ≡ false
      → cursor_of s.subscribers key ≡ some c
      → is_required c.role ≡ true
      → revoked c.grant ≡ false
      → InOrder s c (try_recv ordered (ok tt) false s key).1
  unfolding try_recv first_unread Fine
  try_recv-required capacity revoked s key c h opened at needed live =
      let (high, kept) = cursor_of-Fine capacity revoked s key c h at in
      let read =
        read_at-InOrder s key c h.0 (kept (grind arith)) (at_or_below c.next s.tail high) in
      rw (opened, at) read
