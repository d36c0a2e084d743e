-- ===== src/Static/Receive.antt =====
-- `recv_now` of the static stream reads the log of all publications.
use hiway.Prelude.{
  ℕ, ◌+◌, ◌-◌, ◌≡◌, ap, sym, ◌∙◌, none, some, List, arith, get_elem?, set, ok, get_elem?-lt,
  get_elem?-none,
}
use hiway.Static.{SubscriberKey, Cursor, State, recv_at, recv_now, find_cursor, coalesce}
use hiway.Static.Cases.{recv_at_cases, recv_now_cases}
use hiway.Static.Invariant.{IsValid, IsPlaced, move-IsValid, find_cursor-IsPlaced}
use hiway.Static.Log.{start, read, position}

module _ {T : Type 0} where
  -- Coalescing keeps a cursor in place.
  pub coalesce-IsPlaced :
      (cap issued : ℕ) (s : State T) (c : Cursor)
      → IsPlaced cap s.tail issued (some c)
      → IsPlaced cap s.tail issued (some (coalesce s c))
  coalesce-IsPlaced cap issued s c p = (ground arith, λ r. ground (arith, p.1 r), p.2)

  recv_at-IsValid :
      (cap : ℕ) (history : List T) (s : State T) (index : ℕ) (c : Cursor)
      → IsValid cap history s
      → IsPlaced cap s.tail s.next_generation (some c)
      → IsValid cap history (recv_at cap s index c).1
  recv_at-IsValid cap history s index c v p =
      recv_at_cases (λ out. IsValid cap history out.1) cap s index c
        (λ lo.
          move-IsValid cap history s index (some (record c { next = s.tail - cap })) _ v
            (omega arith, λ r. omega arith, p.2))
        (λ e. move-IsValid cap history s index (some c) s.changed v p)
        (λ value lo ne at.
          move-IsValid cap history s index (some (record c { next = c.next + 1 })) _ v
            (omega arith, λ r. omega (arith, p.1 r), p.2))
        (λ _ _ _. v)

  pub recv_now-IsValid :
      (cap : ℕ) (history : List T) (s : State T) (key : SubscriberKey)
      → IsValid cap history s
      → IsValid cap history (recv_now cap s key).1
  recv_now-IsValid cap history s key v =
      recv_now_cases (λ out. IsValid cap history out.1) cap s key (λ _ _. v) (λ _. v)
        λ c _ found. recv_at-IsValid cap history s key.index (coalesce s c) v (
          coalesce-IsPlaced cap s.next_generation s c
            (find_cursor-IsPlaced cap history s key c v found).0)

  -- One receive at an open stream, cursor in hand.
  pub recv_at_reads :
      (cap : ℕ) (history : List T) (s : State T) (index : ℕ) (c : Cursor)
      → IsValid cap history s
      → s.closed ≡ none
      → IsPlaced cap s.tail s.next_generation (some c)
      → ((recv_at cap s index c).0 ≡ ok (read cap history c.next))
        × ((recv_at cap s index c).1.cursors
            ≡ set s.cursors index (some (record c { next = position cap history c.next })))
  unfolding read position
  recv_at_reads cap history s index c v open_ p =
      recv_at_cases
        (λ out.
          (out.0 ≡ ok (read cap history c.next))
          × (out.1.cursors
              ≡ set s.cursors index (some (record c { next = position cap history c.next }))))
        cap s index c (λ lo. ground (arith, v.counted))
        (λ e. ground (arith, v.counted, get_elem?-none history c.next))
        (λ value lo ne at.
          let here : some (some value) ≡ some (get_elem? history c.next) =
            sym at ∙ v.retained open_ c.next (omega (arith, p.0)) (omega arith) in
          ground (arith, v.counted, here))
        (λ lo ne no.
          let (value, e) = get_elem?-lt history c.next (omega (arith, v.counted, p.0)) in
          absurd
            (no value (v.retained open_ c.next (omega (arith, p.0)) (omega arith) ∙ ap some e)))

  -- Reading at an open stream returns what the log has for the subscriber, without a panic, moves
  -- its cursor to where the log says, and moves no other cursor.
  pub recv_now-read :
      (cap : ℕ) (history : List T) (s : State T) (key : SubscriberKey) (c : Cursor)
      → IsValid cap history s
      → s.closed ≡ none
      → find_cursor s.cursors key ≡ some c
      → let from = start s.delivery history c.next in
        ((recv_now cap s key).0 ≡ ok (read cap history from))
        × ((recv_now cap s key).1.cursors
            ≡ set s.cursors key.index (some (record c { next = position cap history from })))
  unfolding start
  recv_now-read cap history s key c v open_ found =
      recv_now_cases
        (λ out.
          (out.0 ≡ ok (read cap history (start s.delivery history c.next)))
          × (out.1.cursors
              ≡ set s.cursors key.index (
                  some
                    (record c { next = position cap history (start s.delivery history c.next) }))))
        cap s key (λ reason e. absurd (cc)) (λ e. absurd (cc))
        (λ d _ e. ground (
          arith,
          v.counted,
          recv_at_reads cap history s key.index (coalesce s c) v open_ (
              coalesce-IsPlaced cap s.next_generation s c
                (find_cursor-IsPlaced cap history s key c v found).0),
        ))
