-- ===== src/Dynamic/Kept.antt =====
-- Every section on a stream in shared storage keeps it valid.
use hiway.Prelude.{
  ℕ, ◌+◌, ◌≤◌, ◌≡◌, refl, inl, inr, Bool, true, false, not, ◌&&◌, Option, none, some, List, [], ◌∷◌,
  ◌==◌, if◌then◌else◌, set, length, any, All-set, arith, Option-cases,
}
use hiway.Event.{Delivery}
use hiway.Static.{SubscriptionRole}
use hiway.Dynamic.{
  Entry, Cursor, CursorKey, State, is_required, needs, has_read, required_needs, consumed, front_is,
  popped, drop_retired, retire_turn, make_room, subscribe_at, subscribe, remove_cursor,
}
use hiway.Dynamic.Calls.{find_owned, is_held, free_turn, head}
use hiway.Dynamic.Retained.{
  Consecutive, Fine, Sound, Valid, Consecutive-le, pop-Sound, earlier-needs,
}

-- What every live cursor has read, none needs.
consumed-unneeded :
    (revoked : ℕ → Bool) (sequence : ℕ) (cs : List (Option Cursor))
    → any (λ c. not (has_read revoked sequence c)) cs ≡ false
    → any (needs revoked sequence) cs ≡ false
unfolding has_read needs
consumed-unneeded revoked sequence [] e = refl
consumed-unneeded revoked sequence (none ∷ cs) e = consumed-unneeded revoked sequence cs e
consumed-unneeded revoked sequence (some c ∷ cs) e =
    grind (arith, consumed-unneeded revoked sequence cs)

and_last : (a b c : Bool) → (a && b && c) ≡ true → c ≡ true
and_last a b c e = grind arith

module _ {T : Type 0} where
  front_is-unneeded :
      (revoked : ℕ → Bool) (test : ℕ → Bool) (cs : List (Option Cursor)) (entries : List (Entry T))
      → ((sequence : ℕ) → test sequence ≡ true → any (needs revoked sequence) cs ≡ false)
      → front_is test entries ≡ true
      → front_is (λ sequence. any (needs revoked sequence) cs) entries ≡ false
  unfolding front_is
  front_is-unneeded revoked test cs [] f e = refl
  front_is-unneeded revoked test cs (x ∷ es) f e = f x.sequence e

  pub drop_retired-Valid :
      (capacity : ℕ) (revoked : ℕ → Bool) (busy : Bool) (s : State T)
      → Valid capacity revoked s
      → Valid capacity revoked (drop_retired busy s)
  unfolding drop_retired
  drop_retired-Valid capacity revoked true s h = h
  drop_retired-Valid capacity revoked false s h = h

  pub retire_turn-Valid :
      (capacity : ℕ) (revoked : ℕ → Bool) (busy : Bool) (s : State T)
      → Valid capacity revoked s
      → Valid capacity revoked (retire_turn revoked busy s).0
  unfolding retire_turn consumed popped
  retire_turn-Valid capacity revoked true s h = h
  retire_turn-Valid capacity revoked false s h =
      elim (front_is (consumed revoked s) s.entries)
          as (λ b.
            front_is (consumed revoked s) s.entries ≡ b
            → Valid capacity revoked
                (elim b as (λ _. State T × Bool) [
                  | false ↦ (s, false)
                  | true ↦ (popped s, true)
                ]).0) [
                  | false ↦ λ e. h
                  | true ↦ λ e.
                      pop-Sound capacity revoked s.entries s.subscribers s.tail
                        (front_is-unneeded revoked (consumed revoked s) s.subscribers s.entries
                          (λ sequence read.
                            consumed-unneeded revoked sequence s.subscribers (grind arith))
                          e)
                        h
                ]
        refl

  pub make_room-Valid :
      (capacity : ℕ) (revoked : ℕ → Bool) (busy : Bool) (s : State T)
      → Valid capacity revoked s
      → Valid capacity revoked (make_room capacity revoked busy s)
  unfolding make_room required_needs popped
  make_room-Valid capacity revoked true s h = h
  make_room-Valid capacity revoked false s h =
      elim (s.needs_room
            && length s.entries == capacity
            && front_is (λ sequence. not (required_needs revoked s sequence)) s.entries)
          as (λ b.
            (s.needs_room
                && length s.entries == capacity
                && front_is (λ sequence. not (required_needs revoked s sequence)) s.entries)
              ≡ b
            → Valid capacity revoked (
                if b
                then record (popped s) { needs_room = false }
                else record s { needs_room = false })) [
                  | false ↦ λ e. h
                  | true ↦ λ e.
                      pop-Sound capacity revoked s.entries s.subscribers s.tail
                        (front_is-unneeded revoked
                          (λ sequence. not (required_needs revoked s sequence)) s.subscribers
                          s.entries (λ sequence free. grind arith)
                          (and_last s.needs_room (length s.entries == capacity) _ e))
                        h
                ]
        refl

  -- What a subscription can do to the state.
  subscribe-cases :
      (P : State T → Type 0) (delivery : Delivery) (s : State T) (grant : ℕ)
      (role : SubscriptionRole)
      → P s
      → ((index next next_id : ℕ)
          → next ≤ s.tail
          → (is_required role ≡ true → next ≡ s.tail)
          → P (record s {
            next_cursor = next_id;
            subscribers =
                set s.subscribers index
                  (some (record { id = s.next_cursor; next = next; role = role; grant = grant }));
          }))
      → P (subscribe delivery s grant role).0
  unfolding subscribe subscribe_at
  subscribe-cases P delivery s grant role same added = grind arith

  pub subscribe-Valid :
      (capacity : ℕ) (revoked : ℕ → Bool) (delivery : Delivery) (s : State T) (grant : ℕ)
      (role : SubscriptionRole)
      → Valid capacity revoked s
      → Valid capacity revoked (subscribe delivery s grant role).0
  unfolding Fine
  subscribe-Valid capacity revoked delivery s grant role h =
      subscribe-cases (Valid capacity revoked) delivery s grant role h
        (λ index next next_id small whole. (
          h.0,
          h.1,
          h.2,
          All-set (Fine revoked (head s.entries s.tail) s.tail) s.subscribers index
              (some (record { id = s.next_cursor; next = next; role = role; grant = grant })) h.3
              (
                small,
                λ live. grind (arith, Consecutive-le (head s.entries s.tail) s.entries s.tail),
              ),
        ))

  pub remove_cursor-Valid :
      (capacity : ℕ) (revoked : ℕ → Bool) (s : State T) (key : CursorKey)
      → Valid capacity revoked s
      → Valid capacity revoked (remove_cursor s key)
  unfolding remove_cursor Fine
  remove_cursor-Valid capacity revoked s key h = (
    h.0,
    h.1,
    h.2,
    All-set (Fine revoked (head s.entries s.tail) s.tail) s.subscribers key.index none h.3 tt,
  )

  find_owned-later :
      (n node : ℕ) (entries : List (Entry T)) (tail : ℕ) (e : Entry T)
      → Consecutive n entries tail
      → find_owned node entries ≡ some e
      → n ≤ e.sequence
  unfolding find_owned Consecutive
  find_owned-later n node [] tail e h at = absurd (grind arith)
  find_owned-later n node (x ∷ es) tail e h at =
      grind (arith, find_owned-later (n + 1) node es tail e h.1)

  -- If the publisher's own first entry is not needed, the front is not.
  owned-unneeded :
      (capacity : ℕ) (revoked : ℕ → Bool) (node : ℕ) (entries : List (Entry T))
      (cs : List (Option Cursor)) (tail : ℕ) (e : Entry T)
      → Sound capacity revoked entries cs tail
      → find_owned node entries ≡ some e
      → any (needs revoked e.sequence) cs ≡ false
      → front_is (λ sequence. any (needs revoked sequence) cs) entries ≡ false
  unfolding front_is head
  owned-unneeded capacity revoked node [] cs tail e h at free = refl
  owned-unneeded capacity revoked node (x ∷ es) cs tail e h at free =
      earlier-needs revoked x.sequence e.sequence cs
        (find_owned-later x.sequence node (x ∷ es) tail e h.0 at) free

  -- What the second use of the lock in `reserve` can do to the state.
  free_turn-cases :
      (P : State T → Type 0) (revoked : ℕ → Bool) (busy : Bool) (node : ℕ) (s : State T) (value : T)
      → P s
      → (is_held revoked s (find_owned node s.entries) ≡ false → P (popped s))
      → P (free_turn revoked busy node s value).0
  unfolding free_turn
  free_turn-cases P revoked busy node s value same freed = grind arith

  pub free_turn-Valid :
      (capacity : ℕ) (revoked : ℕ → Bool) (busy : Bool) (node : ℕ) (s : State T) (value : T)
      → Valid capacity revoked s
      → Valid capacity revoked (free_turn revoked busy node s value).0
  unfolding is_held required_needs popped
  free_turn-Valid capacity revoked busy node s value h =
      free_turn-cases (Valid capacity revoked) revoked busy node s value h (λ free.
        elim (Option-cases (find_owned node s.entries)) [
          | inl nobody ↦ absurd (grind arith)
          | inr (e, at) ↦
              pop-Sound capacity revoked s.entries s.subscribers s.tail
                (owned-unneeded capacity revoked node s.entries s.subscribers s.tail e h at
                  (grind arith))
                h
        ])
