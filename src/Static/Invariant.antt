-- ===== src/Static/Invariant.antt =====
-- The representation invariant of the static stream, against the whole history of what it took.
use hiway.Prelude.{
  ℕ, ◌+◌, ◌-◌, ◌%◌, ◌^◌, ◌≤◌, ◌<◌, ◌≡◌, refl, ap, inl, inr, true, false, ◌&&◌, Option, none, some,
  List, [], ◌∷◌, ◌++◌, arith, get_elem?, set, length, any, All, Result, ok, leb, Option-cases,
  length-append, length-set, length-replicate, get_elem?-set_self, get_elem?-set_ne,
  get_elem?-append_left, get_elem?-append_last, All-set, All-map, All-replicate, All-get_elem?,
}
use hiway.Prelude.Modulo.{mod-ne}
use hiway.Event.{Delivery}
use native.Mathlib.Nat.{mod-lt}
use native.Mathlib.Decide.{ℕ_discrete}
use hiway.Static.Cases.{send_now_cases, subscribe_cases}
use hiway.Static.{
  new_cursor, SubscriptionRole, SubscriberKey, Cursor, State, new, subscribe, send_now, find_cursor,
  holds, is_required, is_latest,
}

-- A cursor is not past the tail, a required one has lost nothing, and its generation was issued.
abbrev pub IsPlaced : ℕ → ℕ → ℕ → Option Cursor → Type 0
IsPlaced cap tail issued none = Unit {0}
IsPlaced cap tail issued (some c) =
    (c.next ≤ tail) × (is_required c.role ≡ true → tail ≤ c.next + cap) × (c.generation < issued)

pub record IsValid {T : Type 0} (cap : ℕ) (history : List T) (s : State T) : Type 0 where
  pub cap_pos : 0 < cap
  pub slots : length s.values ≡ cap
  pub counted : s.tail ≡ length history
  pub in_u64 : s.tail < 2 ^ 64
  pub issued_u64 : s.next_generation < 2 ^ 64
  pub retained :
      s.closed ≡ none
      → (i : ℕ) → i < s.tail
      → s.tail ≤ i + cap
      → get_elem? s.values (i % cap) ≡ some (get_elem? history i)
  pub placed : All (IsPlaced cap s.tail s.next_generation) s.cursors

-- What a successful send adds to the history.
abbrev pub admitted : {T E : Type 0} → List T → T → Result (Unit {0}) E → List T
admitted history value (ok _) = history ++ value ∷ []
admitted history value _ = history

-- A send that no required cursor blocks leaves every required cursor within the window.
IsPlaced-send :
    (cap tail issued : ℕ) (cursors : List (Option Cursor))
    → (leb cap tail && any (holds (tail - cap)) cursors) ≡ false
    → All (IsPlaced cap tail issued) cursors
    → All (IsPlaced cap (tail + 1) issued) cursors
IsPlaced-send cap tail issued [] h p = tt
IsPlaced-send cap tail issued (none ∷ cs) h p =
    (tt, IsPlaced-send cap tail issued cs (ground arith) p.1)
IsPlaced-send cap tail issued (some c ∷ cs) h p = (
  (ground arith, λ r. ground arith, ground arith),
  IsPlaced-send cap tail issued cs (ground arith) p.1,
)

module _ {T : Type 0} where
  pub new-IsValid :
      (cap subs : ℕ) (delivery : Delivery)
      → 0 < cap
      → IsValid cap [] (new {T = T} cap subs delivery)
  unfolding new
  new-IsValid cap subs delivery h = record {
    cap_pos = h;
    slots = length-replicate cap none;
    counted = refl;
    in_u64 = omega arith;
    issued_u64 = omega arith;
    retained = λ _ i lt _. absurd (omega arith);
    placed = All-replicate (IsPlaced cap 0 0) subs none tt;
  }

  -- The slot written by a send, and the slots that it leaves.
  retained-send :
      (cap : ℕ) (history : List T) (s : State T) (value : T) (i : ℕ)
      → IsValid cap history s
      → s.closed ≡ none
      → i < s.tail + 1
      → s.tail + 1 ≤ i + cap
      → get_elem? (set s.values (s.tail % cap) (some value)) (i % cap)
        ≡ some (get_elem? (history ++ value ∷ []) i)
  retained-send cap history s value i v open_ lo hi = elim (ℕ_discrete i s.tail) [
    | yes e ↦
        rw (e, get_elem?-set_self s.values (s.tail % cap) (some value) bound, v.counted)
          (ap some (rw (get_elem?-append_last history value)))
    | no ne ↦ rw (
      get_elem?-set_ne s.values (s.tail % cap) (i % cap) (some value)
          (λ e. mod-ne cap i s.tail (omega arith) (omega arith) (rw e)),
      v.retained open_ i (omega arith) (omega arith),
      get_elem?-append_left history (value ∷ []) i (omega (arith, v.counted)),
    )
  ]
    where
      bound : s.tail % cap < length s.values
      bound = omega (arith, v.slots, mod-lt s.tail v.cap_pos)

  pub send_now-IsValid :
      (cap : ℕ) (history : List T) (s : State T) (value : T)
      → IsValid cap history s
      → let (r, s') = send_now cap s value in IsValid cap (admitted history value r) s'
  send_now-IsValid cap history s value v =
      send_now_cases (λ (r, s'). IsValid cap (admitted history value r) s') cap s value (λ _ _. v)
        (λ _. v) (λ _. v)
        λ open_ fits room. record {
          cap_pos = v.cap_pos;
          slots = omega (arith, length-set s.values (s.tail % cap) (some value), v.slots);
          counted = omega (arith, length-append history (value ∷ []), v.counted);
          in_u64 = fits;
          issued_u64 = v.issued_u64;
          retained = λ _ i lo hi. retained-send cap history s value i v open_ lo hi;
          placed = IsPlaced-send cap s.tail s.next_generation s.cursors room v.placed;
        }

  -- A new cursor at the tail, or at the snapshot of a latest-state stream.
  IsPlaced-new :
      (cap index : ℕ) (s : State T) (c : Cursor)
      → All (IsPlaced cap s.tail s.next_generation) s.cursors
      → IsPlaced cap s.tail (s.next_generation + 1) (some c)
      → All (IsPlaced cap s.tail (s.next_generation + 1)) (set s.cursors index (some c))
  IsPlaced-new cap index s c p q =
      All-set (IsPlaced cap s.tail (s.next_generation + 1)) s.cursors index (some c)
        (All-map (IsPlaced cap s.tail s.next_generation)
          (IsPlaced cap s.tail (s.next_generation + 1)) s.cursors more p)
        q
    where
      more :
          (o : Option Cursor)
          → IsPlaced cap s.tail s.next_generation o
          → IsPlaced cap s.tail (s.next_generation + 1) o
      more none h = tt
      more (some d) h = (h.0, h.1, omega arith)

  new_cursor-IsPlaced :
      (cap : ℕ) (s : State T) (role : SubscriptionRole)
      → (is_latest s.delivery && is_required role) ≡ false
      → IsPlaced cap s.tail (s.next_generation + 1) (some (new_cursor s role))
  new_cursor-IsPlaced cap s role good = (ground arith, λ r. ground arith, omega arith)

  pub subscribe-IsValid :
      (cap : ℕ) (history : List T) (s : State T) (role : SubscriptionRole)
      → IsValid cap history s
      → IsValid cap history (subscribe s role).1
  subscribe-IsValid cap history s role v =
      subscribe_cases (λ out. IsValid cap history out.1) s role (λ _. v)
        λ index open_ free fits good. record {
          cap_pos = v.cap_pos;
          slots = v.slots;
          counted = v.counted;
          in_u64 = v.in_u64;
          issued_u64 = fits;
          retained = λ o i lo hi. v.retained open_ i lo hi;
          placed =
              IsPlaced-new cap index s (new_cursor s role) v.placed
                (new_cursor-IsPlaced cap s role good);
        }

  -- Moving one cursor keeps the invariant if the new place is a good one.
  pub move-IsValid :
      (cap : ℕ) (history : List T) (s : State T) (index : ℕ) (c : Option Cursor) (changed : ℕ)
      → IsValid cap history s
      → IsPlaced cap s.tail s.next_generation c
      → IsValid cap history (record s { cursors = set s.cursors index c; changed = changed })
  move-IsValid cap history s index c changed v p = record {
    cap_pos = v.cap_pos;
    slots = v.slots;
    counted = v.counted;
    in_u64 = v.in_u64;
    issued_u64 = v.issued_u64;
    retained = v.retained;
    placed = All-set (IsPlaced cap s.tail s.next_generation) s.cursors index c v.placed p;
  }

  pub find_cursor-IsPlaced :
      (cap : ℕ) (history : List T) (s : State T) (key : SubscriberKey) (c : Cursor)
      → IsValid cap history s
      → find_cursor s.cursors key ≡ some c
      → IsPlaced cap s.tail s.next_generation (some c)
        × (get_elem? s.cursors key.index ≡ some (some c))
        × (c.generation ≡ key.generation)
  unfolding find_cursor
  find_cursor-IsPlaced cap history s key c v e =
      elim (Option-cases (get_elem? s.cursors key.index)) [
        | inl out ↦ ground arith
        | inr (none, at) ↦ ground arith
        | inr (some d, at) ↦ ground (
          arith,
          All-get_elem? (IsPlaced cap s.tail s.next_generation) s.cursors key.index (some d)
              v.placed at,
        )
      ]
