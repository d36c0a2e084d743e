-- ===== src/Static/Backpressure.antt =====
-- When `send_now` is refused for lack of room.
use hiway.Prelude.{
  ℕ, ◌+◌, ◌-◌, ◌^◌, ◌<◌, ◌≡◌, refl, ◌↔◌, true, ◌&&◌, Option, none, some, List, arith, get_elem?,
  any, err, leb, All-get_elem?, any-witness, any-intro,
}
use hiway.Errors.{TrySendError}
use hiway.Static.{Cursor, State, send_now, holds, is_required}
use hiway.Static.Cases.{send_now_cases}
use hiway.Static.Invariant.{IsValid, IsPlaced}

-- A required subscription has not yet read the oldest value of a full stream.
abbrev pub IsHeld : {T : Type 0} → ℕ → State T → Type 0
IsHeld cap s =
    (index : ℕ) × (c : Cursor) × (get_elem? s.cursors index ≡ some (some c))
    × (is_required c.role ≡ true)
    × (c.next + cap ≡ s.tail)

module _ {T : Type 0} where
  IsHeld-of_any :
      (cap : ℕ) (history : List T) (s : State T)
      → IsValid cap history s
      → (leb cap s.tail && any (holds (s.tail - cap)) s.cursors) ≡ true
      → IsHeld cap s
  IsHeld-of_any cap history s v h =
      let (i, o, at, e) = any-witness (holds (s.tail - cap)) s.cursors (ground arith) in
      at_slot i o at e
    where
      at_slot :
          (i : ℕ) (o : Option Cursor)
          → get_elem? s.cursors i ≡ some o
          → holds (s.tail - cap) o ≡ true
          → IsHeld cap s
      at_slot i none at e = cc
      at_slot i (some c) at e =
          let placed =
            All-get_elem? (IsPlaced cap s.tail s.next_generation) s.cursors i (some c) v.placed
              at in
          let r : is_required c.role ≡ true = ground arith in
          (i, c, at, r, ground (arith, placed.1 r))

  any-IsHeld :
      (cap : ℕ) (s : State T)
      → IsHeld cap s
      → (leb cap s.tail && any (holds (s.tail - cap)) s.cursors) ≡ true
  any-IsHeld cap s (i, c, at, r, e) =
      ground (arith, any-intro (holds (s.tail - cap)) s.cursors i (some c) at (ground arith))

  -- An open stream with a sequence left refuses a value as full exactly if a required subscription
  -- has not read the oldest retained value of a full ring.
  pub send_now-full_iff :
      (cap : ℕ) (history : List T) (s : State T) (value : T)
      → IsValid cap history s
      → s.closed ≡ none
      → s.tail + 1 < 2 ^ 64
      → ((send_now cap s value).0 ≡ err (TrySendError.full value)) ↔ IsHeld cap s
  send_now-full_iff cap history s value v open_ room =
      send_now_cases (λ out. (out.0 ≡ err (TrySendError.full value)) ↔ IsHeld cap s) cap s value
        (λ reason e. absurd (cc)) (λ e. absurd (omega arith))
        (λ blocked. (λ _. IsHeld-of_any cap history s v blocked, λ _. refl))
        (λ _ _ free. (λ e. absurd (cc), λ held. absurd (cc (any-IsHeld cap s held))))
