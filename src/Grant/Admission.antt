-- ===== src/Grant/Admission.antt =====
-- hiway/src/grant.rs: the state word of a grant, with its revocation bit and its operations.
pub mod Cutoff
mod Tests
use hiway.Prelude.{
  ℕ, ◌+◌, ◌-◌, ◌%◌, ◌^◌, Bool, true, false, not, ◌&&◌, Option, none, some, List, [], ◌∷◌, ◌==◌, ltb,
  if◌then◌else◌, Result, ok, err, panic, bit_and, bit_or,
}
use hiway.Errors.{TopicError}

-- `REVOKED`
abbrev pub revoked : ℕ
revoked = 2 ^ 63

-- `ACTIVE_COUNT`
abbrev pub active_count : ℕ
active_count = 2 ^ 63 - 1

unfoldable pub is_cut_off : ℕ → Bool
is_cut_off state = not (bit_and state revoked == 0)

unfoldable pub active : ℕ → ℕ
active state = bit_and state active_count

unfoldable pub advance : ℕ → Option ℕ
advance state =
    if not (is_cut_off state) && ltb (active state) active_count then some (state + 1) else none

-- The error of a word that does not advance.
unfoldable pub refusal : ℕ → TopicError
refusal state = if is_cut_off state then TopicError.revoked else TopicError.capacity

-- `state.fetch_update(advance)`: the new word, and whether the operation is counted.
unfoldable pub count : ℕ → ℕ × Result (Unit {0}) TopicError
unfolding advance refusal
count state = elim (advance state) [
  | none ↦ (state, err (refusal state))
  | some next ↦ (next, ok tt)
]

-- The load and the `compare_exchange` of a deferred entry: `loaded` is what it read, `state` the
-- word when it writes.
unfoldable pub count_deferred : ℕ → ℕ → ℕ × Result (Unit {0}) TopicError
unfolding advance refusal
count_deferred loaded state = elim (advance loaded) [
  | none ↦ (state, err (refusal loaded))
  | some next ↦ if state == loaded then (next, ok tt) else (state, err TopicError.contended)
]

-- `state.fetch_sub(1)` of an operation that ends, and whether it wakes who waits for the cutoff.
unfoldable pub leave : Bool → ℕ → ℕ × Bool
leave notify state = ((state + (2 ^ 64 - 1)) % 2 ^ 64, notify && state == bit_or revoked 1)

-- `state.fetch_or(REVOKED)`, and whether it is the first.
unfoldable pub cut_off : ℕ → ℕ × Bool
cut_off state = (bit_or state revoked, not (is_cut_off state))

-- The test that `revoke` waits for.
unfoldable pub is_drained : ℕ → Bool
is_drained state = active state == 0

-- The word of one grant, and the operations on it that have not ended.
pub record Shared : Type 0 where
  pub state : ℕ
  pub operations : ℕ

-- What any thread does to the word in one atomic step. The word that a deferred entry compares
-- with is one it has loaded at any time before.
pub data Action : Type 0 where
  enters : Action
  enters_deferred : ℕ → Action
  ends : Bool → Action
  revokes : Action

unfoldable pub counted : Shared → ℕ × Result (Unit {0}) TopicError → Shared
counted s (state, ok _) = record { state = state; operations = s.operations + 1 }
counted s (state, _) = record s { state = state }

-- Only an operation that has not ended can end.
unfoldable pub step : Shared → Action → Shared
unfolding counted
step s enters = counted s (count s.state)
step s (enters_deferred loaded) = counted s (count_deferred loaded s.state)
step s (ends notify) =
    if s.operations == 0
    then s
    else record { state = (leave notify s.state).0; operations = s.operations - 1 }
step s revokes = record s { state = (cut_off s.state).0 }

unfoldable pub run : Shared → List Action → Shared
run s [] = s
run s (a ∷ rest) = run (step s a) rest

-- Whether a grant has been revoked by these steps.
unfoldable pub is_revoked_by : List Action → Bool
is_revoked_by [] = false
is_revoked_by (revokes ∷ rest) = true
is_revoked_by (_ ∷ rest) = is_revoked_by rest

-- A new grant.
abbrev pub fresh : Shared
fresh = record { state = 0; operations = 0 }
