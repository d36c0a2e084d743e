-- ===== src/Prelude/Words.antt =====
-- `Result` with panics as a third outcome, and the checked operations of Rust's unsigned integers.
use Prim.Native.Nat.{ℕ, ◌+◌, ◌-◌, ◌^◌}
use mathlib.Core.Option.{Option, none, some}
use Prim.Native.Nat.{compare, Ordering}

-- `Result<A, E>`; `panic` stands for a call that does not return.
pub data Result {ℓ κ} (A : Type ℓ) (E : Type κ) : Type (ℓ ⊔ κ) where
  ok : A → Result A E
  err : E → Result A E
  panic : Result A E

abbrev pub u32_max : ℕ
u32_max = 2 ^ 32 - 1

abbrev pub u64_max : ℕ
u64_max = 2 ^ 64 - 1

-- `a.checked_add(b)` on u64
abbrev pub checked_add : ℕ → ℕ → Option ℕ
checked_add a b = elim (compare (a + b) (2 ^ 64)) [ Ordering.lt ↦ some (a + b) | _ ↦ none ]

-- `a - b` on usize, which wraps around below 0
abbrev pub wrapping_sub : ℕ → ℕ → ℕ
wrapping_sub a b = elim (compare a b) [ Ordering.lt ↦ 2 ^ 64 + a - b | _ ↦ a - b ]

-- `a.saturating_add(b)` on u64
abbrev pub saturating_add : ℕ → ℕ → ℕ
saturating_add a b = elim (compare (a + b) (2 ^ 64)) [ Ordering.lt ↦ a + b | _ ↦ u64_max ]

-- `a.checked_sub(b)`
abbrev pub checked_sub : ℕ → ℕ → Option ℕ
checked_sub a b = elim (compare a b) [ Ordering.lt ↦ none | _ ↦ some (a - b) ]
