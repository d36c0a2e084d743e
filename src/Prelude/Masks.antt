-- ===== src/Prelude/Masks.antt =====
-- What masking a word with one bit, or with all the bits below it, gives.
use Prim.Native.Nat.{
  ℕ, zero, suc, ◌+◌, ◌-◌, ◌*◌, ◌/◌, ◌%◌, ◌^◌, ◌≤◌, ◌<◌, min, max, bit_and, bit_or, digits, bitwise,
  bit_and-bitwise, bit_or-bitwise,
}
use mathlib.Core.Path.{◌≡◌, refl, ap, sym, ◌∙◌}
use mathlib.Core.Logic.{◌⊎◌, inl, inr}
use native.Mathlib.Omega.{arith}

-- The digits above the lowest ones of two numbers, followed by those.
abbrev pub join : (ℕ → ℕ → ℕ) → ℕ → ℕ → ℕ → ℕ
join f x y upper = upper * 2 + f (x % 2) (y % 2)

module _ (z : ℕ → ℕ) (f : ℕ → ℕ → ℕ) where
  -- A count of digits that is enough may be raised by one, and so to any other.
  one_more : (count x y : ℕ) → x ≤ count → digits z f (suc count) x y ≡ digits z f count x y
  one_more zero zero y h = refl
  one_more zero (suc x) y h = absurd (omega arith)
  one_more (suc count) zero y h = refl
  one_more (suc count) (suc x) y h =
      ap (join f (suc x) y) (one_more count (suc x / 2) (y / 2) (omega arith))

  le_cases : (x count : ℕ) → x ≤ suc count → (x ≤ count) ⊎ (x ≡ suc count)
  le_cases x count h = grind arith

  any_more : (count x y : ℕ) → x ≤ count → digits z f count x y ≡ digits z f x x y
  any_more zero zero y h = refl
  any_more zero (suc x) y h = absurd (omega arith)
  any_more (suc count) x y h = elim (le_cases x count h) [
    | inl room ↦ one_more count x y room ∙ any_more count x y room
    | inr exact ↦ ap (λ count. digits z f count x y) (sym exact)
  ]

  peel : (x y : ℕ) → bitwise z f (suc x) y ≡ join f (suc x) y (bitwise z f (suc x / 2) (y / 2))
  peel x y = ap (join f (suc x) y) (any_more x (suc x / 2) (y / 2) (omega arith))

-- Both operations digit by digit.
pub bit_and_step : (x y : ℕ) → bit_and x y ≡ join min x y (bit_and (x / 2) (y / 2))
bit_and_step zero y = omega (arith, bit_and-bitwise zero y, bit_and-bitwise zero (y / 2))
bit_and_step (suc x) y =
    bit_and-bitwise (suc x) y
    ∙ peel (λ _. zero) min x y
    ∙ ap (join min (suc x) y) (sym (bit_and-bitwise (suc x / 2) (y / 2)))

pub bit_or_step : (x y : ℕ) → bit_or x y ≡ join max x y (bit_or (x / 2) (y / 2))
bit_or_step zero y = omega (arith, bit_or-bitwise zero y, bit_or-bitwise zero (y / 2))
bit_or_step (suc x) y =
    bit_or-bitwise (suc x) y
    ∙ peel (λ y. y) max x y
    ∙ ap (join max (suc x) y) (sym (bit_or-bitwise (suc x / 2) (y / 2)))

pow_suc : (k : ℕ) → 2 ^ suc k ≡ 2 * 2 ^ k
pow_suc k = omega arith

pow_half : (k : ℕ) → 2 ^ suc k / 2 ≡ 2 ^ k
pow_half k = omega arith

-- The halves of the words that the masks below meet.
half_high : (k r : ℕ) → (2 ^ suc k + r) / 2 ≡ 2 ^ k + r / 2
half_high k r = omega arith

half_mask : (k : ℕ) → (2 ^ suc k - 1) / 2 ≡ 2 ^ k - 1
half_mask k = omega (arith, positive k)
  where
    positive : (k : ℕ) → 1 ≤ 2 ^ k
    positive zero = omega arith
    positive (suc k) = omega (arith, positive k)

-- The bit is not set in a word below it, and it is the only one of its mask in a word above.
pub bit_and-low : (k r : ℕ) → r < 2 ^ k → bit_and r (2 ^ k) ≡ 0
bit_and-low zero zero h = refl
bit_and-low zero (suc r) h = absurd (omega arith)
bit_and-low (suc k) r h =
    rw (bit_and_step r (2 ^ suc k), pow_half k, bit_and-low k (r / 2) (omega arith)) (omega arith)

pub bit_and-high : (k r : ℕ) → r < 2 ^ k → bit_and (2 ^ k + r) (2 ^ k) ≡ 2 ^ k
bit_and-high zero zero h = refl
bit_and-high zero (suc r) h = absurd (omega arith)
bit_and-high (suc k) r h =
    rw
      (
        bit_and_step (2 ^ suc k + r) (2 ^ suc k),
        pow_half k,
        half_high k r,
        bit_and-high k (r / 2) (omega arith),
      )
      (omega arith)

-- The mask of all bits below keeps what is below.
pub bit_and_mask_low : (k r : ℕ) → r < 2 ^ k → bit_and r (2 ^ k - 1) ≡ r
bit_and_mask_low zero zero h = refl
bit_and_mask_low zero (suc r) h = absurd (omega arith)
bit_and_mask_low (suc k) r h =
    rw (bit_and_step r (2 ^ suc k - 1), half_mask k, bit_and_mask_low k (r / 2) (omega arith))
      (omega (arith, half_mask k))

pub bit_and_mask_high : (k r : ℕ) → r < 2 ^ k → bit_and (2 ^ k + r) (2 ^ k - 1) ≡ r
bit_and_mask_high zero zero h = refl
bit_and_mask_high zero (suc r) h = absurd (omega arith)
bit_and_mask_high (suc k) r h =
    rw
      (
        bit_and_step (2 ^ suc k + r) (2 ^ suc k - 1),
        half_mask k,
        half_high k r,
        bit_and_mask_high k (r / 2) (omega arith),
      )
      (omega (arith, half_mask k))

-- Setting the bit adds it once.
pub bit_or-low : (k r : ℕ) → r < 2 ^ k → bit_or r (2 ^ k) ≡ 2 ^ k + r
bit_or-low zero zero h = refl
bit_or-low zero (suc r) h = absurd (omega arith)
bit_or-low (suc k) r h =
    rw (bit_or_step r (2 ^ suc k), pow_half k, bit_or-low k (r / 2) (omega arith)) (omega arith)

pub bit_or-high : (k r : ℕ) → r < 2 ^ k → bit_or (2 ^ k + r) (2 ^ k) ≡ 2 ^ k + r
bit_or-high zero zero h = refl
bit_or-high zero (suc r) h = absurd (omega arith)
bit_or-high (suc k) r h =
    rw
      (
        bit_or_step (2 ^ suc k + r) (2 ^ suc k),
        pow_half k,
        half_high k r,
        bit_or-high k (r / 2) (omega arith),
      )
      (omega arith)

no_digits : (count x : ℕ) → digits (λ _. zero) min count x 0 ≡ 0
no_digits zero x = refl
no_digits (suc count) zero = refl
no_digits (suc count) (suc x) = omega (arith, no_digits count (suc x / 2))

bit_and_nothing : (x : ℕ) → bit_and x 0 ≡ 0
bit_and_nothing x = bit_and-bitwise x 0 ∙ no_digits x x

-- A bit that is set in any word is in it.
pub bit_and-bit_or : (k a : ℕ) → bit_and (bit_or a (2 ^ k)) (2 ^ k) ≡ 2 ^ k
bit_and-bit_or zero a =
    omega (arith, bit_and_step (bit_or a 1) 1, bit_or_step a 1, bit_and_nothing (bit_or a 1 / 2))
bit_and-bit_or (suc k) a =
    rw
      (
        bit_and_step (bit_or a (2 ^ suc k)) (2 ^ suc k),
        pow_half k,
        or_half k a,
        bit_and-bit_or k (a / 2),
      )
      (omega arith)
  where
    or_half : (k a : ℕ) → bit_or a (2 ^ suc k) / 2 ≡ bit_or (a / 2) (2 ^ k)
    or_half k a = rw (bit_or_step a (2 ^ suc k), pow_half k) (omega arith)
