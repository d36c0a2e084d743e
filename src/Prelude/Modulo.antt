-- ===== src/Prelude/Modulo.antt =====
-- Slots of a ring: sequences less than `cap` apart stand in different slots.
use Prim.Native.Nat.{ℕ, ◌+◌, ◌*◌, ◌/◌, ◌%◌, ◌≤◌, ◌<◌}
use mathlib.Core.Logic.{◌≢◌}
use native.Mathlib.Nat.{div-add-mod}
use native.Mathlib.Decide.{dec_lt}
use native.Mathlib.Omega.{arith}

mul_step : (a b cap : ℕ) → a < b → a * cap + cap ≤ b * cap
mul_step a b cap h = grind arith

pub mod-ne : (cap i j : ℕ) → i < j → j < i + cap → i % cap ≢ j % cap
mod-ne cap i j lo hi e = elim (dec_lt (i / cap) (j / cap)) [
  | yes p ↦
      omega (arith, mul_step (i / cap) (j / cap) cap p, div-add-mod i cap, div-add-mod j cap, e)
  | no p ↦ elim (dec_lt (j / cap) (i / cap)) [
    | yes q ↦
        omega (arith, mul_step (j / cap) (i / cap) cap q, div-add-mod i cap, div-add-mod j cap, e)
    | no q ↦ grind (arith, div-add-mod i cap, div-add-mod j cap)
  ]
]
