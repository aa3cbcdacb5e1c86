-- ===== src/Base/Round.antt =====
-- `timedelta / int`: division of microseconds rounded to the nearest, ties to the even quotient.
use booksaver_agent.Base.Tests.{ltb, ◌==◌, if◌then◌else◌}
use Prim.Native.Nat.{ℕ, ◌+◌, ◌*◌, ◌/◌, ◌%◌, ◌≤◌, ◌<◌}
use mathlib.Core.Path.{◌≡◌, refl}
use native.Mathlib.Omega.{arith}
use native.Mathlib.Decide.{dec_le}

unfoldable pub div_half_even : ℕ → ℕ → ℕ
div_half_even a b =
    let q = a / b in
    let r = a % b in
    if ltb (2 * r) b then q else if ltb b (2 * r) then q + 1 else if q % 2 == 0 then q else q + 1

-- The rounded quotient lies within half a unit of the exact one.
pub div_half_even_bounds :
    (a b : ℕ)
    → 0 < b
    → (2 * a ≤ 2 * (b * div_half_even a b) + b) × (2 * (b * div_half_even a b) ≤ 2 * a + b)
unfolding div_half_even
div_half_even_bounds a b h = grind arith

pub mul_step : (b x y : ℕ) → y < x → b * y + b ≤ b * x
mul_step b x y h = grind arith

-- Multiples of `b` that are less than `b` apart come from the same order of factors.
pub mul_le_cancel : (b x y : ℕ) → 0 < b → 2 * (b * x) ≤ 2 * (b * y) + b → x ≤ y
mul_le_cancel b x y h near = elim (dec_le x y) [
  | yes p ↦ p
  | no p ↦ absurd (omega (arith, near, h, mul_step b x y (omega arith)))
]

pub div_half_even_exact : (q b : ℕ) → 0 < b → div_half_even (b * q) b ≡ q
div_half_even_exact q b h =
    let (low, high) = div_half_even_bounds (b * q) b h in
    omega (
      arith,
      mul_le_cancel b q (div_half_even (b * q) b) h (omega arith),
      mul_le_cancel b (div_half_even (b * q) b) q h (omega arith),
    )

half_even_tests : (div_half_even 5 2 ≡ 2) × (div_half_even 7 2 ≡ 4) × (div_half_even 8 3 ≡ 3)
unfolding div_half_even
half_even_tests = (refl, refl, refl)
