-- ===== src/Base/Division.antt =====
-- Floored quotients, as the amounts and the rates of the contracts are computed.
use Prim.Native.Nat.{ℕ, zero, suc, ◌+◌, ◌*◌, ◌/◌, ◌≤◌, ◌<◌}
use mathlib.Core.Path.{subst}
use native.Mathlib.Omega.{arith}
use native.Mathlib.Nat.{
  le_trans, le-div_iff_mul-le, div-mul-le_self, mul-le-mul_left, mul-le-mul_right, mul_comm,
  div-le_of_le-mul, div-zero, add-mul,
}

pub div_mono : (a b k : ℕ) → 0 < k → a ≤ b → a / k ≤ b / k
div_mono a b k p h = (le-div_iff_mul-le p).1 (le_trans (div-mul-le_self a k) h)

-- Two floored parts come to no more than the floored whole.
pub div_add-le : (a b k : ℕ) → 0 < k → a / k + b / k ≤ (a + b) / k
div_add-le a b k p =
    (le-div_iff_mul-le p).1 (omega (arith, div-mul-le_self a k, div-mul-le_self b k))

-- A part of an amount at a floored rate is no more than the amount.
pub rate-le :
    (amount unit time passed : ℕ)
    → 0 < unit
    → passed ≤ time
    → amount * unit / time * passed / unit ≤ amount
rate-le amount unit time passed p h = div-le_of_le-mul unit (
    subst (λ b. amount * unit / time * passed ≤ b) (mul_comm amount unit)
      (le_trans (mul-le-mul_left (amount * unit / time) h) (div-mul-le_self (amount * unit) time)))

-- So with a common factor; a quotient by 0 is 0.
pub scaled_add-le : (a b c unit k : ℕ) → a + b ≤ c → a * unit / k + b * unit / k ≤ c * unit / k
scaled_add-le a b c unit zero h = simp div-zero (omega arith)
scaled_add-le a b c unit (suc k) h =
    le_trans (div_add-le (a * unit) (b * unit) (suc k) (omega arith)) (
      div_mono (a * unit + b * unit) (c * unit) (suc k) (omega arith)
        (subst (λ x. x ≤ c * unit) (add-mul a b unit) (mul-le-mul_right unit h)))
