-- ===== src/Helper/Rounding.antt =====
-- What the helpers of packages/spectrum/src/helper.rs compute.
use spectrum_core.Base.{ℕ, ◌+◌, ◌-◌, ◌*◌, ◌/◌, ◌≤◌, ◌<◌, ◌≡◌, arith, ok, min, max}
use native.Mathlib.Nat.{
  lt-div-mul-add, div-mul-le_self, add-mul, mul-add, mul-le-mul_left, le-div_iff_mul-le,
  div-le_of_le-mul,
}
use spectrum_core.Cosmwasm.Math.{math, u128_mod}
use spectrum_core.Helper.{compute_deposit_time, multiply_ratio_and_ceil}

-- `q` is the quotient of `n` by `d`, rounded up.
abbrev pub IsCeiling : ℕ → ℕ → ℕ → Type 0
IsCeiling n d q = (0 < d) × (n ≤ q * d) × (q * d < n + d)

pub multiply_ratio_and_ceil-IsCeiling :
    {E : Type 0} (a n d : ℕ) {q : ℕ}
    → multiply_ratio_and_ceil {E = E} a n d ≡ ok q
    → IsCeiling (a * n) d q × (q < u128_mod)
unfolding multiply_ratio_and_ceil
multiply_ratio_and_ceil-IsCeiling a n d h =
    ground (arith, lt-div-mul-add {a = a * n + d - 1} {b = d}, div-mul-le_self (a * n + d - 1) d)

weight-le : (a b x y z : ℕ) → x ≤ z → y ≤ z → a * x + b * y ≤ (a + b) * z
weight-le a b x y z h k = rw add-mul (omega (arith, mul-le-mul_left a h, mul-le-mul_left b k))

le-weight : (a b x y z : ℕ) → z ≤ x → z ≤ y → z * (a + b) ≤ a * x + b * y
le-weight a b x y z h k = rw mul-add (omega (arith, mul-le-mul_left a h, mul-le-mul_left b k))

compute_deposit_time-ok :
    (last_amount new_amount last_time new_time : ℕ) {t : ℕ}
    → compute_deposit_time last_amount new_amount last_time new_time ≡ ok t
    → (0 < last_amount + new_amount)
      × (t ≡ (last_amount * last_time + new_amount * new_time) / (last_amount + new_amount))
unfolding compute_deposit_time
compute_deposit_time-ok la na lt nt h = ground arith

-- The deposit time is an average: it lies between the time before and the time of the deposit.
pub compute_deposit_time_between :
    (last_amount new_amount last_time new_time t : ℕ)
    → compute_deposit_time last_amount new_amount last_time new_time ≡ ok t
    → (min last_time new_time ≤ t) × (t ≤ max last_time new_time)
compute_deposit_time_between la na lt nt t h =
    let (pos, e) = compute_deposit_time-ok la na lt nt h in
    (
      rw e (
          (le-div_iff_mul-le pos).1
            (le-weight la na lt nt (min lt nt) (omega arith) (omega arith))),
      rw e (
          div-le_of_le-mul (la + na)
            (weight-le la na lt nt (max lt nt) (omega arith) (omega arith))),
    )
