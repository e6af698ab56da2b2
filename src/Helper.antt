-- ===== src/Helper.antt =====
-- packages/spectrum/src/helper.rs
pub mod Rounding
pub mod Rules
mod Tests
use Prim.Native.String.{String}
use spectrum_core.Base.{ℕ, ◌^◌, ltb, ◌==◌, if◌then◌else◌, Result, ok, err, ◌>>=◌}
use spectrum_core.Cosmwasm.Math.{Math}
use spectrum_core.Cosmwasm.Std.{StdError, generic_err}
use spectrum_core.Cosmwasm.Uint.{
  add_word, mul_word, div_word, add_u256, sub_u256, div_u256, to_u128,
}

unfoldable pub compute_deposit_time : ℕ → ℕ → ℕ → ℕ → Result StdError ℕ
compute_deposit_time last_deposit_amount new_deposit_amount last_deposit_time new_deposit_time = do
  last_weight ← mul_word 128 last_deposit_amount last_deposit_time
  new_weight ← mul_word 128 new_deposit_amount new_deposit_time
  weights ← add_word 128 last_weight new_weight
  amounts ← add_word 128 last_deposit_amount new_deposit_amount
  weight_avg ← div_word weights amounts
  if ltb weight_avg (2 ^ 64)
      then ok weight_avg
      else err (generic_err "Overflow in compute_deposit_time")

unfoldable pub multiply_ratio_and_ceil {ℓ} : {E : Type ℓ} ⦃m : Math⦄ → ℕ → ℕ → ℕ → Result E ℕ
multiply_ratio_and_ceil ⦃m⦄ a numerator denominator = do
  let x = m.full_mul a numerator
  sum ← add_u256 x denominator
  above ← sub_u256 sum 1
  quotient ← div_u256 above denominator
  to_u128 quotient
