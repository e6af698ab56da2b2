-- ===== src/Helper/Tests.antt =====
-- The helpers of packages/spectrum/src/helper.rs at concrete inputs.
use spectrum_core.Base.{◌≤◌, ◌<◌, ◌≡◌, refl, ok}
use spectrum_core.Cosmwasm.Math.{math, math-IsMath, u128_mod}
use spectrum_core.Cosmwasm.Std.{StdError}
use spectrum_core.Helper.{compute_deposit_time, multiply_ratio_and_ceil}
use spectrum_core.Helper.Rounding.{IsCeiling, compute_deposit_time_between}
use spectrum_core.Helper.Rules.{multiply_ratio_and_ceil_rounds_up}

ceil_run : multiply_ratio_and_ceil {E = StdError} 100 50 201 ≡ ok 25
unfolding multiply_ratio_and_ceil
ceil_run = refl

multiply_ratio_and_ceil_rounds_up_example : IsCeiling 5000 201 25 × (25 < u128_mod)
multiply_ratio_and_ceil_rounds_up_example =
    multiply_ratio_and_ceil_rounds_up math-IsMath {E = StdError} 100 50 201 ceil_run

time_run : compute_deposit_time 100 200 1000 2000 ≡ ok 1666
unfolding compute_deposit_time
time_run = refl

compute_deposit_time_between_example : (1000 ≤ 1666) × (1666 ≤ 2000)
compute_deposit_time_between_example = compute_deposit_time_between 100 200 1000 2000 1666 time_run
