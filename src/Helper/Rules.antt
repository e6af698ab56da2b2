-- ===== src/Helper/Rules.antt =====
-- The helpers of packages/spectrum/src/helper.rs under any arithmetic that follows its documentation.
use spectrum_core.Base.{ℕ, ◌*◌, ◌<◌, ◌≡◌, ok}
use spectrum_core.Cosmwasm.Math.{Math, IsMath, Math-eq, u128_mod}
use spectrum_core.Helper.{multiply_ratio_and_ceil}
use spectrum_core.Helper.Rounding.{IsCeiling, multiply_ratio_and_ceil-IsCeiling}

module _ ⦃m : Math⦄ (lawful : IsMath m) where
  -- What `multiply_ratio_and_ceil` returns is the quotient of the product by a denominator that is
  -- not 0, rounded up, and fits a `Uint128`.
  pub multiply_ratio_and_ceil_rounds_up :
      {E : Type 0} (a n d : ℕ) {q : ℕ}
      → multiply_ratio_and_ceil {E = E} a n d ≡ ok q
      → IsCeiling (a * n) d q × (q < u128_mod)
  multiply_ratio_and_ceil_rounds_up {E} =
      rw (Math-eq m lawful) (multiply_ratio_and_ceil-IsCeiling {E = E})
