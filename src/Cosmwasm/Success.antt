-- ===== src/Cosmwasm/Success.antt =====
-- What the operations of the contracts' arithmetic return where they succeed.
use spectrum_core.Base.{ℕ, ◌+◌, ◌-◌, ◌*◌, ◌/◌, ◌≤◌, ◌≡◌, some, List, arith, ok}
use spectrum_core.Cosmwasm.Math.{math, decimal_one, increased}
use spectrum_core.Cosmwasm.Uint.{
  add, sub, multiply_ratio, from_ratio, mul_decimal, checked_sub, checked_sub_or, vector_update,
}

module _ {ℓ} {E : Type ℓ} where
  pub add-ok : (a b : ℕ) {x : ℕ} → add {E = E} a b ≡ ok x → x ≡ a + b
  add-ok a b h = ground arith

  pub sub-ok : (a b : ℕ) {x : ℕ} → sub {E = E} a b ≡ ok x → (b ≤ a) × (x ≡ a - b)
  sub-ok a b h = ground arith

  pub multiply_ratio-ok : (a n d : ℕ) {x : ℕ} → multiply_ratio {E = E} a n d ≡ ok x → x ≡ a * n / d
  multiply_ratio-ok a n d h = ground arith

  pub from_ratio-ok : (n d : ℕ) {x : ℕ} → from_ratio {E = E} n d ≡ ok x → x ≡ n * decimal_one / d
  from_ratio-ok n d h = ground arith

  pub mul_decimal-ok : (a d : ℕ) {x : ℕ} → mul_decimal {E = E} a d ≡ ok x → x ≡ a * d / decimal_one
  mul_decimal-ok a d h = ground arith

  pub checked_sub_or-ok :
      (e : E) (a b : ℕ) {x : ℕ} → checked_sub_or e a b ≡ ok x → (b ≤ a) × (x ≡ a - b)
  checked_sub_or-ok e a b h = ground arith

pub checked_sub-ok : (a b : ℕ) {x : ℕ} → checked_sub a b ≡ ok x → (b ≤ a) × (x ≡ a - b)
checked_sub-ok a b h = ground arith

pub vector_update-ok :
    (k v : ℕ) (l : List (ℕ × ℕ)) {x : List (ℕ × ℕ)}
    → vector_update k v l ≡ ok x
    → increased k v l ≡ some x
vector_update-ok k v l h = ground arith
