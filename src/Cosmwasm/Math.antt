-- ===== src/Cosmwasm/Math.antt =====
-- The arithmetic that the contracts call in cosmwasm_std, which is not part of the repository: a
-- record of operations with the behaviour that its documentation promises. A `Uint128` or `Uint256` is its
-- number, a `Decimal` its number of atomics (18 decimal places).
use spectrum_core.Base.{
  ℕ, ◌+◌, ◌-◌, ◌*◌, ◌/◌, ◌≡◌, refl, Option, none, some, List, [], ◌∷◌, ltb, leb, ◌==◌,
  if◌then◌else◌,
}

abbrev pub u128_mod : ℕ
u128_mod = 340_282_366_920_938_463_463_374_607_431_768_211_456

abbrev pub u256_mod : ℕ
u256_mod = u128_mod * u128_mod

abbrev pub decimal_one : ℕ
decimal_one = 1_000_000_000_000_000_000

abbrev map_option : {A B : Type 0} → (A → B) → Option A → Option B
map_option f none = none
map_option f (some a) = some (f a)

-- A value that must fit a `Uint128`.
abbrev pub fits : ℕ → Option ℕ
fits n = if ltb n u128_mod then some n else none

-- The quotient, with no value at the denominator 0.
abbrev pub quotient : ℕ → ℕ → Option ℕ
quotient n d = if d == 0 then none else fits (n / d)

-- What `RestrictedVector::update` of packages/astroport is documented to do: the value at a key that
-- is there grows by the amount, and a new key goes to the end.
abbrev pub increased : ℕ → ℕ → List (ℕ × ℕ) → Option (List (ℕ × ℕ))
increased k v [] = some ((k, v) ∷ [])
increased k v ((j, w) ∷ l) =
    if j == k
    then map_option (λ x. (j, x) ∷ l) (fits (w + v))
    else map_option (λ rest. (j, w) ∷ rest) (increased k v l)

-- The operations. `none` is a panic, but for `checked_sub`, `checked_add` and
-- `vector_update` (`RestrictedVector::update` of packages/astroport), where it is an `OverflowError`.
pub record Math : Type 0 where
  pub add : ℕ → ℕ → Option ℕ
  pub sub : ℕ → ℕ → Option ℕ
  pub checked_sub : ℕ → ℕ → Option ℕ
  pub multiply_ratio : ℕ → ℕ → ℕ → Option ℕ
  pub from_ratio : ℕ → ℕ → Option ℕ
  pub mul_decimal : ℕ → ℕ → Option ℕ
  pub full_mul : ℕ → ℕ → ℕ
  pub add_u256 : ℕ → ℕ → Option ℕ
  pub sub_u256 : ℕ → ℕ → Option ℕ
  pub div_u256 : ℕ → ℕ → Option ℕ
  pub to_u128 : ℕ → Option ℕ
  pub saturating_sub : ℕ → ℕ → ℕ
  pub checked_add : ℕ → ℕ → Option ℕ
  pub vector_update : ℕ → ℕ → List (ℕ × ℕ) → Option (List (ℕ × ℕ))

-- What the documentation says of them.
pub record IsMath (m : Math) : Type 0 where
  pub add_law : (a b : ℕ) → m.add a b ≡ fits (a + b)
  pub sub_law : (a b : ℕ) → m.sub a b ≡ (if leb b a then some (a - b) else none)
  pub checked_sub_law : (a b : ℕ) → m.checked_sub a b ≡ (if leb b a then some (a - b) else none)
  pub multiply_ratio_law : (a n d : ℕ) → m.multiply_ratio a n d ≡ quotient (a * n) d
  pub from_ratio_law : (n d : ℕ) → m.from_ratio n d ≡ quotient (n * decimal_one) d
  pub mul_decimal_law : (a d : ℕ) → m.mul_decimal a d ≡ fits (a * d / decimal_one)
  pub full_mul_law : (a b : ℕ) → m.full_mul a b ≡ a * b
  pub add_u256_law :
      (a b : ℕ) → m.add_u256 a b ≡ (if ltb (a + b) u256_mod then some (a + b) else none)
  pub sub_u256_law : (a b : ℕ) → m.sub_u256 a b ≡ (if leb b a then some (a - b) else none)
  pub div_u256_law : (a b : ℕ) → m.div_u256 a b ≡ (if b == 0 then none else some (a / b))
  pub to_u128_law : (a : ℕ) → m.to_u128 a ≡ fits a
  pub saturating_sub_law : (a b : ℕ) → m.saturating_sub a b ≡ a - b
  pub checked_add_law : (a b : ℕ) → m.checked_add a b ≡ fits (a + b)
  pub vector_update_law : (k v : ℕ) (l : List (ℕ × ℕ)) → m.vector_update k v l ≡ increased k v l

instance abbrev pub math : Math
math = record {
  add = λ a b. fits (a + b);
  sub = λ a b. if leb b a then some (a - b) else none;
  checked_sub = λ a b. if leb b a then some (a - b) else none;
  multiply_ratio = λ a n d. quotient (a * n) d;
  from_ratio = λ n d. quotient (n * decimal_one) d;
  mul_decimal = λ a d. fits (a * d / decimal_one);
  full_mul = λ a b. a * b;
  add_u256 = λ a b. if ltb (a + b) u256_mod then some (a + b) else none;
  sub_u256 = λ a b. if leb b a then some (a - b) else none;
  div_u256 = λ a b. if b == 0 then none else some (a / b);
  to_u128 = fits;
  saturating_sub = λ a b. a - b;
  checked_add = λ a b. fits (a + b);
  vector_update = increased;
}

pub math-IsMath : IsMath math
math-IsMath = record {
  add_law = λ a b. refl;
  sub_law = λ a b. refl;
  checked_sub_law = λ a b. refl;
  multiply_ratio_law = λ a n d. refl;
  from_ratio_law = λ n d. refl;
  mul_decimal_law = λ a d. refl;
  full_mul_law = λ a b. refl;
  add_u256_law = λ a b. refl;
  sub_u256_law = λ a b. refl;
  div_u256_law = λ a b. refl;
  to_u128_law = λ a. refl;
  saturating_sub_law = λ a b. refl;
  checked_add_law = λ a b. refl;
  vector_update_law = λ k v l. refl;
}

-- The documentation fixes every operation, so what holds of `math` holds of any arithmetic that
-- follows it.
pub Math-eq : (m : Math) → IsMath m → m ≡ math
Math-eq m h = λ i. record {
  add = λ a b. h.add_law a b i;
  sub = λ a b. h.sub_law a b i;
  checked_sub = λ a b. h.checked_sub_law a b i;
  multiply_ratio = λ a n d. h.multiply_ratio_law a n d i;
  from_ratio = λ n d. h.from_ratio_law n d i;
  mul_decimal = λ a d. h.mul_decimal_law a d i;
  full_mul = λ a b. h.full_mul_law a b i;
  add_u256 = λ a b. h.add_u256_law a b i;
  sub_u256 = λ a b. h.sub_u256_law a b i;
  div_u256 = λ a b. h.div_u256_law a b i;
  to_u128 = λ a. h.to_u128_law a i;
  saturating_sub = λ a b. h.saturating_sub_law a b i;
  checked_add = λ a b. h.checked_add_law a b i;
  vector_update = λ k v l. h.vector_update_law k v l i;
}
