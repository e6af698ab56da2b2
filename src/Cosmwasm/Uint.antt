-- ===== src/Cosmwasm/Uint.antt =====
-- The arithmetic of the contracts in the result type. The operations on `Uint128` and `Decimal` are
-- those of a `Math`; those on the machine's own u32, u64 and u128 panic where they overflow, since
-- the release profile of Cargo.toml sets `overflow-checks`.
use spectrum_core.Base.{
  ℕ, ◌/◌, ◌==◌, ◌+◌, ◌-◌, ◌*◌, ◌^◌, ltb, leb, if◌then◌else◌, Result, ok, panic, or_panic, ok_or,
  List,
}
use spectrum_core.Cosmwasm.Math.{Math}
use spectrum_core.Cosmwasm.Std.{StdError, overflow}

module _ {ℓ} {E : Type ℓ} ⦃m : Math⦄ where
  -- `a + b`
  abbrev pub add : ℕ → ℕ → Result E ℕ
  add a b = or_panic (m.add a b)

  -- `a - b`
  abbrev pub sub : ℕ → ℕ → Result E ℕ
  sub a b = or_panic (m.sub a b)

  -- `a.multiply_ratio(n, d)`
  abbrev pub multiply_ratio : ℕ → ℕ → ℕ → Result E ℕ
  multiply_ratio a n d = or_panic (m.multiply_ratio a n d)

  -- `Decimal::from_ratio(n, d)`
  abbrev pub from_ratio : ℕ → ℕ → Result E ℕ
  from_ratio n d = or_panic (m.from_ratio n d)

  -- `a * d` for an amount and a decimal, in either order
  abbrev pub mul_decimal : ℕ → ℕ → Result E ℕ
  mul_decimal a d = or_panic (m.mul_decimal a d)

-- `Uint256` addition, subtraction and division, and `try_into` of a `Uint128`.
module _ {ℓ} {E : Type ℓ} ⦃m : Math⦄ where
  abbrev pub add_u256 : ℕ → ℕ → Result E ℕ
  add_u256 a b = or_panic (m.add_u256 a b)

  abbrev pub sub_u256 : ℕ → ℕ → Result E ℕ
  sub_u256 a b = or_panic (m.sub_u256 a b)

  abbrev pub div_u256 : ℕ → ℕ → Result E ℕ
  div_u256 a b = or_panic (m.div_u256 a b)

  abbrev pub to_u128 : ℕ → Result E ℕ
  to_u128 a = or_panic (m.to_u128 a)

-- `a.checked_sub(b)?`
abbrev pub checked_sub : ⦃m : Math⦄ → ℕ → ℕ → Result StdError ℕ
checked_sub ⦃m⦄ a b = ok_or (m.checked_sub a b) overflow

-- `a.checked_sub(b)?` and `a.checked_add(b)?` where the caller has its own error for an overflow
abbrev pub checked_sub_or {ℓ} : {E : Type ℓ} ⦃m : Math⦄ → E → ℕ → ℕ → Result E ℕ
checked_sub_or ⦃m⦄ e a b = ok_or (m.checked_sub a b) e

abbrev pub checked_add : ⦃m : Math⦄ → ℕ → ℕ → Result StdError ℕ
checked_add ⦃m⦄ a b = ok_or (m.checked_add a b) overflow

-- `a.saturating_sub(b)`
abbrev pub saturating_sub : ⦃m : Math⦄ → ℕ → ℕ → ℕ
saturating_sub ⦃m⦄ a b = m.saturating_sub a b

-- `vector.update(&k, v)?`
abbrev pub vector_update : ⦃m : Math⦄ → ℕ → ℕ → List (ℕ × ℕ) → Result StdError (List (ℕ × ℕ))
vector_update ⦃m⦄ k v l = ok_or (m.vector_update k v l) overflow

-- The machine's operations on a word of `w` bits.
module _ {ℓ} {E : Type ℓ} where
  abbrev pub add_word : ℕ → ℕ → ℕ → Result E ℕ
  add_word w a b = if ltb (a + b) (2 ^ w) then ok (a + b) else panic

  abbrev pub sub_word : ℕ → ℕ → Result E ℕ
  sub_word a b = if leb b a then ok (a - b) else panic

  abbrev pub mul_word : ℕ → ℕ → ℕ → Result E ℕ
  mul_word w a b = if ltb (a * b) (2 ^ w) then ok (a * b) else panic

  abbrev pub div_word : ℕ → ℕ → Result E ℕ
  div_word a b = if b == 0 then panic else ok (a / b)
