-- ===== src/Farm/Compound/Totals.antt =====
-- What becomes of the rewards that are compounded.
use spectrum_core.Base.{
  ℕ, ◌+◌, ◌*◌, ◌/◌, ◌^◌, ◌≤◌, ◌<◌, ◌≡◌, true, refl, List, [], ◌∷◌, ◌++◌, ltb, if◌then◌else◌, ◌&&◌,
  arith, ok, is_ok, is_ok-value,
}
use native.Mathlib.Nat.{div-le_of_le-mul, mul-le-mul_left}
use spectrum_core.Cosmwasm.Math.{math, u128_mod, decimal_one}
use spectrum_core.Cosmwasm.Std.{Env, Coin}
use spectrum_core.Farm.Adapters.{is_native, name_of}
use spectrum_core.Farm.{Asset, Config, Message, transfer, bank_send}
use spectrum_core.Farm.Compound.{
  Split, append_split, compound_part, commission_part, split_reward, split_rewards,
}

abbrev pub sum_amounts : List Asset → ℕ
sum_amounts [] = 0
sum_amounts (a ∷ rest) = a.amount + sum_amounts rest

-- What a message pays out.
abbrev pub paid : Message → ℕ
paid (transfer contract to amount) = amount
paid (bank_send to denom amount) = amount
paid _ = 0

abbrev pub sum_paid : List Message → ℕ
sum_paid [] = 0
sum_paid (message ∷ messages) = paid message + sum_paid messages

-- The commissions on the rewards, each rounded down.
abbrev pub commissions : ℕ → List Asset → ℕ
commissions fee [] = 0
commissions fee (a ∷ rest) = a.amount * fee / decimal_one + commissions fee rest

-- The native rewards that are not all commission, each as a coin with its whole amount
abbrev pub whole_coins : ℕ → List Asset → List Coin
whole_coins fee [] = []
whole_coins fee (a ∷ rest) =
    let later = whole_coins fee rest in
    if is_native a.info && ltb (a.amount * fee / decimal_one) a.amount
    then record { denom = name_of a.info; amount = a.amount } ∷ later
    else later

abbrev pub AmountsFit : List Asset → Type 0
AmountsFit [] = Unit
AmountsFit (a ∷ rest) = (a.amount < u128_mod) × AmountsFit rest

sum_amounts-++ : (xs ys : List Asset) → sum_amounts (xs ++ ys) ≡ sum_amounts xs + sum_amounts ys
sum_amounts-++ [] ys = omega arith
sum_amounts-++ (x ∷ xs) ys = omega (arith, sum_amounts-++ xs ys)

sum_paid-++ : (xs ys : List Message) → sum_paid (xs ++ ys) ≡ sum_paid xs + sum_paid ys
sum_paid-++ [] ys = omega arith
sum_paid-++ (x ∷ xs) ys = omega (arith, sum_paid-++ xs ys)

commission-le : (fee amount : ℕ) → fee ≤ decimal_one → amount * fee / decimal_one ≤ amount
commission-le fee amount h =
    let scaled : amount * fee ≤ decimal_one * amount = omega (arith, mul-le-mul_left amount h) in
    div-le_of_le-mul decimal_one scaled

module _ (config : Config) (env : Env) (lp_balance : ℕ) where
  split_reward-total :
      (asset : Asset)
      → config.fee ≤ decimal_one
      → asset.amount < u128_mod
      → env.height + 1 < 2 ^ 64
      → is_ok (split_reward config env lp_balance asset) ≡ true
  unfolding split_reward compound_part
  split_reward-total asset proper fit height =
      ground (arith, commission-le config.fee asset.amount proper)

  split_reward-amounts :
      (asset : Asset) {split : Split}
      → 0 < lp_balance
      → config.fee ≤ decimal_one
      → split_reward config env lp_balance asset ≡ ok split
      → (sum_paid split.messages ≡ asset.amount * config.fee / decimal_one)
        × (sum_amounts split.compound_rewards + asset.amount * config.fee / decimal_one
            ≡ asset.amount)
  unfolding split_reward compound_part commission_part
  split_reward-amounts asset staked proper h =
      ground (arith, commission-le config.fee asset.amount proper)

  split_reward-funds :
      (asset : Asset) {split : Split}
      → 0 < lp_balance
      → config.fee ≤ decimal_one
      → split_reward config env lp_balance asset ≡ ok split
      → split.compound_funds ≡ whole_coins config.fee (asset ∷ [])
  unfolding split_reward compound_part commission_part
  split_reward-funds asset staked proper h =
      ground (arith, commission-le config.fee asset.amount proper)

  split_rewards-cons :
      (asset : Asset) (rest : List Asset) {split : Split}
      → split_rewards config env lp_balance (asset ∷ rest) ≡ ok split
      → (first : Split) × (split_reward config env lp_balance asset ≡ ok first)
        × (others : Split) × (split_rewards config env lp_balance rest ≡ ok others)
        × (split ≡ append_split first others)
  unfolding split_rewards
  split_rewards-cons asset rest h = ground arith

  pub split_rewards-total :
      (assets : List Asset)
      → config.fee ≤ decimal_one
      → AmountsFit assets
      → env.height + 1 < 2 ^ 64
      → is_ok (split_rewards config env lp_balance assets) ≡ true
  unfolding split_rewards
  split_rewards-total [] proper fit height = refl
  split_rewards-total (asset ∷ rest) proper fit height =
      let (first, e) =
        is_ok-value (split_reward config env lp_balance asset)
          (split_reward-total asset proper fit.0 height) in
      let (others, f) =
        is_ok-value (split_rewards config env lp_balance rest)
          (split_rewards-total rest proper fit.1 height) in
      rw (e, f) refl

  pub split_rewards-amounts :
      (assets : List Asset) {split : Split}
      → 0 < lp_balance
      → config.fee ≤ decimal_one
      → split_rewards config env lp_balance assets ≡ ok split
      → (sum_paid split.messages ≡ commissions config.fee assets)
        × (sum_amounts split.compound_rewards + commissions config.fee assets ≡ sum_amounts assets)
  unfolding split_rewards
  split_rewards-amounts [] staked proper h = ground arith
  split_rewards-amounts (asset ∷ rest) {split} staked proper h =
      let (first, e, others, f, left) = split_rewards-cons asset rest h in
      let a = split_reward-amounts asset staked proper e in
      let b = split_rewards-amounts rest staked proper f in
      rw left (
        omega (arith, a.0, b.0, sum_paid-++ first.messages others.messages),
        omega (arith, a.1, b.1, sum_amounts-++ first.compound_rewards others.compound_rewards),
      )

  whole_coins-∷ :
      (fee : ℕ) (a : Asset) (rest : List Asset)
      → whole_coins fee (a ∷ rest) ≡ whole_coins fee (a ∷ []) ++ whole_coins fee rest
  whole_coins-∷ fee a rest = ground arith

  split_rewards-funds :
      (assets : List Asset) {split : Split}
      → 0 < lp_balance
      → config.fee ≤ decimal_one
      → split_rewards config env lp_balance assets ≡ ok split
      → split.compound_funds ≡ whole_coins config.fee assets
  unfolding split_rewards
  split_rewards-funds [] staked proper h = ground arith
  split_rewards-funds (asset ∷ rest) {split} staked proper h =
      let (first, e, others, f, left) = split_rewards-cons asset rest h in
      let a = split_reward-funds asset staked proper e in
      let b = split_rewards-funds rest staked proper f in
      rw (left, a, b, whole_coins-∷ config.fee asset rest) refl

  pub split_rewards-result :
      (assets : List Asset)
      → 0 < lp_balance
      → config.fee ≤ decimal_one
      → AmountsFit assets
      → env.height + 1 < 2 ^ 64
      → (split : Split) × (split_rewards config env lp_balance assets ≡ ok split)
        × (sum_paid split.messages ≡ commissions config.fee assets)
        × (sum_amounts split.compound_rewards + commissions config.fee assets ≡ sum_amounts assets)
        × (split.compound_funds ≡ whole_coins config.fee assets)
  split_rewards-result assets staked proper fit height =
      let (split, e) =
        is_ok-value (split_rewards config env lp_balance assets)
          (split_rewards-total assets proper fit height) in
      let (sent, kept) = split_rewards-amounts assets staked proper e in
      (split, e, sent, kept, split_rewards-funds assets staked proper e)
