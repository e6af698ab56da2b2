-- ===== src/GeneratorProxy/Pool.antt =====
-- The arithmetic of contracts/generator_proxy/src/bond.rs and of the pools and the users of model.rs:
-- how the rewards of a pool are split and how they reach its users.
use spectrum_core.Base.{
  ℕ, Bool, ◌||◌, Option, none, some, [], ◌∷◌, ◌==◌, if◌then◌else◌, get_or, Result, ok, ◌>>=◌,
}
use spectrum_core.Cosmwasm.Math.{Math}
use spectrum_core.Cosmwasm.Std.{Addr, StdError}
use spectrum_core.Cosmwasm.Uint.{
  add, sub, multiply_ratio, from_ratio, mul_decimal, checked_sub, vector_update,
}
use spectrum_core.Helper.{multiply_ratio_and_ceil}
use spectrum_core.GeneratorProxy.{Vector, Config, PoolInfo, UserInfo, RewardInfo}
use spectrum_core.GeneratorProxy.Chain.{UserInfoV2}

-- What a `HashMap` that is collected from the vector has at a key: a later entry replaces an earlier.
abbrev pub hash_get : Addr → Vector → Option ℕ
hash_get k [] = none
hash_get k ((j, v) ∷ rest) = elim (hash_get k rest) [
  | some w ↦ some w
  | none ↦ if j == k then some v else none
]

-- `Decimal::percent(40)`
abbrev pub percent_40 : ℕ
percent_40 = 400_000_000_000_000_000

-- `UserInfo::create`
abbrev pub create_user : PoolInfo → UserInfo
create_user pool_info = record {
  bond_share = 0;
  reward_indexes = pool_info.reward_indexes;
  pending_rewards = [];
}

module _ ⦃m : Math⦄ where
  module _ {E : Type 0} where
    unfoldable pub calc_bond_share : PoolInfo → ℕ → ℕ → Bool → Result E ℕ
    calc_bond_share pool_info total_bond_amount amount ceiling =
        if pool_info.total_bond_share == 0 || total_bond_amount == 0
        then ok amount
        else if ceiling
        then multiply_ratio_and_ceil amount pool_info.total_bond_share total_bond_amount
        else multiply_ratio amount pool_info.total_bond_share total_bond_amount

    unfoldable pub calc_bond_amount : PoolInfo → ℕ → ℕ → Result E ℕ
    calc_bond_amount pool_info total_bond_amount share =
        if pool_info.total_bond_share == 0
        then ok 0
        else multiply_ratio total_bond_amount share pool_info.total_bond_share

  unfoldable pub reconcile_astro_reward :
      Config → UserInfoV2 → PoolInfo → RewardInfo → ℕ → Result StdError (PoolInfo × RewardInfo)
  reconcile_astro_reward config astro_user_info pool_info astro_reward net_astro_amount = do
    based_amount ← mul_decimal astro_user_info.amount percent_40
    based_astro ← multiply_ratio net_astro_amount based_amount astro_user_info.virtual_amount
    boosted_astro ← checked_sub net_astro_amount based_astro
    fee ← mul_decimal boosted_astro config.boost_fee
    net_boosted_astro ← sub boosted_astro fee
    to_staker ← mul_decimal net_boosted_astro config.staker_rate
    boosted_to_lp ← sub net_boosted_astro to_staker
    to_lp ← add boosted_to_lp based_astro
    astro_per_share ← from_ratio to_lp pool_info.total_bond_share
    fee' ← add astro_reward.fee fee
    staker_income ← add astro_reward.staker_income to_staker
    reconciled_amount ← add astro_reward.reconciled_amount net_astro_amount
    reward_indexes ← vector_update config.astro_token astro_per_share pool_info.reward_indexes
    ok (
      record pool_info { reward_indexes = reward_indexes },
      record { reconciled_amount = reconciled_amount; fee = fee'; staker_income = staker_income },
    )

  unfoldable pub reconcile_token_reward :
      Addr → PoolInfo → RewardInfo → ℕ → Result StdError (PoolInfo × RewardInfo)
  reconcile_token_reward token pool_info token_reward net_token_amount = do
    token_per_share ← from_ratio net_token_amount pool_info.total_bond_share
    reconciled_amount ← add token_reward.reconciled_amount net_token_amount
    reward_indexes ← vector_update token token_per_share pool_info.reward_indexes
    ok (
      record pool_info { reward_indexes = reward_indexes },
      record token_reward { reconciled_amount = reconciled_amount },
    )

  -- The loop of `reconcile_to_user_info` over the indexes of the pool
  unfoldable pub accrue : Vector → ℕ → Vector → Vector → Result StdError Vector
  accrue user_indexes bond_share [] pending_rewards = ok pending_rewards
  accrue user_indexes bond_share ((token, index) ∷ rest) pending_rewards = do
    grown ← sub index (get_or (hash_get token user_indexes) 0)
    amount ← mul_decimal bond_share grown
    pending_rewards' ← vector_update token amount pending_rewards
    accrue user_indexes bond_share rest pending_rewards'

  unfoldable pub reconcile_to_user_info : PoolInfo → UserInfo → Result StdError UserInfo
  reconcile_to_user_info pool_info user_info = do
    pending_rewards ←
        accrue user_info.reward_indexes user_info.bond_share pool_info.reward_indexes
          user_info.pending_rewards
    ok (record user_info {
      reward_indexes = pool_info.reward_indexes;
      pending_rewards = pending_rewards;
    })
