-- ===== src/Farm/Shares.antt =====
-- contracts/astroport_farm/src/state.rs: the arithmetic of shares, and what is kept for each user.
pub mod Updates
pub mod Dilution
use spectrum_core.Base.{
  ℕ, ◌&&◌, ◌||◌, not, is_empty, Option, none, some, List, [], ◌∷◌, ltb, ◌==◌, if◌then◌else◌, Result,
  ok, err, ◌>>=◌, ok_or, map_result,
}
use spectrum_core.Cosmwasm.Math.{Math}
use spectrum_core.Cosmwasm.Std.{StdError, not_found}
use spectrum_core.Cosmwasm.Uint.{add, sub, multiply_ratio, checked_sub, sub_word}
use spectrum_core.Helper.{compute_deposit_time, multiply_ratio_and_ceil}
use spectrum_core.Farm.{
  Asset, PoolResponse, State, RewardInfo, ScalingOperation, truncate, ceil, Store,
}

abbrev pub day : ℕ
day = 86400

module _ ⦃m : Math⦄ where
  module _ {E : Type 0} where
    unfoldable pub calc_bond_share : State → ℕ → ℕ → ScalingOperation → Result E ℕ
    calc_bond_share state bond_amount lp_balance truncate =
        if state.total_bond_share == 0 || lp_balance == 0
        then ok bond_amount
        else multiply_ratio bond_amount state.total_bond_share lp_balance
    calc_bond_share state bond_amount lp_balance ceil =
        if state.total_bond_share == 0 || lp_balance == 0
        then ok bond_amount
        else multiply_ratio_and_ceil bond_amount state.total_bond_share lp_balance

    unfoldable pub calc_bond_amount : State → ℕ → ℕ → Result E ℕ
    calc_bond_amount state lp_balance bond_share =
        if state.total_bond_share == 0
        then ok 0
        else multiply_ratio lp_balance bond_share state.total_bond_share

    unfoldable pub calc_user_balance : RewardInfo → State → ℕ → ℕ → Result E ℕ
    calc_user_balance info state lp_balance time = do
      amount ← calc_bond_amount state lp_balance info.bond_share
      deposit_time ← sub_word time info.deposit_time
      if ltb deposit_time day && ltb info.deposit_amount amount
          then (do
            profit ← sub amount info.deposit_amount
            unlocked ← multiply_ratio profit deposit_time day
            add info.deposit_amount unlocked)
          else ok amount

    -- What the loop of `RewardInfo::bond` makes of the costs: each asset adds its part.
    unfoldable pub add_costs : List Asset → ℕ → ℕ → List ℕ → Result E (List ℕ)
    add_costs [] deposit_amount total_share costs = ok costs
    add_costs (asset ∷ assets) deposit_amount total_share [] = do
      cost ← multiply_ratio asset.amount deposit_amount total_share
      cost' ← add 0 cost
      rest ← add_costs assets deposit_amount total_share []
      ok (cost' ∷ rest)
    add_costs (asset ∷ assets) deposit_amount total_share (old ∷ costs) = do
      cost ← multiply_ratio asset.amount deposit_amount total_share
      cost' ← add old cost
      rest ← add_costs assets deposit_amount total_share costs
      ok (cost' ∷ rest)

  -- `RewardInfo::ensure_deposit_costs`, on the stored pool info
  unfoldable pub ensure_deposit_costs :
      RewardInfo → Option PoolResponse → Result StdError RewardInfo
  ensure_deposit_costs info pool_info =
      if not (info.deposit_amount == 0) && is_empty info.deposit_costs
      then (do
        pool ← ok_or pool_info not_found
        deposit_costs ←
            map_result (λ asset. multiply_ratio asset.amount info.deposit_amount pool.total_share)
              pool.assets
        ok (record info { deposit_costs = deposit_costs }))
      else ok info

  -- `RewardInfo::bond`
  unfoldable pub bond_info : RewardInfo → ℕ → ℕ → ℕ → PoolResponse → Result StdError RewardInfo
  bond_info info bond_share deposit_amount time pool_info = do
    bond_share' ← add info.bond_share bond_share
    deposit_amount' ← add info.deposit_amount deposit_amount
    deposit_time ← compute_deposit_time info.deposit_amount deposit_amount info.deposit_time time
    deposit_costs ←
        add_costs pool_info.assets deposit_amount pool_info.total_share info.deposit_costs
    ok (record info {
      bond_share = bond_share';
      deposit_amount = deposit_amount';
      deposit_time = deposit_time;
      deposit_costs = deposit_costs;
    })

  -- `RewardInfo::unbond`
  unfoldable pub unbond_info : RewardInfo → ℕ → Result StdError RewardInfo
  unbond_info info bond_share = do
    old_total_share ← add info.bond_share info.transfer_share
    bond_share' ← checked_sub info.bond_share bond_share
    total_share ← add bond_share' info.transfer_share
    deposit_amount ← multiply_ratio info.deposit_amount total_share old_total_share
    deposit_costs ←
        map_result (λ cost. multiply_ratio cost total_share old_total_share) info.deposit_costs
    ok (record info {
      bond_share = bond_share';
      deposit_amount = deposit_amount;
      deposit_costs = deposit_costs;
    })
