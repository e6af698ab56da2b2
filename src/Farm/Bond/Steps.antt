-- ===== src/Farm/Bond/Steps.antt =====
-- What a deposit and a withdrawal that succeed have computed, and what they leave.
use spectrum_core.Base.{ℕ, ◌+◌, ◌-◌, ◌≤◌, ◌<◌, ◌≡◌, some, List, arith, ok, get_or}
use spectrum_core.Cosmwasm.Math.{math, u128_mod}
use spectrum_core.Cosmwasm.Std.{Addr, Env, MessageInfo}
use spectrum_core.Cosmwasm.Map.{ℕ_key, lookup, insert}
use spectrum_core.Farm.{
  PoolResponse, RewardInfo, Store, Message, ContractError, truncate, default_reward_info,
}
use spectrum_core.Farm.Adapters.{Querier}
use spectrum_core.Farm.Shares.Updates.{ensure_deposit_costs-ok, bond_info-ok}
use spectrum_core.Farm.Shares.{
  bond_info, unbond_info, ensure_deposit_costs, calc_bond_share, calc_bond_amount,
  calc_user_balance,
}
use spectrum_core.Helper.{multiply_ratio_and_ceil}
use spectrum_core.Farm.Bond.{bond_internal, unbond}
use spectrum_core.Farm.Balances.{IsValid, entry-balance, store_IsValid, remove_share-IsValid}

pub bond_internal-ok :
    (q : Querier) (s : Store) (env : Env) (a : Addr) (amount : ℕ) {out : Store × List Message}
    → bond_internal q s env a amount ≡ ok out
    → (lp_balance : ℕ) × (q.query_deposit s.config.staking_contract s.config.liquidity_token
          env.contract
        ≡ ok lp_balance)
      × (lp_balance + amount < u128_mod)
      × (share : ℕ) × (calc_bond_share {E = ContractError} s.state amount lp_balance truncate
          ≡ ok share)
      × (deposit : ℕ) × (calc_bond_amount {E = ContractError}
            (record { total_bond_share = s.state.total_bond_share + share })
            (lp_balance + amount)
            share
          ≡ ok deposit)
      × (pool : PoolResponse) × (q.query_pool_info s.config.pair ≡ ok pool)
      × (r : RewardInfo) × (ensure_deposit_costs
            (get_or (lookup a s.rewards) default_reward_info)
            s.pool_info
          ≡ ok r)
      × (r' : RewardInfo) × (bond_info r share deposit env.time pool ≡ ok r')
      × (out.0 ≡ (record s {
        rewards = insert a r' s.rewards;
        state = record { total_bond_share = s.state.total_bond_share + share };
      }))
unfolding bond_internal
bond_internal-ok q s env a amount h = ground arith

pub bond_internal-IsValid :
    (q : Querier) (s : Store) (env : Env) (a : Addr) (amount : ℕ) {out : Store × List Message}
    → IsValid s
    → bond_internal q s env a amount ≡ ok out
    → IsValid out.0
bond_internal-IsValid q s env a amount v h =
    let (_, _, _, share, _, deposit, _, pool, _, r, ensured, r', bonded, left) =
      bond_internal-ok q s env a amount h in
    let same =
      ensure_deposit_costs-ok (get_or (lookup a s.rewards) default_reward_info) s.pool_info
        ensured in
    let b = bond_info-ok r share deposit env.time pool bonded in
    rw left (
      store_IsValid s a r' (s.state.total_bond_share + share) v
        (omega (arith, b.0, same.bond_share, entry-balance s.rewards a)))

pub unbond-ok :
    (q : Querier) (s : Store) (env : Env) (info : MessageInfo) (amount : ℕ)
    {out : Store × List Message}
    → unbond q s env info amount ≡ ok out
    → (lp_balance : ℕ) × (q.query_deposit s.config.staking_contract s.config.liquidity_token
          env.contract
        ≡ ok lp_balance)
      × (r : RewardInfo) × (lookup info.sender s.rewards ≡ some r)
      × (balance : ℕ) × (calc_user_balance {E = ContractError} r s.state lp_balance env.time
          ≡ ok balance)
      × (0 < amount)
      × (amount ≤ balance)
      × (share : ℕ) × (multiply_ratio_and_ceil {E = ContractError} r.bond_share amount balance
          ≡ ok share)
      × (r' : RewardInfo) × (unbond_info r share ≡ ok r')
      × (share ≤ s.state.total_bond_share)
      × (out.0 ≡ (record s {
        rewards = insert info.sender r' s.rewards;
        state = record { total_bond_share = s.state.total_bond_share - share };
      }))
unfolding unbond
unbond-ok q s env info amount h = ground arith

pub unbond-IsValid :
    (q : Querier) (s : Store) (env : Env) (info : MessageInfo) (amount : ℕ)
    {out : Store × List Message}
    → IsValid s
    → unbond q s env info amount ≡ ok out
    → IsValid out.0
unbond-IsValid q s env info amount v h =
    let (_, _, r, found, _, _, _, _, share, _, r', unbonded, covered, left) =
      unbond-ok q s env info amount h in
    rw left (remove_share-IsValid s info.sender share r r' v found unbonded covered)
