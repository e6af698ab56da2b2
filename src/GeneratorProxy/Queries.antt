-- ===== src/GeneratorProxy/Queries.antt =====
-- contracts/generator_proxy/src/query.rs, and the queries of bond.rs.
use spectrum_core.Base.{
  ℕ, none, some, List, [], ◌∷◌, map, ◌==◌, if◌then◌else◌, get_or, is_empty, Result, ok, ◌>>=◌,
  map_err, ok_or,
}
use spectrum_core.Cosmwasm.Math.{Math}
use spectrum_core.Cosmwasm.Std.{Addr, Api, Env, StdError, not_found}
use spectrum_core.Cosmwasm.Uint.{add, sub, mul_decimal, saturating_sub}
use spectrum_core.Cosmwasm.Map.{ℕ_key, pair_key, lookup}
use spectrum_core.Farm.{token, Asset}
use spectrum_core.Farm.Adapters.{name_of, PendingTokenResponse}
use spectrum_core.GeneratorProxy.{
  Vector, PoolInfo, UserInfo, StakingState, StakerInfo, RewardInfo, ContractError, std, Store,
  default_pool_info,
}
use spectrum_core.GeneratorProxy.Chain.{Chain, UserInfoV2, query_user_info, query_lock}
use spectrum_core.GeneratorProxy.Pool
use spectrum_core.GeneratorProxy.Pool.{
  hash_get, create_user, reconcile_astro_reward, reconcile_token_reward, reconcile_to_user_info,
}
use spectrum_core.GeneratorProxy.Bond.{reward_at, net_amount_of}
use spectrum_core.GeneratorProxy.Staking
use spectrum_core.GeneratorProxy.Staking.{
  create_staker, update_staking, reconcile_staker_income, reconcile_to_staker_info,
}

pub record UserInfoResponse : Type 0 where
  pub bond_share : ℕ
  pub bond_amount : ℕ
  pub reward_indexes : Vector
  pub pending_rewards : Vector

pub record StakerInfoResponse : Type 0 where
  pub bond_share : ℕ
  pub bond_amount : ℕ
  pub reward_index : ℕ
  pub pending_reward : ℕ
  pub unstaking_amount : ℕ
  pub unstaked_amount : ℕ
  pub unstaking_period : ℕ

unfoldable pub query_pool_info : Api → Store → ℕ → Result StdError PoolInfo
query_pool_info api s lp_token = do
  lp_token ← api lp_token
  ok_or (lookup lp_token s.pool_info) not_found

unfoldable pub query_reward_info : Api → Store → ℕ → Result StdError RewardInfo
query_reward_info api s t = do t ← api t; ok_or (lookup t s.reward_info) not_found

unfoldable pub query_staking_state : Store → StakingState
query_staking_state s = s.staking_state

-- What is pending for other tokens than ASTRO, in the order of the vector
abbrev pub others_of : Addr → Vector → List Asset
others_of astro [] = []
others_of astro ((a, amount) ∷ rest) =
    if a == astro
    then others_of astro rest
    else record { info = token a; amount = amount } ∷ others_of astro rest

module _ ⦃m : Math⦄ where
  -- `UserInfo::to_response` and `StakerInfo::to_response`
  unfoldable pub user_response : UserInfo → PoolInfo → ℕ → Result StdError UserInfoResponse
  user_response user_info pool_info total_bond_amount = do
    bond_amount ← Pool.calc_bond_amount pool_info total_bond_amount user_info.bond_share
    ok (record {
      bond_share = user_info.bond_share;
      bond_amount = bond_amount;
      reward_indexes = user_info.reward_indexes;
      pending_rewards = user_info.pending_rewards;
    })

  unfoldable pub staker_response :
      StakerInfo → StakingState → ℕ → Result StdError StakerInfoResponse
  staker_response staker state total_bond_amount = do
    bond_amount ← Staking.calc_bond_amount state total_bond_amount staker.bond_share
    ok (record {
      bond_share = staker.bond_share;
      bond_amount = bond_amount;
      reward_index = staker.reward_index;
      pending_reward = staker.pending_reward;
      unstaking_amount = staker.unstaking_amount;
      unstaked_amount = staker.unstaked_amount;
      unstaking_period = staker.unstaking_period;
    })

  module _ (api : Api) (c : Chain) where
    unfoldable pub query_staker_info : Store → Env → ℕ → Result StdError StakerInfoResponse
    query_staker_info s env user = do
      user ← api user
      astro_reward ← ok_or (lookup s.config.astro_token s.reward_info) not_found
      let found = get_or (lookup user s.staker_info) (create_staker s.staking_state)
      (_, state) ← reconcile_staker_income astro_reward s.staking_state
      reconciled ← reconcile_to_staker_info state found
      staker ← update_staking state reconciled
      lock ← query_lock c s.config.astro_gov env.contract
      staker_response staker state lock.amount

    unfoldable pub query_user_info_of : Store → Env → ℕ → ℕ → Result StdError UserInfoResponse
    query_user_info_of s env lp_token user = do
      lp_token ← api lp_token
      user ← api user
      pool_info ← ok_or (lookup lp_token s.pool_info) not_found
      let found = get_or (lookup (lp_token, user) s.user_info) (create_user pool_info)
      user_info ← reconcile_to_user_info pool_info found
      total_bond_amount ← c.query_deposit s.config.generator lp_token env.contract
      user_response user_info pool_info total_bond_amount

    unfoldable pub query_deposit : Store → Env → ℕ → ℕ → Result ContractError ℕ
    query_deposit s env lp_token user = do
      lp_token ← map_err std (api lp_token)
      user ← map_err std (api user)
      let pool_info = get_or (lookup lp_token s.pool_info) default_pool_info
      let user_info = get_or (lookup (lp_token, user) s.user_info) (create_user pool_info)
      total_bond_amount ← map_err std (c.query_deposit s.config.generator lp_token env.contract)
      Pool.calc_bond_amount pool_info total_bond_amount user_info.bond_share

    -- The loop of `query_pending_token` over the other tokens
    unfoldable pub pending_tokens :
        Store → Addr → Vector → Vector → Vector → PoolInfo → Result StdError PoolInfo
    pending_tokens s contract prev_debts pending [] pool_info = ok pool_info
    pending_tokens s contract prev_debts pending ((t, debt) ∷ rest) pool_info = do
      (_, net_amount) ←
          net_amount_of c contract t (saturating_sub debt (get_or (hash_get t prev_debts) 0)) s
      amount ← add net_amount (get_or (hash_get t pending) 0)
      (pool_info', _) ← reconcile_token_reward t pool_info (reward_at t s) amount
      pending_tokens s contract prev_debts pending rest pool_info'

    -- `query_pending_token` where the generator knows the contract
    unfoldable pub pending_of :
        Store → Env → Addr → Addr → UserInfoV2 → Result StdError PendingTokenResponse
    pending_of s env lp_token user astro_user_info = do
      let pool_info = get_or (lookup lp_token s.pool_info) default_pool_info
      let user_info = get_or (lookup (lp_token, user) s.user_info) (create_user pool_info)
      pending_token ← c.query_pending_token s.config.generator lp_token env.contract
      index_growth ← sub astro_user_info.reward_user_index pool_info.prev_reward_user_index
      target ← mul_decimal astro_user_info.virtual_amount index_growth
      (_, net_amount) ← net_amount_of c env.contract s.config.astro_token target s
      net_astro_amount ← add net_amount pending_token.pending
      (pool_info', _) ←
          reconcile_astro_reward s.config astro_user_info pool_info
            (reward_at s.config.astro_token s) net_astro_amount
      pool_info'' ←
          pending_tokens s env.contract pool_info.prev_reward_debt_proxy
            (map (λ asset. (name_of asset.info, asset.amount))
              (get_or pending_token.pending_on_proxy []))
            astro_user_info.reward_debt_proxy pool_info'
      user_info' ← reconcile_to_user_info pool_info'' user_info
      let others = others_of s.config.astro_token user_info'.pending_rewards
      ok (record {
        pending = get_or (hash_get s.config.astro_token user_info'.pending_rewards) 0;
        pending_on_proxy = if is_empty others then none else some others;
      })

    unfoldable pub query_pending_token :
        Store → Env → ℕ → ℕ → Result ContractError PendingTokenResponse
    query_pending_token s env lp_token user = do
      lp_token ← map_err std (api lp_token)
      user ← map_err std (api user)
      op ← map_err std (query_user_info c s.config.generator lp_token env.contract)
      elim op [
        | none ↦ ok (record { pending = 0; pending_on_proxy = none })
        | some astro_user_info ↦ map_err std (pending_of s env lp_token user astro_user_info)
      ]
