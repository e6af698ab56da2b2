-- ===== src/Farm/Queries.antt =====
-- The queries of contracts/astroport_farm: of bond.rs, of cw20.rs and of contract.rs.
use spectrum_core.Base.{
  ℕ, Bool, true, min, Option, none, some, List, [], ◌∷◌, ◌==◌, ltb, ◌&&◌, map, take, if◌then◌else◌,
  get_or, Result, ok, ◌>>=◌, map_result,
}
use spectrum_core.Cosmwasm.Math.{Math}
use spectrum_core.Cosmwasm.Std.{Addr, Api, Env, Expiration, StdError}
use spectrum_core.Cosmwasm.Uint.{add, multiply_ratio}
use spectrum_core.Cosmwasm.Map.{Map, ℕ_key, pair_key, lookup, range_after}
use spectrum_core.Farm.{
  Config, State, RewardInfo, Allowance, Store, default_reward_info, default_allowance,
}
use spectrum_core.Farm.Adapters.{Querier}
use spectrum_core.Farm.Shares.{calc_user_balance, ensure_deposit_costs}

pub record RewardInfoResponseItem : Type 0 where
  pub staking_token : Addr
  pub bond_amount : ℕ
  pub bond_share : ℕ
  pub deposit_amount : ℕ
  pub deposit_time : ℕ
  pub deposit_costs : List ℕ

pub record RewardInfoResponse : Type 0 where
  pub staker_addr : ℕ
  pub reward_info : RewardInfoResponseItem

-- `TokenInfoResponse` and `AllowanceInfo` of cw20
pub record TokenInfoResponse : Type 0 where
  pub name : List ℕ
  pub symbol : List ℕ
  pub decimals : ℕ
  pub total_supply : ℕ

pub record AllowanceInfo : Type 0 where
  pub spender : Addr
  pub allowance : ℕ
  pub expires : Expiration

abbrev pub max_limit : ℕ
max_limit = 30

abbrev pub default_limit : ℕ
default_limit = 10

module _ ⦃m : Math⦄ where
  unfoldable pub read_reward_info :
      Querier → Store → Env → Addr → Result StdError RewardInfoResponseItem
  read_reward_info q s env staker_addr = do
    let reward_info = get_or (lookup staker_addr s.rewards) default_reward_info
    let staking_token = s.config.liquidity_token
    lp_balance ← q.query_deposit s.config.staking_contract staking_token env.contract
    bond_amount ← calc_user_balance reward_info s.state lp_balance env.time
    total_share ← add reward_info.bond_share reward_info.transfer_share
    reward_info' ← ensure_deposit_costs reward_info s.pool_info
    deposit_amount ←
        (if total_share == 0
          then ok 0
          else multiply_ratio reward_info'.deposit_amount reward_info'.bond_share total_share)
    deposit_costs ←
        (if total_share == 0
          then ok []
          else map_result (λ cost. multiply_ratio cost reward_info'.bond_share total_share)
              reward_info'.deposit_costs)
    ok (record {
      staking_token = staking_token;
      bond_amount = bond_amount;
      bond_share = reward_info'.bond_share;
      deposit_amount = deposit_amount;
      deposit_time = reward_info'.deposit_time;
      deposit_costs = deposit_costs;
    })

  unfoldable pub query_reward_info :
      Api → Querier → Store → Env → ℕ → Result StdError RewardInfoResponse
  query_reward_info api q s env staker_addr = do
    staker_addr_validated ← api staker_addr
    reward_info ← read_reward_info q s env staker_addr_validated
    ok (record { staker_addr = staker_addr; reward_info = reward_info })

unfoldable pub query_balance : Api → Store → ℕ → Result StdError ℕ
query_balance api s address = do
  address ← api address
  ok (get_or (lookup address s.rewards) default_reward_info).bond_share

unfoldable pub query_token_info : Store → TokenInfoResponse
query_token_info s = record {
  name = s.config.name;
  symbol = s.config.symbol;
  decimals = 6;
  total_supply = s.state.total_bond_share;
}

unfoldable pub query_allowance : Api → Store → ℕ → ℕ → Result StdError Allowance
query_allowance api s owner spender = do
  owner_addr ← api owner
  spender_addr ← api spender
  ok (get_or (lookup (owner_addr, spender_addr) s.allowances) default_allowance)

abbrev pub is_after : Option ℕ → ℕ → Bool
is_after none spender = true
is_after (some k) spender = ltb k spender

-- `prefix(&owner).range(storage, start, None, Order::Ascending)`; the bound is not validated
unfoldable pub allowances_of : Addr → Option ℕ → Map (Addr × Addr) Allowance → List AllowanceInfo
allowances_of owner start [] = []
allowances_of owner start (((o, spender), a) ∷ m) =
    let rest = allowances_of owner start m in
    if o == owner && is_after start spender
    then record { spender = spender; allowance = a.allowance; expires = a.expires } ∷ rest
    else rest

unfoldable pub query_all_allowances :
    Api → Store → ℕ → Option ℕ → Option ℕ → Result StdError (List AllowanceInfo)
query_all_allowances api s owner start_after limit = do
  owner_addr ← api owner
  ok (
      take (min (get_or limit default_limit) max_limit)
        (allowances_of owner_addr start_after s.allowances))

abbrev pub entries_after : Option ℕ → Map Addr RewardInfo → Map Addr RewardInfo
entries_after none m = m
entries_after (some k) m = range_after k m

unfoldable pub query_all_accounts : Store → Option ℕ → Option ℕ → List Addr
query_all_accounts s start_after limit =
    take (min (get_or limit default_limit) max_limit)
      (map (λ e. e.0) (entries_after start_after s.rewards))

unfoldable pub query_config : Store → Config
query_config s = s.config

unfoldable pub query_state : Store → State
query_state s = s.state
