-- ===== src/LpStaking/Queries.antt =====
-- contracts/lp_staking/src/contract.rs: the queries, with `query_rewards` of state.rs.
use spectrum_core.Base.{ℕ, Option, none, some, List, [], ◌∷◌, take, get_or, Result, ok, ◌>>=◌}
use spectrum_core.Cosmwasm.Math.{Math}
use spectrum_core.Cosmwasm.Std.{Addr, Api, StdError}
use spectrum_core.Cosmwasm.Map.{Map, ℕ_key, range_after}
use spectrum_core.LpStaking.{Config, State, RewardInfo, Store, read_reward_info}
use spectrum_core.LpStaking.Rewards.{compute_reward, compute_staker_reward}

pub record RewardInfoResponseItem : Type 0 where
  pub staking_token : Addr
  pub bond_amount : ℕ
  pub reward_index : ℕ
  pub pending_reward : ℕ

pub record RewardInfoResponse : Type 0 where
  pub staker_addr : ℕ
  pub reward_info : RewardInfoResponseItem

abbrev pub default_limit : ℕ
default_limit = 10

unfoldable pub query_rewards :
    Api → Store → Option ℕ → Option ℕ → Result StdError (Map Addr RewardInfo)
query_rewards api s none limit = ok (take (get_or limit default_limit) s.reward_infos)
query_rewards api s (some start_after) limit = do
  user_addr ← api start_after
  ok (take (get_or limit default_limit) (range_after user_addr s.reward_infos))

unfoldable pub query_config : Store → Config
query_config s = s.config

-- The response of a query about one staker.
abbrev pub response : Store → ℕ → RewardInfo → RewardInfoResponse
response s staker_addr r = record {
  staker_addr = staker_addr;
  reward_info = record {
    staking_token = s.config.staking_token;
    bond_amount = r.bond_amount;
    reward_index = r.reward_index;
    pending_reward = r.pending_reward;
  };
}

module _ ⦃m : Math⦄ where
  unfoldable pub query_state : Store → Option ℕ → Result StdError State
  query_state s none = ok s.state
  query_state s (some time_seconds) = compute_reward s.config s.state time_seconds

  unfoldable pub query_reward_info : Api → Store → ℕ → Option ℕ → Result StdError RewardInfoResponse
  query_reward_info api s staker_addr time_seconds = do
    staker_addr ← api staker_addr
    let reward_info = read_reward_info s staker_addr
    elim time_seconds [
      | none ↦ ok (response s staker_addr reward_info)
      | some t ↦ do
        state ← compute_reward s.config s.state t
        reward_info' ← compute_staker_reward state reward_info
        ok (response s staker_addr reward_info')
    ]

  -- The loop of `query_all_reward_infos`; the state is carried from entry to entry.
  unfoldable pub respond_all :
      Store → Option ℕ → Map Addr RewardInfo → State → Result StdError (List RewardInfoResponse)
  respond_all s time_seconds [] state = ok []
  respond_all s none ((addr, reward_info) ∷ rest) state = do
    results ← respond_all s none rest state
    ok (response s addr reward_info ∷ results)
  respond_all s (some t) ((addr, reward_info) ∷ rest) state = do
    state' ← compute_reward s.config state t
    reward_info' ← compute_staker_reward state' reward_info
    results ← respond_all s (some t) rest state'
    ok (response s addr reward_info' ∷ results)

  unfoldable pub query_all_reward_infos :
      Api → Store → Option ℕ → Option ℕ → Option ℕ → Result StdError (List RewardInfoResponse)
  query_all_reward_infos api s start_after limit time_seconds = do
    reward_infos ← query_rewards api s start_after limit
    respond_all s time_seconds reward_infos s.state
