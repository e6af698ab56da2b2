-- ===== src/GeneratorProxy.antt =====
-- contracts/generator_proxy: a contract that stakes the LP tokens of many users in the Astroport
-- generator, boosts their rewards by locked xASTRO, and shares the boost with those who stake
-- xASTRO. This file is model.rs, state.rs and error.rs.
pub mod Vectors
pub mod Chain
pub mod Pool
pub mod Bond
pub mod Staking
pub mod Oper
pub mod Messages
pub mod Contract
pub mod Invariant
pub mod Claim
pub mod Access
pub mod Dilution
pub mod Quota
pub mod Solvency
mod Tests
pub mod Queries
use Prim.Native.String.{String}
use spectrum_core.Base.{ℕ, Option, none, List, []}
use spectrum_core.Cosmwasm.Std.{Addr, StdError}
use spectrum_core.Cosmwasm.Map.{Map}
use spectrum_core.Farm

-- `RestrictedVector` of packages/astroport, which only grows
abbrev pub Vector : Type 0
Vector = List (Addr × ℕ)

-- `AstroGov` of astro_gov.rs
pub record AstroGov : Type 0 where
  pub fee_distributor : Addr
  pub generator_controller : Addr
  pub voting_escrow : Addr
  pub xastro_token : Addr

pub record Config : Type 0 where
  pub generator : Addr
  pub astro_gov : AstroGov
  pub owner : Addr
  pub controller : Addr
  pub astro_token : Addr
  pub fee_collector : Addr
  pub max_quota : ℕ
  pub staker_rate : ℕ
  pub boost_fee : ℕ

pub record PoolInfo : Type 0 where
  pub total_bond_share : ℕ
  pub reward_indexes : Vector
  pub prev_reward_user_index : ℕ
  pub prev_reward_debt_proxy : Vector
  pub last_reconcile : ℕ

pub record UserInfo : Type 0 where
  pub bond_share : ℕ
  pub reward_indexes : Vector
  pub pending_rewards : Vector

pub record StakingState : Type 0 where
  pub total_bond_share : ℕ
  pub reward_index : ℕ
  pub next_claim_period : ℕ
  pub total_unstaking_amount : ℕ
  pub total_unstaked_amount : ℕ
  pub unstaking_period : ℕ

pub record StakerInfo : Type 0 where
  pub bond_share : ℕ
  pub reward_index : ℕ
  pub pending_reward : ℕ
  pub unstaking_amount : ℕ
  pub unstaked_amount : ℕ
  pub unstaking_period : ℕ

pub record RewardInfo : Type 0 where
  pub reconciled_amount : ℕ
  pub fee : ℕ
  pub staker_income : ℕ

pub data ContractError : Type 0 where
  std : StdError → ContractError
  overflow : ContractError
  unauthorized callback_unauthorized : ContractError
  exceed_quota : ℕ → ContractError
  cannot_update_after_set : String → ContractError

-- `OwnershipProposal` of packages/astroport
pub record OwnershipProposal : Type 0 where
  pub owner : Addr
  pub ttl : ℕ

-- The storage of the contract, after `instantiate`. The keys of `user_info` are an LP token and a
-- user.
pub record Store : Type 0 where
  pub config : Config
  pub pool_info : Map Addr PoolInfo
  pub user_info : Map (Addr × Addr) UserInfo
  pub reward_info : Map Addr RewardInfo
  pub staking_state : StakingState
  pub staker_info : Map Addr StakerInfo
  pub ownership_proposal : Option OwnershipProposal

-- `PoolInfo::default()` and `RewardInfo::default()`
abbrev pub default_pool_info : PoolInfo
default_pool_info = record {
  total_bond_share = 0;
  reward_indexes = [];
  prev_reward_user_index = 0;
  prev_reward_debt_proxy = [];
  last_reconcile = 0;
}

abbrev pub default_reward_info : RewardInfo
default_reward_info = record { reconciled_amount = 0; fee = 0; staker_income = 0 }

pub data CallbackMsg : Type 0 where
  after_bond_claimed : Addr → Vector → CallbackMsg
  deposit withdraw : Addr → Addr → ℕ → CallbackMsg
  after_bond_changed : Addr → CallbackMsg
  claim_rewards : Addr → Addr → CallbackMsg
  after_staking_claimed : ℕ → CallbackMsg

-- The messages that the contract sends: those of the adapters, callbacks to itself, and those to
-- the contracts of Astroport's governance, with the contract that is called first.
pub data Message : Type 0 where
  adapter : Farm.Message → Message
  callback : Addr → CallbackMsg → Message
  relock : Addr → Message
  claim : Addr → Option Addr → Option ℕ → Message
  vote : Addr → List (ℕ × ℕ) → Message
  create_lock : Addr → Addr → ℕ → ℕ → Message
  extend_lock_amount : Addr → Addr → ℕ → Message
  extend_lock_time : Addr → ℕ → Message
  withdraw_lock : Addr → Message

abbrev pub Response : Type 0
Response = Store × List Message
