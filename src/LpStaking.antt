-- ===== src/LpStaking.antt =====
-- contracts/lp_staking: stakers bond a token and earn a reward token by a schedule. This file is
-- state.rs, error.rs and the message types of packages/spectrum/src/lp_staking.rs; the handlers of
-- contract.rs are in the modules below.
pub mod Refusals
pub mod Rewards
pub mod NewSchedules
pub mod Handlers
pub mod Queries
pub mod Accounting
pub mod Settlement
mod Tests
use spectrum_core.Base.{ℕ, refl, Option, none, some, List, get_or}
use spectrum_core.Cosmwasm.Std.{Addr, StdError}
use spectrum_core.Cosmwasm.Map.{Map, ℕ_key, lookup}
use spectrum_core.Ownership.{OwnershipProposal, ProposalItem}

-- An entry of the distribution schedule: its first and last second, and the amount.
pub record Schedule : Type 0 where
  pub start : ℕ
  pub end : ℕ
  pub amount : ℕ

pub record Config : Type 0 where
  pub owner : Addr
  pub reward_token : Addr
  pub staking_token : Addr
  pub distribution_schedule : List Schedule

pub record State : Type 0 where
  pub last_distributed : ℕ
  pub total_bond_amount : ℕ
  pub global_reward_index : ℕ

pub record RewardInfo : Type 0 where
  pub reward_index : ℕ
  pub bond_amount : ℕ
  pub pending_reward : ℕ

pub data ContractError : Type 0 where
  std : StdError → ContractError
  unauthorized : ContractError
  invalid_message : ContractError
  unbond_exceed_balance : ContractError
  invalid_distribution_schedule : ContractError
  distribution_schedule_started : ContractError

-- The storage of the contract, after `instantiate`.
pub record Store : Type 0 where
  pub config : Config
  pub state : State
  pub reward_infos : Map Addr RewardInfo
  pub ownership_proposal : Option OwnershipProposal

instance abbrev pub ownership_item : ProposalItem Store
ownership_item = record {
  may_load = λ s. s.ownership_proposal;
  save = λ p s. record s { ownership_proposal = some p };
  remove = λ s. record s { ownership_proposal = none };
  may_load-save = λ p s. refl;
  may_load-remove = λ s. refl;
}

abbrev pub empty_reward_info : RewardInfo
empty_reward_info = record { reward_index = 0; bond_amount = 0; pending_reward = 0 }

unfoldable pub read_reward_info : Store → Addr → RewardInfo
read_reward_info s owner = get_or (lookup owner s.reward_infos) empty_reward_info

pub data Cw20HookMsg : Type 0 where
  bond : Option ℕ → Cw20HookMsg

-- `Cw20ReceiveMsg`; `msg` is what `from_binary` reads from its payload, `none` where it fails.
pub record Cw20ReceiveMsg : Type 0 where
  pub sender : ℕ
  pub amount : ℕ
  pub msg : Option Cw20HookMsg

pub data ExecuteMsg : Type 0 where
  receive : Cw20ReceiveMsg → ExecuteMsg
  unbond : ℕ → ExecuteMsg
  withdraw : Option ℕ → ExecuteMsg
  update_config : Option (List Schedule) → ExecuteMsg
  propose_new_owner : ℕ → ℕ → ExecuteMsg
  drop_ownership_proposal : ExecuteMsg
  claim_ownership : ExecuteMsg

-- The messages that the contract sends: `Cw20ExecuteMsg::Transfer` to a token's contract.
pub record Transfer : Type 0 where
  pub token : Addr
  pub recipient : Addr
  pub amount : ℕ
