-- ===== src/Farm.antt =====
-- contracts/astroport_farm: a vault that stakes LP tokens and compounds their rewards. Its shares
-- are a cw20 token. This file is state.rs, error.rs and the messages that it sends.
pub mod Shares
pub mod Messages
pub mod Adapters
pub mod Bond
pub mod Balances
pub mod Worth
pub mod Cw20
pub mod Compound
pub mod Contract
pub mod Queries
pub mod Vault
pub mod Token
mod Tests
use spectrum_core.Base.{ℕ, refl, Bool, Option, none, some, List, [], get_or}
use spectrum_core.Cosmwasm.Std.{Addr, Coin, Expiration, StdError, never}
use spectrum_core.Cosmwasm.Map.{Map, ℕ_key, lookup}
use spectrum_core.Ownership.{OwnershipProposal, ProposalItem}

-- `AssetInfo`, `Asset` and `PoolResponse` of packages/astroport.
pub data AssetInfo : Type 0 where
  token : Addr → AssetInfo
  native_token : ℕ → AssetInfo

pub record Asset : Type 0 where
  pub info : AssetInfo
  pub amount : ℕ

pub record PoolResponse : Type 0 where
  pub assets : List Asset
  pub total_share : ℕ

-- `name` and `symbol` are the bytes of the text.
pub record Config : Type 0 where
  pub owner : Addr
  pub staking_contract : Addr
  pub compound_proxy : Addr
  pub controller : Addr
  pub fee : ℕ
  pub fee_collector : Addr
  pub liquidity_token : Addr
  pub base_reward_token : Addr
  pub name : List ℕ
  pub symbol : List ℕ
  pub pair : Addr

pub record State : Type 0 where
  pub total_bond_share : ℕ

pub record RewardInfo : Type 0 where
  pub bond_share : ℕ
  pub deposit_amount : ℕ
  pub deposit_time : ℕ
  pub transfer_share : ℕ
  pub deposit_costs : List ℕ

pub data ScalingOperation : Type 0 where
  truncate ceil : ScalingOperation

-- `AllowanceResponse` of cw20; its default allows nothing and never expires.
pub record Allowance : Type 0 where
  pub allowance : ℕ
  pub expires : Expiration

pub data ContractError : Type 0 where
  std : StdError → ContractError
  unauthorized : ContractError
  invalid_message : ContractError
  unbond_exceed_balance : ContractError
  assertion_minimum_receive : ℕ → ℕ → ContractError
  invalid_zero_amount : ContractError
  expired : ContractError
  no_allowance : ContractError
  cannot_set_own_account : ContractError
  duplicated_asset : ContractError

-- The storage of the contract, after `instantiate`.
pub record Store : Type 0 where
  pub config : Config
  pub state : State
  pub rewards : Map Addr RewardInfo
  pub allowances : Map (Addr × Addr) Allowance
  pub pool_info : Option PoolResponse
  pub ownership_proposal : Option OwnershipProposal

instance abbrev pub ownership_item : ProposalItem Store
ownership_item = record {
  may_load = λ s. s.ownership_proposal;
  save = λ p s. record s { ownership_proposal = some p };
  remove = λ s. record s { ownership_proposal = none };
  may_load-save = λ p s. refl;
  may_load-remove = λ s. refl;
}

-- `RewardInfo::default()`
abbrev pub default_reward_info : RewardInfo
default_reward_info = record {
  bond_share = 0;
  deposit_amount = 0;
  deposit_time = 0;
  transfer_share = 0;
  deposit_costs = [];
}

abbrev pub default_allowance : Allowance
default_allowance = record { allowance = 0; expires = never }

pub data CallbackMsg : Type 0 where
  stake : ℕ → Option ℕ → CallbackMsg
  bond_to : Addr → ℕ → Option ℕ → CallbackMsg

pub data Cw20HookMsg : Type 0 where
  bond : Option ℕ → Cw20HookMsg

-- `Cw20ReceiveMsg`; `msg` is what `from_binary` reads from its payload, `none` where it fails.
pub record Cw20ReceiveMsg : Type 0 where
  pub sender : ℕ
  pub amount : ℕ
  pub msg : Option Cw20HookMsg

-- The messages that the contract sends; the first address of each is the contract that is called.
pub data Message : Type 0 where
  transfer : Addr → Addr → ℕ → Message
  transfer_from : Addr → Addr → Addr → ℕ → Message
  send : Addr → Addr → ℕ → Message
  receive : ℕ → Addr → ℕ → List ℕ → Message
  increase_allowance : Addr → Addr → ℕ → Option Expiration → Message
  bank_send : Addr → ℕ → ℕ → Message
  withdraw : Addr → Addr → ℕ → Message
  claim_rewards : Addr → List Addr → Message
  compound : Addr → List Asset → List Coin → Option Bool → Option ℕ → Option ℕ → Message
  callback : Addr → CallbackMsg → Message
