-- ===== src/ProxyToSpec.antt =====
-- contracts/generator_proxy_to_spec: the contract by which the generator stakes LP tokens in
-- contracts/lp_staking. Its storage is the configuration, which only `instantiate` writes, so a
-- handler returns its messages.
pub mod Contract
pub mod Together
pub mod Custody
mod Tests
use spectrum_core.Base.{ℕ, Option, Result}
use spectrum_core.Cosmwasm.Std.{Addr, StdError}
use spectrum_core.LpStaking
use spectrum_core.LpStaking.Queries.{RewardInfoResponse}

pub record Config : Type 0 where
  pub generator_contract_addr : Addr
  pub pair_addr : Addr
  pub lp_token_addr : Addr
  pub reward_contract_addr : Addr
  pub reward_token_addr : Addr

pub data ContractError : Type 0 where
  std : StdError → ContractError
  unauthorized incorrect_cw20_hook_message_variant : ContractError

-- The messages of packages/astroport that the contract takes
pub record InstantiateMsg : Type 0 where
  pub generator_contract_addr : ℕ
  pub pair_addr : ℕ
  pub lp_token_addr : ℕ
  pub reward_contract_addr : ℕ
  pub reward_token_addr : ℕ

pub data CallbackMsg : Type 0 where
  transfer_lp_tokens_after_withdraw : Addr → ℕ → CallbackMsg

pub data Cw20HookMsg : Type 0 where
  deposit : Cw20HookMsg

-- `msg` is what `from_binary` reads from the payload, `none` where it fails.
pub record Cw20ReceiveMsg : Type 0 where
  pub sender : ℕ
  pub amount : ℕ
  pub msg : Option Cw20HookMsg

pub data ExecuteMsg : Type 0 where
  receive : Cw20ReceiveMsg → ExecuteMsg
  update_rewards : ExecuteMsg
  send_rewards withdraw emergency_withdraw : ℕ → ℕ → ExecuteMsg
  callback : CallbackMsg → ExecuteMsg

-- The messages that it sends: LP tokens with a hook and tokens, each to the token's contract, those
-- to the staking contract, and a callback to itself.
pub data Message : Type 0 where
  send : Addr → Addr → ℕ → LpStaking.Cw20HookMsg → Message
  transfer : Addr → ℕ → ℕ → Message
  staking : Addr → LpStaking.ExecuteMsg → Message
  call_back : Addr → CallbackMsg → Message

-- What the contract asks: the balance of a token, and the staking contract's `RewardInfo` of a staker
-- at a time.
pub record Chain : Type 0 where
  pub query_balance : Addr → Addr → Result StdError ℕ
  pub query_reward_info : Addr → ℕ → Addr → Result StdError RewardInfoResponse
