-- ===== src/Farm/Messages.antt =====
-- packages/spectrum/src/astroport_farm.rs: the messages that the contract takes.
use spectrum_core.Base.{ℕ, Bool, Option, List}
use spectrum_core.Cosmwasm.Std.{Expiration}
use spectrum_core.Farm.{Asset, CallbackMsg, Cw20ReceiveMsg}

-- The texts are the bytes that `as_bytes` gives.
pub record InstantiateMsg : Type 0 where
  pub owner : ℕ
  pub staking_contract : ℕ
  pub compound_proxy : ℕ
  pub controller : ℕ
  pub fee : ℕ
  pub fee_collector : ℕ
  pub liquidity_token : ℕ
  pub base_reward_token : ℕ
  pub pair : ℕ
  pub name : List ℕ
  pub symbol : List ℕ

-- The messages `Mint`, `UpdateMarketing` and `UploadLogo` are refused unread.
pub data ExecuteMsg : Type 0 where
  receive : Cw20ReceiveMsg → ExecuteMsg
  update_config : Option ℕ → Option ℕ → Option ℕ → Option ℕ → ExecuteMsg
  unbond : ℕ → ExecuteMsg
  compound : Option ℕ → Option ℕ → ExecuteMsg
  bond_assets : List Asset → Option ℕ → Option Bool → Option ℕ → ExecuteMsg
  propose_new_owner : ℕ → ℕ → ExecuteMsg
  drop_ownership_proposal claim_ownership : ExecuteMsg
  callback : CallbackMsg → ExecuteMsg
  transfer : ℕ → ℕ → ExecuteMsg
  burn : ℕ → ExecuteMsg
  send : ℕ → ℕ → List ℕ → ExecuteMsg
  increase_allowance decrease_allowance : ℕ → ℕ → Option Expiration → ExecuteMsg
  transfer_from : ℕ → ℕ → ℕ → ExecuteMsg
  send_from : ℕ → ℕ → ℕ → List ℕ → ExecuteMsg
  burn_from : ℕ → ℕ → ExecuteMsg
  mint update_marketing upload_logo : ExecuteMsg
