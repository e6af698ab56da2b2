-- ===== src/GeneratorProxy/Messages.antt =====
-- contracts/generator_proxy/src/model.rs: the messages that the contract takes.
use spectrum_core.Base.{ℕ, ◌≤◌, ◌≡◌, Option, none, some, List, Result, ok}
use spectrum_core.Cosmwasm.Std.{Addr, Env, MessageInfo, StdError}
use spectrum_core.GeneratorProxy.{AstroGov, CallbackMsg, OwnershipProposal, Store}

pub record InstantiateMsg : Type 0 where
  pub generator : ℕ
  pub astro_gov : AstroGov
  pub owner : ℕ
  pub controller : ℕ
  pub astro_token : ℕ
  pub fee_collector : ℕ
  pub max_quota : ℕ
  pub staker_rate : ℕ
  pub boost_fee : ℕ

pub data Cw20HookMsg : Type 0 where
  deposit stake : Cw20HookMsg

-- `Cw20ReceiveMsg`; `msg` is what `from_binary` returns for its payload.
pub record Cw20ReceiveMsg : Type 0 where
  pub sender : ℕ
  pub amount : ℕ
  pub msg : Result StdError Cw20HookMsg

pub data ExecuteMsg : Type 0 where
  receive : Cw20ReceiveMsg → ExecuteMsg
  callback : CallbackMsg → ExecuteMsg
  update_config : Option ℕ → Option ℕ → ExecuteMsg
  update_parameters : Option ℕ → Option ℕ → ExecuteMsg
  controller_vote : List (ℕ × ℕ) → ExecuteMsg
  send_income : ExecuteMsg
  claim_rewards : List ℕ → ExecuteMsg
  withdraw : ℕ → ℕ → ExecuteMsg
  propose_new_owner : ℕ → ℕ → ExecuteMsg
  drop_ownership_proposal claim_ownership : ExecuteMsg
  relock : ExecuteMsg
  request_unstake : ℕ → ExecuteMsg
  withdraw_unstaked : Option ℕ → ExecuteMsg
  claim_income : ExecuteMsg

-- The handlers of the ownership in packages/astroport, on the storage of this contract.
pub record Owners : Type 0 where
  pub propose_new_owner : Store → Env → MessageInfo → ℕ → ℕ → Addr → Result StdError Store
  pub drop_ownership_proposal : Store → MessageInfo → Addr → Result StdError Store
  pub claim_ownership :
      Store → Env → MessageInfo → (Store → Addr → Result StdError Store) → Result StdError Store

-- What the documentation of packages/astroport says of them: who may call each, that only the proposal
-- changes, and that the callback runs on the storage without the proposal.
pub record IsOwners (o : Owners) : Type 0 where
  pub propose_law :
      (s : Store) (env : Env) (info : MessageInfo) (new_owner expires_in owner : ℕ) {s' : Store}
      → o.propose_new_owner s env info new_owner expires_in owner ≡ ok s'
      → (info.sender ≡ owner)
        × (p : OwnershipProposal) × (s' ≡ record s { ownership_proposal = some p })
  pub drop_law :
      (s : Store) (info : MessageInfo) (owner : ℕ) {s' : Store}
      → o.drop_ownership_proposal s info owner ≡ ok s'
      → (info.sender ≡ owner) × (s' ≡ record s { ownership_proposal = none })
  pub claim_law :
      (s : Store) (env : Env) (info : MessageInfo) (cb : Store → Addr → Result StdError Store)
      {s' : Store}
      → o.claim_ownership s env info cb ≡ ok s'
      → (p : OwnershipProposal) × (s.ownership_proposal ≡ some p)
        × (info.sender ≡ p.owner)
        × (env.time ≤ p.ttl)
        × (cb (record s { ownership_proposal = none }) p.owner ≡ ok s')
