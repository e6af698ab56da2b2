-- ===== src/FeesCollector.antt =====
-- contracts/fees_collector: swaps the fees that the contracts collect to one token, by way of bridge
-- tokens, and distributes it by weights. This file is state.rs and error.rs, with the messages of
-- packages/spectrum/src/fees_collector.rs.
pub mod Swaps
pub mod Contract
pub mod Shares
pub mod Distribution
pub mod Retry
pub mod Routes
mod Tests
use spectrum_core.Base.{ℕ, Option, List, Result}
use spectrum_core.Cosmwasm.Std.{Addr, Env, MessageInfo, StdError}
use spectrum_core.Cosmwasm.Map.{Map}
use spectrum_core.Ownership.{OwnershipProposal}
use spectrum_core.Farm
use spectrum_core.Farm.{AssetInfo, Asset}

pub record Config : Type 0 where
  pub owner : Addr
  pub operator : Addr
  pub factory_contract : Addr
  pub target_list : List (Addr × ℕ)
  pub stablecoin : AssetInfo

pub data ContractError : Type 0 where
  std : StdError → ContractError
  unauthorized : ContractError
  invalid_bridge : AssetInfo → AssetInfo → ContractError
  invalid_bridge_destination : AssetInfo → ContractError
  max_bridge_depth : ℕ → ContractError
  cannot_swap : AssetInfo → ContractError
  duplicated_asset : ContractError
  assertion_minimum_receive : ℕ → ℕ → ContractError

-- The storage of the contract, after `instantiate`. A bridge is stored under the name of its asset.
pub record Store : Type 0 where
  pub config : Config
  pub bridges : Map ℕ AssetInfo
  pub ownership_proposal : Option OwnershipProposal

pub record AssetWithLimit : Type 0 where
  pub info : AssetInfo
  pub limit : Option ℕ

pub record InstantiateMsg : Type 0 where
  pub owner : ℕ
  pub operator : ℕ
  pub factory_contract : ℕ
  pub stablecoin : AssetInfo
  pub target_list : List (ℕ × ℕ)

pub data ExecuteMsg : Type 0 where
  collect : List AssetWithLimit → Option ℕ → ExecuteMsg
  update_config : Option ℕ → Option ℕ → Option (List (ℕ × ℕ)) → ExecuteMsg
  update_bridges : Option (List (AssetInfo × AssetInfo)) → Option (List AssetInfo) → ExecuteMsg
  swap_bridge_assets : List AssetInfo → ℕ → ExecuteMsg
  distribute_fees : Option ℕ → ExecuteMsg
  propose_new_owner : ℕ → ℕ → ExecuteMsg
  drop_ownership_proposal claim_ownership : ExecuteMsg

-- The messages that the contract sends: a swap in a pair with the belief price and the maximal
-- spread, those to itself, and those of the adapters.
pub data Message : Type 0 where
  swap_in : Addr → Asset → Option ℕ → Option ℕ → Message
  execute_self : Addr → ExecuteMsg → Message
  adapter : Farm.Message → Message

-- The answers of the other contracts and of packages/astroport: the balance of an asset, the pair of
-- two assets, and `AssetInfo::check`. A `HashMap` visits its entries in an order of its own.
pub record Chain : Type 0 where
  pub query_pool : AssetInfo → Addr → Result StdError ℕ
  pub query_pair_info : Addr → AssetInfo → AssetInfo → Result StdError Addr
  pub check : AssetInfo → Result StdError (Unit {0})
  pub visit : List AssetInfo → List AssetInfo

-- The handlers of the ownership in packages/astroport, on the storage of this contract
pub record Owners : Type 0 where
  pub propose_new_owner : Store → Env → MessageInfo → ℕ → ℕ → Addr → Result StdError Store
  pub drop_ownership_proposal : Store → MessageInfo → Addr → Result StdError Store
  pub claim_ownership :
      Store → Env → MessageInfo → (Store → Addr → Result StdError Store) → Result StdError Store
