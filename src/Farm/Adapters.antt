-- ===== src/Farm/Adapters.antt =====
-- packages/spectrum/src/adapters/asset.rs and generator.rs, `compound_msg` of compound_proxy.rs and
-- `into_cosmos_msg` of astroport_farm.rs: the messages that the contract builds, and what it asks
-- of the other contracts.
use spectrum_core.Base.{
  ℕ, Bool, true, false, ◌&&◌, Option, none, List, [], ◌∷◌, ltb, ◌==◌, if◌then◌else◌, Result, ok,
  err, ◌>>=◌,
}
use spectrum_core.Cosmwasm.Std.{Addr, Coin, MessageInfo, Expiration, StdError, generic_err}
use spectrum_core.Farm.{
  AssetInfo, token, native_token, Asset, PoolResponse, CallbackMsg, Message, transfer,
  transfer_from, send, increase_allowance, bank_send, withdraw, claim_rewards, compound, callback,
}

-- `PendingTokenResponse` of packages/astroport
pub record PendingTokenResponse : Type 0 where
  pub pending : ℕ
  pub pending_on_proxy : Option (List Asset)

-- The answers of the other contracts (the first address is the contract that is asked), and
-- `assert_sent_native_token_balance` of packages/astroport.
pub record Querier : Type 0 where
  pub query_deposit : Addr → Addr → Addr → Result StdError ℕ
  pub query_pending_token : Addr → Addr → Addr → Result StdError PendingTokenResponse
  pub query_pool_info : Addr → Result StdError PoolResponse
  pub query_token_balance : Addr → Addr → Result StdError ℕ
  pub assert_sent_native_token_balance : Asset → MessageInfo → Result StdError (Unit {0})

-- `info.to_string()`
abbrev pub name_of : AssetInfo → ℕ
name_of (token contract_addr) = contract_addr
name_of (native_token denom) = denom

abbrev pub is_native : AssetInfo → Bool
is_native (token contract_addr) = false
is_native (native_token denom) = true

abbrev pub info_eq : AssetInfo → AssetInfo → Bool
info_eq (token a) (token b) = a == b
info_eq (native_token a) (native_token b) = a == b
info_eq _ _ = false

abbrev pub asset_eq : Asset → Asset → Bool
asset_eq a b = info_eq a.info b.info && a.amount == b.amount

abbrev pub transfer_msg : Asset → Addr → Message
transfer_msg asset to = elim asset.info [
  | token contract_addr ↦ transfer contract_addr to asset.amount
  | native_token denom ↦ bank_send to denom asset.amount
]

abbrev pub transfer_from_msg : Asset → Addr → Addr → Result StdError Message
transfer_from_msg asset owner to = elim asset.info [
  | token contract_addr ↦ ok (transfer_from contract_addr owner to asset.amount)
  | native_token denom ↦ err (generic_err "TransferFrom does not apply to native tokens")
]

abbrev pub increase_allowance_msg : Asset → Addr → Option Expiration → Message
increase_allowance_msg asset spender expires =
    increase_allowance (name_of asset.info) spender asset.amount expires

-- The messages that `deposit_asset` pushes.
abbrev pub deposit_asset : Querier → Asset → MessageInfo → Addr → Result StdError (List Message)
deposit_asset q asset info recipient = if asset.amount == 0 then ok [] else elim asset.info [
  | token contract_addr ↦ do
    message ← transfer_from_msg asset info.sender recipient
    ok (message ∷ [])
  | native_token denom ↦ do _ ← q.assert_sent_native_token_balance asset info; ok []
]

abbrev pub deposit_msg : Addr → Addr → ℕ → Message
deposit_msg generator lp_token amount = send lp_token generator amount

abbrev pub withdraw_msg : Addr → Addr → ℕ → Message
withdraw_msg generator lp_token amount = withdraw generator lp_token amount

abbrev pub claim_rewards_msg : Addr → List Addr → Message
claim_rewards_msg generator lp_tokens = claim_rewards generator lp_tokens

-- `funds.sort_by(|a, b| a.denom.cmp(&b.denom))`, which is stable
abbrev pub insert_coin : Coin → List Coin → List Coin
insert_coin c [] = c ∷ []
insert_coin c (d ∷ ds) = if ltb d.denom c.denom then d ∷ insert_coin c ds else c ∷ d ∷ ds

abbrev pub sort_by_denom : List Coin → List Coin
sort_by_denom [] = []
sort_by_denom (c ∷ cs) = insert_coin c (sort_by_denom cs)

abbrev pub compound_msg : Addr → List Asset → List Coin → Option Bool → Option ℕ → Message
compound_msg proxy rewards funds no_swap slippage_tolerance =
    compound proxy rewards (sort_by_denom funds) no_swap none slippage_tolerance

abbrev pub into_cosmos_msg : CallbackMsg → Addr → Message
into_cosmos_msg msg contract_addr = callback contract_addr msg
