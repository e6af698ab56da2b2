-- ===== src/Farm/Compound.antt =====
-- contracts/astroport_farm/src/compound.rs: rewards are claimed, the commission is sent to the fee
-- collector, and the rest is passed on to the compound proxy.
pub mod Totals
use spectrum_core.Base.{
  ℕ, ◌++◌, Option, none, some, List, [], ◌∷◌, ◌||◌, ◌==◌, not, is_empty, if◌then◌else◌, get_or,
  Result, ok, ◌>>=◌, ◌>>◌, err_if, map_err,
}
use spectrum_core.Cosmwasm.Math.{Math}
use spectrum_core.Cosmwasm.Std.{Addr, Coin, Env, MessageInfo, at_height}
use spectrum_core.Cosmwasm.Uint.{sub, checked_sub, mul_decimal, add_word}
use spectrum_core.Farm.{
  token, Asset, Config, Store, ContractError, std, unauthorized, CallbackMsg, Message,
}
use spectrum_core.Farm.Adapters.{
  Querier, is_native, name_of, transfer_msg, increase_allowance_msg, claim_rewards_msg,
  compound_msg, deposit_msg, into_cosmos_msg,
}
use spectrum_core.Farm.Bond.{Response, assert_minimum_receive}

-- What the loop over the rewards has pushed.
pub record Split : Type 0 where
  pub messages : List Message
  pub compound_rewards : List Asset
  pub compound_funds : List Coin

abbrev pub no_split : Split
no_split = record { messages = []; compound_rewards = []; compound_funds = [] }

abbrev pub append_split : Split → Split → Split
append_split a b = record {
  messages = a.messages ++ b.messages;
  compound_rewards = a.compound_rewards ++ b.compound_rewards;
  compound_funds = a.compound_funds ++ b.compound_funds;
}

-- The part of a reward that is compounded. A native asset is sent along with the message; note that
-- the coin has the whole amount of the reward.
unfoldable pub compound_part : Config → Env → Asset → ℕ → Result ContractError Split
compound_part config env asset compound_amount =
    if compound_amount == 0
    then ok no_split
    else if is_native asset.info
    then ok (record {
      messages = [];
      compound_rewards = record asset { amount = compound_amount } ∷ [];
      compound_funds = record { denom = name_of asset.info; amount = asset.amount } ∷ [];
    })
    else (do
      height ← add_word 64 env.height 1
      let compound_asset : Asset = record asset { amount = compound_amount }
      ok (record {
        messages =
            increase_allowance_msg compound_asset config.compound_proxy (some (at_height height))
            ∷ [];
        compound_rewards = compound_asset ∷ [];
        compound_funds = [];
      }))

unfoldable pub commission_part : Config → Asset → ℕ → Split
commission_part config asset commission_amount =
    if commission_amount == 0 then no_split else record no_split {
      messages =
          transfer_msg (record asset { amount = commission_amount }) config.fee_collector ∷ [];
    }

module _ ⦃m : Math⦄ where
  unfoldable pub split_reward : Config → Env → ℕ → Asset → Result ContractError Split
  split_reward config env lp_balance asset =
      if asset.amount == 0 || lp_balance == 0 then ok no_split else (do
        commission_amount ← mul_decimal asset.amount config.fee
        compound_amount ← map_err std (checked_sub asset.amount commission_amount)
        compounded ← compound_part config env asset compound_amount
        ok (append_split compounded (commission_part config asset commission_amount)))

  unfoldable pub split_rewards : Config → Env → ℕ → List Asset → Result ContractError Split
  split_rewards config env lp_balance [] = ok no_split
  split_rewards config env lp_balance (asset ∷ assets) = do
    first ← split_reward config env lp_balance asset
    rest ← split_rewards config env lp_balance assets
    ok (append_split first rest)

  unfoldable pub compound :
      Querier → Store → Env → MessageInfo → Option ℕ → Option ℕ → Result ContractError Response
  compound q s env info minimum_receive slippage_tolerance = do
    let config = s.config
    err_if (not (info.sender == config.controller)) unauthorized
    pending_token ←
        map_err std
          (q.query_pending_token config.staking_contract config.liquidity_token env.contract)
    lp_balance ←
        map_err std (q.query_deposit config.staking_contract config.liquidity_token env.contract)
    split ← split_rewards config env lp_balance (
        record { info = token config.base_reward_token; amount = pending_token.pending }
        ∷ get_or pending_token.pending_on_proxy [])
    let messages =
        claim_rewards_msg config.staking_contract (config.liquidity_token ∷ []) ∷ split.messages
    if is_empty split.compound_rewards then ok (s, messages) else (do
      prev_balance ← map_err std (q.query_token_balance config.liquidity_token env.contract)
      ok (
        s,
        messages
            ++ compound_msg config.compound_proxy split.compound_rewards split.compound_funds none
                slippage_tolerance
              ∷ into_cosmos_msg (CallbackMsg.stake prev_balance minimum_receive) env.contract
              ∷ [],
      ))

  unfoldable pub stake : Querier → Store → Env → ℕ → Option ℕ → Result ContractError Response
  stake q s env prev_balance minimum_receive = do
    balance ← map_err std (q.query_token_balance s.config.liquidity_token env.contract)
    amount ← sub balance prev_balance
    assert_minimum_receive minimum_receive amount
    ok (s, deposit_msg s.config.staking_contract s.config.liquidity_token amount ∷ [])
