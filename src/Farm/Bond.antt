-- ===== src/Farm/Bond.antt =====
-- contracts/astroport_farm/src/bond.rs: deposits and withdrawals of LP tokens.
pub mod Steps
use spectrum_core.Base.{
  ℕ, ◌++◌, Bool, true, false, Option, none, some, List, [], ◌∷◌, ltb, ◌==◌, if◌then◌else◌, get_or,
  not, Result, ok, err, panic, ◌>>=◌, ◌>>◌, err_if, map_err, ok_or,
}
use spectrum_core.Cosmwasm.Math.{Math}
use spectrum_core.Cosmwasm.Std.{Addr, Api, Coin, Env, MessageInfo, Expiration, at_height, not_found}
use spectrum_core.Cosmwasm.Uint.{add, sub, checked_sub, add_word}
use spectrum_core.Cosmwasm.Map.{ℕ_key, lookup, insert}
use spectrum_core.Helper.{multiply_ratio_and_ceil}
use spectrum_core.Farm.{
  token, Asset, Config, State, RewardInfo, truncate, Store, ContractError, std, unauthorized,
  duplicated_asset, assertion_minimum_receive, invalid_zero_amount, unbond_exceed_balance,
  default_reward_info, CallbackMsg, Message,
}
use spectrum_core.Farm.Adapters.{
  Querier, asset_eq, is_native, name_of, deposit_asset, increase_allowance_msg, compound_msg,
  into_cosmos_msg, deposit_msg, withdraw_msg, transfer_msg,
}
use spectrum_core.Farm.Shares.{
  calc_bond_share, calc_bond_amount, calc_user_balance, ensure_deposit_costs, bond_info,
  unbond_info,
}

abbrev pub Response : Type 0
Response = Store × List Message

-- The loop that compares each asset with the one before it.
unfoldable pub check_adjacent : Asset → List Asset → Result ContractError (Unit {0})
check_adjacent low_asset [] = ok tt
check_adjacent low_asset (asset ∷ assets) = do
  err_if (asset_eq asset low_asset) duplicated_asset
  check_adjacent asset assets

-- `assets[0]` panics where there is none.
unfoldable pub check_duplicates : List Asset → Result ContractError (Unit {0})
check_duplicates [] = panic
check_duplicates (asset ∷ assets) = check_adjacent asset assets

-- What one asset adds to the funds and to the messages besides its deposit.
unfoldable pub pass_on : Env → Addr → Asset → Result ContractError (List Message × List Coin)
pass_on env proxy asset =
    if asset.amount == 0
    then ok ([], [])
    else if is_native asset.info
    then ok ([], record { denom = name_of asset.info; amount = asset.amount } ∷ [])
    else (do
      height ← add_word 64 env.height 1
      ok (increase_allowance_msg asset proxy (some (at_height height)) ∷ [], []))

unfoldable pub collect_assets :
    Querier
    → Env
    → MessageInfo
    → Addr
    → List Asset
    → Result ContractError (List Message × List Coin)
collect_assets q env info proxy [] = ok ([], [])
collect_assets q env info proxy (asset ∷ assets) = do
  deposits ← map_err std (deposit_asset q asset info env.contract)
  (messages, funds) ← pass_on env proxy asset
  (messages', funds') ← collect_assets q env info proxy assets
  ok (deposits ++ messages ++ messages', funds ++ funds')

unfoldable pub bond_assets :
    Querier
    → Store
    → Env
    → MessageInfo
    → List Asset
    → Option ℕ
    → Option Bool
    → Option ℕ
    → Result ContractError Response
bond_assets q s env info assets minimum_receive no_swap slippage_tolerance = do
  check_duplicates assets
  (messages, funds) ← collect_assets q env info s.config.compound_proxy assets
  prev_balance ← map_err std (q.query_token_balance s.config.liquidity_token env.contract)
  ok (
    s,
    messages
        ++ compound_msg s.config.compound_proxy assets funds no_swap slippage_tolerance
          ∷ into_cosmos_msg (CallbackMsg.bond_to info.sender prev_balance minimum_receive)
              env.contract
          ∷ [],
  )

-- `if let Some(minimum_receive) = minimum_receive { ... }`
abbrev pub assert_minimum_receive : Option ℕ → ℕ → Result ContractError (Unit {0})
assert_minimum_receive none amount = ok tt
assert_minimum_receive (some minimum) amount =
    err_if (ltb amount minimum) (assertion_minimum_receive minimum amount)

module _ ⦃m : Math⦄ where
  unfoldable pub bond_internal : Querier → Store → Env → Addr → ℕ → Result ContractError Response
  bond_internal q s env staker_addr amount = do
    let config = s.config
    lp_balance ←
        map_err std (q.query_deposit config.staking_contract config.liquidity_token env.contract)
    let reward_info = get_or (lookup staker_addr s.rewards) default_reward_info
    bond_share ← calc_bond_share s.state amount lp_balance truncate
    total_bond_share ← add s.state.total_bond_share bond_share
    let state : State = record { total_bond_share = total_bond_share }
    lp_balance' ← add lp_balance amount
    deposit_amount ← calc_bond_amount state lp_balance' bond_share
    pool_info ← map_err std (q.query_pool_info config.pair)
    reward_info' ← map_err std (ensure_deposit_costs reward_info s.pool_info)
    reward_info'' ←
        map_err std (bond_info reward_info' bond_share deposit_amount env.time pool_info)
    ok (
      record s { rewards = insert staker_addr reward_info'' s.rewards; state = state },
      deposit_msg config.staking_contract config.liquidity_token amount ∷ [],
    )

  unfoldable pub bond_to :
      Querier → Store → Env → Addr → ℕ → Option ℕ → Result ContractError Response
  bond_to q s env to prev_balance minimum_receive = do
    balance ← map_err std (q.query_token_balance s.config.liquidity_token env.contract)
    amount ← sub balance prev_balance
    assert_minimum_receive minimum_receive amount
    bond_internal q s env to amount

  unfoldable pub bond :
      Api → Querier → Store → Env → MessageInfo → ℕ → ℕ → Result ContractError Response
  bond api q s env info sender_addr amount = do
    staker_addr ← map_err std (api sender_addr)
    err_if (not (s.config.liquidity_token == info.sender)) unauthorized
    bond_internal q s env staker_addr amount

  unfoldable pub unbond : Querier → Store → Env → MessageInfo → ℕ → Result ContractError Response
  unbond q s env info amount = do
    err_if (amount == 0) invalid_zero_amount
    let config = s.config
    lp_balance ←
        map_err std (q.query_deposit config.staking_contract config.liquidity_token env.contract)
    reward_info ← ok_or (lookup info.sender s.rewards) (std not_found)
    user_balance ← calc_user_balance reward_info s.state lp_balance env.time
    err_if (ltb user_balance amount) unbond_exceed_balance
    bond_share ← multiply_ratio_and_ceil reward_info.bond_share amount user_balance
    total_bond_share ← map_err std (checked_sub s.state.total_bond_share bond_share)
    reward_info' ← map_err std (unbond_info reward_info bond_share)
    ok (
      record s {
        rewards = insert info.sender reward_info' s.rewards;
        state = record { total_bond_share = total_bond_share };
      },
      withdraw_msg config.staking_contract config.liquidity_token amount
          ∷ transfer_msg (record { info = token config.liquidity_token; amount = amount })
              info.sender
          ∷ [],
    )
