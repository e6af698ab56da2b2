-- ===== src/Farm/Contract.antt =====
-- contracts/astroport_farm/src/contract.rs: `instantiate`, `execute` and what they call; the checks
-- of packages/spectrum/src/astroport_farm.rs on the name and the symbol.
pub mod Invariant
pub mod Preserves
pub mod Access
use spectrum_core.Base.{
  ℕ, Bool, true, false, ◌&&◌, ◌||◌, not, Option, none, some, List, [], ◌∷◌, ltb, ◌==◌,
  if◌then◌else◌, get_or, length, Result, ok, err, ◌>>=◌, ◌>>◌, err_if, map_err,
}
use spectrum_core.Cosmwasm.Math.{Math, decimal_one}
use spectrum_core.Cosmwasm.Std.{
  Addr, Api, Env, MessageInfo, Expiration, IsExpired, StdError, generic_err,
}
use spectrum_core.Ownership
use spectrum_core.Farm.{
  Asset, Config, Store, ContractError, std, unauthorized, invalid_message, ownership_item,
  CallbackMsg, Cw20HookMsg, Cw20ReceiveMsg, Message,
}
use spectrum_core.Farm.Messages.{InstantiateMsg, ExecuteMsg}
use spectrum_core.Farm.Adapters.{Querier}
use spectrum_core.Farm.Bond.{Response, bond_assets, bond_to, bond, unbond}
use spectrum_core.Farm.Cw20.{
  execute_transfer, execute_burn, execute_send, execute_increase_allowance,
  execute_decrease_allowance, execute_transfer_from, execute_burn_from, execute_send_from,
}
use spectrum_core.Farm.Compound.{compound, stake}

abbrev pub is_valid_name : List ℕ → Bool
is_valid_name bytes = not (ltb (length bytes) 3 || ltb 50 (length bytes))

abbrev pub is_letter_or_dash : ℕ → Bool
is_letter_or_dash byte =
    not (not (byte == 45) && (ltb byte 65 || ltb 90 byte) && (ltb byte 97 || ltb 122 byte))

abbrev pub all_bytes : (ℕ → Bool) → List ℕ → Bool
all_bytes p [] = true
all_bytes p (byte ∷ bytes) = if p byte then all_bytes p bytes else false

abbrev pub is_valid_symbol : List ℕ → Bool
is_valid_symbol bytes =
    if ltb (length bytes) 3 || ltb 12 (length bytes)
    then false
    else all_bytes is_letter_or_dash bytes

unfoldable pub validate : InstantiateMsg → Result StdError (Unit {0})
validate msg = do
  err_if (not (is_valid_name msg.name))
      (generic_err "Name is not in the expected format (3-50 UTF-8 bytes)")
  err_if (not (is_valid_symbol msg.symbol))
      (generic_err "Ticker symbol is not in expected format [a-zA-Z\\-]{3,12}")

-- The field is always "fee".
unfoldable pub validate_percentage : ℕ → Result StdError (Unit {0})
validate_percentage value = err_if (ltb decimal_one value) (generic_err "fee must be 0 to 1")

unfoldable pub instantiate : Api → InstantiateMsg → Result ContractError Store
instantiate api msg = do
  map_err std (validate msg)
  map_err std (validate_percentage msg.fee)
  owner ← map_err std (api msg.owner)
  staking_contract ← map_err std (api msg.staking_contract)
  compound_proxy ← map_err std (api msg.compound_proxy)
  controller ← map_err std (api msg.controller)
  fee_collector ← map_err std (api msg.fee_collector)
  liquidity_token ← map_err std (api msg.liquidity_token)
  base_reward_token ← map_err std (api msg.base_reward_token)
  pair ← map_err std (api msg.pair)
  let config : Config = record {
    owner = owner;
    staking_contract = staking_contract;
    compound_proxy = compound_proxy;
    controller = controller;
    fee = msg.fee;
    fee_collector = fee_collector;
    liquidity_token = liquidity_token;
    base_reward_token = base_reward_token;
    name = msg.name;
    symbol = msg.symbol;
    pair = pair;
  }
  ok (record {
    config = config;
    state = record { total_bond_share = 0 };
    rewards = [];
    allowances = [];
    pool_info = none;
    ownership_proposal = none;
  })

-- `if let Some(a) = a { x = deps.api.addr_validate(&a)? }`
abbrev pub validated_or : Api → Option ℕ → Addr → Result ContractError Addr
validated_or api none old = ok old
validated_or api (some a) old = map_err std (api a)

abbrev pub fee_or : Option ℕ → ℕ → Result ContractError ℕ
fee_or none old = ok old
fee_or (some fee) old = map_err std (validate_percentage fee) >> ok fee

unfoldable pub update_config :
    Api
    → Store
    → MessageInfo
    → Option ℕ
    → Option ℕ
    → Option ℕ
    → Option ℕ
    → Result ContractError Response
update_config api s info compound_proxy controller fee fee_collector = do
  err_if (not (info.sender == s.config.owner)) unauthorized
  compound_proxy' ← validated_or api compound_proxy s.config.compound_proxy
  controller' ← validated_or api controller s.config.controller
  fee' ← fee_or fee s.config.fee
  fee_collector' ← validated_or api fee_collector s.config.fee_collector
  ok (
    record s {
      config = record s.config {
        compound_proxy = compound_proxy';
        controller = controller';
        fee = fee';
        fee_collector = fee_collector';
      };
    },
    [],
  )

abbrev pub set_owner : Store → Addr → Result StdError Store
set_owner s new_owner = ok (record s { config = record s.config { owner = new_owner } })

abbrev pub lift_ownership : Result StdError Store → Result ContractError Response
lift_ownership r = map_err std r >>= λ s. ok (s, [])

module _ ⦃m : Math⦄ (api : Api) (q : Querier) where
  unfoldable pub receive_cw20 :
      Store → Env → MessageInfo → Cw20ReceiveMsg → Result ContractError Response
  receive_cw20 s env info cw20_msg = elim cw20_msg.msg [
    | none ↦ err invalid_message
    | some (Cw20HookMsg.bond staker_addr) ↦
        bond api q s env info (get_or staker_addr cw20_msg.sender) cw20_msg.amount
  ]

  unfoldable pub handle_callback :
      Store → Env → MessageInfo → CallbackMsg → Result ContractError Response
  handle_callback s env info msg =
      if not (info.sender == env.contract) then err unauthorized else elim msg [
        | CallbackMsg.stake prev_balance minimum_receive ↦
            stake q s env prev_balance minimum_receive
        | CallbackMsg.bond_to to prev_balance minimum_receive ↦
            bond_to q s env to prev_balance minimum_receive
      ]

  unfoldable pub execute :
      IsExpired → Store → Env → MessageInfo → ExecuteMsg → Result ContractError Response
  execute is_expired s env info (ExecuteMsg.receive msg) = receive_cw20 s env info msg
  execute is_expired s env info (ExecuteMsg.update_config proxy controller fee fee_collector) =
      update_config api s info proxy controller fee fee_collector
  execute is_expired s env info (ExecuteMsg.unbond amount) = unbond q s env info amount
  execute is_expired s env info (ExecuteMsg.compound minimum_receive slippage_tolerance) =
      compound q s env info minimum_receive slippage_tolerance
  execute is_expired s env info (ExecuteMsg.bond_assets assets minimum_receive no_swap slippage) =
      bond_assets q s env info assets minimum_receive no_swap slippage
  execute is_expired s env info (ExecuteMsg.propose_new_owner owner expires_in) =
      lift_ownership
        (Ownership.propose_new_owner ownership_item api s env info owner expires_in s.config.owner)
  execute is_expired s env info ExecuteMsg.drop_ownership_proposal =
      lift_ownership (Ownership.drop_ownership_proposal ownership_item s info s.config.owner)
  execute is_expired s env info ExecuteMsg.claim_ownership =
      lift_ownership (Ownership.claim_ownership ownership_item s env info set_owner)
  execute is_expired s env info (ExecuteMsg.callback msg) = handle_callback s env info msg
  execute is_expired s env info (ExecuteMsg.transfer recipient amount) =
      execute_transfer api s info recipient amount
  execute is_expired s env info (ExecuteMsg.burn amount) = execute_burn s info amount
  execute is_expired s env info (ExecuteMsg.send contract amount msg) =
      execute_send api s info contract amount msg
  execute is_expired s env info (ExecuteMsg.increase_allowance spender amount expires) =
      execute_increase_allowance api s info spender amount expires
  execute is_expired s env info (ExecuteMsg.decrease_allowance spender amount expires) =
      execute_decrease_allowance api s info spender amount expires
  execute is_expired s env info (ExecuteMsg.transfer_from owner recipient amount) =
      execute_transfer_from api is_expired s env info owner recipient amount
  execute is_expired s env info (ExecuteMsg.send_from owner contract amount msg) =
      execute_send_from api is_expired s env info owner contract amount msg
  execute is_expired s env info (ExecuteMsg.burn_from owner amount) =
      execute_burn_from api is_expired s env info owner amount
  execute is_expired s env info ExecuteMsg.mint = err unauthorized
  execute is_expired s env info ExecuteMsg.update_marketing = err unauthorized
  execute is_expired s env info ExecuteMsg.upload_logo = err unauthorized
