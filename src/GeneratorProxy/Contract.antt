-- ===== src/GeneratorProxy/Contract.antt =====
-- contracts/generator_proxy/src/contract.rs: `instantiate` and `execute`.
use spectrum_core.Base.{not, none, [], ◌==◌, if◌then◌else◌, Result, ok, err, ◌>>=◌, ◌>>◌, map_err}
use spectrum_core.Cosmwasm.Math.{Math}
use spectrum_core.Cosmwasm.Std.{Addr, Api, Env, MessageInfo, StdError}
use spectrum_core.GeneratorProxy.{
  Config, StakingState, Store, ContractError, std, callback_unauthorized, CallbackMsg, Response,
}
use spectrum_core.GeneratorProxy.Messages.{
  InstantiateMsg, Cw20HookMsg, Cw20ReceiveMsg, ExecuteMsg, Owners,
}
use spectrum_core.GeneratorProxy.Chain.{Chain, check}
use spectrum_core.GeneratorProxy.Bond.{
  execute_deposit, execute_withdraw, execute_claim_rewards, callback_after_bond_claimed,
  callback_after_bond_changed, callback_deposit, callback_withdraw, callback_claim_rewards,
}
use spectrum_core.GeneratorProxy.Staking.{
  execute_stake, execute_relock, execute_request_unstake, execute_withdraw_unstaked,
  execute_claim_income, callback_after_staking_claimed,
}
use spectrum_core.GeneratorProxy.Oper.{
  validate_percentage, staker_rate_text, boost_fee_text, execute_update_config,
  execute_update_parameters, execute_controller_vote, execute_send_income,
}

unfoldable pub instantiate : Api → Chain → Env → InstantiateMsg → Result ContractError Store
instantiate api c env msg = do
  map_err std (validate_percentage msg.staker_rate staker_rate_text)
  map_err std (validate_percentage msg.boost_fee boost_fee_text)
  generator ← map_err std (api msg.generator)
  astro_gov ← map_err std (check api msg.astro_gov)
  owner ← map_err std (api msg.owner)
  controller ← map_err std (api msg.controller)
  astro_token ← map_err std (api msg.astro_token)
  fee_collector ← map_err std (api msg.fee_collector)
  let config : Config = record {
    generator = generator;
    astro_gov = astro_gov;
    owner = owner;
    controller = controller;
    astro_token = astro_token;
    fee_collector = fee_collector;
    max_quota = msg.max_quota;
    staker_rate = msg.staker_rate;
    boost_fee = msg.boost_fee;
  }
  period ← map_err std (c.get_period env.time)
  let state : StakingState = record {
    total_bond_share = 0;
    reward_index = 0;
    next_claim_period = period;
    total_unstaking_amount = 0;
    total_unstaked_amount = 0;
    unstaking_period = period;
  }
  ok (record {
    config = config;
    pool_info = [];
    user_info = [];
    reward_info = [];
    staking_state = state;
    staker_info = [];
    ownership_proposal = none;
  })

abbrev pub set_owner : Store → Addr → Result StdError Store
set_owner s new_owner = ok (record s { config = record s.config { owner = new_owner } })

abbrev pub lift_ownership : Result StdError Store → Result ContractError Response
lift_ownership r = map_err std r >>= λ s. ok (s, [])

module _ ⦃m : Math⦄ (api : Api) (c : Chain) where
  unfoldable pub receive_cw20 :
      Store → Env → MessageInfo → Cw20ReceiveMsg → Result ContractError Response
  receive_cw20 s env info cw20_msg = do
    staker_addr ← map_err std (api cw20_msg.sender)
    hook ← map_err std cw20_msg.msg
    elim hook [
      | Cw20HookMsg.deposit ↦ execute_deposit c s env info staker_addr cw20_msg.amount
      | Cw20HookMsg.stake ↦ execute_stake c s env info staker_addr cw20_msg.amount
    ]

  unfoldable pub handle_callback :
      Store → Env → MessageInfo → CallbackMsg → Result ContractError Response
  handle_callback s env info msg =
      if not (info.sender == env.contract) then err callback_unauthorized else elim msg [
        | CallbackMsg.after_bond_claimed lp_token prev_balances ↦
            callback_after_bond_claimed c s env lp_token prev_balances
        | CallbackMsg.deposit lp_token staker_addr amount ↦
            callback_deposit c s env lp_token staker_addr amount
        | CallbackMsg.withdraw lp_token staker_addr amount ↦
            callback_withdraw c s env lp_token staker_addr amount
        | CallbackMsg.after_bond_changed lp_token ↦ callback_after_bond_changed c s env lp_token
        | CallbackMsg.claim_rewards lp_token staker_addr ↦
            callback_claim_rewards s lp_token staker_addr
        | CallbackMsg.after_staking_claimed prev_balance ↦
            callback_after_staking_claimed c s env prev_balance
      ]

  unfoldable pub execute :
      Owners → Store → Env → MessageInfo → ExecuteMsg → Result ContractError Response
  execute owners s env info (ExecuteMsg.receive msg) = receive_cw20 s env info msg
  execute owners s env info (ExecuteMsg.callback msg) = handle_callback s env info msg
  execute owners s env info (ExecuteMsg.update_config controller boost_fee) =
      execute_update_config api s info controller boost_fee
  execute owners s env info (ExecuteMsg.update_parameters max_quota staker_rate) =
      execute_update_parameters s info max_quota staker_rate
  execute owners s env info (ExecuteMsg.controller_vote votes) =
      execute_controller_vote s info votes
  execute owners s env info ExecuteMsg.send_income = execute_send_income s info
  execute owners s env info (ExecuteMsg.claim_rewards lp_tokens) =
      execute_claim_rewards c api s env info lp_tokens
  execute owners s env info (ExecuteMsg.withdraw lp_token amount) =
      execute_withdraw c api s env info lp_token amount
  execute owners s env info (ExecuteMsg.propose_new_owner owner expires_in) =
      lift_ownership (owners.propose_new_owner s env info owner expires_in s.config.owner)
  execute owners s env info ExecuteMsg.drop_ownership_proposal =
      lift_ownership (owners.drop_ownership_proposal s info s.config.owner)
  execute owners s env info ExecuteMsg.claim_ownership =
      lift_ownership (owners.claim_ownership s env info set_owner)
  execute owners s env info ExecuteMsg.relock = execute_relock c s env info
  execute owners s env info (ExecuteMsg.request_unstake amount) =
      execute_request_unstake c s env info amount
  execute owners s env info (ExecuteMsg.withdraw_unstaked amount) =
      execute_withdraw_unstaked s info amount
  execute owners s env info ExecuteMsg.claim_income = execute_claim_income s info
