-- ===== src/ProxyToSpec/Contract.antt =====
-- contracts/generator_proxy_to_spec/src/contract.rs
use spectrum_core.Base.{
  ℕ, not, ◌||◌, none, List, [], ◌∷◌, ◌==◌, if◌then◌else◌, some, Result, ok, err, ◌>>=◌, ◌>>◌,
  err_if, map_err,
}
use spectrum_core.Cosmwasm.Math.{Math}
use spectrum_core.Cosmwasm.Std.{Addr, Api, Env, MessageInfo, StdError}
use spectrum_core.Cosmwasm.Uint.{sub}
use spectrum_core.LpStaking
use spectrum_core.ProxyToSpec.{
  Config, ContractError, std, unauthorized, incorrect_cw20_hook_message_variant, InstantiateMsg,
  CallbackMsg, transfer_lp_tokens_after_withdraw, deposit, Cw20ReceiveMsg, ExecuteMsg, Message,
  send, transfer, staking, call_back, Chain,
}

unfoldable pub instantiate : Api → InstantiateMsg → Result ContractError Config
instantiate api msg = do
  generator_contract_addr ← map_err std (api msg.generator_contract_addr)
  pair_addr ← map_err std (api msg.pair_addr)
  lp_token_addr ← map_err std (api msg.lp_token_addr)
  reward_contract_addr ← map_err std (api msg.reward_contract_addr)
  reward_token_addr ← map_err std (api msg.reward_token_addr)
  ok (record {
    generator_contract_addr = generator_contract_addr;
    pair_addr = pair_addr;
    lp_token_addr = lp_token_addr;
    reward_contract_addr = reward_contract_addr;
    reward_token_addr = reward_token_addr;
  })

unfoldable pub receive_cw20 :
    Config → MessageInfo → Cw20ReceiveMsg → Result ContractError (List Message)
receive_cw20 cfg info cw20_msg = elim cw20_msg.msg [
  | none ↦ err incorrect_cw20_hook_message_variant
  | some deposit ↦
      if not (cw20_msg.sender == cfg.generator_contract_addr)
        || not (info.sender == cfg.lp_token_addr)
      then err unauthorized
      else ok (
          send cfg.lp_token_addr cfg.reward_contract_addr cw20_msg.amount (LpStaking.bond none)
          ∷ [])
]

unfoldable pub update_rewards : Config → Result ContractError (List Message)
update_rewards cfg = ok (staking cfg.reward_contract_addr (LpStaking.ExecuteMsg.withdraw none) ∷ [])

unfoldable pub send_rewards :
    Api → Config → MessageInfo → ℕ → ℕ → Result ContractError (List Message)
send_rewards api cfg info account amount = do
  _ ← map_err std (api account)
  err_if (not (info.sender == cfg.generator_contract_addr)) unauthorized
  ok (transfer cfg.reward_token_addr account amount ∷ [])

unfoldable pub withdraw :
    Api → Chain → Config → Env → MessageInfo → ℕ → ℕ → Result ContractError (List Message)
withdraw api c cfg env info account amount = do
  account ← map_err std (api account)
  err_if (not (info.sender == cfg.generator_contract_addr)) unauthorized
  prev_lp_balance ← map_err std (c.query_balance cfg.lp_token_addr env.contract)
  ok (
      staking cfg.reward_contract_addr (LpStaking.ExecuteMsg.unbond amount)
      ∷ call_back env.contract (transfer_lp_tokens_after_withdraw account prev_lp_balance)
      ∷ [])

module _ ⦃m : Math⦄ where
  unfoldable pub transfer_lp_tokens :
      Chain → Config → Env → Addr → ℕ → Result ContractError (List Message)
  transfer_lp_tokens c cfg env account prev_lp_balance = do
    balance ← map_err std (c.query_balance cfg.lp_token_addr env.contract)
    amount ← sub balance prev_lp_balance
    ok (transfer cfg.lp_token_addr account amount ∷ [])

  unfoldable pub handle_callback :
      Chain → Config → Env → MessageInfo → CallbackMsg → Result ContractError (List Message)
  handle_callback c cfg env info (transfer_lp_tokens_after_withdraw account prev_lp_balance) =
      err_if (not (info.sender == env.contract)) unauthorized
      >> transfer_lp_tokens c cfg env account prev_lp_balance

  unfoldable pub execute :
      Api → Chain → Config → Env → MessageInfo → ExecuteMsg → Result ContractError (List Message)
  execute api c cfg env info (ExecuteMsg.receive msg) = receive_cw20 cfg info msg
  execute api c cfg env info ExecuteMsg.update_rewards = update_rewards cfg
  execute api c cfg env info (ExecuteMsg.send_rewards account amount) =
      send_rewards api cfg info account amount
  execute api c cfg env info (ExecuteMsg.withdraw account amount) =
      withdraw api c cfg env info account amount
  execute api c cfg env info (ExecuteMsg.emergency_withdraw account amount) =
      withdraw api c cfg env info account amount
  execute api c cfg env info (ExecuteMsg.callback msg) = handle_callback c cfg env info msg

unfoldable pub query_config : Config → Config
query_config cfg = cfg

module _ (c : Chain) where
  -- The branches `Deposit`, `Reward`, `PendingToken` and `RewardInfo` of `query`
  unfoldable pub query_deposit : Config → Env → Result StdError ℕ
  query_deposit cfg env = do
    res ← c.query_reward_info cfg.reward_contract_addr env.time env.contract
    ok res.reward_info.bond_amount

  unfoldable pub query_reward : Config → Env → Result StdError ℕ
  query_reward cfg env = c.query_balance cfg.reward_token_addr env.contract

  unfoldable pub query_pending_token : Config → Env → Result StdError ℕ
  query_pending_token cfg env = do
    res ← c.query_reward_info cfg.reward_contract_addr env.time env.contract
    ok res.reward_info.pending_reward

unfoldable pub query_reward_token : Config → Addr
query_reward_token cfg = cfg.reward_token_addr
