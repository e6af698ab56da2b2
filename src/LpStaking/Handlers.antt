-- ===== src/LpStaking/Handlers.antt =====
-- contracts/lp_staking/src/contract.rs: `instantiate` and `execute`. A handler returns the storage
-- that it leaves and the messages that it sends.
pub mod Invariant
pub mod Liability
pub mod Frame
use spectrum_core.Base.{
  ℕ, ◌&&◌, not, Option, none, some, List, [], ◌∷◌, ltb, ◌==◌, if◌then◌else◌, get_or, Result, ok,
  err, ◌>>=◌, ◌>>◌, err_if, map_err,
}
use spectrum_core.Cosmwasm.Math.{Math}
use spectrum_core.Cosmwasm.Std.{Addr, Api, Env, MessageInfo, StdError}
use spectrum_core.Cosmwasm.Uint.{add, checked_sub}
use spectrum_core.Cosmwasm.Map.{Map, ℕ_key, insert, erase}
use spectrum_core.Ownership
use spectrum_core.LpStaking.{
  Schedule, Config, State, RewardInfo, ContractError, std, unauthorized, invalid_message,
  unbond_exceed_balance, Store, ownership_item, read_reward_info, Cw20HookMsg, bond, Cw20ReceiveMsg,
  ExecuteMsg, Transfer,
}
use spectrum_core.LpStaking.Rewards.{compute_reward, compute_staker_reward}
use spectrum_core.LpStaking.NewSchedules.{assert_new_schedules}

abbrev pub Response : Type 0
Response = Store × List Transfer

-- `REWARD_INFOS.remove` where nothing is left of the entry, `save` otherwise.
abbrev pub store_reward_info : Addr → RewardInfo → Map Addr RewardInfo → Map Addr RewardInfo
store_reward_info sender reward_info infos =
    if reward_info.pending_reward == 0 && reward_info.bond_amount == 0
    then erase sender infos
    else insert sender reward_info infos

pub record InstantiateMsg : Type 0 where
  pub owner : ℕ
  pub reward_token : ℕ
  pub staking_token : ℕ
  pub distribution_schedule : List Schedule

unfoldable pub instantiate : Api → Env → InstantiateMsg → Result ContractError Store
instantiate api env msg = do
  owner ← map_err std (api msg.owner)
  reward_token ← map_err std (api msg.reward_token)
  staking_token ← map_err std (api msg.staking_token)
  let config : Config = record {
    owner = owner;
    reward_token = reward_token;
    staking_token = staking_token;
    distribution_schedule = msg.distribution_schedule;
  }
  let state : State = record {
    last_distributed = env.time;
    total_bond_amount = 0;
    global_reward_index = 0;
  }
  ok (record { config = config; state = state; reward_infos = []; ownership_proposal = none })

module _ ⦃m : Math⦄ where
  abbrev pub increase_bond_amount :
      State → RewardInfo → ℕ → Result ContractError (State × RewardInfo)
  increase_bond_amount state reward_info amount = do
    total_bond_amount ← add state.total_bond_amount amount
    bond_amount ← add reward_info.bond_amount amount
    ok (
      record state { total_bond_amount = total_bond_amount },
      record reward_info { bond_amount = bond_amount },
    )

  abbrev pub decrease_bond_amount : State → RewardInfo → ℕ → Result StdError (State × RewardInfo)
  decrease_bond_amount state reward_info amount = do
    total_bond_amount ← checked_sub state.total_bond_amount amount
    bond_amount ← checked_sub reward_info.bond_amount amount
    ok (
      record state { total_bond_amount = total_bond_amount },
      record reward_info { bond_amount = bond_amount },
    )

  -- `bond`; the message that calls it is `Cw20HookMsg::Bond`
  unfoldable pub bond_to : Api → Store → Env → ℕ → ℕ → Result ContractError Response
  bond_to api s env sender_addr amount = do
    sender_addr ← map_err std (api sender_addr)
    state ← compute_reward s.config s.state env.time
    reward_info ← map_err std (compute_staker_reward state (read_reward_info s sender_addr))
    (state', reward_info') ← increase_bond_amount state reward_info amount
    ok (
      record s { reward_infos = insert sender_addr reward_info' s.reward_infos; state = state' },
      [],
    )

  unfoldable pub receive_cw20 :
      Api → Store → Env → MessageInfo → Cw20ReceiveMsg → Result ContractError Response
  receive_cw20 api s env info cw20_msg = elim cw20_msg.msg [
    | none ↦ err invalid_message
    | some (bond staker_addr) ↦ do
      err_if (not (s.config.staking_token == info.sender)) unauthorized
      cw20_sender ← map_err std (api cw20_msg.sender)
      bond_to api s env (get_or staker_addr cw20_sender) cw20_msg.amount
  ]

  unfoldable pub unbond : Store → Env → MessageInfo → ℕ → Result ContractError Response
  unbond s env info amount = do
    let old = read_reward_info s info.sender
    err_if (ltb old.bond_amount amount) unbond_exceed_balance
    state ← compute_reward s.config s.state env.time
    reward_info ← map_err std (compute_staker_reward state old)
    (state', reward_info') ← map_err std (decrease_bond_amount state reward_info amount)
    ok (
      record s {
        reward_infos = store_reward_info info.sender reward_info' s.reward_infos;
        state = state';
      },
      record { token = s.config.staking_token; recipient = info.sender; amount = amount } ∷ [],
    )

  unfoldable pub withdraw : Store → Env → MessageInfo → Option ℕ → Result ContractError Response
  withdraw s env info spec_amount = do
    state ← compute_reward s.config s.state env.time
    reward_info ← map_err std (compute_staker_reward state (read_reward_info s info.sender))
    let amount = get_or spec_amount reward_info.pending_reward
    pending_reward ← map_err std (checked_sub reward_info.pending_reward amount)
    let reward_info' : RewardInfo = record reward_info { pending_reward = pending_reward }
    ok (
      record s {
        reward_infos = store_reward_info info.sender reward_info' s.reward_infos;
        state = state;
      },
      record { token = s.config.reward_token; recipient = info.sender; amount = amount } ∷ [],
    )

unfoldable pub update_config :
    Store → MessageInfo → Option (List Schedule) → Result ContractError Response
update_config s info distribution_schedule = do
  err_if (not (info.sender == s.config.owner)) unauthorized
  elim distribution_schedule [
    | none ↦ ok (s, [])
    | some schedules ↦ do
      assert_new_schedules s.config s.state schedules
      ok (record s { config = record s.config { distribution_schedule = schedules } }, [])
  ]

abbrev pub set_owner : Store → Addr → Result StdError Store
set_owner s new_owner = ok (record s { config = record s.config { owner = new_owner } })

-- A handler of the ownership as one of this contract: its error, and no message.
abbrev pub lift_ownership : Result StdError Store → Result ContractError Response
lift_ownership r = map_err std r >>= λ s. ok (s, [])

unfoldable pub execute :
    ⦃m : Math⦄ → Api → Store → Env → MessageInfo → ExecuteMsg → Result ContractError Response
execute api s env info (ExecuteMsg.receive msg) = receive_cw20 api s env info msg
execute api s env info (ExecuteMsg.unbond amount) = unbond s env info amount
execute api s env info (ExecuteMsg.withdraw amount) = withdraw s env info amount
execute api s env info (ExecuteMsg.update_config distribution_schedule) =
    update_config s info distribution_schedule
execute api s env info (ExecuteMsg.propose_new_owner owner expires_in) =
    lift_ownership
      (Ownership.propose_new_owner ownership_item api s env info owner expires_in s.config.owner)
execute api s env info ExecuteMsg.drop_ownership_proposal =
    lift_ownership (Ownership.drop_ownership_proposal ownership_item s info s.config.owner)
execute api s env info ExecuteMsg.claim_ownership =
    lift_ownership (Ownership.claim_ownership ownership_item s env info set_owner)
