-- ===== src/GeneratorProxy/Staking.antt =====
-- contracts/generator_proxy/src/staking.rs and the stakers of model.rs: xASTRO is staked into a lock,
-- which ends and is made anew from time to time, and earns a part of the boosted rewards.
use spectrum_core.Base.{
  ℕ, min, ◌&&◌, ◌||◌, not, Bool, true, false, Option, List, [], ◌∷◌, ltb, leb, ◌==◌, if◌then◌else◌,
  get_or, Result, ok, ◌>>=◌, ◌>>◌, err_if, map_err, ok_or,
}
use spectrum_core.Cosmwasm.Math.{Math}
use spectrum_core.Cosmwasm.Std.{Addr, Env, MessageInfo, StdError, not_found}
use spectrum_core.Cosmwasm.Uint.{
  add, sub, multiply_ratio, from_ratio, mul_decimal, checked_sub_or, saturating_sub,
}
use spectrum_core.Cosmwasm.Map.{ℕ_key, lookup, insert}
use spectrum_core.Helper.{multiply_ratio_and_ceil}
use spectrum_core.GeneratorProxy.{
  Config, StakingState, StakerInfo, RewardInfo, ContractError, std, overflow, unauthorized,
  exceed_quota, Store, CallbackMsg, Message, callback, relock, Response,
}
use spectrum_core.GeneratorProxy.Chain.{
  Chain, query_lock, query_last_claim_period, calc_claim_amount, claim_msg, create_lock_msg,
  extend_lock_amount_msg, withdraw_msg,
}
use spectrum_core.GeneratorProxy.Bond.{transfer_msg, save_reward}

-- `StakerInfo::create`
abbrev pub create_staker : StakingState → StakerInfo
create_staker state = record {
  bond_share = 0;
  reward_index = state.reward_index;
  pending_reward = 0;
  unstaking_amount = 0;
  unstaked_amount = 0;
  unstaking_period = state.unstaking_period;
}

abbrev pub save_staker : Addr → StakerInfo → StakingState → Store → Store
save_staker a staker state s = record s {
  staker_info = insert a staker s.staker_info;
  staking_state = state;
}

module _ ⦃m : Math⦄ where
  module _ {E : Type 0} where
    unfoldable pub calc_bond_share : StakingState → ℕ → ℕ → Bool → Result E ℕ
    calc_bond_share state total_bond_amount amount ceiling =
        let total = saturating_sub total_bond_amount state.total_unstaking_amount in
        if state.total_bond_share == 0 || total == 0
        then ok amount
        else if ceiling
        then multiply_ratio_and_ceil amount state.total_bond_share total
        else multiply_ratio amount state.total_bond_share total

    unfoldable pub calc_bond_amount : StakingState → ℕ → ℕ → Result E ℕ
    calc_bond_amount state total_bond_amount share =
        let total = saturating_sub total_bond_amount state.total_unstaking_amount in
        if state.total_bond_share == 0
        then ok 0
        else multiply_ratio total share state.total_bond_share

    unfoldable pub update_staking : StakingState → StakerInfo → Result E StakerInfo
    update_staking state staker =
        if ltb staker.unstaking_period state.unstaking_period
        then (do
          unstaked_amount ← add staker.unstaked_amount staker.unstaking_amount
          ok (record staker {
            unstaked_amount = unstaked_amount;
            unstaking_amount = 0;
            unstaking_period = state.unstaking_period;
          }))
        else ok staker

  unfoldable pub reconcile_staker_income :
      RewardInfo → StakingState → Result StdError (RewardInfo × StakingState)
  reconcile_staker_income astro_reward state =
      if state.total_bond_share == 0 then ok (astro_reward, state) else (do
        income_per_share ← from_ratio astro_reward.staker_income state.total_bond_share
        reward_index ← add state.reward_index income_per_share
        ok (
          record astro_reward { staker_income = 0 },
          record state { reward_index = reward_index },
        ))

  unfoldable pub reconcile_to_staker_info : StakingState → StakerInfo → Result StdError StakerInfo
  reconcile_to_staker_info state staker = do
    grown ← sub state.reward_index staker.reward_index
    earned ← mul_decimal staker.bond_share grown
    pending_reward ← add staker.pending_reward earned
    ok (record staker { pending_reward = pending_reward; reward_index = state.reward_index })

  -- Both, as each message of a staker begins
  unfoldable pub reconcile_staker :
      RewardInfo
      → StakingState
      → StakerInfo
      → Result ContractError (RewardInfo × StakingState × StakerInfo)
  reconcile_staker astro_reward state staker = do
    (astro_reward', state') ← map_err std (reconcile_staker_income astro_reward state)
    staker' ← map_err std (reconcile_to_staker_info state' staker)
    ok (astro_reward', state', staker')

  -- `staker_income` and `reconciled_amount` grow, and the income reaches the index.
  unfoldable pub add_income :
      RewardInfo → StakingState → ℕ → Result StdError (RewardInfo × StakingState)
  add_income astro_reward state net_astro_amount = do
    staker_income ← add astro_reward.staker_income net_astro_amount
    reconciled_amount ← add astro_reward.reconciled_amount net_astro_amount
    reconcile_staker_income
        (record astro_reward {
          staker_income = staker_income;
          reconciled_amount = reconciled_amount;
        })
        state

  unfoldable pub execute_claim_income : Store → MessageInfo → Result ContractError Response
  execute_claim_income s info = do
    let astro = s.config.astro_token
    astro_reward ← ok_or (lookup astro s.reward_info) (std not_found)
    staker ← ok_or (lookup info.sender s.staker_info) (std not_found)
    (astro_reward', state, staker') ← reconcile_staker astro_reward s.staking_state staker
    let amount = staker'.pending_reward
    reconciled_amount ← checked_sub_or overflow astro_reward'.reconciled_amount amount
    ok (
      save_reward astro (record astro_reward' { reconciled_amount = reconciled_amount })
          (save_staker info.sender (record staker' { pending_reward = 0 }) state s),
      transfer_msg astro amount info.sender ∷ [],
    )

  unfoldable pub execute_withdraw_unstaked :
      Store → MessageInfo → Option ℕ → Result ContractError Response
  execute_withdraw_unstaked s info requested = do
    let state = s.staking_state
    found ← ok_or (lookup info.sender s.staker_info) (std not_found)
    staker ← update_staking state found
    let amount = get_or requested staker.unstaked_amount
    unstaked_amount ← checked_sub_or overflow staker.unstaked_amount amount
    total_unstaked_amount ← checked_sub_or overflow state.total_unstaked_amount amount
    ok (
      save_staker info.sender (record staker { unstaked_amount = unstaked_amount })
          (record state { total_unstaked_amount = total_unstaked_amount }) s,
      transfer_msg s.config.astro_gov.xastro_token amount info.sender ∷ [],
    )

  module _ (c : Chain) where
    -- The messages that put the staked amount into the lock
    unfoldable pub lock_messages : Store → Env → ℕ → ℕ → ℕ → Result StdError (List Message)
    lock_messages s env lock_amount lock_end amount =
        let gov = s.config.astro_gov in
        if lock_amount == 0 then ok (create_lock_msg gov amount c.week ∷ []) else (do
          period ← c.get_period env.time
          if leb lock_end period
              then ok (relock env.contract ∷ extend_lock_amount_msg gov amount ∷ [])
              else ok (extend_lock_amount_msg gov amount ∷ []))

    unfoldable pub execute_stake :
        Store → Env → MessageInfo → Addr → ℕ → Result ContractError Response
    execute_stake s env info staker_addr amount = do
      let config = s.config
      err_if (not (info.sender == config.astro_gov.xastro_token)) unauthorized
      lock ← map_err std (query_lock c config.astro_gov env.contract)
      locked ← add lock.amount amount
      err_if (ltb config.max_quota locked)
          (exceed_quota (saturating_sub config.max_quota lock.amount))
      messages ← map_err std (lock_messages s env lock.amount lock.end amount)
      astro_reward ← ok_or (lookup config.astro_token s.reward_info) (std not_found)
      let found = get_or (lookup staker_addr s.staker_info) (create_staker s.staking_state)
      (astro_reward', state, staker) ← reconcile_staker astro_reward s.staking_state found
      share ← calc_bond_share state lock.amount amount false
      bond_share ← add staker.bond_share share
      total_bond_share ← add state.total_bond_share share
      ok (
        save_reward config.astro_token astro_reward' (
            save_staker staker_addr (record staker { bond_share = bond_share })
              (record state { total_bond_share = total_bond_share }) s),
        messages,
      )

    unfoldable pub reconcile_staking_claim_by_others :
        Config → Env → RewardInfo → StakingState → Result StdError (RewardInfo × StakingState × ℕ)
    reconcile_staking_claim_by_others config env astro_reward state = do
      current_period ← query_last_claim_period c config.astro_gov env.contract
      target ←
          calc_claim_amount c config.astro_gov env.contract state.next_claim_period current_period
      astro_amount ← c.query_token_balance config.astro_token env.contract
      (astro_reward', state') ←
          add_income astro_reward (record state { next_claim_period = current_period })
            (min (saturating_sub astro_amount astro_reward.reconciled_amount) target)
      ok (astro_reward', state', astro_amount)

    unfoldable pub execute_relock : Store → Env → MessageInfo → Result ContractError Response
    execute_relock s env info = do
      let config = s.config
      let old = s.staking_state
      err_if (not (info.sender == config.controller) && not (info.sender == env.contract))
          unauthorized
      astro_reward ← ok_or (lookup config.astro_token s.reward_info) (std not_found)
      lock ← map_err std (query_lock c config.astro_gov env.contract)
      lock_amount ← checked_sub_or overflow lock.amount old.total_unstaking_amount
      total_unstaked_amount ← add old.total_unstaked_amount old.total_unstaking_amount
      period ← map_err std (c.get_period env.time)
      let state : StakingState = record old {
        total_unstaked_amount = total_unstaked_amount;
        total_unstaking_amount = 0;
        unstaking_period = period;
      }
      (astro_reward', state', prev_balance) ←
          map_err std (reconcile_staking_claim_by_others config env astro_reward state)
      ok (
        save_reward config.astro_token astro_reward' (record s { staking_state = state' }),
        claim_msg config.astro_gov
            ∷ callback env.contract (CallbackMsg.after_staking_claimed prev_balance)
            ∷ withdraw_msg config.astro_gov
            ∷ create_lock_msg config.astro_gov lock_amount c.week
            ∷ [],
      )

    unfoldable pub callback_after_staking_claimed : Store → Env → ℕ → Result ContractError Response
    callback_after_staking_claimed s env prev_balance = do
      let config = s.config
      astro_reward ← ok_or (lookup config.astro_token s.reward_info) (std not_found)
      current_period ← map_err std (query_last_claim_period c config.astro_gov env.contract)
      balance ← map_err std (c.query_token_balance config.astro_token env.contract)
      net_astro_amount ← checked_sub_or overflow balance prev_balance
      (astro_reward', state) ← map_err std (
          add_income astro_reward (record s.staking_state { next_claim_period = current_period })
            net_astro_amount)
      ok (save_reward config.astro_token astro_reward' (record s { staking_state = state }), [])

    unfoldable pub execute_request_unstake :
        Store → Env → MessageInfo → ℕ → Result ContractError Response
    execute_request_unstake s env info amount = do
      let config = s.config
      astro_reward ← ok_or (lookup config.astro_token s.reward_info) (std not_found)
      found ← ok_or (lookup info.sender s.staker_info) (std not_found)
      (astro_reward', state, reconciled) ← reconcile_staker astro_reward s.staking_state found
      staker ← update_staking state reconciled
      lock ← map_err std (query_lock c config.astro_gov env.contract)
      share ← calc_bond_share state lock.amount amount true
      bond_share ← checked_sub_or overflow staker.bond_share share
      unstaking_amount ← add staker.unstaking_amount amount
      total_bond_share ← checked_sub_or overflow state.total_bond_share share
      total_unstaking_amount ← add state.total_unstaking_amount amount
      ok (
        save_reward config.astro_token astro_reward' (
            save_staker info.sender
              (record staker { bond_share = bond_share; unstaking_amount = unstaking_amount })
              (record state {
                total_bond_share = total_bond_share;
                total_unstaking_amount = total_unstaking_amount;
              })
              s),
        [],
      )
