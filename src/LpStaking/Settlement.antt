-- ===== src/LpStaking/Settlement.antt =====
-- What bonding in contracts/lp_staking comes to for a staker, under any arithmetic that follows its
-- documentation: the index over time, settlement, and unbonding.
mod Lemmas
use spectrum_core.Base.{
  ℕ, ◌+◌, ◌-◌, ◌≤◌, ◌<◌, ◌≡◌, ◌↔◌, List, [], ◌∷◌, ok, err, if◌then◌else◌, ◌==◌,
}
use spectrum_core.Cosmwasm.Math.{Math, IsMath, Math-eq, u128_mod}
use spectrum_core.Cosmwasm.Std.{Api, Env, MessageInfo}
use spectrum_core.LpStaking.{
  Config, State, RewardInfo, Store, ContractError, unbond_exceed_balance, read_reward_info,
  Transfer, ExecuteMsg,
}
use spectrum_core.LpStaking.Rewards.{compute_reward, compute_staker_reward}
use spectrum_core.LpStaking.Rewards.Emission
use spectrum_core.LpStaking.Rewards.Emission.{
  AllOrdered, AllRated, total_amount, reward_index_after,
}
use spectrum_core.LpStaking.Handlers.{unbond, execute}
use spectrum_core.LpStaking.Refusals
use spectrum_core.LpStaking.Handlers.Invariant.{IsValid}
use spectrum_core.LpStaking.Handlers.Liability.{earned}

module _ ⦃m : Math⦄ (lawful : IsMath m) where
  -- Where every entry of the schedule ends after it starts and has a rate that fits a `Decimal`, the
  -- amounts sum up below 2^128, time has not gone back and the new index fits, `compute_reward`
  -- does not fail: it stores the time, and adds to the index the sum of the entries' emissions since
  -- the last distribution, divided by the total bond (nothing where that is 0).
  pub compute_reward-emissions :
      {E : Type 0} (config : Config) (state : State) (now : ℕ)
      → AllOrdered config.distribution_schedule
      → AllRated config.distribution_schedule
      → total_amount config.distribution_schedule < u128_mod
      → state.last_distributed ≤ now
      → reward_index_after config state now < u128_mod
      → compute_reward {E = E} config state now
        ≡ ok (record state {
          last_distributed = now;
          global_reward_index =
              if state.total_bond_amount == 0
              then state.global_reward_index
              else reward_index_after config state now;
        })
  compute_reward-emissions {E} = rw (Math-eq m lawful) (Emission.compute_reward-emissions {E = E})

  -- To distribute at two times, one after the other, gives an index no greater than to distribute
  -- at the second time alone, and otherwise the same state.
  pub compute_reward_split :
      {E : Type 0} (config : Config) (state : State) (mid now : ℕ) (state1 state2 state3 : State)
      → AllOrdered config.distribution_schedule
      → state.last_distributed ≤ mid
      → mid ≤ now
      → compute_reward {E = E} config state mid ≡ ok state1
      → compute_reward {E = E} config state1 now ≡ ok state2
      → compute_reward {E = E} config state now ≡ ok state3
      → (state2.last_distributed ≡ state3.last_distributed)
        × (state2.total_bond_amount ≡ state3.total_bond_amount)
        × (state2.global_reward_index ≤ state3.global_reward_index)
  compute_reward_split {E} = rw (Math-eq m lawful) (λ config state mid now state1 state2 state3.
      Lemmas.compute_reward_split {E = E} config state mid now)

  -- To settle a staker at a first index and then at a second comes to the same as to settle at the
  -- second alone: how often a staker is settled does not change the reward.
  pub compute_staker_reward_twice :
      (first second : State) (r r' : RewardInfo)
      → r.reward_index ≤ first.global_reward_index
      → first.global_reward_index ≤ second.global_reward_index
      → compute_staker_reward first r ≡ ok r'
      → compute_staker_reward second r' ≡ compute_staker_reward second r
  compute_staker_reward_twice =
      rw (Math-eq m lawful) (λ first second r r'. Lemmas.compute_staker_reward_twice first second r)

  -- Of all messages, in any storage, exactly those that unbond more than the sender's bond are
  -- refused with `UnbondExceedBalance`.
  pub execute_exceeds_iff :
      (api : Api) (s : Store) (env : Env) (info : MessageInfo) (msg : ExecuteMsg)
      → (execute api s env info msg ≡ err unbond_exceed_balance) ↔ (
          (amount : ℕ) × (msg ≡ ExecuteMsg.unbond amount)
          × ((read_reward_info s info.sender).bond_amount < amount))
  execute_exceeds_iff = rw (Math-eq m lawful) Refusals.execute-exceeds_iff

  -- On a valid storage a staker can unbond any amount up to the bond, and is sent exactly that
  -- amount of the staking token, where the schedule and the numbers are as in
  -- `compute_reward-emissions` and what the staker has earned fits.
  pub unbond_succeeds :
      (s : Store) (env : Env) (info : MessageInfo) (amount : ℕ)
      → IsValid s
      → AllOrdered s.config.distribution_schedule
      → AllRated s.config.distribution_schedule
      → total_amount s.config.distribution_schedule < u128_mod
      → s.state.last_distributed ≤ env.time
      → reward_index_after s.config s.state env.time < u128_mod
      → (read_reward_info s info.sender).pending_reward
          + earned
              (read_reward_info s info.sender).bond_amount
              (reward_index_after s.config s.state env.time)
        < u128_mod
      → amount ≤ (read_reward_info s info.sender).bond_amount
      → (s' : Store) × (unbond s env info amount
          ≡ ok (
            s',
            record { token = s.config.staking_token; recipient = info.sender; amount = amount }
                ∷ [],
          ))
  unbond_succeeds = rw (Math-eq m lawful) Lemmas.unbond_succeeds
