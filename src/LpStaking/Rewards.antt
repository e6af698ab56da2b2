-- ===== src/LpStaking/Rewards.antt =====
-- contracts/lp_staking/src/contract.rs: what is distributed over time, and what of it a staker gets.
pub mod Emission
use spectrum_core.Base.{
  ℕ, ◌+◌, Bool, ◌||◌, List, [], ◌∷◌, min, max, ltb, ◌==◌, if◌then◌else◌, Result, ok, ◌>>=◌,
}
use spectrum_core.Cosmwasm.Math.{Math}
use spectrum_core.Cosmwasm.Std.{StdError}
use spectrum_core.Cosmwasm.Uint.{add, from_ratio, mul_decimal, checked_sub, sub_word}
use spectrum_core.LpStaking.{Schedule, Config, State, RewardInfo}

-- The test of `continue`: the entry does not meet the time from `last` to `now`.
abbrev pub is_outside : Schedule → ℕ → ℕ → Bool
is_outside s last now = ltb now s.start || ltb s.end last

module _ ⦃m : Math⦄ {E : Type 0} where
  -- The body of the loop, past `continue`: what the entry distributes from `last` to `now`.
  unfoldable pub distribution : Schedule → ℕ → ℕ → Result E ℕ
  distribution s last now = do
    passed_time ← sub_word (min s.end now) (max s.start last)
    time ← sub_word s.end s.start
    distribution_amount_per_second ← from_ratio s.amount time
    mul_decimal distribution_amount_per_second passed_time

  -- The loop of `compute_reward`, with `distributed_amount` as an argument.
  unfoldable pub distribute : List Schedule → ℕ → ℕ → ℕ → Result E ℕ
  distribute [] last now distributed_amount = ok distributed_amount
  distribute (s ∷ rest) last now distributed_amount =
      let next : Result E ℕ = (do
        amount ← distribution s last now
        distributed_amount' ← add distributed_amount amount
        distribute rest last now distributed_amount') in
      let skip = distribute rest last now distributed_amount in
      if is_outside s last now then skip else next

  unfoldable pub compute_reward : Config → State → ℕ → Result E State
  compute_reward config state now =
      if state.total_bond_amount == 0 then ok (record state { last_distributed = now }) else do
        distributed_amount ← distribute config.distribution_schedule state.last_distributed now 0
        index ← from_ratio distributed_amount state.total_bond_amount
        global_reward_index ← add state.global_reward_index index
        ok (record state { last_distributed = now; global_reward_index = global_reward_index })

unfoldable pub compute_staker_reward : ⦃m : Math⦄ → State → RewardInfo → Result StdError RewardInfo
compute_staker_reward state reward_info = do
  earned ← mul_decimal reward_info.bond_amount state.global_reward_index
  paid ← mul_decimal reward_info.bond_amount reward_info.reward_index
  pending_reward ← checked_sub earned paid
  pending_reward' ← add reward_info.pending_reward pending_reward
  ok (record reward_info {
    reward_index = state.global_reward_index;
    pending_reward = pending_reward';
  })
