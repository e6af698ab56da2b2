-- ===== src/LpStaking/Settlement/Lemmas.antt =====
-- The laws of settling and unbonding at the documented arithmetic.
use spectrum_core.Base.{
  ℕ, ◌+◌, ◌-◌, ◌*◌, ◌≤◌, ◌<◌, ◌≡◌, refl, [], ◌∷◌, arith, ok, div_mono, scaled_add-le,
}
use native.Mathlib.Nat.{mul-le-mul_left}
use spectrum_core.Cosmwasm.Math.{math, decimal_one, u128_mod}
use spectrum_core.Cosmwasm.Std.{Env, MessageInfo}
use spectrum_core.LpStaking.{Config, State, RewardInfo, Store, ContractError, read_reward_info}
use spectrum_core.LpStaking.Rewards.{compute_reward, compute_staker_reward}
use spectrum_core.LpStaking.Rewards.Emission.{
  AllOrdered, AllRated, emissions, emissions_split, total_amount, reward_index_after,
  compute_reward-emissions, compute_reward-index,
}
use spectrum_core.LpStaking.Handlers.{unbond, store_reward_info}
use spectrum_core.LpStaking.Handlers.Invariant.{
  IsValid, compute_reward-ok, read_reward_info-IsValid,
}
use spectrum_core.LpStaking.Handlers.Liability.{earned}

earned_mono : (b i j : ℕ) → i ≤ j → earned b i ≤ earned b j
earned_mono b i j h = div_mono (b * i) (b * j) decimal_one (omega arith) (mul-le-mul_left b h)

pub compute_staker_reward_twice :
    (first second : State) (r : RewardInfo) {r' : RewardInfo}
    → r.reward_index ≤ first.global_reward_index
    → first.global_reward_index ≤ second.global_reward_index
    → compute_staker_reward first r ≡ ok r'
    → compute_staker_reward second r' ≡ compute_staker_reward second r
unfolding compute_staker_reward
compute_staker_reward_twice first second r p q h =
    let m = earned_mono r.bond_amount r.reward_index first.global_reward_index p in
    let n = earned_mono r.bond_amount first.global_reward_index second.global_reward_index q in
    ground arith

pub compute_reward_split :
    {E : Type 0} (config : Config) (state : State) (mid now : ℕ) {state1 state2 state3 : State}
    → AllOrdered config.distribution_schedule
    → state.last_distributed ≤ mid
    → mid ≤ now
    → compute_reward {E = E} config state mid ≡ ok state1
    → compute_reward {E = E} config state1 now ≡ ok state2
    → compute_reward {E = E} config state now ≡ ok state3
    → (state2.last_distributed ≡ state3.last_distributed)
      × (state2.total_bond_amount ≡ state3.total_bond_amount)
      × (state2.global_reward_index ≤ state3.global_reward_index)
compute_reward_split {E} config state mid now {state1} o h k c1 c2 c3 =
    let l = config.distribution_schedule in
    let d1 = compute_reward-ok {E = E} config state mid c1 in
    let d2 = compute_reward-ok {E = E} config state1 now c2 in
    let d3 = compute_reward-ok {E = E} config state now c3 in
    let i1 = compute_reward-index {E = E} config state mid o h c1 in
    let i2 = compute_reward-index {E = E} config state1 now o (omega arith) c2 in
    let i3 = compute_reward-index {E = E} config state now o (omega arith) c3 in
    (
      omega (arith, d2, d3),
      omega (arith, d1, d2, d3),
      rw (i3, i2, i1, d1.0, d1.1)
          (omega (
            arith,
            scaled_add-le (emissions l state.last_distributed mid) (emissions l mid now)
                (emissions l state.last_distributed now) decimal_one state.total_bond_amount
                (emissions_split l state.last_distributed mid now o h k),
          )),
    )

compute_reward_succeeds :
    {E : Type 0} (config : Config) (state : State) (now : ℕ)
    → AllOrdered config.distribution_schedule
    → AllRated config.distribution_schedule
    → total_amount config.distribution_schedule < u128_mod
    → state.last_distributed ≤ now
    → reward_index_after config state now < u128_mod
    → (state' : State) × (compute_reward {E = E} config state now ≡ ok state')
      × (state'.total_bond_amount ≡ state.total_bond_amount)
      × (state'.global_reward_index ≡ reward_index_after config state now)
compute_reward_succeeds {E} config state now o r t h f =
    let computed = compute_reward-emissions {E = E} config state now o r t h f in
    (
      _,
      computed,
      (compute_reward-ok {E = E} config state now computed).1,
      compute_reward-index {E = E} config state now o h computed,
    )

compute_staker_reward_succeeds :
    (state : State) (r : RewardInfo)
    → r.reward_index ≤ state.global_reward_index
    → r.pending_reward + earned r.bond_amount state.global_reward_index < u128_mod
    → (r' : RewardInfo) × (compute_staker_reward state r ≡ ok r') × (r'.bond_amount ≡ r.bond_amount)
unfolding compute_staker_reward
compute_staker_reward_succeeds state r p w =
    let m = earned_mono r.bond_amount r.reward_index state.global_reward_index p in
    (
      record r {
        reward_index = state.global_reward_index;
        pending_reward =
            r.pending_reward
            + (earned r.bond_amount state.global_reward_index
                - earned r.bond_amount r.reward_index);
      },
      ground arith,
      refl,
    )

-- An amount up to the staker's bond can always be unbonded, where the numbers fit.
pub unbond_succeeds :
    (s : Store) (env : Env) (info : MessageInfo) (amount : ℕ)
    → IsValid s
    → AllOrdered s.config.distribution_schedule
    → AllRated s.config.distribution_schedule
    → total_amount s.config.distribution_schedule < u128_mod
    → s.state.last_distributed ≤ env.time
    → reward_index_after s.config s.state env.time < u128_mod
    → (read_reward_info s info.sender).pending_reward
        + earned
            (read_reward_info s info.sender).bond_amount
            (reward_index_after s.config s.state env.time)
      < u128_mod
    → amount ≤ (read_reward_info s info.sender).bond_amount
    → (s' : Store) × (unbond s env info amount
        ≡ ok (
          s',
          record { token = s.config.staking_token; recipient = info.sender; amount = amount } ∷ [],
        ))
unfolding unbond
unbond_succeeds s env info amount v o r t h f w a =
    let old = read_reward_info s info.sender in
    let (p, b) = read_reward_info-IsValid s info.sender v in
    let (state, computed, total, index) =
      compute_reward_succeeds {E = ContractError} s.config s.state env.time o r t h f in
    let mono = (compute_reward-ok {E = ContractError} s.config s.state env.time computed).2 in
    let (r', settled, bond) = compute_staker_reward_succeeds state old (omega arith) (rw index w) in
    (
      record s {
        reward_infos =
            store_reward_info info.sender (record r' { bond_amount = r'.bond_amount - amount })
              s.reward_infos;
        state = record state { total_bond_amount = state.total_bond_amount - amount };
      },
      ground (arith, total, bond, computed, settled),
    )
