-- ===== src/GeneratorProxy/Invariant/Income.antt =====
-- Claiming the income of the lock in contracts/generator_proxy/src/staking.rs keeps the invariant.
use spectrum_core.Base.{ℕ, ◌+◌, ◌-◌, ◌*◌, ◌≤◌, ◌≡◌, refl, some, arith, ok, min}
use spectrum_core.Cosmwasm.Math.{math}
use spectrum_core.Cosmwasm.Std.{Env, MessageInfo}
use spectrum_core.Cosmwasm.Uint.{saturating_sub}
use spectrum_core.Cosmwasm.Map.{ℕ_key, lookup, insert}
use spectrum_core.Cosmwasm.Map.Sums.{sum_by}
use spectrum_core.GeneratorProxy.{StakingState, RewardInfo, Store, Response}
use spectrum_core.GeneratorProxy.Chain.{
  Chain, Lock, query_lock, query_last_claim_period, calc_claim_amount,
}
use spectrum_core.GeneratorProxy.Bond.{reward_at, save_reward}
use spectrum_core.GeneratorProxy.Staking.{
  reconcile_staker_income, add_income, execute_relock, callback_after_staking_claimed,
  reconcile_staking_claim_by_others,
}
use spectrum_core.GeneratorProxy.Invariant.{IsValid, staker_share}
use spectrum_core.GeneratorProxy.Invariant.Credit.{reconciled}
use spectrum_core.GeneratorProxy.Invariant.Stakers.{
  state_saved-IsValid, astro_saved-other, astro_saved-at, reconcile_staker_income-ok,
  stakers_owed-growth,
}

add_income-parts :
    (r : RewardInfo) (st : StakingState) (net : ℕ) {out : RewardInfo × StakingState}
    → add_income r st net ≡ ok out
    → reconcile_staker_income
        (record r {
          staker_income = r.staker_income + net;
          reconciled_amount = r.reconciled_amount + net;
        })
        st
      ≡ ok out
unfolding add_income
add_income-parts r st net h = ground arith

-- An income is added, and the state is saved.
income_saved-IsValid :
    (s : Store) (r : RewardInfo) (st : StakingState) (net : ℕ) {out : RewardInfo × StakingState}
    → IsValid s
    → lookup s.config.astro_token s.reward_info ≡ some r
    → add_income r st net ≡ ok out
    → st.reward_index ≡ s.staking_state.reward_index
    → st.total_bond_share ≡ s.staking_state.total_bond_share
    → st.total_unstaking_amount + st.total_unstaked_amount
      ≡ s.staking_state.total_unstaking_amount + s.staking_state.total_unstaked_amount
    → IsValid (save_reward s.config.astro_token out.0 (record s { staking_state = out.1 }))
income_saved-IsValid s r st net {out} v found h index total unstaking =
    let (d, i, left, le) = reconcile_staker_income-ok _ st (add_income-parts r st net h) in
    let astro = s.config.astro_token in
    let before : reward_at astro s ≡ r = rw found in
    let after : reward_at astro (record s { reward_info = insert astro out.0 s.reward_info })
        ≡ out.0 =
      rw (astro_saved-at astro out.0 s.reward_info) in
    let grown : out.1.reward_index ≡ s.staking_state.reward_index + d = rw (left, index) refl in
    let fee : out.0.fee ≡ r.fee = rw left in
    let income : out.0.staker_income ≡ i = rw left in
    let amount : out.0.reconciled_amount ≡ r.reconciled_amount + net = rw left in
    let total' : out.1.total_bond_share ≡ s.staking_state.total_bond_share = rw left total in
    let unstaking' : out.1.total_unstaking_amount + out.1.total_unstaked_amount
        ≡ s.staking_state.total_unstaking_amount + s.staking_state.total_unstaked_amount =
      rw left unstaking in
    let growth = stakers_owed-growth s.staker_info s.staking_state.reward_index d in
    let shares : d * st.total_bond_share ≡ d * sum_by staker_share s.staker_info =
      rw (total, v.staking_total) refl in
    state_saved-IsValid s (insert astro out.0 s.reward_info) out.1 s.staker_info v
      (astro_saved-other astro out.0 s.reward_info)
      (rw (before, after, grown) (omega (arith, le, growth, shares, fee, income, amount)))
      v.stakers_sorted (omega (arith, total', v.staking_total))
      (omega (arith, unstaking', v.unstaking_total))

module _ (c : Chain) (s : Store) (env : Env) where
  callback_after_staking_claimed-ok :
      (before : ℕ) {out : Response}
      → callback_after_staking_claimed c s env before ≡ ok out
      → (r : RewardInfo) × (lookup s.config.astro_token s.reward_info ≡ some r)
        × (period : ℕ) × (query_last_claim_period c s.config.astro_gov env.contract ≡ ok period)
        × (balance : ℕ) × (c.query_token_balance s.config.astro_token env.contract ≡ ok balance)
        × (x : RewardInfo × StakingState) × (add_income r
              (record s.staking_state { next_claim_period = period })
              (balance - before)
            ≡ ok x)
        × (out.0 ≡ save_reward s.config.astro_token x.0 (record s { staking_state = x.1 }))
  unfolding callback_after_staking_claimed
  callback_after_staking_claimed-ok before h = ground arith

  pub callback_after_staking_claimed-IsValid :
      (before : ℕ) {out : Response}
      → IsValid s
      → callback_after_staking_claimed c s env before ≡ ok out
      → IsValid out.0
  callback_after_staking_claimed-IsValid before v h =
      let (r, found, period, _, balance, _, x, added, e) =
        callback_after_staking_claimed-ok before h in
      rw e (
        income_saved-IsValid s r (record s.staking_state { next_claim_period = period })
          (balance - before) v found added refl refl refl)

  -- The amounts that are unstaking are unstaked by a relock.
  abbrev relocked : ℕ → StakingState
  relocked period = record s.staking_state {
    total_unstaked_amount =
        s.staking_state.total_unstaked_amount + s.staking_state.total_unstaking_amount;
    total_unstaking_amount = 0;
    unstaking_period = period;
  }

  reconcile_staking_claim_by_others-ok :
      (r : RewardInfo) (st : StakingState) {out : RewardInfo × StakingState × ℕ}
      → reconcile_staking_claim_by_others c s.config env r st ≡ ok out
      → (period : ℕ) × (query_last_claim_period c s.config.astro_gov env.contract ≡ ok period)
        × (target : ℕ) × (calc_claim_amount c s.config.astro_gov env.contract st.next_claim_period
              period
            ≡ ok target)
        × (balance : ℕ) × (c.query_token_balance s.config.astro_token env.contract ≡ ok balance)
        × (x : RewardInfo × StakingState) × (add_income r
              (record st { next_claim_period = period })
              (min (saturating_sub balance r.reconciled_amount) target)
            ≡ ok x)
        × (out.0 ≡ x.0)
        × (out.1 ≡ x.1)
  unfolding reconcile_staking_claim_by_others
  reconcile_staking_claim_by_others-ok r st h = ground arith

  execute_relock-ok :
      (info : MessageInfo) {out : Response}
      → execute_relock c s env info ≡ ok out
      → (r : RewardInfo) × (lookup s.config.astro_token s.reward_info ≡ some r)
        × (lock : Lock) × (query_lock c s.config.astro_gov env.contract ≡ ok lock)
        × (s.staking_state.total_unstaking_amount ≤ lock.amount)
        × (period : ℕ) × (c.get_period env.time ≡ ok period)
        × (x : RewardInfo × StakingState × ℕ) × (reconcile_staking_claim_by_others c s.config env r
              (relocked period)
            ≡ ok x)
        × (out.0 ≡ save_reward s.config.astro_token x.0 (record s { staking_state = x.1 }))
  unfolding execute_relock
  execute_relock-ok info h = ground arith

  pub execute_relock-IsValid :
      (info : MessageInfo) {out : Response}
      → IsValid s
      → execute_relock c s env info ≡ ok out
      → IsValid out.0
  execute_relock-IsValid info v h =
      let (r, found, _, _, _, period, _, x, reconciled, e) = execute_relock-ok info h in
      let (current, _, target, _, balance, _, y, added, f, g) =
        reconcile_staking_claim_by_others-ok r (relocked period) reconciled in
      rw (e, f, g)
        (income_saved-IsValid s r (record (relocked period) { next_claim_period = current })
          (min (saturating_sub balance r.reconciled_amount) target) v found added refl refl
          (omega arith))
