-- ===== src/GeneratorProxy/Invariant/Staking.antt =====
-- The handlers of contracts/generator_proxy/src/staking.rs keep the invariant.
use spectrum_core.Base.{
  ℕ, ◌+◌, ◌-◌, ◌*◌, ◌≤◌, ◌≡◌, refl, true, false, Option, some, get_or, arith, ok, List,
}
use spectrum_core.Cosmwasm.Math.{math}
use spectrum_core.Cosmwasm.Std.{Addr, Env, MessageInfo}
use spectrum_core.Cosmwasm.Map.{ℕ_key, lookup, insert}
use spectrum_core.GeneratorProxy.{
  StakingState, StakerInfo, RewardInfo, Store, ContractError, Response, Message,
}
use spectrum_core.GeneratorProxy.Chain.{Chain, Lock, query_lock}
use spectrum_core.GeneratorProxy.Bond.{reward_at, save_reward}
use spectrum_core.GeneratorProxy.Staking.{
  create_staker, save_staker, reconcile_staker_income, reconcile_to_staker_info, reconcile_staker,
  add_income, update_staking, execute_stake, execute_claim_income, execute_withdraw_unstaked,
  execute_request_unstake, execute_relock, callback_after_staking_claimed,
  reconcile_staking_claim_by_others, lock_messages,
}
use spectrum_core.GeneratorProxy.Staking
use spectrum_core.GeneratorProxy.Invariant.{IsValid, staker_owed, unstaking_of}
use spectrum_core.GeneratorProxy.Invariant.Stakers.{
  staker_at, reconcile_staker-ok, reconciled_staker-owed, staker_saved-IsValid, astro_saved-other,
  astro_saved-at,
}

-- `update_staking` only moves what is unstaking to what is unstaked.
pub update_staking-ok :
    (st : StakingState) (r : StakerInfo) {r' : StakerInfo}
    → update_staking {E = ContractError} st r ≡ ok r'
    → (r'.bond_share ≡ r.bond_share)
      × (r'.pending_reward ≡ r.pending_reward)
      × (r'.reward_index ≡ r.reward_index)
      × (unstaking_of r' ≡ unstaking_of r)
unfolding update_staking
update_staking-ok st r h = ground arith

pub execute_claim_income-ok :
    (s : Store) (info : MessageInfo) {out : Response}
    → execute_claim_income s info ≡ ok out
    → (r : RewardInfo) × (lookup s.config.astro_token s.reward_info ≡ some r)
      × (u : StakerInfo) × (lookup info.sender s.staker_info ≡ some u)
      × (x : RewardInfo × StakingState × StakerInfo) × (reconcile_staker r s.staking_state u ≡ ok x)
      × (x.2.pending_reward ≤ x.0.reconciled_amount)
      × (out.0
          ≡ save_reward s.config.astro_token
              (record x.0 { reconciled_amount = x.0.reconciled_amount - x.2.pending_reward })
              (save_staker info.sender (record x.2 { pending_reward = 0 }) x.1 s))
unfolding execute_claim_income
execute_claim_income-ok s info h = ground arith

pub execute_stake-ok :
    (c : Chain) (s : Store) (env : Env) (info : MessageInfo) (a amount : ℕ) {out : Response}
    → execute_stake c s env info a amount ≡ ok out
    → (info.sender ≡ s.config.astro_gov.xastro_token)
      × (lock : Lock) × (query_lock c s.config.astro_gov env.contract ≡ ok lock)
      × (lock.amount + amount ≤ s.config.max_quota)
      × (messages : List Message) × (lock_messages c s env lock.amount lock.end amount
          ≡ ok messages)
      × (r : RewardInfo) × (lookup s.config.astro_token s.reward_info ≡ some r)
      × (x : RewardInfo × StakingState × StakerInfo) × (reconcile_staker r s.staking_state
            (staker_at a s)
          ≡ ok x)
      × (share : ℕ) × (Staking.calc_bond_share {E = ContractError} x.1 lock.amount amount false
          ≡ ok share)
      × (out.0
          ≡ save_reward s.config.astro_token x.0 (
              save_staker a
                (record x.2 { bond_share = x.2.bond_share + share })
                (record x.1 { total_bond_share = x.1.total_bond_share + share })
                s))
unfolding execute_stake
execute_stake-ok c s env info a amount h = ground arith

pub execute_request_unstake-ok :
    (c : Chain) (s : Store) (env : Env) (info : MessageInfo) (amount : ℕ) {out : Response}
    → execute_request_unstake c s env info amount ≡ ok out
    → (r : RewardInfo) × (lookup s.config.astro_token s.reward_info ≡ some r)
      × (u : StakerInfo) × (lookup info.sender s.staker_info ≡ some u)
      × (x : RewardInfo × StakingState × StakerInfo) × (reconcile_staker r s.staking_state u ≡ ok x)
      × (u' : StakerInfo) × (update_staking {E = ContractError} x.1 x.2 ≡ ok u')
      × (lock : Lock) × (query_lock c s.config.astro_gov env.contract ≡ ok lock)
      × (share : ℕ) × (Staking.calc_bond_share {E = ContractError} x.1 lock.amount amount true
          ≡ ok share)
      × (share ≤ u'.bond_share)
      × (share ≤ x.1.total_bond_share)
      × (out.0
          ≡ save_reward s.config.astro_token x.0 (
              save_staker info.sender
                (record u' {
                  bond_share = u'.bond_share - share;
                  unstaking_amount = u'.unstaking_amount + amount;
                })
                (record x.1 {
                  total_bond_share = x.1.total_bond_share - share;
                  total_unstaking_amount = x.1.total_unstaking_amount + amount;
                })
                s))
unfolding execute_request_unstake
execute_request_unstake-ok c s env info amount h = ground arith

pub execute_withdraw_unstaked-ok :
    (s : Store) (info : MessageInfo) (requested : Option ℕ) {out : Response}
    → execute_withdraw_unstaked s info requested ≡ ok out
    → (u : StakerInfo) × (lookup info.sender s.staker_info ≡ some u)
      × (u' : StakerInfo) × (update_staking {E = ContractError} s.staking_state u ≡ ok u')
      × (get_or requested u'.unstaked_amount ≤ u'.unstaked_amount)
      × (get_or requested u'.unstaked_amount ≤ s.staking_state.total_unstaked_amount)
      × (out.0
          ≡ save_staker info.sender
              (record u' {
                unstaked_amount = u'.unstaked_amount - get_or requested u'.unstaked_amount;
              })
              (record s.staking_state {
                total_unstaked_amount =
                    s.staking_state.total_unstaked_amount - get_or requested u'.unstaked_amount;
              })
              s)
unfolding execute_withdraw_unstaked
execute_withdraw_unstaked-ok s info requested h = ground arith

times_nothing : (n i : ℕ) → n * (i - i) ≡ 0
times_nothing n i = let e : i - i ≡ 0 = omega arith in rw e (omega arith)

-- A staker is reconciled, and then changed together with the state and the reward of ASTRO.
reconciled_saved-IsValid :
    (s : Store) (a : Addr) (r : RewardInfo) (x : RewardInfo × StakingState × StakerInfo)
    (r' : RewardInfo) (st' : StakingState) (u' : StakerInfo)
    → IsValid s
    → lookup s.config.astro_token s.reward_info ≡ some r
    → reconcile_staker r s.staking_state (staker_at a s) ≡ ok x
    → (r'.fee ≡ x.0.fee) × (r'.staker_income ≡ x.0.staker_income)
    → r'.reconciled_amount + x.2.pending_reward ≡ x.0.reconciled_amount + u'.pending_reward
    → (st'.reward_index ≡ x.1.reward_index) × (u'.reward_index ≡ x.2.reward_index)
    → st'.total_bond_share + x.2.bond_share ≡ x.1.total_bond_share + u'.bond_share
    → st'.total_unstaking_amount + st'.total_unstaked_amount + unstaking_of x.2
      ≡ x.1.total_unstaking_amount + x.1.total_unstaked_amount + unstaking_of u'
    → IsValid (save_reward s.config.astro_token r' (save_staker a u' st' s))
reconciled_saved-IsValid s a r x r' st' u' v found h (fee, income) paid (index, index') total unst =
    let (d, i, e, e', le, settled) = reconcile_staker-ok r s.staking_state (staker_at a s) h in
    let (at, share, unstaking, floor) = reconciled_staker-owed x.1 (staker_at a s) settled in
    let astro = s.config.astro_token in
    let before : reward_at astro s ≡ r = rw found in
    let after : reward_at astro (record s { reward_info = insert astro r' s.reward_info }) ≡ r' =
      rw (astro_saved-at astro r' s.reward_info) in
    let old_total : x.1.total_bond_share ≡ s.staking_state.total_bond_share = rw e' in
    let old_unstaking : x.1.total_unstaking_amount + x.1.total_unstaked_amount
        ≡ s.staking_state.total_unstaking_amount + s.staking_state.total_unstaked_amount =
      rw e' in
    let grown : x.1.reward_index ≡ s.staking_state.reward_index + d = rw e' in
    let fee' : r'.fee ≡ r.fee = rw (fee, e) in
    let income' : r'.staker_income ≡ i = rw (income, e) in
    let amount : x.0.reconciled_amount ≡ r.reconciled_amount = rw e in
    let nothing : u'.bond_share * (st'.reward_index - u'.reward_index) ≡ 0 =
      rw (index, index', at) (times_nothing u'.bond_share x.1.reward_index) in
    let owed : staker_owed st'.reward_index (staker_at a s)
        ≡ staker_owed x.1.reward_index (staker_at a s) =
      rw index in
    staker_saved-IsValid s (insert astro r' s.reward_info) st' a u' d v
      (astro_saved-other astro r' s.reward_info) (rw index grown)
      (rw (before, after) (omega (arith, le, floor, paid, amount, fee', income', nothing, owed)))
      (omega (arith, total, share, old_total)) (omega (arith, unst, unstaking, old_unstaking))

module _ (s : Store) (info : MessageInfo) where
  pub execute_claim_income-IsValid :
      {out : Response} → IsValid s → execute_claim_income s info ≡ ok out → IsValid out.0
  execute_claim_income-IsValid v h =
      let (r, found, u, known, x, settled, le, e) = execute_claim_income-ok s info h in
      let same : staker_at info.sender s ≡ u = rw known in
      rw e (
        reconciled_saved-IsValid s info.sender r x _ x.1 _ v found (rw same settled) (refl, refl)
          (omega arith) (refl, refl) refl refl)

  pub execute_stake-IsValid :
      (c : Chain) (env : Env) (a amount : ℕ) {out : Response}
      → IsValid s
      → execute_stake c s env info a amount ≡ ok out
      → IsValid out.0
  execute_stake-IsValid c env a amount v h =
      let (_, _, _, _, _, _, r, found, x, settled, share, _, e) =
        execute_stake-ok c s env info a amount h in
      rw e (
        reconciled_saved-IsValid s a r x x.0 _ _ v found settled (refl, refl) refl (refl, refl)
          (omega arith) refl)

  pub execute_request_unstake-IsValid :
      (c : Chain) (env : Env) (amount : ℕ) {out : Response}
      → IsValid s
      → execute_request_unstake c s env info amount ≡ ok out
      → IsValid out.0
  execute_request_unstake-IsValid c env amount v h =
      let (r, found, u, known, x, settled, u', updated, _, _, share, _, le, le', e) =
        execute_request_unstake-ok c s env info amount h in
      let same : staker_at info.sender s ≡ u = rw known in
      let (bond, pending, index, unstaking) = update_staking-ok x.1 x.2 updated in
      rw e (
        reconciled_saved-IsValid s info.sender r x x.0 _ _ v found (rw same settled) (refl, refl)
          (omega (arith, pending)) (refl, index) (omega (arith, bond)) (omega (arith, unstaking)))

  pub execute_withdraw_unstaked-IsValid :
      (requested : Option ℕ) {out : Response}
      → IsValid s
      → execute_withdraw_unstaked s info requested ≡ ok out
      → IsValid out.0
  execute_withdraw_unstaked-IsValid requested v h =
      let (u, known, u', updated, le, le', e) = execute_withdraw_unstaked-ok s info requested h in
      let same : staker_at info.sender s ≡ u = rw known in
      let (bond, pending, index, unstaking) = update_staking-ok s.staking_state u updated in
      rw e (
        staker_saved-IsValid s s.reward_info _ info.sender _ 0 v (λ t _. refl) (omega arith)
          (rw (same, bond, pending, index) (omega arith)) (rw (same, bond) refl)
          (rw same (omega (arith, unstaking, le, le'))))
