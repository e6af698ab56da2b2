-- ===== src/GeneratorProxy/Quota.antt =====
-- The quota of the stakers of contracts/generator_proxy.
use spectrum_core.Base.{
  bind-never, ◌>>=◌, ok_or, false, bind-err, err_if, not, ◌==◌, inl, inr, ltb, ℕ, List, [], ◌∷◌,
  ◌+◌, ◌-◌, ◌≤◌, ◌<◌, ◌≡◌, ◌↔◌, ◌≢◌, arith, Result, ok, err, map_err,
}
use spectrum_core.Cosmwasm.Math.{math, u128_mod}
use spectrum_core.Cosmwasm.Std.{Env, MessageInfo, StdError, not_found}
use spectrum_core.Cosmwasm.Uint.{add, saturating_sub}
use spectrum_core.GeneratorProxy.{
  Store, StakingState, StakerInfo, RewardInfo, ContractError, unauthorized, std, exceed_quota,
  Message, create_lock, extend_lock_amount, Response,
}
use spectrum_core.GeneratorProxy.Chain.{Chain, Lock, query_lock}
use spectrum_core.GeneratorProxy.Staking
use spectrum_core.GeneratorProxy.Staking.{execute_stake, reconcile_staker, lock_messages}
use spectrum_core.GeneratorProxy.Invariant.Stakers.{staker_at}
use spectrum_core.Cosmwasm.Map.{lookup, ℕ_key}
use spectrum_core.GeneratorProxy.Invariant.Staking.{execute_stake-ok}

-- What messages add to the lock
abbrev pub locked_by : List Message → ℕ
locked_by [] = 0
locked_by (create_lock token contract amount time ∷ rest) = amount + locked_by rest
locked_by (extend_lock_amount token contract amount ∷ rest) = amount + locked_by rest
locked_by (_ ∷ rest) = locked_by rest

std-quota : {A : Type 0} (r : Result StdError A) (x : ℕ) → map_err std r ≢ err (exceed_quota x)
std-quota r x h = ground arith

reconcile_staker-quota :
    (r : RewardInfo) (state : StakingState) (u : StakerInfo) (x : ℕ)
    → reconcile_staker r state u ≢ err (exceed_quota x)
unfolding reconcile_staker
reconcile_staker-quota r state u x h = ground arith

calc_bond_share-quota :
    (state : StakingState) (total amount x : ℕ)
    → Staking.calc_bond_share {E = ContractError} state total amount false ≢ err (exceed_quota x)
unfolding Staking.calc_bond_share
calc_bond_share-quota state total amount x h = ground arith

lock_messages-locked :
    (c : Chain) (s : Store) (env : Env) (lock_amount lock_end amount : ℕ) {out : List Message}
    → lock_messages c s env lock_amount lock_end amount ≡ ok out
    → locked_by out ≡ amount
unfolding lock_messages
lock_messages-locked c s env lock_amount lock_end amount h = ground arith

execute_stake-messages :
    (c : Chain) (s : Store) (env : Env) (info : MessageInfo) (a amount : ℕ) {out : Response}
    → execute_stake c s env info a amount ≡ ok out
    → (lock : Lock) × (lock_messages c s env lock.amount lock.end amount ≡ ok out.1)
unfolding execute_stake
execute_stake-messages c s env info a amount h =
    let (_, lock, e, _, _, _, _, _, _, _, _, _, _) = execute_stake-ok c s env info a amount h in
    (lock, ground arith)

added :
    {A : Type 0} (a b d : ℕ) (f : ℕ → ℕ → A) {x : ℕ}
    → (add {E = ContractError} a b >>= λ y. add d b >>= λ z. ok (f y z)) ≢ err (exceed_quota x)
added a b d f h = ground arith

execute_stake-refused :
    (c : Chain) (s : Store) (env : Env) (info : MessageInfo) (a amount x : ℕ) (lock : Lock)
    → query_lock c s.config.astro_gov env.contract ≡ ok lock
    → execute_stake c s env info a amount ≡ err (exceed_quota x)
    → (info.sender ≡ s.config.astro_gov.xastro_token)
      × (s.config.max_quota < lock.amount + amount)
      × (lock.amount + amount < u128_mod)
      × (x ≡ s.config.max_quota - lock.amount)
unfolding execute_stake
execute_stake-refused c s env info a amount x lock asked h =
    elim (bind-err (err_if (not (info.sender == s.config.astro_gov.xastro_token)) unauthorized) _
      h) [
        | inl bad ↦ ground arith
        | inr (_, sender, h1) ↦
            elim (bind-err (map_err std (query_lock c s.config.astro_gov env.contract)) _ h1) [
              | inl bad ↦ absurd (std-quota _ x bad)
              | inr (l, e, h2) ↦
                  let same : l ≡ lock = ground arith in
                  elim (bind-err (add {E = ContractError} l.amount amount) _ h2) [
                    | inl bad ↦ ground arith
                    | inr (locked, sum, h3) ↦
                        elim (bind-err
                          (err_if (ltb s.config.max_quota locked)
                            (exceed_quota (saturating_sub s.config.max_quota l.amount)))
                          _ h3) [
                            | inl quota ↦ ground arith
                            | inr (_, _, h4) ↦ absurd (
                                bind-never
                                  (map_err std (lock_messages c s env l.amount l.end amount)) _
                                  (std-quota (lock_messages c s env l.amount l.end amount) x)
                                  (λ messages.
                                    bind-never
                                      (ok_or (lookup s.config.astro_token s.reward_info)
                                        (std not_found))
                                      _ (λ bad. ground arith)
                                      (λ r.
                                        bind-never
                                          (reconcile_staker r s.staking_state (staker_at a s)) _
                                          (reconcile_staker-quota r s.staking_state (staker_at a s)
                                            x)
                                          (λ y.
                                            bind-never
                                              (Staking.calc_bond_share y.1 l.amount amount false) _
                                              (calc_bond_share-quota y.1 l.amount amount x)
                                              (λ share.
                                                added y.2.bond_share share y.1.total_bond_share
                                                  _))))
                                  h4)
                          ]
                  ]
            ]
      ]

execute_stake-refuses :
    (c : Chain) (s : Store) (env : Env) (info : MessageInfo) (a amount : ℕ) (lock : Lock)
    → query_lock c s.config.astro_gov env.contract ≡ ok lock
    → info.sender ≡ s.config.astro_gov.xastro_token
    → s.config.max_quota < lock.amount + amount
    → lock.amount + amount < u128_mod
    → execute_stake c s env info a amount ≡ err (exceed_quota (s.config.max_quota - lock.amount))
unfolding execute_stake
execute_stake-refuses c s env info a amount lock asked sender over small = ground arith

pub execute_stake-quota :
    (c : Chain) (s : Store) (env : Env) (info : MessageInfo) (a amount : ℕ) (lock : Lock)
    → query_lock c s.config.astro_gov env.contract ≡ ok lock
    → ((x : ℕ)
        → (execute_stake c s env info a amount ≡ err (exceed_quota x)) ↔ (
            (info.sender ≡ s.config.astro_gov.xastro_token)
            × (s.config.max_quota < lock.amount + amount)
            × (lock.amount + amount < u128_mod)
            × (x ≡ s.config.max_quota - lock.amount)))
      × ((out : Response)
          → execute_stake c s env info a amount ≡ ok out
          → (locked_by out.1 ≡ amount) × (lock.amount + locked_by out.1 ≤ s.config.max_quota))
execute_stake-quota c s env info a amount lock asked = (
  λ x. (
    execute_stake-refused c s env info a amount x lock asked,
    λ (sender, over, small, left).
        rw left (execute_stake-refuses c s env info a amount lock asked sender over small),
  ),
  λ out h.
      let (_, l, e, le, _, _, _, _, _, _, _, _, _) = execute_stake-ok c s env info a amount h in
      let (l', sent) = execute_stake-messages c s env info a amount h in
      let locked = lock_messages-locked c s env l'.amount l'.end amount sent in
      let same : l.amount ≡ lock.amount = ground arith in (locked, omega (arith, le, same, locked)),
)
