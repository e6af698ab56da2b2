-- ===== src/GeneratorProxy/Invariant/Claims.antt =====
-- Claiming the rewards of a pool in contracts/generator_proxy keeps the invariant: what others have
-- claimed is credited before, and what was claimed after.
use spectrum_core.Base.{
  ℕ, ◌-◌, ◌≡◌, refl, sym, Bool, inl, inr, ◌⊎◌, Option, none, some, get_or, arith, ok, List, [], ◌∷◌,
}
use spectrum_core.Cosmwasm.Math.{math}
use spectrum_core.Cosmwasm.Std.{Addr, Api, Env, MessageInfo, StdError}
use spectrum_core.Cosmwasm.Uint.{sub, mul_decimal, saturating_sub, checked_sub_or}
use spectrum_core.Cosmwasm.Map.{ℕ_key, pair_key, lookup}
use spectrum_core.GeneratorProxy.{Vector, PoolInfo, Store, overflow, Response}
use spectrum_core.GeneratorProxy.Vectors.{IsRestricted}
use spectrum_core.GeneratorProxy.Pool.{hash_get}
use spectrum_core.GeneratorProxy.Chain.{Chain, UserInfoV2, query_user_info}
use spectrum_core.GeneratorProxy.Bond.{
  save_pool, net_amount_of, credit_astro, credit_token, reconcile_tokens, reconcile_pool,
  reconcile_claimed_by_others, reconcile_and_claim, claimed_astro, claimed_tokens,
  callback_after_bond_claimed, callback_after_bond_changed, execute_deposit, execute_withdraw,
  execute_claim_rewards,
}
use spectrum_core.GeneratorProxy.Invariant.{pool_at, IsValid}
use spectrum_core.GeneratorProxy.Invariant.Credit.{
  Credited, Credited-refl, Credited-trans, credit_astro-Credited, credit_token-Credited,
}
use spectrum_core.GeneratorProxy.Invariant.Pools.{save_pool-IsValid}

module _ (c : Chain) where
  reconcile_tokens-step :
      (a : Addr) (prev rest : Vector) (t debt : ℕ) (pool : PoolInfo) (s : Store)
      {out : PoolInfo × Store × Vector}
      → reconcile_tokens c a prev ((t, debt) ∷ rest) pool s ≡ ok out
      → (n : ℕ × ℕ) × (net_amount_of c a t (saturating_sub debt (get_or (hash_get t prev) 0)) s
          ≡ ok n)
        × (x : PoolInfo × Store) × (credit_token t n.1 pool s ≡ ok x)
        × (y : PoolInfo × Store × Vector) × (reconcile_tokens c a prev rest x.0 x.1 ≡ ok y)
        × (out.0 ≡ y.0)
        × (out.1 ≡ y.1)
  unfolding reconcile_tokens
  reconcile_tokens-step a prev rest t debt pool s h = ground arith

  reconcile_tokens-Credited :
      (a : Addr) (prev debts : Vector) (pool : PoolInfo) (s : Store)
      {out : PoolInfo × Store × Vector}
      → IsRestricted pool.reward_indexes
      → reconcile_tokens c a prev debts pool s ≡ ok out
      → Credited pool s out.0 out.1
  unfolding reconcile_tokens
  reconcile_tokens-Credited a prev [] pool s {out} u h =
      let e : out ≡ (pool, s, []) = ground arith in rw e (Credited-refl pool s u)
  reconcile_tokens-Credited a prev ((t, debt) ∷ rest) pool s u h =
      let (n, _, x, credited, y, later, e, f) = reconcile_tokens-step a prev rest t debt pool s h in
      let first = credit_token-Credited t n.1 pool s u credited in
      let others = reconcile_tokens-Credited a prev rest x.0 x.1 first.restricted later in
      rw (e, f) (Credited-trans pool s x.0 x.1 y.0 y.1 first others)

  reconcile_pool-ok :
      (env : Env) (lp : Addr) (i : UserInfoV2) (pool : PoolInfo) (s : Store)
      {out : Store × Bool × Vector}
      → reconcile_pool c env lp i pool s ≡ ok out
      → (growth : ℕ) × (sub {E = StdError} i.reward_user_index pool.prev_reward_user_index
          ≡ ok growth)
        × (target : ℕ) × (mul_decimal {E = StdError} i.virtual_amount growth ≡ ok target)
        × (n : ℕ × ℕ) × (net_amount_of c env.contract s.config.astro_token target s ≡ ok n)
        × (x : PoolInfo × Store) × (credit_astro i n.1 pool s ≡ ok x)
        × (y : PoolInfo × Store × Vector) × (reconcile_tokens c env.contract
              pool.prev_reward_debt_proxy i.reward_debt_proxy x.0 x.1
            ≡ ok y)
        × (out.0
            ≡ save_pool lp
                (record y.0 {
                  prev_reward_user_index = i.reward_user_index;
                  prev_reward_debt_proxy = i.reward_debt_proxy;
                })
                y.1)
  unfolding reconcile_pool
  reconcile_pool-ok env lp i pool s h = ground arith

  reconcile_pool-IsValid :
      (env : Env) (lp : Addr) (i : UserInfoV2) (pool : PoolInfo) (s : Store)
      {out : Store × Bool × Vector}
      → IsValid s
      → lookup lp s.pool_info ≡ some pool
      → reconcile_pool c env lp i pool s ≡ ok out
      → IsValid out.0
  reconcile_pool-IsValid env lp i pool s v found h =
      let (_, _, _, _, n, _, x, astro, y, tokens, e) = reconcile_pool-ok env lp i pool s h in
      let at : pool_at lp s.pool_info ≡ pool = rw found in
      let u : IsRestricted pool.reward_indexes = rw (sym at) (v.restricted lp) in
      let first = credit_astro-Credited i n.1 pool s u astro in
      let others =
        reconcile_tokens-Credited env.contract pool.prev_reward_debt_proxy i.reward_debt_proxy x.0
          x.1 first.restricted tokens in
      rw e (
        save_pool-IsValid lp pool y.0 _ s y.1 v at
          (Credited-trans pool s x.0 x.1 y.0 y.1 first others) refl refl)

  -- Either the storage is as before, or the pool is reconciled.
  reconcile_claimed_by_others-cases :
      (s : Store) (env : Env) (lp : Addr) (i : UserInfoV2) {out : Store × Bool × Vector}
      → reconcile_claimed_by_others c s env lp i ≡ ok out
      → (out.0 ≡ s)
        ⊎ ((pool : PoolInfo) × (lookup lp s.pool_info ≡ some pool)
            × (reconcile_pool c env lp i pool s ≡ ok out))
  unfolding reconcile_claimed_by_others
  reconcile_claimed_by_others-cases s env lp i h = ground arith

  reconcile_and_claim-ok :
      (s : Store) (env : Env) (lp : Addr) (i : UserInfoV2) {out : Response}
      → reconcile_and_claim c s env lp i ≡ ok out
      → (x : Store × Bool × Vector) × (reconcile_claimed_by_others c s env lp i ≡ ok x)
        × (out.0 ≡ x.0)
  unfolding reconcile_and_claim
  reconcile_and_claim-ok s env lp i h = ground arith

  pub reconcile_and_claim-IsValid :
      (s : Store) (env : Env) (lp : Addr) (i : UserInfoV2) {out : Response}
      → IsValid s
      → reconcile_and_claim c s env lp i ≡ ok out
      → IsValid out.0
  reconcile_and_claim-IsValid s env lp i v h =
      let (x, r, e) = reconcile_and_claim-ok s env lp i h in
      rw e (elim (reconcile_claimed_by_others-cases s env lp i r) [
        | inl same ↦ rw same v
        | inr (pool, found, left) ↦ reconcile_pool-IsValid env lp i pool s v found left
      ])

  execute_deposit-cases :
      (s : Store) (env : Env) (info : MessageInfo) (staker amount : ℕ) {out : Response}
      → execute_deposit c s env info staker amount ≡ ok out
      → (out.0 ≡ s)
        ⊎ ((i : UserInfoV2) × (query_user_info c s.config.generator info.sender env.contract
              ≡ ok (some i))
            × (x : Response) × (reconcile_and_claim c s env info.sender i ≡ ok x)
            × (out.0 ≡ x.0))
  unfolding execute_deposit
  execute_deposit-cases s env info staker amount h = ground arith

  pub execute_deposit-IsValid :
      (s : Store) (env : Env) (info : MessageInfo) (staker amount : ℕ) {out : Response}
      → IsValid s
      → execute_deposit c s env info staker amount ≡ ok out
      → IsValid out.0
  execute_deposit-IsValid s env info staker amount v h =
      elim (execute_deposit-cases s env info staker amount h) [
        | inl same ↦ rw same v
        | inr (i, _, x, claimed, e) ↦
            rw e (reconcile_and_claim-IsValid s env info.sender i v claimed)
      ]

  execute_withdraw-ok :
      (api : Api) (s : Store) (env : Env) (info : MessageInfo) (lp amount : ℕ) {out : Response}
      → execute_withdraw c api s env info lp amount ≡ ok out
      → (lp' : Addr) × (api lp ≡ ok lp')
        × (i : UserInfoV2) × (query_user_info c s.config.generator lp' env.contract ≡ ok (some i))
        × (x : Response) × (reconcile_and_claim c s env lp' i ≡ ok x)
        × (out.0 ≡ x.0)
  unfolding execute_withdraw
  execute_withdraw-ok api s env info lp amount h = ground arith

  pub execute_withdraw-IsValid :
      (api : Api) (s : Store) (env : Env) (info : MessageInfo) (lp amount : ℕ) {out : Response}
      → IsValid s
      → execute_withdraw c api s env info lp amount ≡ ok out
      → IsValid out.0
  execute_withdraw-IsValid api s env info lp amount v h =
      let (lp', _, i, _, x, claimed, e) = execute_withdraw-ok api s env info lp amount h in
      rw e (reconcile_and_claim-IsValid s env lp' i v claimed)

  execute_claim_rewards-step :
      (api : Api) (s : Store) (env : Env) (info : MessageInfo) (lp : ℕ) (rest : List ℕ)
      {out : Response}
      → execute_claim_rewards c api s env info (lp ∷ rest) ≡ ok out
      → (lp' : Addr) × (api lp ≡ ok lp')
        × (i : UserInfoV2) × (query_user_info c s.config.generator lp' env.contract ≡ ok (some i))
        × (x : Response) × (reconcile_and_claim c s env lp' i ≡ ok x)
        × (y : Response) × (execute_claim_rewards c api x.0 env info rest ≡ ok y)
        × (out.0 ≡ y.0)
  unfolding execute_claim_rewards
  execute_claim_rewards-step api s env info lp rest h = ground arith

  pub execute_claim_rewards-IsValid :
      (api : Api) (s : Store) (env : Env) (info : MessageInfo) (lps : List ℕ) {out : Response}
      → IsValid s
      → execute_claim_rewards c api s env info lps ≡ ok out
      → IsValid out.0
  unfolding execute_claim_rewards
  execute_claim_rewards-IsValid api s env info [] {out} v h =
      let e : out ≡ (s, []) = ground arith in rw e v
  execute_claim_rewards-IsValid api s env info (lp ∷ rest) v h =
      let (lp', _, i, _, x, claimed, y, later, e) =
        execute_claim_rewards-step api s env info lp rest h in
      rw e (
        execute_claim_rewards-IsValid api x.0 env info rest
          (reconcile_and_claim-IsValid s env lp' i v claimed) later)

  claimed_tokens-step :
      (a : Addr) (prev rest : Vector) (t debt : ℕ) (pool : PoolInfo) (s : Store)
      {out : PoolInfo × Store}
      → claimed_tokens c a prev ((t, debt) ∷ rest) pool s ≡ ok out
      → (claimed_tokens c a prev rest pool s ≡ ok out)
        ⊎ ((before : ℕ) × (hash_get t prev ≡ some before)
            × (now : ℕ) × (c.query_token_balance t a ≡ ok now)
            × (net : ℕ) × (checked_sub_or overflow now before ≡ ok net)
            × (x : PoolInfo × Store) × (credit_token t net pool s ≡ ok x)
            × (claimed_tokens c a prev rest x.0 x.1 ≡ ok out))
  unfolding claimed_tokens
  claimed_tokens-step a prev rest t debt pool s h = ground arith

  claimed_tokens-Credited :
      (a : Addr) (prev debts : Vector) (pool : PoolInfo) (s : Store) {out : PoolInfo × Store}
      → IsRestricted pool.reward_indexes
      → claimed_tokens c a prev debts pool s ≡ ok out
      → Credited pool s out.0 out.1
  unfolding claimed_tokens
  claimed_tokens-Credited a prev [] pool s {out} u h =
      let e : out ≡ (pool, s) = ground arith in rw e (Credited-refl pool s u)
  claimed_tokens-Credited a prev ((t, debt) ∷ rest) pool s {out} u h =
      elim (claimed_tokens-step a prev rest t debt pool s h) [
        | inl later ↦ claimed_tokens-Credited a prev rest pool s u later
        | inr (_, _, _, _, net, _, x, credited, later) ↦
            let first = credit_token-Credited t net pool s u credited in
            let others = claimed_tokens-Credited a prev rest x.0 x.1 first.restricted later in
            Credited-trans pool s x.0 x.1 out.0 out.1 first others
      ]

  claimed_astro-Credited :
      (i : UserInfoV2) (pool : PoolInfo) (s : Store) (now : ℕ) (before : Option ℕ)
      {out : PoolInfo × Store}
      → IsRestricted pool.reward_indexes
      → claimed_astro i now before pool s ≡ ok out
      → Credited pool s out.0 out.1
  unfolding claimed_astro
  claimed_astro-Credited i pool s now none {out} u h =
      let e : out ≡ (pool, s) = ground arith in rw e (Credited-refl pool s u)
  claimed_astro-Credited i pool s now (some before) {out} u h =
      let credited : credit_astro i (now - before) pool s ≡ ok out = ground arith in
      credit_astro-Credited i (now - before) pool s u credited

  callback_after_bond_claimed-ok :
      (s : Store) (env : Env) (lp : Addr) (prev : Vector) {out : Response}
      → callback_after_bond_claimed c s env lp prev ≡ ok out
      → (pool : PoolInfo) × (lookup lp s.pool_info ≡ some pool)
        × (i : UserInfoV2) × (query_user_info c s.config.generator lp env.contract ≡ ok (some i))
        × (now : ℕ) × (c.query_token_balance s.config.astro_token env.contract ≡ ok now)
        × (x : PoolInfo × Store) × (claimed_astro i now (hash_get s.config.astro_token prev) pool s
            ≡ ok x)
        × (y : PoolInfo × Store) × (claimed_tokens c env.contract prev i.reward_debt_proxy x.0 x.1
            ≡ ok y)
        × (out.0
            ≡ save_pool lp
                (record y.0 {
                  prev_reward_user_index = i.reward_user_index;
                  prev_reward_debt_proxy = i.reward_debt_proxy;
                  last_reconcile = env.height;
                })
                y.1)
  unfolding callback_after_bond_claimed
  callback_after_bond_claimed-ok s env lp prev h = ground arith

  pub callback_after_bond_claimed-IsValid :
      (s : Store) (env : Env) (lp : Addr) (prev : Vector) {out : Response}
      → IsValid s
      → callback_after_bond_claimed c s env lp prev ≡ ok out
      → IsValid out.0
  callback_after_bond_claimed-IsValid s env lp prev v h =
      let (pool, found, i, _, now, _, x, astro, y, tokens, e) =
        callback_after_bond_claimed-ok s env lp prev h in
      let at : pool_at lp s.pool_info ≡ pool = rw found in
      let u : IsRestricted pool.reward_indexes = rw (sym at) (v.restricted lp) in
      let first =
        claimed_astro-Credited i pool s now (hash_get s.config.astro_token prev) u astro in
      let others =
        claimed_tokens-Credited env.contract prev i.reward_debt_proxy x.0 x.1 first.restricted
          tokens in
      rw e (
        save_pool-IsValid lp pool y.0 _ s y.1 v at
          (Credited-trans pool s x.0 x.1 y.0 y.1 first others) refl refl)

  callback_after_bond_changed-cases :
      (s : Store) (env : Env) (lp : Addr) {out : Response}
      → callback_after_bond_changed c s env lp ≡ ok out
      → (out.0 ≡ s)
        ⊎ ((i : UserInfoV2) × (query_user_info c s.config.generator lp env.contract ≡ ok (some i))
            × (pool : PoolInfo) × (lookup lp s.pool_info ≡ some pool)
            × (out.0
                ≡ save_pool lp
                    (record pool {
                      prev_reward_user_index = i.reward_user_index;
                      prev_reward_debt_proxy = i.reward_debt_proxy;
                    })
                    s))
  unfolding callback_after_bond_changed
  callback_after_bond_changed-cases s env lp h = ground arith

  pub callback_after_bond_changed-IsValid :
      (s : Store) (env : Env) (lp : Addr) {out : Response}
      → IsValid s
      → callback_after_bond_changed c s env lp ≡ ok out
      → IsValid out.0
  callback_after_bond_changed-IsValid s env lp v h =
      elim (callback_after_bond_changed-cases s env lp h) [
        | inl same ↦ rw same v
        | inr (i, _, pool, found, e) ↦
            let at : pool_at lp s.pool_info ≡ pool = rw found in
            let u : IsRestricted pool.reward_indexes = rw (sym at) (v.restricted lp) in
            rw e (save_pool-IsValid lp pool pool _ s s v at (Credited-refl pool s u) refl refl)
      ]
