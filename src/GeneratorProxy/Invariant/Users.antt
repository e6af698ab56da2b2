-- ===== src/GeneratorProxy/Invariant/Users.antt =====
-- The callbacks of contracts/generator_proxy that change the entry of a user keep the invariant.
use spectrum_core.Base.{
  ℕ, ◌+◌, ◌-◌, ◌*◌, ◌≤◌, ◌≡◌, refl, sym, subst, true, false, Bool-cases, Option-cases, inl, inr,
  ◌⊎◌, some, ◌==◌, ==_iff, get_or, arith, ok, [], ◌∷◌,
}
use spectrum_core.Cosmwasm.Math.{math}
use spectrum_core.Cosmwasm.Std.{Addr, Env}
use spectrum_core.Cosmwasm.Map.{
  Map, ℕ_key, pair_key, lookup, insert, lookup-insert, insert-IsSorted,
}
use spectrum_core.Cosmwasm.Map.Keyed.{part_at, sum_at-insert}
use spectrum_core.GeneratorProxy.{
  Vector, PoolInfo, UserInfo, RewardInfo, Store, ContractError, Response,
}
use spectrum_core.GeneratorProxy.Vectors.{index_of, amount_of, IsRestricted}
use spectrum_core.GeneratorProxy.Pool.{create_user, reconcile_to_user_info}
use spectrum_core.GeneratorProxy.Pool
use spectrum_core.GeneratorProxy.Chain.{Chain}
use spectrum_core.GeneratorProxy.Bond.{
  reward_at, save_reward, save_pool, callback_deposit, callback_withdraw, pay_rewards,
  callback_claim_rewards,
}
use spectrum_core.GeneratorProxy.Invariant.{
  owed, owed_at, pool_at, users_owed, share_in, IsValid, reconciled-owed,
}
use spectrum_core.GeneratorProxy.Invariant.Credit.{set_aside, reconciled}
use spectrum_core.GeneratorProxy.Invariant.Pools.{pool_at-insert}

users_owed-same :
    (t : Addr) (pools pools' : Map Addr PoolInfo) (users : Map (Addr × Addr) UserInfo)
    → ((j : Addr) → (pool_at j pools').reward_indexes ≡ (pool_at j pools).reward_indexes)
    → users_owed t pools' users ≡ users_owed t pools users
users_owed-same t pools pools' [] same = refl
users_owed-same t pools pools' ((k, u) ∷ users) same =
    rw (same k.0, users_owed-same t pools pools' users same)

-- The entry of a user, or the one that is made
abbrev pub user_at : Addr → Addr → PoolInfo → Map (Addr × Addr) UserInfo → UserInfo
user_at lp a pool users = get_or (lookup (lp, a) users) (create_user pool)

module _ (lp a : Addr) (pool : PoolInfo) (users : Map (Addr × Addr) UserInfo) where
  user_at-owed :
      (t : Addr) (pools : Map Addr PoolInfo)
      → part_at (owed_at t pools) (lp, a) (lookup (lp, a) users)
        ≡ owed t (pool_at lp pools).reward_indexes (user_at lp a pool users)
  user_at-owed t pools = elim (Option-cases (lookup (lp, a) users)) [
    | inl e ↦ rw e (omega arith)
    | inr (u, e) ↦ rw e
  ]

  user_at-share :
      (j : Addr)
      → part_at (share_in j) (lp, a) (lookup (lp, a) users)
        ≡ share_in j (lp, a) (user_at lp a pool users)
  user_at-share j = elim (Option-cases (lookup (lp, a) users)) [
    | inl e ↦ rw e (ground arith)
    | inr (u, e) ↦ rw e
  ]

-- The entry of one user is replaced. The pools keep their indexes, the totals change as the shares
-- do, and what is reconciled changes by no less than what the user can claim.
user_saved-IsValid :
    (lp a : Addr) (pool : PoolInfo) (u' : UserInfo) (s : Store) (pools : Map Addr PoolInfo)
    (rewards : Map Addr RewardInfo)
    → IsValid s
    → ((j : Addr) → (pool_at j pools).reward_indexes ≡ (pool_at j s.pool_info).reward_indexes)
    → ((j : Addr)
        → (pool_at j pools).total_bond_share + share_in j (lp, a) (user_at lp a pool s.user_info)
          ≡ (pool_at j s.pool_info).total_bond_share + share_in j (lp, a) u')
    → ((t : Addr)
        → (set_aside t (record s { reward_info = rewards }) ≡ set_aside t s)
          × (reconciled t s + owed t (pool_at lp s.pool_info).reward_indexes u'
              ≤ reconciled t (record s { reward_info = rewards })
                + owed t (pool_at lp s.pool_info).reward_indexes (user_at lp a pool s.user_info)))
    → IsValid (record s {
      pool_info = pools;
      user_info = insert (lp, a) u' s.user_info;
      reward_info = rewards;
    })
user_saved-IsValid lp a pool u' s pools rewards v same total paid = record {
  users_sorted = insert-IsSorted (lp, a) u' s.user_info v.users_sorted;
  stakers_sorted = v.stakers_sorted;
  restricted = λ j. rw (same j) (v.restricted j);
  pool_total = λ j. omega (
    arith,
    total j,
    v.pool_total j,
    user_at-share lp a pool s.user_info j,
    sum_at-insert (share_in j) (lp, a) u' s.user_info v.users_sorted,
  );
  staking_total = v.staking_total;
  unstaking_total = v.unstaking_total;
  staker_rate = v.staker_rate;
  boost_fee = v.boost_fee;
  covered = λ t. omega (
    arith,
    v.covered t,
    paid t,
    user_at-owed lp a pool s.user_info t s.pool_info,
    users_owed-same t s.pool_info pools (insert (lp, a) u' s.user_info) same,
    sum_at-insert (owed_at t s.pool_info) (lp, a) u' s.user_info v.users_sorted,
  );
}

-- A pool is saved with the same indexes.
pool_saved-same :
    (lp : Addr) (p : PoolInfo) (pools : Map Addr PoolInfo)
    → p.reward_indexes ≡ (pool_at lp pools).reward_indexes
    → (j : Addr) → (pool_at j (insert lp p pools)).reward_indexes ≡ (pool_at j pools).reward_indexes
pool_saved-same lp p pools e j =
    let found = pool_at-insert lp j p pools in
    elim (Bool-cases (j == lp)) [
      | inl same ↦
          let q : j ≡ lp = (==_iff j lp).0 same in
          let e' : pool_at j (insert lp p pools) ≡ p = ground arith in rw (e', e, q)
      | inr other ↦ let e' : pool_at j (insert lp p pools) ≡ pool_at j pools = ground arith in rw e'
    ]

pool_saved-total :
    (lp a : Addr) (p : PoolInfo) (pools : Map Addr PoolInfo) (u u' : UserInfo)
    → p.total_bond_share + u.bond_share ≡ (pool_at lp pools).total_bond_share + u'.bond_share
    → (j : Addr)
    → (pool_at j (insert lp p pools)).total_bond_share + share_in j (lp, a) u
      ≡ (pool_at j pools).total_bond_share + share_in j (lp, a) u'
pool_saved-total lp a p pools u u' e j =
    let found = pool_at-insert lp j p pools in
    elim (Bool-cases (j == lp)) [
      | inl same ↦
          let q : j ≡ lp = (==_iff j lp).0 same in
          let e' : pool_at j (insert lp p pools) ≡ p = ground arith in
          let r : (lp == j) ≡ true = ground arith in rw (e', r, q) e
      | inr other ↦
          let e' : pool_at j (insert lp p pools) ≡ pool_at j pools = ground arith in
          let r : (lp == j) ≡ false = ground arith in rw (e', r)
    ]

times_nothing : (n i : ℕ) → n * (i - i) ≡ 0
times_nothing n i = let e : i - i ≡ 0 = omega arith in rw e (omega arith)

-- After a user is reconciled, the shares do not matter to what the user can claim.
settled-owed :
    (pool : PoolInfo) (u : UserInfo) {u' : UserInfo} (n : ℕ) (t : Addr)
    → reconcile_to_user_info pool u ≡ ok u'
    → IsRestricted pool.reward_indexes
    → owed t pool.reward_indexes (record u' { bond_share = n }) ≤ owed t pool.reward_indexes u
settled-owed pool u n t h r =
    let (e, _, le) = reconciled-owed pool u t h r in
    rw e (omega (arith, le, times_nothing n (index_of t pool.reward_indexes)))

module _ (c : Chain) (s : Store) (env : Env) (lp a amount : ℕ) where
  pub callback_deposit-ok :
      {out : Response}
      → callback_deposit c s env lp a amount ≡ ok out
      → (u' : UserInfo) × (reconcile_to_user_info
            (pool_at lp s.pool_info)
            (user_at lp a (pool_at lp s.pool_info) s.user_info)
          ≡ ok u')
        × (total : ℕ) × (c.query_deposit s.config.generator lp env.contract ≡ ok total)
        × (share : ℕ) × (Pool.calc_bond_share {E = ContractError}
              (pool_at lp s.pool_info)
              total
              amount
              false
            ≡ ok share)
        × (out.0
            ≡ save_pool lp
                (record (pool_at lp s.pool_info) {
                  total_bond_share = (pool_at lp s.pool_info).total_bond_share + share;
                })
                (record s {
                  user_info =
                      insert (lp, a) (record u' { bond_share = u'.bond_share + share }) s.user_info;
                }))
  unfolding callback_deposit
  callback_deposit-ok h = ground arith

  pub callback_withdraw-ok :
      {out : Response}
      → callback_withdraw c s env lp a amount ≡ ok out
      → (pool : PoolInfo) × (lookup lp s.pool_info ≡ some pool)
        × (u : UserInfo) × (lookup (lp, a) s.user_info ≡ some u)
        × (u' : UserInfo) × (reconcile_to_user_info pool u ≡ ok u')
        × (total : ℕ) × (c.query_deposit s.config.generator lp env.contract ≡ ok total)
        × (share : ℕ) × (Pool.calc_bond_share {E = ContractError} pool total amount true ≡ ok share)
        × (share ≤ u'.bond_share)
        × (share ≤ pool.total_bond_share)
        × (out.0
            ≡ save_pool lp
                (record pool { total_bond_share = pool.total_bond_share - share })
                (record s {
                  user_info =
                      insert (lp, a) (record u' { bond_share = u'.bond_share - share }) s.user_info;
                }))
  unfolding callback_withdraw
  callback_withdraw-ok h = ground arith

  -- A user's shares are changed after the user is reconciled.
  reshare_IsValid :
      (pool : PoolInfo) (u' : UserInfo) (n total : ℕ)
      → IsValid s
      → pool_at lp s.pool_info ≡ pool
      → reconcile_to_user_info pool (user_at lp a pool s.user_info) ≡ ok u'
      → total + u'.bond_share ≡ pool.total_bond_share + n
      → IsValid (
          save_pool lp
            (record pool { total_bond_share = total })
            (record s { user_info = insert (lp, a) (record u' { bond_share = n }) s.user_info }))
  reshare_IsValid pool u' n total v at h e =
      let u = user_at lp a pool s.user_info in
      let r : IsRestricted pool.reward_indexes = rw (sym at) (v.restricted lp) in
      let (_, share, _) = reconciled-owed pool u 0 h r in
      let p : PoolInfo = record pool { total_bond_share = total } in
      user_saved-IsValid lp a pool (record u' { bond_share = n }) s (insert lp p s.pool_info)
        s.reward_info v (pool_saved-same lp p s.pool_info (rw at))
        (pool_saved-total lp a p s.pool_info u (record u' { bond_share = n })
          (rw (at, sym share) e))
        (λ t. (refl, rw at (omega (arith, settled-owed pool u n t h r))))

  pub callback_deposit-IsValid :
      {out : Response} → IsValid s → callback_deposit c s env lp a amount ≡ ok out → IsValid out.0
  callback_deposit-IsValid v h =
      let (u', settled, _, _, share, _, e) = callback_deposit-ok h in
      rw e (reshare_IsValid (pool_at lp s.pool_info) u' _ _ v refl settled (omega arith))

  pub callback_withdraw-IsValid :
      {out : Response} → IsValid s → callback_withdraw c s env lp a amount ≡ ok out → IsValid out.0
  callback_withdraw-IsValid v h =
      let (pool, found, u, known, u', settled, _, _, share, _, le, le', e) =
        callback_withdraw-ok h in
      let same : user_at lp a pool s.user_info ≡ u = rw known in
      rw e (
        reshare_IsValid pool u' (u'.bond_share - share) (pool.total_bond_share - share) v (rw found)
          (rw same settled) (omega arith))

pay_rewards-step :
    (a t amount : ℕ) (rest : Vector) (s : Store) {out : Response}
    → pay_rewards a ((t, amount) ∷ rest) s ≡ ok out
    → ((amount ≡ 0) × (y : Response) × (pay_rewards a rest s ≡ ok y) × (out.0 ≡ y.0))
      ⊎ ((r : RewardInfo) × (lookup t s.reward_info ≡ some r)
          × (amount ≤ r.reconciled_amount)
          × (y : Response) × (pay_rewards a rest
                (save_reward t (record r { reconciled_amount = r.reconciled_amount - amount }) s)
              ≡ ok y)
          × (out.0 ≡ y.0))
unfolding pay_rewards
pay_rewards-step a t amount rest s h = ground arith

-- The amounts that are paid are taken off what is reconciled, and nothing else changes.
pub record Paid (l : Vector) (s s' : Store) : Type 0 where
  pub rewards : s' ≡ record s { reward_info = s'.reward_info }
  pub aside : (t : Addr) → set_aside t s' ≡ set_aside t s
  pub taken :
      (t : Addr)
      → (reward_at t s').reconciled_amount + amount_of t l ≡ (reward_at t s).reconciled_amount

pay_rewards-Paid :
    (a : Addr) (l : Vector) (s : Store) {out : Response}
    → pay_rewards a l s ≡ ok out
    → Paid l s out.0
unfolding pay_rewards
pay_rewards-Paid a [] s {out} h =
    let e : out ≡ (s, []) = ground arith in
    rw e (record { rewards = refl; aside = λ t. refl; taken = λ t. omega arith })
pay_rewards-Paid a ((t, amount) ∷ rest) s h = elim (pay_rewards-step a t amount rest s h) [
  | inl (zero, y, later, e) ↦
      let p = pay_rewards-Paid a rest s later in
      rw e (record { rewards = p.rewards; aside = p.aside; taken = λ j. ground (arith, p.taken j) })
  | inr (r, found, le, y, later, e) ↦
      let r' : RewardInfo = record r { reconciled_amount = r.reconciled_amount - amount } in
      let p = pay_rewards-Paid a rest (save_reward t r' s) later in
      rw e (record {
        rewards = p.rewards;
        aside = λ j. ground (arith, p.aside j, lookup-insert t j r' s.reward_info);
        taken = λ j. ground (arith, p.taken j, lookup-insert t j r' s.reward_info);
      })
]

module _ (s : Store) (lp a : ℕ) where
  pub callback_claim_rewards-ok :
      {out : Response}
      → callback_claim_rewards s lp a ≡ ok out
      → (u : UserInfo) × (lookup (lp, a) s.user_info ≡ some u)
        × (pool : PoolInfo) × (lookup lp s.pool_info ≡ some pool)
        × (u' : UserInfo) × (reconcile_to_user_info pool u ≡ ok u')
        × (y : Response) × (pay_rewards a u'.pending_rewards s ≡ ok y)
        × (out.0 ≡ record y.0 {
          user_info = insert (lp, a) (record u' { pending_rewards = [] }) y.0.user_info;
        })
        × (out.1 ≡ y.1)
  unfolding callback_claim_rewards
  callback_claim_rewards-ok h = ground arith

  pub callback_claim_rewards-IsValid :
      {out : Response} → IsValid s → callback_claim_rewards s lp a ≡ ok out → IsValid out.0
  callback_claim_rewards-IsValid v h =
      let (u, known, pool, found, u', settled, y, paid, e, _) = callback_claim_rewards-ok h in
      let at : pool_at lp s.pool_info ≡ pool = rw found in
      let same : user_at lp a pool s.user_info ≡ u = rw known in
      let r : IsRestricted pool.reward_indexes = rw (sym at) (v.restricted lp) in
      let p = pay_rewards-Paid a u'.pending_rewards s paid in
      let u'' : UserInfo = record u' { pending_rewards = [] } in
      let (i, share, _) = reconciled-owed pool u 0 settled r in
      rw e (
        subst (λ (x : Store). IsValid (record x { user_info = insert (lp, a) u'' x.user_info }))
          (sym p.rewards)
          (user_saved-IsValid lp a pool u'' s s.pool_info y.0.reward_info v (λ j. refl)
            (λ j. rw (same, share) refl)
            (λ t. (
              p.aside t,
              rw (at, same, i)
                  (omega (
                    arith,
                    p.taken t,
                    reconciled-owed pool u t settled r,
                    times_nothing u'.bond_share (index_of t pool.reward_indexes),
                  )),
            ))))
