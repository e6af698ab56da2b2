-- ===== src/GeneratorProxy/Invariant/Pools.antt =====
-- The handlers of contracts/generator_proxy that credit the rewards of a pool keep the invariant.
use spectrum_core.Base.{
  ℕ, ◌+◌, ◌-◌, ◌*◌, ◌≤◌, ◌≡◌, sym, ap, subst, Bool-cases, inl, inr, ◌==◌, ==_iff, if◌then◌else◌,
  arith,
}
use native.Mathlib.Nat.{mul-le-mul_left}
use spectrum_core.Cosmwasm.Math.{math}
use spectrum_core.Cosmwasm.Std.{Addr}
use spectrum_core.Cosmwasm.Map.{Map, ℕ_key, pair_key, insert, lookup-insert}
use spectrum_core.Cosmwasm.Map.Keyed.{sum_at-le, sum_at-scale}
use spectrum_core.GeneratorProxy.{Vector, PoolInfo, UserInfo, Store}
use spectrum_core.GeneratorProxy.Vectors.{index_of}
use spectrum_core.GeneratorProxy.Bond.{save_pool}
use spectrum_core.GeneratorProxy.Invariant.{
  owed, owed_at, pool_at, users_owed, share_in, shares_of, IsValid,
}
use spectrum_core.GeneratorProxy.Invariant.Credit.{Credited}

pub pool_at-insert :
    (lp j : Addr) (p : PoolInfo) (pools : Map Addr PoolInfo)
    → pool_at j (insert lp p pools) ≡ (if j == lp then p else pool_at j pools)
pool_at-insert lp j p pools = ground (arith, lookup-insert lp j p pools)

pub growth_le : (share i j d : ℕ) → share * (i + d - j) ≤ share * (i - j) + d * share
growth_le share i j d =
    let le : i + d - j ≤ i - j + d = omega arith in omega (arith, mul-le-mul_left share le)

-- When the index of a pool grows, its users can claim more, each for the own shares.
owed-growth :
    (t : Addr) (indexes indexes' : Vector) (u : UserInfo) (d : ℕ)
    → index_of t indexes' ≡ index_of t indexes + d
    → owed t indexes' u ≤ owed t indexes u + d * u.bond_share
owed-growth t indexes indexes' u d e =
    rw e
      (omega (arith, growth_le u.bond_share (index_of t indexes) (index_of t u.reward_indexes) d))

users_owed-growth :
    (t lp d : Addr) (p : PoolInfo) (pools : Map Addr PoolInfo) (users : Map (Addr × Addr) UserInfo)
    → index_of t p.reward_indexes ≡ index_of t (pool_at lp pools).reward_indexes + d
    → users_owed t (insert lp p pools) users ≤ users_owed t pools users + d * shares_of lp users
users_owed-growth t lp d p pools users e =
    subst (λ x. users_owed t (insert lp p pools) users ≤ users_owed t pools users + x)
      (sum_at-scale (share_in lp) d users)
      (sum_at-le (owed_at t (insert lp p pools)) (owed_at t pools) (λ k u. d * share_in lp k u)
        users
        (λ k u.
          let here = owed-growth t (pool_at lp pools).reward_indexes p.reward_indexes u d e in
          let found = pool_at-insert lp k.0 p pools in
          elim (Bool-cases (k.0 == lp)) [
            | inl same ↦
                let q : k.0 ≡ lp = (==_iff k.0 lp).0 same in
                let e' : pool_at k.0 (insert lp p pools) ≡ p = ground arith in rw (e', same, q) here
            | inr other ↦
                let e' : pool_at k.0 (insert lp p pools) ≡ pool_at k.0 pools = ground arith in
                rw (e', other) (omega arith)
          ]))

-- A pool is saved after its rewards were credited.
pub save_pool-IsValid :
    (lp : Addr) (pool pool' pool'' : PoolInfo) (s s' : Store)
    → IsValid s
    → pool_at lp s.pool_info ≡ pool
    → Credited pool s pool' s'
    → pool''.total_bond_share ≡ pool'.total_bond_share
    → pool''.reward_indexes ≡ pool'.reward_indexes
    → IsValid (save_pool lp pool'' s')
save_pool-IsValid lp pool pool' pool'' s s' v at c same_total same_indexes =
    let found = λ (j : Addr). pool_at-insert lp j pool'' s.pool_info in
    subst (λ x. IsValid (save_pool lp pool'' x)) (sym c.rewards)
      (record {
        users_sorted = v.users_sorted;
        stakers_sorted = v.stakers_sorted;
        restricted = λ j. elim (Bool-cases (j == lp)) [
          | inl same ↦
              let e : pool_at j (insert lp pool'' s.pool_info) ≡ pool'' = ground (arith, found j) in
              rw (e, same_indexes) c.restricted
          | inr other ↦
              let e : pool_at j (insert lp pool'' s.pool_info) ≡ pool_at j s.pool_info =
                ground (arith, found j) in
              rw e (v.restricted j)
        ];
        pool_total = λ j. elim (Bool-cases (j == lp)) [
          | inl same ↦
              let q : j ≡ lp = (==_iff j lp).0 same in
              let e : pool_at j (insert lp pool'' s.pool_info) ≡ pool'' = ground (arith, found j) in
              rw (e, same_total, c.total, sym at, sym q) (v.pool_total j)
          | inr other ↦
              let e : pool_at j (insert lp pool'' s.pool_info) ≡ pool_at j s.pool_info =
                ground (arith, found j) in
              rw e (v.pool_total j)
        ];
        staking_total = v.staking_total;
        unstaking_total = v.unstaking_total;
        staker_rate = v.staker_rate;
        boost_fee = v.boost_fee;
        covered = λ t.
            let (d, grown, le) = c.growth t in
            let total : pool.total_bond_share ≡ shares_of lp s.user_info =
              rw (sym at) (v.pool_total lp) in
            omega (
              arith,
              v.covered t,
              le,
              ap (λ (n : ℕ). d * n) total,
              users_owed-growth t lp d pool'' s.pool_info s.user_info (rw (same_indexes, at) grown),
            );
      })
