-- ===== src/GeneratorProxy/Invariant.antt =====
-- The invariant of the storage of contracts/generator_proxy: the totals are the sums of the entries,
-- and the reconciled amount of each token covers all that the contract owes of it.
pub mod Credit
pub mod Pools
pub mod Claims
pub mod Users
pub mod Stakers
pub mod Staking
pub mod Income
pub mod Preserves
pub mod Payment
use spectrum_core.Base.{
  ℕ, ◌+◌, ◌-◌, ◌*◌, ◌≤◌, ◌≡◌, refl, List, Option, none, some, ◌==◌, if◌then◌else◌, get_or, arith,
  ok,
}
use spectrum_core.Cosmwasm.Math.{math, decimal_one}
use spectrum_core.Cosmwasm.Std.{Addr}
use spectrum_core.Cosmwasm.Map.{Map, ℕ_key, pair_key, IsSorted, lookup}
use spectrum_core.Cosmwasm.Map.Sums.{sum_by}
use spectrum_core.Cosmwasm.Map.Keyed.{sum_at}
use spectrum_core.GeneratorProxy.{Vector, PoolInfo, UserInfo, StakerInfo, Store, default_pool_info}
use spectrum_core.GeneratorProxy.Vectors.{index_of, amount_of, IsRestricted, accrue-amount}
use spectrum_core.GeneratorProxy.Pool.{accrue, reconcile_to_user_info}
use spectrum_core.GeneratorProxy.Bond.{reward_at}

-- What a user can claim of a token at the indexes of the pool, times 10^18
abbrev pub owed : Addr → Vector → UserInfo → ℕ
owed t indexes u =
    amount_of t u.pending_rewards * decimal_one
    + u.bond_share * (index_of t indexes - index_of t u.reward_indexes)

abbrev pub pool_at : Addr → Map Addr PoolInfo → PoolInfo
pool_at lp pools = get_or (lookup lp pools) default_pool_info

abbrev pub owed_at : Addr → Map Addr PoolInfo → Addr × Addr → UserInfo → ℕ
owed_at t pools k u = owed t (pool_at k.0 pools).reward_indexes u

abbrev pub users_owed : Addr → Map Addr PoolInfo → Map (Addr × Addr) UserInfo → ℕ
users_owed t pools = sum_at (owed_at t pools)

abbrev pub share_in : Addr → Addr × Addr → UserInfo → ℕ
share_in lp k u = if k.0 == lp then u.bond_share else 0

abbrev pub shares_of : Addr → Map (Addr × Addr) UserInfo → ℕ
shares_of lp = sum_at (share_in lp)

-- What a staker can claim at an index, times 10^18
abbrev pub staker_owed : ℕ → StakerInfo → ℕ
staker_owed index r = r.pending_reward * decimal_one + r.bond_share * (index - r.reward_index)

abbrev pub stakers_owed : ℕ → Map Addr StakerInfo → ℕ
stakers_owed index = sum_by (staker_owed index)

-- All that the contract owes of a token, times 10^18: the fee, the income that is not yet shared
-- among the stakers, what the users can claim and, of ASTRO, what the stakers can claim
abbrev pub liability : Addr → Store → ℕ
liability t s =
    ((reward_at t s).fee + (reward_at t s).staker_income) * decimal_one
    + users_owed t s.pool_info s.user_info
    + (if t == s.config.astro_token
        then stakers_owed s.staking_state.reward_index s.staker_info
        else 0)

abbrev pub IsCovered : Addr → Store → Type 0
IsCovered t s = liability t s ≤ (reward_at t s).reconciled_amount * decimal_one

abbrev pub staker_share : StakerInfo → ℕ
staker_share r = r.bond_share

abbrev pub unstaking_of : StakerInfo → ℕ
unstaking_of r = r.unstaking_amount + r.unstaked_amount

pub record IsValid (s : Store) : Type 0 where
  pub users_sorted : IsSorted s.user_info
  pub stakers_sorted : IsSorted s.staker_info
  pub restricted : (lp : Addr) → IsRestricted (pool_at lp s.pool_info).reward_indexes
  pub pool_total :
      (lp : Addr) → (pool_at lp s.pool_info).total_bond_share ≡ shares_of lp s.user_info
  pub staking_total : s.staking_state.total_bond_share ≡ sum_by staker_share s.staker_info
  pub unstaking_total :
      s.staking_state.total_unstaking_amount + s.staking_state.total_unstaked_amount
      ≡ sum_by unstaking_of s.staker_info
  pub staker_rate : s.config.staker_rate ≤ decimal_one
  pub boost_fee : s.config.boost_fee ≤ decimal_one
  pub covered : (t : Addr) → IsCovered t s

-- To reconcile a user moves what the user can claim to what is pending, rounded down.
pub reconcile_to_user_info-ok :
    (pool : PoolInfo) (u : UserInfo) {u' : UserInfo}
    → reconcile_to_user_info pool u ≡ ok u'
    → (pending : Vector) × (accrue u.reward_indexes u.bond_share pool.reward_indexes
          u.pending_rewards
        ≡ ok pending)
      × (u' ≡ record u { reward_indexes = pool.reward_indexes; pending_rewards = pending })
unfolding reconcile_to_user_info
reconcile_to_user_info-ok pool u h = ground arith

pub reconciled-owed :
    (pool : PoolInfo) (u : UserInfo) {u' : UserInfo} (t : Addr)
    → reconcile_to_user_info pool u ≡ ok u'
    → IsRestricted pool.reward_indexes
    → (u'.reward_indexes ≡ pool.reward_indexes)
      × (u'.bond_share ≡ u.bond_share)
      × (amount_of t u'.pending_rewards * decimal_one ≤ owed t pool.reward_indexes u)
reconciled-owed pool u {u'} t h r =
    let (pending, accrued, e) = reconcile_to_user_info-ok pool u h in
    let le =
      accrue-amount u.reward_indexes u.bond_share t pool.reward_indexes u.pending_rewards accrued
        r in
    rw e (refl, refl, le)
