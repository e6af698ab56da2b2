-- ===== src/GeneratorProxy/Invariant/Stakers.antt =====
-- The income of the stakers of contracts/generator_proxy, and what a change of the stakers has to keep.
use spectrum_core.Base.{
  ℕ, ◌+◌, ◌-◌, ◌*◌, ◌/◌, ◌≤◌, ◌≡◌, refl, ap, true, false, Bool-cases, Option-cases, inl, inr, some,
  ◌==◌, ==_iff, get_or, arith, ok, [], ◌∷◌,
}
use native.Mathlib.Nat.{div-mul-le_self}
use spectrum_core.Cosmwasm.Math.{math, decimal_one}
use spectrum_core.Cosmwasm.Std.{Addr}
use spectrum_core.Cosmwasm.Map.{
  Map, ℕ_key, lookup, insert, lookup-insert, IsSorted, insert-IsSorted,
}
use spectrum_core.Cosmwasm.Map.Sums.{sum_by, part_of, sum_by-insert}
use spectrum_core.GeneratorProxy.{StakingState, StakerInfo, RewardInfo, Store}
use spectrum_core.GeneratorProxy.Staking.{
  create_staker, reconcile_staker_income, reconcile_to_staker_info, reconcile_staker,
}
use spectrum_core.GeneratorProxy.Invariant.{
  IsValid, staker_owed, stakers_owed, staker_share, unstaking_of,
}
use spectrum_core.GeneratorProxy.Invariant.Credit.{set_aside, reconciled}
use spectrum_core.GeneratorProxy.Invariant.Pools.{growth_le}

-- When the index grows, the stakers can claim more, each for the own shares.
pub stakers_owed-growth :
    (m : Map Addr StakerInfo) (index d : ℕ)
    → stakers_owed (index + d) m ≤ stakers_owed index m + d * sum_by staker_share m
stakers_owed-growth [] index d = omega arith
stakers_owed-growth ((a, r) ∷ m) index d =
    omega (arith, growth_le r.bond_share index r.reward_index d, stakers_owed-growth m index d)

-- Where the income goes to the index, the index times the shares is no more than the income.
pub reconcile_staker_income-ok :
    (r : RewardInfo) (st : StakingState) {out : RewardInfo × StakingState}
    → reconcile_staker_income r st ≡ ok out
    → (d income : ℕ) × (out
        ≡ (record r { staker_income = income }, record st { reward_index = st.reward_index + d }))
      × (d * st.total_bond_share + income * decimal_one ≤ r.staker_income * decimal_one)
unfolding reconcile_staker_income
reconcile_staker_income-ok r st {out} h = elim (Bool-cases (st.total_bond_share == 0)) [
  | inl empty ↦ (0, r.staker_income, ground arith, omega arith)
  | inr some_share ↦ (
    r.staker_income * decimal_one / st.total_bond_share,
    0,
    ground arith,
    omega (arith, div-mul-le_self (r.staker_income * decimal_one) st.total_bond_share),
  )
]

pub reconcile_to_staker_info-ok :
    (st : StakingState) (r : StakerInfo) {r' : StakerInfo}
    → reconcile_to_staker_info st r ≡ ok r'
    → (r.reward_index ≤ st.reward_index)
      × (r' ≡ record r {
        pending_reward =
            r.pending_reward + r.bond_share * (st.reward_index - r.reward_index) / decimal_one;
        reward_index = st.reward_index;
      })
unfolding reconcile_to_staker_info
reconcile_to_staker_info-ok st r h = ground arith

-- To reconcile a staker moves what the staker can claim to what is pending, rounded down.
pub reconciled_staker-owed :
    (st : StakingState) (r : StakerInfo) {r' : StakerInfo}
    → reconcile_to_staker_info st r ≡ ok r'
    → (r'.reward_index ≡ st.reward_index)
      × (r'.bond_share ≡ r.bond_share)
      × (unstaking_of r' ≡ unstaking_of r)
      × (r'.pending_reward * decimal_one ≤ staker_owed st.reward_index r)
reconciled_staker-owed st r h =
    let (_, e) = reconcile_to_staker_info-ok st r h in
    let floor = div-mul-le_self (r.bond_share * (st.reward_index - r.reward_index)) decimal_one in
    rw e (refl, refl, refl, omega arith)

-- The state of the staking, the stakers and the reward of ASTRO are replaced.
pub state_saved-IsValid :
    (s : Store) (rewards : Map Addr RewardInfo) (st : StakingState) (m : Map Addr StakerInfo)
    → IsValid s
    → ((t : Addr) → (t == s.config.astro_token) ≡ false → lookup t rewards ≡ lookup t s.reward_info)
    → set_aside s.config.astro_token (record s { reward_info = rewards })
        + stakers_owed st.reward_index m
        + reconciled s.config.astro_token s
      ≤ reconciled s.config.astro_token (record s { reward_info = rewards })
        + set_aside s.config.astro_token s
        + stakers_owed s.staking_state.reward_index s.staker_info
    → IsSorted m
    → st.total_bond_share ≡ sum_by staker_share m
    → st.total_unstaking_amount + st.total_unstaked_amount ≡ sum_by unstaking_of m
    → IsValid (record s { reward_info = rewards; staking_state = st; staker_info = m })
state_saved-IsValid s rewards st m v other cover sorted total unstaking = record {
  users_sorted = v.users_sorted;
  stakers_sorted = sorted;
  restricted = v.restricted;
  pool_total = v.pool_total;
  staking_total = total;
  unstaking_total = unstaking;
  staker_rate = v.staker_rate;
  boost_fee = v.boost_fee;
  covered = λ t.
      let before = v.covered t in
      elim (Bool-cases (t == s.config.astro_token)) [
        | inl same ↦
            let q : t ≡ s.config.astro_token = (==_iff t s.config.astro_token).0 same in
            let r : (s.config.astro_token == s.config.astro_token) ≡ true = ground arith in
            let w = rw r at (v.covered s.config.astro_token) in rw (q, r) (omega (arith, cover, w))
        | inr different ↦ rw (other t different, different) (ground arith)
      ];
}

-- The entry of a staker, or the one that is made
abbrev pub staker_at : Addr → Store → StakerInfo
staker_at a s = get_or (lookup a s.staker_info) (create_staker s.staking_state)

staker_at-part :
    (f : StakerInfo → ℕ) (a : Addr) (s : Store)
    → f (create_staker s.staking_state) ≡ 0
    → part_of f (lookup a s.staker_info) ≡ f (staker_at a s)
staker_at-part f a s z = elim (Option-cases (lookup a s.staker_info)) [
  | inl e ↦ rw (e, z)
  | inr (u, e) ↦ rw e
]

-- One staker is replaced, and the index may have grown: what the staker can claim, what is set aside
-- and what is reconciled balance, and the totals change as the entry does.
pub staker_saved-IsValid :
    (s : Store) (rewards : Map Addr RewardInfo) (st : StakingState) (a : Addr) (r : StakerInfo)
    (d : ℕ)
    → IsValid s
    → ((t : Addr) → (t == s.config.astro_token) ≡ false → lookup t rewards ≡ lookup t s.reward_info)
    → st.reward_index ≡ s.staking_state.reward_index + d
    → set_aside s.config.astro_token (record s { reward_info = rewards })
        + d * s.staking_state.total_bond_share
        + staker_owed st.reward_index r
        + reconciled s.config.astro_token s
      ≤ reconciled s.config.astro_token (record s { reward_info = rewards })
        + set_aside s.config.astro_token s
        + staker_owed st.reward_index (staker_at a s)
    → st.total_bond_share + staker_share (staker_at a s)
      ≡ s.staking_state.total_bond_share + staker_share r
    → st.total_unstaking_amount + st.total_unstaked_amount + unstaking_of (staker_at a s)
      ≡ s.staking_state.total_unstaking_amount
        + s.staking_state.total_unstaked_amount
        + unstaking_of r
    → IsValid (record s {
      reward_info = rewards;
      staking_state = st;
      staker_info = insert a r s.staker_info;
    })
staker_saved-IsValid s rewards st a r d v other grown cover total unstaking =
    let m = s.staker_info in
    let index = st.reward_index in
    let sum = λ (f : StakerInfo → ℕ). sum_by-insert f a r m v.stakers_sorted in
    let growth : stakers_owed index m
        ≤ stakers_owed s.staking_state.reward_index m + d * sum_by staker_share m =
      rw grown (stakers_owed-growth m s.staking_state.reward_index d) in
    state_saved-IsValid s rewards st (insert a r m) v other
      (omega (
        arith,
        cover,
        growth,
        ap (λ (n : ℕ). d * n) v.staking_total,
        sum (staker_owed index),
        staker_at-part (staker_owed index) a s (omega arith),
      ))
      (insert-IsSorted a r m v.stakers_sorted)
      (omega
        (arith, total, v.staking_total, sum staker_share, staker_at-part staker_share a s refl))
      (omega (
        arith,
        unstaking,
        v.unstaking_total,
        sum unstaking_of,
        staker_at-part unstaking_of a s refl,
      ))

-- To save the reward of ASTRO changes no other.
pub astro_saved-other :
    (astro : Addr) (r : RewardInfo) (rewards : Map Addr RewardInfo) (t : Addr)
    → (t == astro) ≡ false
    → lookup t (insert astro r rewards) ≡ lookup t rewards
astro_saved-other astro r rewards t d = ground (arith, lookup-insert astro t r rewards)

pub astro_saved-at :
    (astro : Addr) (r : RewardInfo) (rewards : Map Addr RewardInfo)
    → lookup astro (insert astro r rewards) ≡ some r
astro_saved-at astro r rewards = ground (arith, lookup-insert astro astro r rewards)

reconcile_staker-parts :
    (r : RewardInfo) (st : StakingState) (u : StakerInfo)
    {out : RewardInfo × StakingState × StakerInfo}
    → reconcile_staker r st u ≡ ok out
    → (x : RewardInfo × StakingState) × (reconcile_staker_income r st ≡ ok x)
      × (y : StakerInfo) × (reconcile_to_staker_info x.1 u ≡ ok y)
      × (out ≡ (x.0, x.1, y))
unfolding reconcile_staker
reconcile_staker-parts r st u h = ground arith

-- Both are reconciled, as each message of a staker begins.
pub reconcile_staker-ok :
    (r : RewardInfo) (st : StakingState) (u : StakerInfo)
    {out : RewardInfo × StakingState × StakerInfo}
    → reconcile_staker r st u ≡ ok out
    → (d income : ℕ) × (out.0 ≡ record r { staker_income = income })
      × (out.1 ≡ record st { reward_index = st.reward_index + d })
      × (d * st.total_bond_share + income * decimal_one ≤ r.staker_income * decimal_one)
      × (reconcile_to_staker_info out.1 u ≡ ok out.2)
reconcile_staker-ok r st u {out} h =
    let (x, first, y, second, e) = reconcile_staker-parts r st u h in
    let (d, income, left, le) = reconcile_staker_income-ok r st first in
    (d, income, rw (e, left), rw (e, left), le, rw e second)
