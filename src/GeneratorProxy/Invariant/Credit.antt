-- ===== src/GeneratorProxy/Invariant/Credit.antt =====
-- How contracts/generator_proxy credits the rewards that a pool has earned to the index of the pool,
-- the fee and the income of the stakers.
use spectrum_core.Base.{
  ℕ, ◌+◌, ◌-◌, ◌*◌, ◌/◌, ◌≤◌, ◌≡◌, refl, Bool-cases, inl, inr, some, ◌==◌, arith, ok, ap, sym, ◌∙◌,
  Result, bind-ok, after_ok, ok-value, ◌>>=◌,
}
use native.Mathlib.Nat.{div-mul-le_self}
use spectrum_core.Cosmwasm.Math.{math, decimal_one, increased}
use spectrum_core.Cosmwasm.Std.{Addr, StdError}
use spectrum_core.Cosmwasm.Map.{ℕ_key, lookup-insert}
use spectrum_core.GeneratorProxy.{Vector, Config, PoolInfo, RewardInfo, Store}
use spectrum_core.GeneratorProxy.Vectors.{
  index_of, IsRestricted, increased-IsRestricted, increased-index,
}
use spectrum_core.GeneratorProxy.Chain.{UserInfoV2}
use spectrum_core.GeneratorProxy.Pool.{reconcile_astro_reward, reconcile_token_reward, percent_40}
use spectrum_core.Cosmwasm.Uint.{
  add, sub, multiply_ratio, from_ratio, mul_decimal, checked_sub, vector_update,
}
use spectrum_core.Cosmwasm.Success.{
  add-ok, sub-ok, multiply_ratio-ok, from_ratio-ok, mul_decimal-ok, checked_sub-ok,
  vector_update-ok,
}
use spectrum_core.GeneratorProxy.Bond.{reward_at, save_reward, credit_astro, credit_token}

-- How an amount of ASTRO is split: a fee, a part for the stakers, and the rest for the users
pub record Split (config : Config) (astro_user_info : UserInfoV2) (net : ℕ) : Type 0 where
  pub based : ℕ
  pub fee : ℕ
  pub to_staker : ℕ
  pub to_lp : ℕ
  pub based_eq :
      based
      ≡ net * (astro_user_info.amount * percent_40 / decimal_one) / astro_user_info.virtual_amount
  pub based_le : based ≤ net
  pub fee_eq : fee ≡ (net - based) * config.boost_fee / decimal_one
  pub to_staker_eq : to_staker ≡ (net - based - fee) * config.staker_rate / decimal_one
  pub conserved : fee + to_staker + to_lp ≡ net

module _ (config : Config) (astro_user_info : UserInfoV2) (pool : PoolInfo) (r : RewardInfo)
    (net : ℕ) where
  reconcile_astro_reward-values :
      {out : PoolInfo × RewardInfo}
      → reconcile_astro_reward config astro_user_info pool r net ≡ ok out
      → (based_amount : ℕ) × (mul_decimal {E = StdError} astro_user_info.amount percent_40
          ≡ ok based_amount)
        × (based : ℕ) × (multiply_ratio {E = StdError} net based_amount
              astro_user_info.virtual_amount
            ≡ ok based)
        × (boosted : ℕ) × (checked_sub net based ≡ ok boosted)
        × (fee : ℕ) × (mul_decimal {E = StdError} boosted config.boost_fee ≡ ok fee)
        × (net_boosted : ℕ) × (sub {E = StdError} boosted fee ≡ ok net_boosted)
        × (to_staker : ℕ) × (mul_decimal {E = StdError} net_boosted config.staker_rate
            ≡ ok to_staker)
        × (boosted_to_lp : ℕ) × (sub {E = StdError} net_boosted to_staker ≡ ok boosted_to_lp)
        × (to_lp : ℕ) × (add {E = StdError} boosted_to_lp based ≡ ok to_lp)
        × (per_share : ℕ) × (from_ratio {E = StdError} to_lp pool.total_bond_share ≡ ok per_share)
        × (fee' : ℕ) × (add {E = StdError} r.fee fee ≡ ok fee')
        × (income : ℕ) × (add {E = StdError} r.staker_income to_staker ≡ ok income)
        × (amount : ℕ) × (add {E = StdError} r.reconciled_amount net ≡ ok amount)
        × (indexes : Vector) × (vector_update config.astro_token per_share pool.reward_indexes
            ≡ ok indexes)
        × (out ≡ (
          record pool { reward_indexes = indexes },
          record { reconciled_amount = amount; fee = fee'; staker_income = income },
        ))
  unfolding reconcile_astro_reward
  reconcile_astro_reward-values h =
      after_ok (mul_decimal astro_user_info.amount percent_40) _ h (λ based_amount e h.
        after_ok (multiply_ratio net based_amount astro_user_info.virtual_amount) _ h (λ based e1 h.
          after_ok (checked_sub net based) _ h (λ boosted e2 h.
            after_ok (mul_decimal boosted config.boost_fee) _ h (λ fee e3 h.
              after_ok (sub boosted fee) _ h (λ net_boosted e4 h.
                after_ok (mul_decimal net_boosted config.staker_rate) _ h (λ to_staker e5 h.
                  after_ok (sub net_boosted to_staker) _ h (λ boosted_to_lp e6 h.
                    after_ok (add boosted_to_lp based) _ h (λ to_lp e7 h.
                      after_ok (from_ratio to_lp pool.total_bond_share) _ h (λ per_share e8 h.
                        after_ok (add r.fee fee) _ h (λ fee' e9 h.
                          after_ok (add r.staker_income to_staker) _ h (λ income e10 h.
                            after_ok (add r.reconciled_amount net) _ h (λ amount e11 h.
                              after_ok
                                (vector_update config.astro_token per_share pool.reward_indexes) _ h
                                (λ indexes e12 h. (
                                  based_amount,
                                  e,
                                  based,
                                  e1,
                                  boosted,
                                  e2,
                                  fee,
                                  e3,
                                  net_boosted,
                                  e4,
                                  to_staker,
                                  e5,
                                  boosted_to_lp,
                                  e6,
                                  to_lp,
                                  e7,
                                  per_share,
                                  e8,
                                  fee',
                                  e9,
                                  income,
                                  e10,
                                  amount,
                                  e11,
                                  indexes,
                                  e12,
                                  ok-value h,
                                ))))))))))))))

  pub reconcile_astro_reward-ok :
      {out : PoolInfo × RewardInfo}
      → reconcile_astro_reward config astro_user_info pool r net ≡ ok out
      → (p : Split config astro_user_info net) × (indexes : Vector) × (increased config.astro_token
            (p.to_lp * decimal_one / pool.total_bond_share)
            pool.reward_indexes
          ≡ some indexes)
        × (out ≡ (
          record pool { reward_indexes = indexes },
          record {
            reconciled_amount = r.reconciled_amount + net;
            fee = r.fee + p.fee;
            staker_income = r.staker_income + p.to_staker;
          },
        ))
  reconcile_astro_reward-ok h =
      let (
        based_amount, e, based, e1, boosted, e2, fee, e3, net_boosted, e4, to_staker, e5,
        boosted_to_lp, e6, to_lp, e7, per_share, e8, fee', e9, income, e10, amount, e11, indexes,
        e12, left,
      ) =
        reconcile_astro_reward-values h in
      let v2 = checked_sub-ok net based e2 in
      let v4 = sub-ok boosted fee e4 in
      let v6 = sub-ok net_boosted to_staker e6 in
      let v7 = add-ok boosted_to_lp based e7 in
      let grown = vector_update-ok config.astro_token per_share pool.reward_indexes e12 in
      (
        record {
          based = based;
          fee = fee;
          to_staker = to_staker;
          to_lp = to_lp;
          based_eq =
              rw (sym (mul_decimal-ok astro_user_info.amount percent_40 e))
                (multiply_ratio-ok net based_amount astro_user_info.virtual_amount e1);
          based_le = v2.0;
          fee_eq = rw (sym v2.1) (mul_decimal-ok boosted config.boost_fee e3);
          to_staker_eq =
              rw (sym v2.1) (rw (sym v4.1) (mul_decimal-ok net_boosted config.staker_rate e5));
          conserved = omega arith;
        },
        indexes,
        rw (sym (from_ratio-ok to_lp pool.total_bond_share e8)) grown,
        rw (
          left,
          add-ok r.fee fee e9,
          add-ok r.staker_income to_staker e10,
          add-ok r.reconciled_amount net e11,
        ),
      )

pub reconcile_token_reward-ok :
    (token : Addr) (pool : PoolInfo) (r : RewardInfo) (net : ℕ) {out : PoolInfo × RewardInfo}
    → reconcile_token_reward token pool r net ≡ ok out
    → (indexes : Vector) × (increased token
          (net * decimal_one / pool.total_bond_share)
          pool.reward_indexes
        ≡ some indexes)
      × (out ≡ (
        record pool { reward_indexes = indexes },
        record r { reconciled_amount = r.reconciled_amount + net },
      ))
unfolding reconcile_token_reward
reconcile_token_reward-ok token pool r net h = ground arith

-- What the contract owes of a token outside of the pools and the stakers, times 10^18
abbrev pub set_aside : Addr → Store → ℕ
set_aside t s = ((reward_at t s).fee + (reward_at t s).staker_income) * decimal_one

abbrev pub reconciled : Addr → Store → ℕ
reconciled t s = (reward_at t s).reconciled_amount * decimal_one

-- A pool and the rewards after they were credited: the index of a token grows by no more than what
-- is newly reconciled and not set aside, for each share.
pub record Credited (pool : PoolInfo) (s : Store) (pool' : PoolInfo) (s' : Store) : Type 0 where
  pub rewards : s' ≡ record s { reward_info = s'.reward_info }
  pub total : pool'.total_bond_share ≡ pool.total_bond_share
  pub restricted : IsRestricted pool'.reward_indexes
  pub growth :
      (t : Addr)
      → (d : ℕ) × (index_of t pool'.reward_indexes ≡ index_of t pool.reward_indexes + d)
        × (d * pool.total_bond_share + reconciled t s + set_aside t s'
            ≤ reconciled t s' + set_aside t s)

pub Credited-refl :
    (pool : PoolInfo) (s : Store) → IsRestricted pool.reward_indexes → Credited pool s pool s
Credited-refl pool s r = record {
  rewards = refl;
  total = refl;
  restricted = r;
  growth = λ t. (0, omega arith, omega arith);
}

pub Credited-trans :
    (p : PoolInfo) (s : Store) (p' : PoolInfo) (s' : Store) (p'' : PoolInfo) (s'' : Store)
    → Credited p s p' s'
    → Credited p' s' p'' s''
    → Credited p s p'' s''
Credited-trans p s p' s' p'' s'' a b = record {
  rewards = b.rewards ∙ ap (λ (x : Store). record x { reward_info = s''.reward_info }) a.rewards;
  total = b.total ∙ a.total;
  restricted = b.restricted;
  growth = λ t.
      let (d, e, le) = a.growth t in
      let (d', e', le') = b.growth t in
      (d + d', omega arith, omega (arith, ap (λ (n : ℕ). d' * n) a.total));
}

-- The reward of one token is saved, and the index of that token grows.
Credited-save :
    (k v : ℕ) (pool : PoolInfo) (s : Store) (indexes : Vector) (r : RewardInfo)
    → IsRestricted pool.reward_indexes
    → increased k v pool.reward_indexes ≡ some indexes
    → v * pool.total_bond_share
        + ((reward_at k s).reconciled_amount + r.fee + r.staker_income) * decimal_one
      ≤ (r.reconciled_amount + (reward_at k s).fee + (reward_at k s).staker_income) * decimal_one
    → Credited pool s (record pool { reward_indexes = indexes }) (save_reward k r s)
Credited-save k v pool s indexes r u g le = record {
  rewards = refl;
  total = refl;
  restricted = increased-IsRestricted k v pool.reward_indexes g u;
  growth = λ t.
      let e = increased-index k v t pool.reward_indexes g u in
      let l = lookup-insert k t r s.reward_info in
      elim (Bool-cases (t == k)) [
        | inl same ↦ (v, ground arith, ground arith)
        | inr other ↦ (0, ground arith, ground arith)
      ];
}

-- What is credited is computed first, and then stored.
abbrev Done : {A : Type 0} → Result StdError A → (A → PoolInfo × Store) → PoolInfo × Store → Type 0
Done {A} r f out = (x : A) × (r ≡ ok x) × (out ≡ f x)

credit-Done :
    {A : Type 0} (r : Result StdError A) (f : A → PoolInfo × Store) {out : PoolInfo × Store}
    → (r >>= λ x. ok (f x)) ≡ ok out
    → Done r f out
credit-Done r f h = let (x, e, left) = bind-ok r (λ x. ok (f x)) h in (x, e, ok-value left)

-- The floored index times the shares is no more than the amount.
floor_le : (amount total : ℕ) → amount * decimal_one / total * total ≤ amount * decimal_one
floor_le amount total = div-mul-le_self (amount * decimal_one) total

pub credit_astro-Credited :
    (astro_user_info : UserInfoV2) (net : ℕ) (pool : PoolInfo) (s : Store) {out : PoolInfo × Store}
    → IsRestricted pool.reward_indexes
    → credit_astro astro_user_info net pool s ≡ ok out
    → Credited pool s out.0 out.1
unfolding credit_astro
credit_astro-Credited astro_user_info net pool s {out} u h = elim (Bool-cases (net == 0)) [
  | inl none_left ↦ let e : out ≡ (pool, s) = ground arith in rw e (Credited-refl pool s u)
  | inr some_left ↦
      let astro = s.config.astro_token in
      let done : Done (reconcile_astro_reward s.config astro_user_info pool (reward_at astro s) net)
          (λ x. (x.0, save_reward astro x.1 s)) out =
        credit-Done _ _ (ground arith) in
      let (x, settled, e) = done in
      let (p, indexes, grown, left) =
        reconcile_astro_reward-ok s.config astro_user_info pool (reward_at astro s) net settled in
      rw (e, left)
        (Credited-save astro (p.to_lp * decimal_one / pool.total_bond_share) pool s indexes _ u
          grown (omega (arith, floor_le p.to_lp pool.total_bond_share, p.conserved)))
]

pub credit_token-Credited :
    (t : Addr) (net : ℕ) (pool : PoolInfo) (s : Store) {out : PoolInfo × Store}
    → IsRestricted pool.reward_indexes
    → credit_token t net pool s ≡ ok out
    → Credited pool s out.0 out.1
unfolding credit_token
credit_token-Credited t net pool s {out} u h = elim (Bool-cases (net == 0)) [
  | inl none_left ↦ let e : out ≡ (pool, s) = ground arith in rw e (Credited-refl pool s u)
  | inr some_left ↦
      let done : Done (reconcile_token_reward t pool (reward_at t s) net)
          (λ x. (x.0, save_reward t x.1 s)) out =
        credit-Done _ _ (ground arith) in
      let (x, settled, e) = done in
      let (indexes, grown, left) = reconcile_token_reward-ok t pool (reward_at t s) net settled in
      rw (e, left)
        (Credited-save t (net * decimal_one / pool.total_bond_share) pool s indexes _ u grown
          (omega (arith, floor_le net pool.total_bond_share)))
]

pub reconcile_astro_reward-split :
    (config : Config) (astro_user_info : UserInfoV2) (pool : PoolInfo) (r : RewardInfo) (net : ℕ)
    {out : PoolInfo × RewardInfo}
    → reconcile_astro_reward config astro_user_info pool r net ≡ ok out
    → (p : Split config astro_user_info net) × (out.1.reconciled_amount ≡ r.reconciled_amount + net)
      × (out.1.fee ≡ r.fee + p.fee)
      × (out.1.staker_income ≡ r.staker_income + p.to_staker)
      × (increased config.astro_token
            (p.to_lp * decimal_one / pool.total_bond_share)
            pool.reward_indexes
          ≡ some out.0.reward_indexes)
reconcile_astro_reward-split config astro_user_info pool r net h =
    let (p, _, grown, left) = reconcile_astro_reward-ok config astro_user_info pool r net h in
    (p, rw left, rw left, rw left, rw left grown)
