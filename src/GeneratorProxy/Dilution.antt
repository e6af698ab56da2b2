-- ===== src/GeneratorProxy/Dilution.antt =====
-- The worth of the shares of a pool of contracts/generator_proxy: no deposit and no withdrawal lowers
-- what the shares of the others are worth.
use spectrum_core.Base.{
  ℕ, ◌+◌, ◌-◌, ◌*◌, ◌/◌, ◌≤◌, ◌<◌, ◌≡◌, ◌≢◌, sym, subst, ◌⊎◌, inl, inr, true, false, Bool-cases,
  ◌==◌, arith, ok,
}
use native.Mathlib.Nat.{div-mul-le_self, mul-le-mul_right, le_of_mul-le-mul_right, div-le_of_le-mul}
use spectrum_core.Cosmwasm.Math.{math}
use spectrum_core.Cosmwasm.Std.{Addr, Env}
use spectrum_core.Cosmwasm.Map.{Map, ℕ_key, pair_key, lookup, insert, lookup-insert}
use spectrum_core.Helper.{multiply_ratio_and_ceil}
use spectrum_core.Helper.Rounding.{multiply_ratio_and_ceil-IsCeiling}
use spectrum_core.Farm.Shares.Dilution.{worth, ratio-le, deposit-price, worth-empty}
use spectrum_core.GeneratorProxy.{PoolInfo, UserInfo, Store, ContractError, Response}
use spectrum_core.GeneratorProxy.Pool.{calc_bond_share}
use spectrum_core.GeneratorProxy.Chain.{Chain}
use spectrum_core.GeneratorProxy.Bond.{callback_deposit, callback_withdraw}
use spectrum_core.GeneratorProxy.Invariant.{pool_at}
use spectrum_core.GeneratorProxy.Invariant.Pools.{pool_at-insert}
use spectrum_core.GeneratorProxy.Invariant.Users.{callback_deposit-ok, callback_withdraw-ok}

-- The price after a withdrawal, whose share is rounded up
left_price : (share k a d : ℕ) → a * (share + k) ≤ share * (a + d) → (a + d) * k ≤ d * (share + k)
left_price share k a d h = omega arith

withdraw_price :
    (L a T share : ℕ) → 0 < T → share ≤ T → a * T ≤ share * L → L * (T - share) ≤ (L - a) * T
withdraw_price L a T share pos le rounded =
    let whole : share * L ≤ T * L = mul-le-mul_right L le in
    let covered : a ≤ L = le_of_mul-le-mul_right {k = T} (omega arith) pos in
    let split : L ≡ a + (L - a) = omega arith in
    let split' : T ≡ share + (T - share) = omega arith in
    let scaled : a * (share + (T - share)) ≤ share * (a + (L - a)) =
      subst (λ x. a * x ≤ share * (a + (L - a))) split'
        (subst (λ x. a * T ≤ share * x) split rounded) in
    subst (λ x. x * (T - share) ≤ (L - a) * T) (sym split)
      (subst (λ x. (a + (L - a)) * (T - share) ≤ (L - a) * x) (sym split')
        (left_price share (T - share) a (L - a) scaled))

worth-nobody : (T L : ℕ) → worth T L 0 ≡ 0
worth-nobody T L =
    let scaled : L * 0 ≤ T * 0 = omega arith in ground (arith, div-le_of_le-mul T scaled)

module _ (pool : PoolInfo) (L a : ℕ) where
  floor-ok :
      {share : ℕ}
      → calc_bond_share {E = ContractError} pool L a false ≡ ok share
      → (((pool.total_bond_share ≡ 0) ⊎ (L ≡ 0)) × (share ≡ a))
        ⊎ ((0 < pool.total_bond_share) × (0 < L) × (share ≡ a * pool.total_bond_share / L))
  unfolding calc_bond_share
  floor-ok h = ground arith

  ceiling-ok :
      {share : ℕ}
      → calc_bond_share {E = ContractError} pool L a true ≡ ok share
      → (((pool.total_bond_share ≡ 0) ⊎ (L ≡ 0)) × (share ≡ a))
        ⊎ ((0 < pool.total_bond_share)
            × (0 < L)
            × (multiply_ratio_and_ceil {E = ContractError} a pool.total_bond_share L ≡ ok share))
  unfolding calc_bond_share
  ceiling-ok h = ground arith

  deposit-worth_le :
      {share : ℕ} (h : ℕ)
      → calc_bond_share {E = ContractError} pool L a false ≡ ok share
      → worth pool.total_bond_share L h ≤ worth (pool.total_bond_share + share) (L + a) h
  deposit-worth_le {share} h e = elim (floor-ok e) [
    | inl (inl none_yet, _) ↦ rw none_yet (omega arith)
    | inl (inr empty, _) ↦ rw (empty, worth-empty pool.total_bond_share h) (omega arith)
    | inr (pos, filled, eq) ↦
        let T = pool.total_bond_share in
        let rounded : share * L ≤ a * T = rw eq (div-mul-le_self (a * T) L) in
        let step =
          ratio-le L T (L + a) (T + share) h pos (omega arith)
            (deposit-price L T a share rounded) in
        ground arith
  ]

  withdraw-worth_le :
      {share : ℕ} (h : ℕ)
      → calc_bond_share {E = ContractError} pool L a true ≡ ok share
      → share ≤ pool.total_bond_share
      → h ≤ pool.total_bond_share - share
      → worth pool.total_bond_share L h ≤ worth (pool.total_bond_share - share) (L - a) h
  withdraw-worth_le {share} h e le own = elim (ceiling-ok e) [
    | inl (inl none_yet, _) ↦ rw none_yet (omega arith)
    | inl (inr empty, _) ↦ rw (empty, worth-empty pool.total_bond_share h) (omega arith)
    | inr (pos, filled, rounded) ↦
        let T = pool.total_bond_share in
        let (_, up, _) = (multiply_ratio_and_ceil-IsCeiling a T L rounded).0 in
        elim (Bool-cases (T - share == 0)) [
          | inl all ↦ let z : h ≡ 0 = ground arith in rw (z, worth-nobody T L) (omega arith)
          | inr some_left ↦
              let step =
                ratio-le L T (L - a) (T - share) h pos (ground arith)
                  (withdraw_price L a T share pos le up) in
              ground arith
        ]
  ]

-- The entries of the other users and of the other pools are as they were.
abbrev pub SameOthers : Addr → Addr → Store → Store → Type 0
SameOthers lp a s s' =
    ((k : Addr × Addr) → k ≢ (lp, a) → lookup k s'.user_info ≡ lookup k s.user_info)
    × ((j : Addr) → j ≢ lp → lookup j s'.pool_info ≡ lookup j s.pool_info)

saved-SameOthers :
    (lp a : Addr) (s : Store) (p : PoolInfo) (u : UserInfo)
    → SameOthers lp a s
        (record s { pool_info = insert lp p s.pool_info; user_info = insert (lp, a) u s.user_info })
saved-SameOthers lp a s p u = (
  λ k d. ground (arith, pair_key.eq_iff k (lp, a), lookup-insert (lp, a) k u s.user_info),
  λ j d. ground (arith, lookup-insert lp j p s.pool_info),
)

pool_saved-at :
    (lp : Addr) (p : PoolInfo) (pools : Map Addr PoolInfo) → pool_at lp (insert lp p pools) ≡ p
pool_saved-at lp p pools = ground (arith, pool_at-insert lp lp p pools)

module _ (c : Chain) (s : Store) (env : Env) (lp a amount L : ℕ) where
  pub callback_deposit-others :
      {out : Response}
      → callback_deposit c s env lp a amount ≡ ok out
      → c.query_deposit s.config.generator lp env.contract ≡ ok L
      → SameOthers lp a s out.0
        × ((h : ℕ)
            → worth (pool_at lp s.pool_info).total_bond_share L h
              ≤ worth (pool_at lp out.0.pool_info).total_bond_share (L + amount) h)
  callback_deposit-others h answer =
      let (u', settled, total, asked, share, shared, e) =
        callback_deposit-ok c s env lp a amount h in
      let same : total ≡ L = ground arith in
      rw e (
        saved-SameOthers lp a s _ _,
        λ n.
            rw (pool_saved-at lp _ s.pool_info)
              (deposit-worth_le (pool_at lp s.pool_info) L amount n (rw (sym same) shared)),
      )

  pub callback_withdraw-others :
      {out : Response}
      → callback_withdraw c s env lp a amount ≡ ok out
      → c.query_deposit s.config.generator lp env.contract ≡ ok L
      → SameOthers lp a s out.0
        × ((h : ℕ)
            → h ≤ (pool_at lp out.0.pool_info).total_bond_share
            → worth (pool_at lp s.pool_info).total_bond_share L h
              ≤ worth (pool_at lp out.0.pool_info).total_bond_share (L - amount) h)
  callback_withdraw-others h answer =
      let (pool, found, u, known, u', settled, total, asked, share, shared, le, le', e) =
        callback_withdraw-ok c s env lp a amount h in
      let same : total ≡ L = ground arith in
      let at : pool_at lp s.pool_info ≡ pool = rw found in
      rw e (
        saved-SameOthers lp a s _ _,
        λ n.
            rw
              (
                pool_saved-at lp (record pool { total_bond_share = pool.total_bond_share - share })
                    s.pool_info,
                at,
              )
              (λ own. withdraw-worth_le pool L amount n (rw (sym same) shared) le' own),
      )
