-- ===== src/Farm/Worth.antt =====
-- What a deposit and a withdrawal of one user leave to the others.
use spectrum_core.Base.{
  Option-cases, Bool-cases, ==_iff, inl, inr, ◌==◌, ℕ, subst, ◌+◌, ◌-◌, ◌≤◌, ◌<◌, ◌≡◌, ◌≢◌, ◌⊎◌,
  refl, some, List, arith, ok, get_or,
}
use spectrum_core.Cosmwasm.Math.{Math, math, u128_mod}
use spectrum_core.Cosmwasm.Std.{Addr, Env, MessageInfo}
use spectrum_core.Cosmwasm.Map.{ℕ_key, lookup, insert, lookup-insert}
use spectrum_core.Cosmwasm.Map.Sums.{part_of-le, sum_by-insert}
use spectrum_core.Helper.Rounding.{multiply_ratio_and_ceil-IsCeiling}
use spectrum_core.Farm.{
  State, RewardInfo, Store, Message, ContractError, truncate, default_reward_info,
}
use spectrum_core.Farm.Adapters.{Querier}
use spectrum_core.Farm.Balances.{share_of, balance_in, IsValid, balance-insert}
use spectrum_core.Farm.Shares.{calc_bond_amount, calc_bond_share, calc_user_balance}
use spectrum_core.Farm.Shares.Updates.{unbond_info-ok, bond_info-ok, ensure_deposit_costs-ok}
use spectrum_core.Farm.Shares.Dilution.{
  worth, calc_bond_amount-worth, deposit-worth_others, deposit-worth_own, withdraw-worth_others,
  calc_user_balance-ok,
}
use spectrum_core.Farm.Bond.{bond_internal, unbond}
use spectrum_core.Farm.Bond.Steps.{bond_internal-ok, unbond-ok}

-- The shares are worth no less after than before, and both worths can be computed.
abbrev pub NotDiluted : ⦃m : Math⦄ → State → ℕ → State → ℕ → ℕ → Type 0
NotDiluted ⦃m⦄ before lp_balance after lp_balance' share =
    (v : ℕ) × (v' : ℕ) × (calc_bond_amount ⦃m = m⦄ {E = ContractError} before lp_balance share
      ≡ ok v)
    × (calc_bond_amount ⦃m = m⦄ {E = ContractError} after lp_balance' share ≡ ok v')
    × (v ≤ v')

lookup-le :
    (s : Store) (c : Addr) {r : RewardInfo}
    → IsValid s
    → lookup c s.rewards ≡ some r
    → r.bond_share ≤ s.state.total_bond_share
lookup-le s c {r} v found =
    let part : balance_in s.rewards c ≡ r.bond_share = rw found refl in
    omega (arith, part_of-le share_of c s.rewards, v.total)

-- The shares of two users come to no more than the total.
pub lookup_two-le :
    (s : Store) (a c : Addr) {q r : RewardInfo}
    → IsValid s
    → c ≢ a
    → lookup a s.rewards ≡ some q
    → lookup c s.rewards ≡ some r
    → q.bond_share + r.bond_share ≤ s.state.total_bond_share
lookup_two-le s a c {q} {r} v other found_a found_c =
    let without = insert a default_reward_info s.rewards in
    let part : balance_in s.rewards a ≡ q.bond_share = rw found_a refl in
    let part' : balance_in s.rewards c ≡ r.bond_share = rw found_c refl in
    ground (
      arith,
      v.total,
      sum_by-insert share_of a default_reward_info s.rewards v.sorted,
      balance-insert a default_reward_info s.rewards c,
      part_of-le share_of c without,
    )

pub bond_internal-worth :
    (q : Querier) (s : Store) (env : Env) (a : Addr) (amount : ℕ) {out : Store × List Message}
    {lp_balance : ℕ}
    → IsValid s
    → bond_internal q s env a amount ≡ ok out
    → q.query_deposit s.config.staking_contract s.config.liquidity_token env.contract
      ≡ ok lp_balance
    → (c : Addr) {r : RewardInfo} → c ≢ a
    → lookup c s.rewards ≡ some r
    → (lookup c out.0.rewards ≡ some r)
      × NotDiluted s.state lp_balance out.0.state (lp_balance + amount) r.bond_share
bond_internal-worth q s env a amount {out} {lp_balance} v h asked c {r} other found =
    let (lp, asked', small, share, shared, _, _, _, _, _, _, r', _, left) =
      bond_internal-ok q s env a amount h in
    let same : lp ≡ lp_balance = ground arith in
    let small' : lp_balance + amount < u128_mod = omega arith in
    let part = lookup-le s c v found in
    let state' : State = record { total_bond_share = s.state.total_bond_share + share } in
    let shared' =
      subst (λ x. calc_bond_share {E = ContractError} s.state amount x truncate ≡ ok share) same
        shared in
    rw left (
      (
        ground (arith, lookup-insert a c r' s.rewards),
        (
          worth s.state.total_bond_share lp_balance r.bond_share,
          worth (s.state.total_bond_share + share) (lp_balance + amount) r.bond_share,
          calc_bond_amount-worth s.state lp_balance r.bond_share part (omega arith),
          calc_bond_amount-worth state' (lp_balance + amount) r.bond_share (omega arith) small',
          deposit-worth_others s.state amount lp_balance r.bond_share shared',
        ),
      ))

-- The same, where the second user may have no shares
two_balances-le :
    (s : Store) (a c : Addr) {q : RewardInfo}
    → IsValid s
    → c ≢ a
    → lookup a s.rewards ≡ some q
    → q.bond_share + balance_in s.rewards c ≤ s.state.total_bond_share
two_balances-le s a c {q} v other found = elim (Option-cases (lookup c s.rewards)) [
  | inl e ↦
      let nothing : balance_in s.rewards c ≡ 0 = rw e refl in
      omega (arith, nothing, lookup-le s a v found)
  | inr (r, e) ↦
      let part : balance_in s.rewards c ≡ r.bond_share = rw e refl in
      omega (arith, part, lookup_two-le s a c v other found e)
]

pub unbond-worth :
    (q : Querier) (s : Store) (env : Env) (info : MessageInfo) (amount : ℕ)
    {out : Store × List Message} {lp_balance : ℕ}
    → IsValid s
    → unbond q s env info amount ≡ ok out
    → q.query_deposit s.config.staking_contract s.config.liquidity_token env.contract
      ≡ ok lp_balance
    → lp_balance < u128_mod
    → (c : Addr)
    → (amount ≤ lp_balance)
      × ((c ≡ info.sender)
          ⊎ ((lookup c out.0.rewards ≡ lookup c s.rewards)
              × NotDiluted s.state lp_balance out.0.state
                  (lp_balance - amount)
                  (balance_in s.rewards c)))
unbond-worth q s env info amount {out} {lp_balance} v h asked small c =
    let (
      lp, asked', own, found', balance, counted, pos, covered, share, ceiled, r', unbonded, enough,
      left,
    ) =
      unbond-ok q s env info amount h in
    let T = s.state.total_bond_share in
    let same : lp ≡ lp_balance = ground arith in
    let own-le = lookup-le s info.sender v found' in
    let taken = unbond_info-ok own share unbonded in
    let ceiling = multiply_ratio_and_ceil-IsCeiling own.bond_share amount balance ceiled in
    let counted' =
      subst (λ x. calc_user_balance {E = ContractError} own s.state x env.time ≡ ok balance) same
        counted in
    let most = (calc_user_balance-ok own s.state lp_balance env.time counted').0 in
    let keep : (share_c : ℕ) → own.bond_share + share_c ≤ T → _ = λ share_c two.
      withdraw-worth_others T lp_balance own.bond_share amount balance share share_c (omega arith)
        (omega arith) enough pos covered most (omega arith) in
    let state' : State = record { total_bond_share = T - share } in
    let others : c ≢ info.sender
        → (lookup c out.0.rewards ≡ lookup c s.rewards)
          × NotDiluted s.state lp_balance out.0.state (lp_balance - amount)
              (balance_in s.rewards c) =
      λ other.
        let share_c = balance_in s.rewards c in
        let two = two_balances-le s info.sender c v other found' in
        rw left (
          ground (arith, lookup-insert info.sender c r' s.rewards),
          (
            worth T lp_balance share_c,
            worth (T - share) (lp_balance - amount) share_c,
            calc_bond_amount-worth s.state lp_balance share_c (omega arith) small,
            calc_bond_amount-worth state' (lp_balance - amount) share_c (omega arith) (omega arith),
            (keep share_c two).1,
          ),
        ) in
    (
      (keep 0 (omega arith)).0,
      elim (Bool-cases (c == info.sender)) [
        | inl e ↦ inl ((==_iff c info.sender).0 e)
        | inr e ↦ inr (others (λ same_user. ground arith))
      ],
    )

-- What a depositor is credited with, and what entry the deposit leaves.
pub bond_internal-deposit :
    (q : Querier) (s : Store) (env : Env) (a : Addr) (amount : ℕ) {out : Store × List Message}
    {lp_balance : ℕ}
    → bond_internal q s env a amount ≡ ok out
    → q.query_deposit s.config.staking_contract s.config.liquidity_token env.contract
      ≡ ok lp_balance
    → (0 < s.state.total_bond_share) ⊎ (lp_balance ≡ 0)
    → (get_or (lookup a out.0.rewards) default_reward_info).deposit_amount
      ≤ (get_or (lookup a s.rewards) default_reward_info).deposit_amount + amount
bond_internal-deposit q s env a amount {out} {lp_balance} h asked owned =
    let (lp, asked', small, share, shared, deposit, valued, pool, _, r, ensured, r', bonded, left) =
      bond_internal-ok q s env a amount h in
    let same : lp ≡ lp_balance = ground arith in
    let owned' : (0 < s.state.total_bond_share) ⊎ (lp ≡ 0) = ground arith in
    let old = get_or (lookup a s.rewards) default_reward_info in
    let most = deposit-worth_own s.state amount lp owned' shared valued in
    let b = bond_info-ok r share deposit env.time pool bonded in
    let e = ensure_deposit_costs-ok old s.pool_info ensured in
    rw (left, lookup-insert a a r' s.rewards) (ground (arith, b, e.deposit_amount))
