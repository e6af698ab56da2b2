-- ===== src/Farm/Shares/Dilution.antt =====
-- The worth of shares: no deposit and no withdrawal lowers what the shares of the others are worth.
use spectrum_core.Base.{
  ℕ, zero, suc, if◌then◌else◌, ◌+◌, ◌-◌, ◌*◌, ◌/◌, ◌≤◌, ◌<◌, ◌≡◌, refl, inl, inr, ◌⊎◌, min, arith,
  ok, ◌==◌, subst,
}
use native.Mathlib.Nat.{
  le_trans, le-div_iff_mul-le, div-mul-le_self, mul-le-mul_left, mul-le-mul_right,
  le_of_mul-le-mul_right, div-le_of_le-mul,
}
use spectrum_core.Cosmwasm.Math.{math, u128_mod}
use spectrum_core.Farm.{State, RewardInfo, ContractError, truncate}
use spectrum_core.Farm.Shares.{calc_bond_share, calc_bond_amount, calc_user_balance, day}

-- A quotient `L * h / T` does not fall when the price `L / T` does not.
pub ratio-le : (L T L' T' h : ℕ) → 0 < T → 0 < T' → L * T' ≤ L' * T → L * h / T ≤ L' * h / T'
ratio-le L T L' T' h p p' le =
    let down : L * h / T * T ≤ L * h = div-mul-le_self (L * h) T in
    let scaled : L * h / T * T * T' ≤ L * h * T' = mul-le-mul_right T' down in
    let price : h * (L * T') ≤ h * (L' * T) = mul-le-mul_left h le in
    (le-div_iff_mul-le p').1 (le_of_mul-le-mul_right (omega arith) p)

-- The price after a deposit, whose share is rounded down.
pub deposit-price : (L T a share : ℕ) → share * L ≤ a * T → L * (T + share) ≤ (L + a) * T
deposit-price L T a share h = omega arith

-- What the depositor gets is worth no more than the deposit.
deposit-worth : (L T a share : ℕ) → share * L ≤ a * T → (L + a) * share ≤ a * (T + share)
deposit-worth L T a share h = omega arith

-- The price after a withdrawal, whose share is rounded up.
withdraw-price :
    (L T b amount balance share : ℕ)
    → 0 < b
    → balance * T ≤ L * b
    → b * amount ≤ share * balance
    → amount * T ≤ share * L
withdraw-price L T b amount balance share p h k =
    let x : share * (balance * T) ≤ share * (L * b) = mul-le-mul_left share h in
    let y : b * amount * T ≤ share * balance * T = mul-le-mul_right T k in
    le_of_mul-le-mul_right {k = b} (omega arith) p

-- What `share` of `total` shares are worth of the deposit `lp_balance` of the vault.
abbrev pub worth : ℕ → ℕ → ℕ → ℕ
worth total lp_balance share = if total == 0 then 0 else lp_balance * share / total

worth-le : (T L h : ℕ) → h ≤ T → worth T L h ≤ L
worth-le T L h le =
    let scaled : L * h ≤ T * L = omega (arith, mul-le-mul_left L le) in
    ground (arith, div-le_of_le-mul T scaled)

pub worth-empty : (T h : ℕ) → worth T 0 h ≡ 0
worth-empty T h =
    let scaled : 0 * h ≤ T * 0 = omega arith in ground (arith, div-le_of_le-mul T scaled)

pub calc_bond_amount-worth :
    (state : State) (L h : ℕ)
    → h ≤ state.total_bond_share
    → L < u128_mod
    → calc_bond_amount {E = ContractError} state L h ≡ ok (worth state.total_bond_share L h)
unfolding calc_bond_amount
calc_bond_amount-worth state L h le small = ground (arith, worth-le state.total_bond_share L h le)

pub calc_bond_amount-ok :
    (state : State) (L h : ℕ) {v : ℕ}
    → calc_bond_amount {E = ContractError} state L h ≡ ok v
    → v ≡ worth state.total_bond_share L h
unfolding calc_bond_amount
calc_bond_amount-ok state L h e = ground arith

pub calc_bond_share-ok :
    (state : State) (a L : ℕ) {share : ℕ}
    → calc_bond_share {E = ContractError} state a L truncate ≡ ok share
    → (((state.total_bond_share ≡ 0) ⊎ (L ≡ 0)) × (share ≡ a))
      ⊎ ((0 < state.total_bond_share) × (0 < L) × (share ≡ a * state.total_bond_share / L))
unfolding calc_bond_share
calc_bond_share-ok state a L e = ground arith

-- A deposit does not lower the worth of other shares.
pub deposit-worth_others :
    (state : State) (a L h : ℕ) {share : ℕ}
    → calc_bond_share {E = ContractError} state a L truncate ≡ ok share
    → worth state.total_bond_share L h ≤ worth (state.total_bond_share + share) (L + a) h
deposit-worth_others state a L h {share} e = elim (calc_bond_share-ok state a L e) [
  | inl (inl none_yet, _) ↦ rw none_yet (omega arith)
  | inl (inr empty, _) ↦ rw (empty, worth-empty state.total_bond_share h) (omega arith)
  | inr (pos, filled, eq) ↦
      let rounded : share * L ≤ a * state.total_bond_share =
        rw eq (div-mul-le_self (a * state.total_bond_share) L) in
      let step =
        ratio-le L state.total_bond_share (L + a) (state.total_bond_share + share) h pos
          (omega arith) (deposit-price L state.total_bond_share a share rounded) in
      ground arith
]

-- What a depositor is credited with is no more than the deposit, where no LP token lies in the
-- vault without a share.
pub deposit-worth_own :
    (state : State) (a L : ℕ) {share deposit : ℕ}
    → (0 < state.total_bond_share) ⊎ (L ≡ 0)
    → calc_bond_share {E = ContractError} state a L truncate ≡ ok share
    → calc_bond_amount {E = ContractError}
        (record { total_bond_share = state.total_bond_share + share })
        (L + a)
        share
      ≡ ok deposit
    → deposit ≤ a
deposit-worth_own state a L {share} {deposit} owned e f =
    let T = state.total_bond_share in
    let value = calc_bond_amount-ok (record { total_bond_share = T + share }) (L + a) share f in
    let rounded : share * L ≤ a * T → worth (T + share) (L + a) share ≤ a = λ h.
      let scaled : (L + a) * share ≤ (T + share) * a = omega (arith, deposit-worth L T a share h) in
      ground (arith, div-le_of_le-mul (T + share) scaled) in
    elim (calc_bond_share-ok state a L e) [
      | inl (none_yet, _) ↦
          let empty : L ≡ 0 = ground arith in rw value (rounded (rw empty (omega arith)))
      | inr (pos, filled, eq) ↦ rw value (rounded (rw eq (div-mul-le_self (a * T) L)))
    ]

calc_user_balance_cases :
    (r : RewardInfo) (state : State) (L time : ℕ) {v : ℕ}
    → calc_user_balance {E = ContractError} r state L time ≡ ok v
    → (r.deposit_time ≤ time)
      × (((v ≡ worth state.total_bond_share L r.bond_share)
            × ((r.deposit_time + day ≤ time) ⊎ (v ≤ r.deposit_amount)))
          ⊎ ((time - r.deposit_time < day)
              × (r.deposit_amount < worth state.total_bond_share L r.bond_share)
              × (v
                  ≡ r.deposit_amount
                    + (worth state.total_bond_share L r.bond_share - r.deposit_amount)
                      * (time - r.deposit_time)
                      / day)))
unfolding calc_user_balance calc_bond_amount
calc_user_balance_cases r state L time h = ground arith

-- What a user can take out is no more than the shares are worth, no less than the smaller of that
-- and the deposit, and exactly that from a day after the deposit on.
pub calc_user_balance-ok :
    (r : RewardInfo) (state : State) (L time : ℕ) {v : ℕ}
    → calc_user_balance {E = ContractError} r state L time ≡ ok v
    → (v ≤ worth state.total_bond_share L r.bond_share)
      × (min r.deposit_amount (worth state.total_bond_share L r.bond_share) ≤ v)
      × (r.deposit_time ≤ time)
      × (r.deposit_time + day ≤ time → v ≡ worth state.total_bond_share L r.bond_share)
calc_user_balance-ok r state L time h =
    let A = worth state.total_bond_share L r.bond_share in
    let (passed, which) = calc_user_balance_cases r state L time h in
    elim which [
      | inl (eq, _) ↦ (omega arith, omega arith, passed, λ _. eq)
      | inr (recent, profit, eq) ↦
          let young : time - r.deposit_time ≤ day = omega arith in
          let part : (A - r.deposit_amount) * (time - r.deposit_time) / day ≤ A - r.deposit_amount =
            div-le_of_le-mul day
              (le_trans (mul-le-mul_left (A - r.deposit_amount) young) (omega arith)) in
          (omega arith, omega arith, passed, λ late. ground arith)
    ]

-- The price after tokens and shares are taken out.
rest-price :
    (L T L' T' amount share : ℕ)
    → L ≡ L' + amount
    → T ≡ T' + share
    → amount * T ≤ share * L
    → L * T' ≤ L' * T
rest-price L T L' T' amount share e f h =
    let h' : amount * (T' + share) ≤ share * (L' + amount) =
      subst (λ x. amount * (T' + share) ≤ share * x) e (subst (λ x. amount * x ≤ share * L) f h) in
    rw (e, f) (omega arith)

factor_pos : (L b : ℕ) → 0 < L * b → 0 < b
factor_pos L zero h = omega arith
factor_pos L (suc b) h = omega arith

worth-none : (T L : ℕ) → worth T L 0 ≡ 0
worth-none T L =
    let scaled : L * 0 ≤ T * 0 = omega arith in ground (arith, div-le_of_le-mul T scaled)

-- A withdrawal does not lower the worth of other shares.
pub withdraw-worth_others :
    (T L b amount balance share h : ℕ)
    → b ≤ T
    → h ≤ T - share
    → share ≤ T
    → 0 < amount
    → amount ≤ balance
    → balance ≤ worth T L b
    → b * amount ≤ share * balance
    → (amount ≤ L) × (worth T L h ≤ worth (T - share) (L - amount) h)
withdraw-worth_others T L b amount balance share h own other enough pos covered bal ceiling =
    let le : amount ≤ L = le_trans covered (le_trans bal (worth-le T L b own)) in
    let filled : 0 < T = ground arith in
    let value : worth T L b ≡ L * b / T = ground arith in
    let product : balance * T ≤ L * b =
      le_trans (mul-le-mul_right T (subst (λ x. balance ≤ x) value bal))
        (div-mul-le_self (L * b) T) in
    let holds : 0 < b = factor_pos L b (omega (arith, product, mul-le-mul_left balance filled)) in
    let price = withdraw-price L T b amount balance share holds product ceiling in
    let price' =
      rest-price L T (L - amount) (T - share) amount share (omega arith) (omega arith) price in
    let step = ratio-le L T (L - amount) (T - share) h filled in
    let none_left : (T - share ≡ 0) → worth T L h ≡ 0 =
      λ e. let no_share : h ≡ 0 = omega arith in rw (no_share, worth-none T L) refl in
    (le, ground arith)
