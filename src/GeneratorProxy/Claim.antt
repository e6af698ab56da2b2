-- ===== src/GeneratorProxy/Claim.antt =====
-- The loop of `calc_claim_amount` in contracts/generator_proxy/src/astro_gov.rs.
use spectrum_core.Base.{
  ℕ, zero, suc, ◌+◌, ◌-◌, ◌*◌, ◌/◌, ◌^◌, ◌≤◌, ◌<◌, ◌≡◌, refl, sym, ap, ◌∙◌, true, false, ◌&&◌, ◌||◌,
  Bool-cases, inl, inr, ltb, leb, ◌==◌, if◌then◌else◌, arith, ok, Result, ◌>>=◌, some, min,
}
use spectrum_core.Cosmwasm.Math.{math, u128_mod}
use spectrum_core.Cosmwasm.Std.{Addr, StdError}
use spectrum_core.Cosmwasm.Uint.{add_word}
use spectrum_core.GeneratorProxy.{AstroGov}
use spectrum_core.GeneratorProxy.Chain.{
  Chain, calculate_reward, claim_period_amount, claim_loop, calc_claim_amount,
}

bind-cong {ℓ κ μ} :
    {E : Type ℓ} {A : Type κ} {B : Type μ} (r : Result E A) (f g : A → Result E B)
    → ((a : A) → r ≡ ok a → f a ≡ g a)
    → (r >>= f) ≡ (r >>= g)
bind-cong (ok a) f g h = h a refl
bind-cong (Result.err e) f g h = refl
bind-cong Result.panic f g h = refl

-- Where the loop ends at once, it adds nothing.
claim_loop_stop :
    (c : Chain) (gov : AstroGov) (account lock_end current fuel period amount : ℕ)
    → (ltb period current && leb period lock_end) ≡ false
    → claim_loop c fuel gov account lock_end current period amount ≡ ok amount
unfolding claim_loop
claim_loop_stop c gov account lock_end current zero period amount stop = refl
claim_loop_stop c gov account lock_end current (suc fuel) period amount stop = rw (claim_loop, stop)

-- Any fuel that is at least the periods up to the current one gives the same.
pub claim_loop_enough :
    (c : Chain) (gov : AstroGov) (account lock_end current fuel fuel' period amount : ℕ)
    → current - period ≤ fuel
    → current - period ≤ fuel'
    → claim_loop c fuel gov account lock_end current period amount
      ≡ claim_loop c fuel' gov account lock_end current period amount
unfolding claim_loop
claim_loop_enough c gov account lock_end current zero zero period amount h h' = refl
claim_loop_enough c gov account lock_end current zero (suc k) period amount h h' =
    sym (claim_loop_stop c gov account lock_end current (suc k) period amount (ground arith))
claim_loop_enough c gov account lock_end current (suc k) zero period amount h h' =
    claim_loop_stop c gov account lock_end current (suc k) period amount (ground arith)
claim_loop_enough c gov account lock_end current (suc fuel) (suc fuel') period amount h h' =
    elim (Bool-cases (ltb period current && leb period lock_end)) [
      | inl more ↦
          rw (claim_loop, more)
            (bind-cong (claim_period_amount c gov account period amount) _ _ (λ amount' _.
              bind-cong (add_word 64 period 1) _ _ (λ period' e.
                claim_loop_enough c gov account lock_end current fuel fuel' period' amount'
                  (ground arith) (ground arith))))
      | inr stop ↦ rw (claim_loop, stop)
    ]

module _ (c : Chain) (gov : AstroGov) (account : Addr) (vp total rewards : ℕ → ℕ) where
  -- What the fee distributor pays for a period: the rewards of the week by the voting power.
  abbrev pub claimable : ℕ → ℕ
  claimable period =
      if vp period == 0 || total period == 0 then 0 else vp period * rewards period / total period

  -- The sum over a number of periods from a first one
  abbrev pub claimable_sum : ℕ → ℕ → ℕ
  claimable_sum period zero = 0
  claimable_sum period (suc n) = claimable period + claimable_sum (period + 1) n

  -- What the contracts of the governance answer for every period
  pub record Answers : Type 0 where
    pub vp_answer : (p : ℕ) → c.user_voting_power_at_period gov.voting_escrow account p ≡ ok (vp p)
    pub total_answer : (p : ℕ) → c.total_voting_power_at_period gov.voting_escrow p ≡ ok (total p)
    pub rewards_answer : (p : ℕ) → c.rewards_per_week gov.fee_distributor p ≡ ok (some (rewards p))

  claim_period_amount-value :
      Answers
      → (period amount : ℕ) → amount + claimable period < u128_mod
      → claim_period_amount c gov account period amount ≡ ok (amount + claimable period)
  unfolding claim_period_amount calculate_reward
  claim_period_amount-value a period amount h =
      ground (arith, a.vp_answer period, a.total_answer period, a.rewards_answer period)

  claim_loop_sum :
      Answers
      → (lock_end current n fuel period amount : ℕ) → n ≤ fuel
      → min current (lock_end + 1) - period ≡ n
      → current < 2 ^ 64
      → amount + claimable_sum period n < u128_mod
      → claim_loop c fuel gov account lock_end current period amount
        ≡ ok (amount + claimable_sum period n)
  unfolding claim_loop
  claim_loop_sum a lock_end current zero zero period amount le e small fits = ground arith
  claim_loop_sum a lock_end current zero (suc fuel) period amount le e small fits =
      claim_loop_stop c gov account lock_end current (suc fuel) period amount (ground arith)
      ∙ ap ok (omega arith)
  claim_loop_sum a lock_end current (suc n) zero period amount le e small fits = ground arith
  claim_loop_sum a lock_end current (suc n) (suc fuel) period amount le e small fits =
      let more : (ltb period current && leb period lock_end) ≡ true = ground arith in
      let value = claim_period_amount-value a period amount (omega arith) in
      let next : add_word {E = StdError} 64 period 1 ≡ ok (period + 1) = ground arith in
      let rest =
        claim_loop_sum a lock_end current n fuel (period + 1) (amount + claimable period)
          (omega arith) (omega arith) small (omega arith) in
      rw (claim_loop, more, value, next) (rest ∙ ap ok (omega arith))

  -- The loop comes to the sum.
  pub calc_claim_amount-sum :
      Answers
      → (lock_end start current : ℕ) → c.lock_info_end gov.voting_escrow account ≡ ok lock_end
      → current < 2 ^ 64
      → claimable_sum start (min current (lock_end + 1) - start) < u128_mod
      → calc_claim_amount c gov account start current
        ≡ ok (claimable_sum start (min current (lock_end + 1) - start))
  unfolding calc_claim_amount
  calc_claim_amount-sum a lock_end start current e small fits = rw e (
      claim_loop_sum a lock_end current _ (current - start) start 0 (omega arith) refl small
        (omega arith)
      ∙ ap ok (omega arith))
