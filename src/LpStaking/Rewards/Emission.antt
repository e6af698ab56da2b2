-- ===== src/LpStaking/Rewards/Emission.antt =====
-- What `compute_reward` distributes, as a plain function of the schedule and the two times, and the
-- laws of that function.
use spectrum_core.Base.{
  ℕ, ◌+◌, ◌-◌, ◌*◌, ◌/◌, ◌≤◌, ◌<◌, ◌≡◌, ◌∙◌, true, false, inl, inr, ◌⊎◌, List, [], ◌∷◌, min, max,
  arith, ◌==◌, if◌then◌else◌, Bool-cases, ap, lt→ltb, ok, rate-le, div_add-le,
}
use native.Mathlib.Nat.{mul-add, mul-zero, zero-div, zero-add, div-zero}
use spectrum_core.Cosmwasm.Math.{math, decimal_one, u128_mod}
use spectrum_core.LpStaking.{Schedule, Config, State}
use spectrum_core.LpStaking.Rewards.{is_outside, distribution, distribute, compute_reward}

-- Atomics of the reward token for each second of an entry.
abbrev pub rate : Schedule → ℕ
rate s = s.amount * decimal_one / (s.end - s.start)

-- The seconds of an entry that lie between two times.
unfoldable pub passed : Schedule → ℕ → ℕ → ℕ
passed s last now = min s.end now - max s.start last

abbrev pub emission : Schedule → ℕ → ℕ → ℕ
emission s last now = rate s * passed s last now / decimal_one

abbrev pub emissions : List Schedule → ℕ → ℕ → ℕ
emissions [] last now = 0
emissions (s ∷ rest) last now = emission s last now + emissions rest last now

abbrev pub total_amount : List Schedule → ℕ
total_amount [] = 0
total_amount (s ∷ rest) = s.amount + total_amount rest

-- Every entry ends after it starts.
abbrev pub AllOrdered : List Schedule → Type 0
AllOrdered [] = Unit
AllOrdered (s ∷ rest) = (s.start < s.end) × AllOrdered rest

-- The rate of every entry fits a `Decimal`.
abbrev pub AllRated : List Schedule → Type 0
AllRated [] = Unit
AllRated (s ∷ rest) = (rate s < u128_mod) × AllRated rest

passed-le : (s : Schedule) (last now : ℕ) → passed s last now ≤ s.end - s.start
unfolding passed
passed-le s last now = omega arith

passed_add :
    (s : Schedule) (last mid now : ℕ)
    → s.start < s.end
    → last ≤ mid
    → mid ≤ now
    → passed s last mid + passed s mid now ≡ passed s last now
unfolding passed
passed_add s last mid now p h k = omega arith

-- No entry distributes more than its amount.
emission-le : (s : Schedule) (last now : ℕ) → emission s last now ≤ s.amount
emission-le s last now =
    rate-le s.amount decimal_one (s.end - s.start) (passed s last now) (omega arith)
      (passed-le s last now)

pub emissions-le : (l : List Schedule) (last now : ℕ) → emissions l last now ≤ total_amount l
emissions-le [] last now = omega arith
emissions-le (s ∷ rest) last now = omega (arith, emission-le s last now, emissions-le rest last now)

-- To distribute in two steps comes to no more than to distribute at once.
emission_split :
    (s : Schedule) (last mid now : ℕ)
    → s.start < s.end
    → last ≤ mid
    → mid ≤ now
    → emission s last mid + emission s mid now ≤ emission s last now
emission_split s last mid now p h k =
    rw (← passed_add s last mid now p h k, mul-add) (div_add-le _ _ decimal_one (omega arith))

pub emissions_split :
    (l : List Schedule) (last mid now : ℕ)
    → AllOrdered l
    → last ≤ mid
    → mid ≤ now
    → emissions l last mid + emissions l mid now ≤ emissions l last now
emissions_split [] last mid now p h k = omega arith
emissions_split (s ∷ rest) last mid now p h k =
    omega (arith, emission_split s last mid now p.0 h k, emissions_split rest last mid now p.1 h k)

-- An entry that the loop skips distributes nothing.
emission_outside :
    (s : Schedule) (last now : ℕ)
    → last ≤ now
    → is_outside s last now ≡ true
    → s.start < s.end
    → emission s last now ≡ 0
unfolding passed
emission_outside s last now h o p =
    let none_passed : min s.end now - max s.start last ≡ 0 = ground arith in
    rw (none_passed, mul-zero) (zero-div decimal_one)

module _ {E : Type 0} where
  distribution-emission :
      (s : Schedule) (last now : ℕ)
      → is_outside s last now ≡ false
      → last ≤ now
      → s.start < s.end
      → rate s < u128_mod
      → s.amount < u128_mod
      → distribution {E = E} s last now ≡ ok (emission s last now)
  unfolding distribution passed
  distribution-emission s last now o h p r a = ground (arith, emission-le s last now)

  -- On a proper schedule the loop ends with the sum of the emissions.
  pub distribute-emissions :
      (l : List Schedule) (last now acc : ℕ)
      → AllOrdered l
      → AllRated l
      → last ≤ now
      → acc + total_amount l < u128_mod
      → distribute {E = E} l last now acc ≡ ok (acc + emissions l last now)
  unfolding distribute
  distribute-emissions [] last now acc p q h b = ground arith
  distribute-emissions (s ∷ rest) last now acc p q h b = elim (Bool-cases (is_outside s last now)) [
    | inl o ↦
        rw (o, emission_outside s last now h o p.0)
          (distribute-emissions rest last now acc p.1 q.1 h (omega arith) ∙ ap ok (omega arith))
    | inr o ↦
        let e = emission s last now in
        let le : e ≤ s.amount = emission-le s last now in
        rw
          (
            o,
            distribution-emission s last now o h p.0 q.0 (omega arith),
            lt→ltb (acc + e) u128_mod (omega arith),
          )
          (distribute-emissions rest last now (acc + e) p.1 q.1 h (omega arith)
            ∙ ap ok (omega arith))
  ]

-- Where the loop ends at all, it ends with the sum of the emissions.
distribution-ok :
    {E : Type 0} (s : Schedule) (last now : ℕ) {d : ℕ}
    → distribution {E = E} s last now ≡ ok d
    → d ≡ emission s last now
unfolding distribution passed
distribution-ok s last now h = ground arith

distribute-step :
    {E : Type 0} (s : Schedule) (rest : List Schedule) (last now acc : ℕ) {d : ℕ}
    → is_outside s last now ≡ false
    → distribute {E = E} (s ∷ rest) last now acc ≡ ok d
    → (amount : ℕ) × (distribution {E = E} s last now ≡ ok amount)
      × (distribute {E = E} rest last now (acc + amount) ≡ ok d)
unfolding distribute
distribute-step s rest last now acc o e = ground arith

pub distribute-ok :
    {E : Type 0} (l : List Schedule) (last now acc : ℕ) {d : ℕ}
    → AllOrdered l
    → last ≤ now
    → distribute {E = E} l last now acc ≡ ok d
    → d ≡ acc + emissions l last now
unfolding distribute
distribute-ok [] last now acc p h e = ground arith
distribute-ok {E} (s ∷ rest) last now acc {d} p h e = elim (Bool-cases (is_outside s last now)) [
  | inl o ↦ omega (
    arith,
    emission_outside s last now h o p.0,
    distribute-ok {E = E} rest last now acc {d = d} p.1 h (ground arith),
  )
  | inr o ↦
      let (amount, part, more) = distribute-step {E = E} s rest last now acc o e in
      omega (
        arith,
        distribution-ok {E = E} s last now part,
        distribute-ok {E = E} rest last now (acc + amount) p.1 h more,
      )
]

-- What `compute_reward` leaves, where every number fits.
abbrev pub reward_index_after : Config → State → ℕ → ℕ
reward_index_after config state now =
    state.global_reward_index
    + emissions config.distribution_schedule state.last_distributed now
      * decimal_one
      / state.total_bond_amount

pub compute_reward-emissions :
    {E : Type 0} (config : Config) (state : State) (now : ℕ)
    → AllOrdered config.distribution_schedule
    → AllRated config.distribution_schedule
    → total_amount config.distribution_schedule < u128_mod
    → state.last_distributed ≤ now
    → reward_index_after config state now < u128_mod
    → compute_reward {E = E} config state now
      ≡ ok (record state {
        last_distributed = now;
        global_reward_index =
            if state.total_bond_amount == 0
            then state.global_reward_index
            else reward_index_after config state now;
      })
unfolding compute_reward
compute_reward-emissions {E} config state now p q t h b = ground (
  arith,
  distribute-emissions {E = E} config.distribution_schedule state.last_distributed now 0 p q h
      (omega arith),
)

compute_reward-step :
    {E : Type 0} (config : Config) (state : State) (now : ℕ) {state' : State}
    → compute_reward {E = E} config state now ≡ ok state'
    → ((state.total_bond_amount ≡ 0) × (state'.global_reward_index ≡ state.global_reward_index))
      ⊎ ((d : ℕ) × (distribute {E = E} config.distribution_schedule state.last_distributed now 0
            ≡ ok d)
          × (state'.global_reward_index
              ≡ state.global_reward_index + d * decimal_one / state.total_bond_amount))
unfolding compute_reward
compute_reward-step config state now c = ground arith

-- Where `compute_reward` ends at all, the index has grown by the emission for each bonded token
-- (a quotient by 0 is 0).
pub compute_reward-index :
    {E : Type 0} (config : Config) (state : State) (now : ℕ) {state' : State}
    → AllOrdered config.distribution_schedule
    → state.last_distributed ≤ now
    → compute_reward {E = E} config state now ≡ ok state'
    → state'.global_reward_index ≡ reward_index_after config state now
compute_reward-index {E} config state now o h c =
    elim (compute_reward-step {E = E} config state now c) [
      | inl (none_bonded, e) ↦ rw (none_bonded, div-zero) (omega arith)
      | inr (d, looped, grown) ↦
          let e =
            distribute-ok {E = E} config.distribution_schedule state.last_distributed now 0 o h
              looped in
          rw (← zero-add (emissions config.distribution_schedule state.last_distributed now), ← e)
            grown
    ]
