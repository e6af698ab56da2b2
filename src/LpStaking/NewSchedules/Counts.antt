-- ===== src/LpStaking/NewSchedules/Counts.antt =====
-- `assert_new_schedules` decides a statement about how often entries occur.
use spectrum_core.Base.{
  ℕ, ◌+◌, ◌-◌, ◌≤◌, ◌<◌, ◌^◌, ◌≡◌, ◌≢◌, refl, ◌∙◌, ◌↔◌, ◌⊎◌, inl, inr, true, false, ◌&&◌, List, [],
  ◌∷◌, arith, ltb, leb, if◌then◌else◌, ok, err, panic, length, leb→le, Bool-cases, Option-cases,
}
use spectrum_core.Cosmwasm.Map.{
  Map, lookup, insert, lookup-insert, IsSorted, insert-IsSorted, Above, lookup-Above,
}
use spectrum_core.Cosmwasm.Map.Sums.{All, All-insert}
use spectrum_core.LpStaking.{
  Schedule, Config, State, invalid_distribution_schedule, distribution_schedule_started,
}
use spectrum_core.LpStaking.NewSchedules.{
  schedule_eq, schedule_eq_iff, schedule_key, count_in, count_schedules, check_existing, check_new,
  assert_new_schedules,
}

-- How often an entry occurs in a schedule.
abbrev pub count : Schedule → List Schedule → ℕ
count s [] = 0
count s (x ∷ xs) = (if schedule_eq s x then 1 else 0) + count s xs

count_in-insert :
    (s k : Schedule) (n : ℕ) (m : Map Schedule ℕ)
    → count_in s (insert k n m) ≡ (if schedule_eq s k then n else count_in s m)
count_in-insert s k n m = ground (arith, lookup-insert k s n m)

count-le-length : (s : Schedule) (l : List Schedule) → count s l ≤ length l
count-le-length s [] = omega arith
count-le-length s (x ∷ xs) = ground (arith, count-le-length s xs)

abbrev Positive : ℕ → Type 0
Positive n = 0 < n

-- Every count of a map is at most a bound.
abbrev Bounded : ℕ → Map Schedule ℕ → Type 0
Bounded n m = (s : Schedule) → count_in s m ≤ n

-- The first loop of the source counts: below 2^32 entries it does not panic, and the map that it
-- builds is in order, holds for each entry how often it occurs, and no count of 0.
count_schedules-ok :
    (l : List Schedule) (m : Map Schedule ℕ) (n : ℕ)
    → IsSorted m
    → All Positive m
    → Bounded n m
    → n + length l < 2 ^ 32
    → (m' : Map Schedule ℕ) × (count_schedules l m ≡ ok m')
      × IsSorted m'
      × All Positive m'
      × ((s : Schedule) → count_in s m' ≡ count_in s m + count s l)
unfolding count_schedules
count_schedules-ok [] m n sorted p b h = (m, refl, sorted, p, λ s. omega arith)
count_schedules-ok (x ∷ xs) m n sorted p b h =
    let m1 = insert x (count_in x m + 1) m in
    let b1 : Bounded (n + 1) m1 = λ s.
      ground (arith, b s, b x, schedule_eq_iff s x, count_in-insert s x (count_in x m + 1) m) in
    let (m', run, sorted', p', counts) =
      count_schedules-ok xs m1 (n + 1) (insert-IsSorted x (count_in x m + 1) m sorted)
        (All-insert Positive x (count_in x m + 1) m (omega arith) p) b1 (omega arith) in
    (
      m',
      ground (arith, b x),
      sorted',
      p',
      λ s. ground (arith, counts s, schedule_eq_iff s x, count_in-insert s x (count_in x m + 1) m),
    )

count_in-Above : (k : Schedule) (m : Map Schedule ℕ) → Above k m → count_in k m ≡ 0
count_in-Above k m a = rw (lookup-Above k m a)

-- `left` is `new` with the counts of `old` taken out of those that have begun.
abbrev Left : ℕ → Map Schedule ℕ → Map Schedule ℕ → Map Schedule ℕ → Type 0
Left last old new left =
    (s : Schedule) → (s.start ≤ last → count_in s left + count_in s old ≡ count_in s new)

-- An entry has begun that `old` counts more often than `new`.
abbrev Short : ℕ → Map Schedule ℕ → Map Schedule ℕ → Type 0
Short last old new = (s : Schedule) × (s.start ≤ last) × (count_in s new < count_in s old)

check_existing-step :
    (last : ℕ) (k : Schedule) (c : ℕ) (rest new : Map Schedule ℕ)
    → leb k.start last ≡ true
    → ltb (count_in k new) c ≡ false
    → 0 < c
    → check_existing last ((k, c) ∷ rest) new
      ≡ check_existing last rest (insert k (count_in k new - c) new)
unfolding check_existing
check_existing-step last k c rest new begun enough p = ground (arith, Option-cases (lookup k new))

check_existing-cases :
    (last : ℕ) (old new : Map Schedule ℕ)
    → IsSorted old
    → All Positive old
    → IsSorted new
    → ((left : Map Schedule ℕ) × (check_existing last old new ≡ ok left)
        × IsSorted left
        × Left last old new left)
      ⊎ ((check_existing last old new ≡ err distribution_schedule_started) × Short last old new)
unfolding check_existing
check_existing-cases last [] new so po sn = inl (new, refl, sn, λ s b. omega arith)
check_existing-cases last ((k, c) ∷ rest) new so po sn = elim (Bool-cases (leb k.start last)) [
  | inr later ↦ elim (check_existing-cases last rest new so.1 po.1 sn) [
    | inl (left, run, sl, l) ↦
        inl (left, rw later run, sl, λ s b. ground (arith, schedule_eq_iff s k, l s b))
    | inr (run, (s, b, short)) ↦ inr (rw later run, (s, b, ground (arith, schedule_eq_iff s k)))
  ]
  | inl begun ↦ elim (Bool-cases (ltb (count_in k new) c)) [
    | inl few ↦ inr (rw (begun, few), (k, leb→le _ _ begun, ground (arith, schedule_eq_iff k k)))
    | inr enough ↦
        let n = count_in k new - c in
        let new1 = insert k n new in
        let step = check_existing-step last k c rest new begun enough po.0 in
        elim (check_existing-cases last rest new1 so.1 po.1 (insert-IsSorted k n new sn)) [
          | inl (left, run, sl, l) ↦ inl (
            left,
            step ∙ run,
            sl,
            λ s b. ground (
              arith,
              schedule_eq_iff s k,
              count_in-Above k rest so.0,
              count_in-insert s k n new,
              l s b,
            ),
          )
          | inr (run, (s, b, short)) ↦ inr (
            step ∙ run,
            (
              s,
              b,
              ground (
                arith,
                schedule_eq_iff s k,
                count_in-Above k rest so.0,
                count_in-insert s k n new,
              ),
            ),
          )
        ]
  ]
]

-- The second loop passes exactly when no entry that has begun is counted.
check_new-cases :
    (last : ℕ) (m : Map Schedule ℕ)
    → IsSorted m
    → ((check_new last m ≡ ok tt) × ((s : Schedule) → s.start ≤ last → count_in s m ≡ 0))
      ⊎ ((check_new last m ≡ err distribution_schedule_started)
          × ((s : Schedule) × (s.start ≤ last) × (0 < count_in s m)))
unfolding check_new
check_new-cases last [] h = inl (refl, λ s b. refl)
check_new-cases last ((k, c) ∷ rest) h = elim (Bool-cases (ltb 0 c && leb k.start last)) [
  | inl bad ↦ inr (rw bad, (k, ground arith, ground (arith, schedule_eq_iff k k)))
  | inr fine ↦ elim (check_new-cases last rest h.1) [
    | inl (run, none_left) ↦
        inl (rw fine run, λ s b. ground (arith, schedule_eq_iff s k, none_left s b))
    | inr (run, (s, b, pos)) ↦
        inr (rw fine run, (s, b, ground (arith, schedule_eq_iff s k, count_in-Above k rest h.0)))
  ]
]

-- Every entry that has begun occurs as often in the new schedule as in the old one.
abbrev pub KeepsBegun : ℕ → List Schedule → List Schedule → Type 0
KeepsBegun last old new = (s : Schedule) → s.start ≤ last → count s new ≡ count s old

-- An entry that has begun occurs more often in one schedule than in the other.
abbrev Differs : ℕ → List Schedule → List Schedule → Type 0
Differs last old new = (s : Schedule) × (s.start ≤ last) × (count s new ≢ count s old)

assert_new_schedules-cases :
    (config : Config) (state : State) (l : List Schedule)
    → length config.distribution_schedule ≤ length l
    → length l < 2 ^ 32
    → ((assert_new_schedules config state l ≡ ok tt)
        × KeepsBegun state.last_distributed config.distribution_schedule l)
      ⊎ ((assert_new_schedules config state l ≡ err distribution_schedule_started)
          × Differs state.last_distributed config.distribution_schedule l)
unfolding assert_new_schedules
assert_new_schedules-cases config state l longer h =
    let old = config.distribution_schedule in
    let last = state.last_distributed in
    let (mo, run_old, so, po, old_counts) =
      count_schedules-ok old [] 0 tt tt (λ s. omega arith) (omega arith) in
    let (mn, run_new, sn, pn, new_counts) =
      count_schedules-ok l [] 0 tt tt (λ s. omega arith) (omega arith) in
    let tested : ltb (length l) (length old) ≡ false = ground arith in
    elim (check_existing-cases last mo mn so po sn) [
      | inr (run, (s, b, short)) ↦
          inr
            (rw (tested, run_old, run_new, run), (s, b, omega (arith, old_counts s, new_counts s)))
      | inl (left, run, sl, l') ↦ elim (check_new-cases last left sl) [
        | inl (run', none_left) ↦ inl (
          rw (tested, run_old, run_new, run, run'),
          λ s b. omega (arith, old_counts s, new_counts s, l' s b, none_left s b),
        )
        | inr (run', (s, b, pos)) ↦ inr (
          rw (tested, run_old, run_new, run, run'),
          (s, b, omega (arith, old_counts s, new_counts s, l' s b)),
        )
      ]
    ]

assert_new_schedules-shorter :
    (config : Config) (state : State) (l : List Schedule)
    → ltb (length l) (length config.distribution_schedule) ≡ true
    → assert_new_schedules config state l ≡ err invalid_distribution_schedule
unfolding assert_new_schedules
assert_new_schedules-shorter config state l h = rw h

-- A new schedule is accepted exactly when it is no shorter than the old one and every entry that
-- has begun, that is whose start is not after the last distribution, occurs in it exactly as often
-- as in the old one; and the test never panics on fewer than 2^32 entries.
pub assert_new_schedules_iff :
    (config : Config) (state : State) (l : List Schedule)
    → length l < 2 ^ 32
    → ((assert_new_schedules config state l ≡ ok tt) ↔ (
        (length config.distribution_schedule ≤ length l)
        × KeepsBegun state.last_distributed config.distribution_schedule l))
      × (assert_new_schedules config state l ≢ panic)
assert_new_schedules_iff config state l h =
    elim (Bool-cases (ltb (length l) (length config.distribution_schedule))) [
      | inl shorter ↦
          let refused = assert_new_schedules-shorter config state l shorter in
          ((λ e. cc, λ e. absurd (ground arith)), λ e. cc)
      | inr longer ↦ elim (assert_new_schedules-cases config state l (ground arith) h) [
        | inl (run, keeps) ↦ ((λ e. (ground arith, keeps), λ e. run), λ e. cc)
        | inr (run, (s, b, ne)) ↦ ((λ e. cc, λ e. absurd (ne (e.1 s b))), λ e. cc)
      ]
    ]
