-- ===== src/LpStaking/NewSchedules.antt =====
-- contracts/lp_staking/src/contract.rs: `assert_new_schedules`, the test that a new distribution
-- schedule has to pass. Its two `BTreeMap`s are maps in the order of their keys.
pub mod Counts
use spectrum_core.Base.{
  ℕ, ◌+◌, ◌-◌, ◌≡◌, ◌↔◌, Bool, true, false, ◌&&◌, ◌||◌, not, Option, none, some, List, [], ◌∷◌,
  arith, ltb, leb, ◌==◌, if◌then◌else◌, Result, ok, err, ◌>>=◌, ◌>>◌, err_if, or_panic, length,
  get_or,
}
use spectrum_core.Cosmwasm.Map.{Key, Map, lookup, insert}
use spectrum_core.Cosmwasm.Uint.{add_word, sub_word}
use spectrum_core.LpStaking.{
  Schedule, Config, State, ContractError, invalid_distribution_schedule,
  distribution_schedule_started,
}

-- The order of tuples `(u64, u64, Uint128)`.
abbrev pub schedule_eq : Schedule → Schedule → Bool
schedule_eq a b = a.start == b.start && (a.end == b.end && a.amount == b.amount)

abbrev pub schedule_lt : Schedule → Schedule → Bool
schedule_lt a b =
    ltb a.start b.start
    || (a.start == b.start && (ltb a.end b.end || (a.end == b.end && ltb a.amount b.amount)))

pub schedule_eq_iff : (a b : Schedule) → (schedule_eq a b ≡ true) ↔ (a ≡ b)
schedule_eq_iff a b = ground arith

pub schedule-lt_irrefl : (a : Schedule) → schedule_lt a a ≡ false
schedule-lt_irrefl a = ground arith

pub schedule-lt_trans :
    (a b c : Schedule) → schedule_lt a b ≡ true → schedule_lt b c ≡ true → schedule_lt a c ≡ true
schedule-lt_trans a b c p q = ground arith

pub schedule-lt_connex :
    (a b : Schedule) → schedule_eq a b ≡ false → schedule_lt a b ≡ false → schedule_lt b a ≡ true
schedule-lt_connex a b p q = ground arith

instance abbrev pub schedule_key : Key Schedule
schedule_key = record {
  eq = schedule_eq;
  lt = schedule_lt;
  eq_iff = schedule_eq_iff;
  lt_irrefl = schedule-lt_irrefl;
  lt_trans = schedule-lt_trans;
  lt_connex = schedule-lt_connex;
}

-- How often an entry has been counted, 0 where it is no key.
abbrev pub count_in : Schedule → Map Schedule ℕ → ℕ
count_in s counts = get_or (lookup s counts) 0

-- `*counts.entry(schedule).or_insert(0) += 1` for each entry in turn.
unfoldable pub count_schedules :
    List Schedule → Map Schedule ℕ → Result ContractError (Map Schedule ℕ)
count_schedules [] counts = ok counts
count_schedules (s ∷ rest) counts =
    add_word 32 (count_in s counts) 1 >>= λ counter. count_schedules rest (insert s counter counts)

-- The first loop: every entry that has begun is taken out of the new counts, as often as it was.
unfoldable pub check_existing :
    ℕ → Map Schedule ℕ → Map Schedule ℕ → Result ContractError (Map Schedule ℕ)
check_existing last [] new_counts = ok new_counts
check_existing last ((schedule, count) ∷ rest) new_counts =
    let begun : Result ContractError (Map Schedule ℕ) = (do
      err_if (ltb (count_in schedule new_counts) count) distribution_schedule_started
      new_count ← or_panic (lookup schedule new_counts)
      left ← sub_word new_count count
      check_existing last rest (insert schedule left new_counts)) in
    let later = check_existing last rest new_counts in
    if leb schedule.start last then begun else later

-- The second loop: what is left over has not begun.
unfoldable pub check_new : ℕ → Map Schedule ℕ → Result ContractError (Unit {0})
check_new last [] = ok tt
check_new last ((schedule, count) ∷ rest) =
    let more = check_new last rest in
    if ltb 0 count && leb schedule.start last then err distribution_schedule_started else more

unfoldable pub assert_new_schedules :
    Config → State → List Schedule → Result ContractError (Unit {0})
assert_new_schedules config state distribution_schedule = do
  err_if (ltb (length distribution_schedule) (length config.distribution_schedule))
      invalid_distribution_schedule
  existing_counts ← count_schedules config.distribution_schedule []
  new_counts ← count_schedules distribution_schedule []
  left ← check_existing state.last_distributed existing_counts new_counts
  check_new state.last_distributed left
