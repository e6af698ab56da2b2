-- ===== src/LpStaking/Tests.antt =====
-- contracts/lp_staking at concrete inputs: two stakers under one entry of the schedule.
use spectrum_core.Base.{
  ◌<◌, ◌↔◌, ℕ, ◌+◌, ◌≤◌, ◌≡◌, ◌≢◌, ◌↔◌, refl, none, some, List, [], ◌∷◌, arith, ok, err, panic,
  length, if◌then◌else◌, ◌==◌,
}
use spectrum_core.Cosmwasm.Math.{math, math-IsMath}
use spectrum_core.Cosmwasm.Std.{Addr, Api, Env, MessageInfo}
use spectrum_core.Cosmwasm.Map.{ℕ_key, lookup}
use spectrum_core.Ownership.{propose_new_owner}
use spectrum_core.LpStaking.{
  Schedule, Config, State, RewardInfo, ContractError, unbond_exceed_balance, Store,
  read_reward_info, ExecuteMsg, Transfer,
}
use spectrum_core.LpStaking.Rewards.{
  compute_reward, compute_staker_reward, distribute, distribution,
}
use spectrum_core.LpStaking.Rewards.Emission.{passed, emissions, reward_index_after}
use spectrum_core.LpStaking.NewSchedules.{
  assert_new_schedules, count_schedules, check_existing, check_new,
}
use spectrum_core.LpStaking.NewSchedules.Counts.{KeepsBegun, assert_new_schedules_iff}
use spectrum_core.LpStaking.Handlers.{InstantiateMsg, instantiate, execute, unbond, withdraw}
use spectrum_core.LpStaking.Handlers.Invariant.{IsValid}
use spectrum_core.LpStaking.Handlers.Liability.{liability, rewards_paid}
use spectrum_core.LpStaking.Accounting.{
  start, next, Reach-IsValid, execute_solvency, execute_others,
}
use spectrum_core.LpStaking.Settlement.{
  compute_reward-emissions, compute_reward_split, compute_staker_reward_twice, execute_exceeds_iff,
  unbond_succeeds,
}

-- Every address is valid.
abbrev api : Api
api a = ok a

abbrev entry : Schedule
entry = record { start = 10; end = 110; amount = 1_000_000 }

abbrev config : Config
config = record {
  owner = 1;
  reward_token = 2;
  staking_token = 3;
  distribution_schedule = entry ∷ [];
}

abbrev state : State
state = record { last_distributed = 20; total_bond_amount = 400; global_reward_index = 0 }

abbrev bonded : ℕ → RewardInfo
bonded amount = record { reward_index = 0; bond_amount = amount; pending_reward = 0 }

abbrev sample : Store
sample = record {
  config = config;
  state = state;
  reward_infos = (5, bonded 100) ∷ (7, bonded 300) ∷ [];
  ownership_proposal = none;
}

abbrev at : ℕ → Env
at time = record { height = 1; time = time; contract = 9 }

abbrev from : Addr → MessageInfo
from sender = record { sender = sender; funds = [] }

-- Forty of the hundred seconds pass, so 400,000 are emitted, and 1,000 for each bonded token.
abbrev index : ℕ
index = 1_000_000_000_000_000_000_000

abbrev state_at_60 : State
state_at_60 = record state { last_distributed = 60; global_reward_index = index }

compute_reward_run : compute_reward {E = ContractError} config state 60 ≡ ok state_at_60
unfolding compute_reward distribute distribution
compute_reward_run = refl

abbrev after_unbond : Store
after_unbond = record sample {
  state = record state_at_60 { total_bond_amount = 360 };
  reward_infos =
      (5, record { reward_index = index; bond_amount = 60; pending_reward = 100_000 })
      ∷ (7, bonded 300)
      ∷ [];
}

abbrev sent : List Transfer
sent = record { token = 3; recipient = 5; amount = 40 } ∷ []

unbond_run : execute api sample (at 60) (from 5) (ExecuteMsg.unbond 40) ≡ ok (after_unbond, sent)
unfolding execute unbond compute_reward distribute distribution compute_staker_reward
    read_reward_info
unbond_run = refl

abbrev after_withdraw : Store
after_withdraw = record sample {
  state = state_at_60;
  reward_infos =
      (5, record { reward_index = index; bond_amount = 100; pending_reward = 0 })
      ∷ (7, bonded 300)
      ∷ [];
}

withdraw_run :
    execute api sample (at 60) (from 5) (ExecuteMsg.withdraw none)
    ≡ ok (after_withdraw, record { token = 2; recipient = 5; amount = 100_000 } ∷ [])
unfolding execute withdraw compute_reward distribute distribution compute_staker_reward
    read_reward_info
withdraw_run = refl

sample-IsValid : IsValid sample
sample-IsValid = record { sorted = ground arith; total = refl; paid = ground arith }

abbrev created : Store
created = record {
  config = config;
  state = record { last_distributed = 5; total_bond_amount = 0; global_reward_index = 0 };
  reward_infos = [];
  ownership_proposal = none;
}

abbrev instantiate_msg : InstantiateMsg
instantiate_msg = record {
  owner = 1;
  reward_token = 2;
  staking_token = 3;
  distribution_schedule = entry ∷ [];
}

instantiate_run : instantiate api (at 5) instantiate_msg ≡ ok created
unfolding instantiate
instantiate_run = refl

propose_run :
    execute api created (at 6) (from 1) (ExecuteMsg.propose_new_owner 8 100)
    ≡ ok (record created { ownership_proposal = some (record { owner = 8; ttl = 106 }) }, [])
unfolding execute propose_new_owner
propose_run = refl

Reach-IsValid_example :
    IsValid (record created { ownership_proposal = some (record { owner = 8; ttl = 106 }) })
Reach-IsValid_example = Reach-IsValid math-IsMath {api = api} (
    next (at 6) (from 1) (ExecuteMsg.propose_new_owner 8 100) []
      (start (at 5) instantiate_msg instantiate_run) propose_run)

execute_solvency_example :
    liability after_withdraw.state.global_reward_index after_withdraw.reward_infos
      + rewards_paid
          (ExecuteMsg.withdraw none)
          (record { token = 2; recipient = 5; amount = 100_000 } ∷ [])
    ≤ liability sample.state.global_reward_index sample.reward_infos
      + emissions config.distribution_schedule 20 60
      + length sample.reward_infos
execute_solvency_example =
    execute_solvency math-IsMath api sample (at 60) (from 5) (ExecuteMsg.withdraw none)
      sample-IsValid (omega arith) (omega arith) withdraw_run

execute_others_example : lookup 7 after_unbond.reward_infos ≡ lookup 7 sample.reward_infos
execute_others_example =
    execute_others math-IsMath api sample (at 60) (from 5) (ExecuteMsg.unbond 40) 7 sample-IsValid
      unbond_run (omega arith)

compute_reward-emissions_example :
    compute_reward {E = ContractError} config state 60
    ≡ ok (record state {
      last_distributed = 60;
      global_reward_index =
          if state.total_bond_amount == 0
          then state.global_reward_index
          else reward_index_after config state 60;
    })
unfolding passed
compute_reward-emissions_example =
    compute_reward-emissions math-IsMath config state 60 (omega arith) (omega arith) (omega arith)
      (omega arith) (omega arith)

abbrev state_at_40 : State
state_at_40 = record state {
  last_distributed = 40;
  global_reward_index = 500_000_000_000_000_000_000;
}

compute_reward_run_40 : compute_reward {E = ContractError} config state 40 ≡ ok state_at_40
unfolding compute_reward distribute distribution
compute_reward_run_40 = refl

compute_reward_run_40_60 : compute_reward {E = ContractError} config state_at_40 60 ≡ ok state_at_60
unfolding compute_reward distribute distribution
compute_reward_run_40_60 = refl

compute_reward_split_example : (◌≡◌ {A = ℕ} 60 60) × (◌≡◌ {A = ℕ} 400 400) × (index ≤ index)
compute_reward_split_example =
    compute_reward_split math-IsMath {E = ContractError} config state 40 60 state_at_40 state_at_60
      state_at_60 (omega arith) (omega arith) (omega arith) compute_reward_run_40
      compute_reward_run_40_60 compute_reward_run

abbrev settled_at_40 : RewardInfo
settled_at_40 = record {
  reward_index = 500_000_000_000_000_000_000;
  bond_amount = 100;
  pending_reward = 50_000;
}

settle_run : compute_staker_reward state_at_40 (bonded 100) ≡ ok settled_at_40
unfolding compute_staker_reward
settle_run = refl

compute_staker_reward_twice_example :
    compute_staker_reward state_at_60 settled_at_40 ≡ compute_staker_reward state_at_60 (bonded 100)
compute_staker_reward_twice_example =
    compute_staker_reward_twice math-IsMath state_at_40 state_at_60 (bonded 100) settled_at_40
      (omega arith) (omega arith) settle_run

execute_exceeds_iff_example :
    (execute api sample (at 60) (from 5) (ExecuteMsg.unbond 101) ≡ err unbond_exceed_balance) ↔ (
      (amount : ℕ) × (◌≡◌ {A = ExecuteMsg} (ExecuteMsg.unbond 101) (ExecuteMsg.unbond amount))
      × ((read_reward_info sample 5).bond_amount < amount))
execute_exceeds_iff_example =
    execute_exceeds_iff math-IsMath api sample (at 60) (from 5) (ExecuteMsg.unbond 101)

-- The bond of 5 is 100.
exceeds_run :
    execute api sample (at 60) (from 5) (ExecuteMsg.unbond 101) ≡ err unbond_exceed_balance
unfolding execute unbond read_reward_info
exceeds_run = refl

unbond_succeeds_example :
    (s' : Store) × (unbond sample (at 60) (from 5) 40
      ≡ ok (s', record { token = 3; recipient = 5; amount = 40 } ∷ []))
unfolding read_reward_info passed
unbond_succeeds_example =
    unbond_succeeds math-IsMath sample (at 60) (from 5) 40 sample-IsValid (omega arith)
      (omega arith) (omega arith) (omega arith) (omega arith) (omega arith) (omega arith)

-- The entry that has begun is kept, and a later one is added.
abbrev longer : List Schedule
longer = record { start = 200; end = 300; amount = 5 } ∷ entry ∷ []

assert_new_schedules_iff_example :
    ((assert_new_schedules config state longer ≡ ok tt) ↔ (
      (length config.distribution_schedule ≤ length longer)
      × KeepsBegun 20 config.distribution_schedule longer))
    × (assert_new_schedules config state longer ≢ panic)
assert_new_schedules_iff_example = assert_new_schedules_iff config state longer (omega arith)

assert_new_schedules_run : assert_new_schedules config state longer ≡ ok tt
unfolding assert_new_schedules count_schedules check_existing check_new
assert_new_schedules_run = refl
