-- ===== src/Farm/Tests.antt =====
-- contracts/astroport_farm at concrete inputs: two users who own 400 shares of 800 LP tokens.
use spectrum_core.Base.{
  ◌⊎◌, ℕ, false, ◌-◌, ◌*◌, ◌≤◌, ◌≡◌, if◌then◌else◌, refl, inl, none, some, List, [], ◌∷◌, arith,
  leb, ok, err,
}
use spectrum_core.Cosmwasm.Math.{math, math-IsMath}
use spectrum_core.Cosmwasm.Std.{
  Coin, Addr, Api, Env, MessageInfo, at_height, at_time, never, IsExpired, not_found,
}
use spectrum_core.Cosmwasm.Map.{ℕ_key, pair_key, pair_eq, lookup}
use spectrum_core.Helper.{compute_deposit_time, multiply_ratio_and_ceil}
use spectrum_core.Farm.{
  token, native_token, Asset, PoolResponse, Config, RewardInfo, Store, ContractError, Cw20HookMsg,
  send, withdraw, transfer, duplicated_asset,
}
use spectrum_core.Farm.Messages.{InstantiateMsg, ExecuteMsg}
use spectrum_core.Farm.Adapters.{Querier}
use spectrum_core.Farm.Shares.{
  calc_bond_share, calc_bond_amount, calc_user_balance, add_costs, ensure_deposit_costs, bond_info,
  unbond_info,
}
use spectrum_core.Farm.Balances.{balance_in, IsValid}
use spectrum_core.Farm.Bond.{bond_internal, bond, unbond, check_duplicates, check_adjacent}
use spectrum_core.Farm.Cw20.{
  receive_share, transfer_internal, deduct_allowance, execute_transfer_from,
  execute_increase_allowance, execute_decrease_allowance,
}
use spectrum_core.Farm.Cw20.Steps.{balance_moved}
use spectrum_core.Farm.Cw20.Effects.{allowance_in}
use spectrum_core.Farm.Contract.{instantiate, validate, validate_percentage, execute, receive_cw20}
use spectrum_core.Farm.Worth.{NotDiluted}
use spectrum_core.Farm.Vault.{
  start, next, Reachable-IsValid, bond_internal_no_dilution, unbond_no_dilution,
  bond_internal_credit, calc_user_balance_bounds, execute-IsAllowed,
}
use spectrum_core.Farm.Token.{
  transfer_internal_moves, execute_transfer_from_spends, execute_increase_allowance_adds,
  execute_decrease_allowance_takes,
}

abbrev api : Api
api a = ok a

abbrev is_expired : IsExpired
is_expired (at_height h) env = leb h env.height
is_expired (at_time t) env = leb t env.time
is_expired never env = false

abbrev pool : PoolResponse
pool = record {
  assets =
      record { info = native_token 1; amount = 1000 }
      ∷ record { info = token 2; amount = 2000 }
      ∷ [];
  total_share = 1000;
}

-- The farm has 800 LP tokens in the generator, of which the pair has 1000.
abbrev answers : ℕ → Querier
answers deposit = record {
  query_deposit = λ generator lp_token staker. ok deposit;
  query_pending_token = λ generator lp_token staker. err not_found;
  query_pool_info = λ pair. ok pool;
  query_token_balance = λ contract account. ok 0;
  assert_sent_native_token_balance = λ asset info. ok tt;
}

abbrev name_bytes : List ℕ
name_bytes = 65 ∷ 66 ∷ 67 ∷ []

abbrev config : Config
config = record {
  owner = 1;
  staking_contract = 20;
  compound_proxy = 21;
  controller = 22;
  fee = 100_000_000_000_000_000;
  fee_collector = 23;
  liquidity_token = 24;
  base_reward_token = 25;
  name = name_bytes;
  symbol = name_bytes;
  pair = 26;
}

abbrev user : ℕ → RewardInfo
user n = record {
  bond_share = n;
  deposit_amount = n;
  deposit_time = 1000;
  transfer_share = 0;
  deposit_costs = n ∷ n * 2 ∷ [];
}

abbrev sample : Store
sample = record {
  config = config;
  state = record { total_bond_share = 400 };
  rewards = (5, user 100) ∷ (7, user 300) ∷ [];
  allowances = ((5, 9), record { allowance = 50; expires = never }) ∷ [];
  pool_info = none;
  ownership_proposal = none;
}

abbrev at : ℕ → Env
at time = record { height = 1; time = time; contract = 30 }

abbrev from : Addr → MessageInfo
from sender = record { sender = sender; funds = [] }

sample-IsValid : IsValid sample
sample-IsValid = record {
  sorted = ground arith;
  total = refl;
  allowances_sorted = ground arith;
  fee = omega arith;
}

abbrev after_bond : Store
after_bond = record sample {
  state = record { total_bond_share = 500 };
  rewards =
      (
        5,
        record {
          bond_share = 200;
          deposit_amount = 300;
          deposit_time = 1666;
          transfer_share = 0;
          deposit_costs = 300 ∷ 600 ∷ [];
        },
      )
      ∷ (7, user 300)
      ∷ [];
}

bond_run : bond_internal (answers 800) sample (at 2000) 5 200 ≡ ok (after_bond, send 24 20 200 ∷ [])
unfolding bond_internal calc_bond_share calc_bond_amount ensure_deposit_costs bond_info add_costs
    compute_deposit_time
bond_run = refl

abbrev after_unbond : Store
after_unbond = record sample {
  state = record { total_bond_share = 375 };
  rewards =
      (
        5,
        record {
          bond_share = 75;
          deposit_amount = 75;
          deposit_time = 1000;
          transfer_share = 0;
          deposit_costs = 75 ∷ 150 ∷ [];
        },
      )
      ∷ (7, user 300)
      ∷ [];
}

unbond_run :
    unbond (answers 800) sample (at 87_400) (from 5) 50
    ≡ ok (after_unbond, withdraw 20 24 50 ∷ transfer 24 5 50 ∷ [])
unfolding unbond calc_user_balance calc_bond_amount multiply_ratio_and_ceil unbond_info
unbond_run = refl

bond_internal_no_dilution_example :
    (lookup 7 after_bond.rewards ≡ some (user 300))
    × NotDiluted sample.state 800 after_bond.state 1000 300
bond_internal_no_dilution_example =
    bond_internal_no_dilution math-IsMath (answers 800) sample (at 2000) 5 200 sample-IsValid
      bond_run refl 7 (omega arith) refl

unbond_no_dilution_example :
    (50 ≤ 800)
    × ((◌≡◌ {A = ℕ} 7 5)
        ⊎ ((lookup 7 after_unbond.rewards ≡ lookup 7 sample.rewards)
            × NotDiluted sample.state 800 after_unbond.state 750 300))
unbond_no_dilution_example =
    unbond_no_dilution math-IsMath (answers 800) sample (at 87_400) (from 5) 50 sample-IsValid
      unbond_run refl (omega arith) 7

bond_internal_credit_example : 300 ≤ 300
bond_internal_credit_example =
    bond_internal_credit math-IsMath (answers 800) sample (at 2000) 5 200 bond_run refl
      (inl (omega arith))

-- Half a day after the deposit, half of the profit is open.
balance_run : calc_user_balance {E = ContractError} (user 100) sample.state 800 44_200 ≡ ok 150
unfolding calc_user_balance calc_bond_amount
balance_run = refl

calc_user_balance_bounds_example :
    (150 ≤ 200) × (100 ≤ 150) × (1000 ≤ 44_200) × (87_400 ≤ 44_200 → ◌≡◌ {A = ℕ} 150 200)
calc_user_balance_bounds_example =
    calc_user_balance_bounds math-IsMath (user 100) sample.state 800 44_200 balance_run

abbrev rewards : List Asset
rewards =
    record { info = token 25; amount = 1000 } ∷ record { info = native_token 1; amount = 55 } ∷ []

-- The native reward, with its commission
abbrev sent_along : List Coin
sent_along = record { denom = 1; amount = 55 } ∷ []

abbrev after_transfer : Store
after_transfer = record sample {
  rewards =
      (5, record (user 100) { bond_share = 60; transfer_share = 40 })
      ∷ (
        7,
        record {
          bond_share = 340;
          deposit_amount = 340;
          deposit_time = 1000;
          transfer_share = 0;
          deposit_costs = 340 ∷ 680 ∷ [];
        },
      )
      ∷ [];
}

transfer_run : transfer_internal api sample 5 7 40 ≡ ok after_transfer
unfolding transfer_internal receive_share ensure_deposit_costs bond_info add_costs
    compute_deposit_time
transfer_run = refl

transfer_internal_moves_example :
    (40 ≤ 100)
    × ((c : Addr) → balance_in after_transfer.rewards c ≡ balance_moved 5 7 40 sample.rewards c)
transfer_internal_moves_example =
    transfer_internal_moves math-IsMath api sample 5 7 40 transfer_run refl

-- To send shares to oneself changes nothing.
transfer_to_self_run : transfer_internal api sample 5 5 40 ≡ ok sample
unfolding transfer_internal receive_share
transfer_to_self_run = refl

abbrev after_spend : Store
after_spend = record after_transfer {
  allowances = ((5, 9), record { allowance = 10; expires = never }) ∷ [];
}

transfer_from_run :
    execute_transfer_from api is_expired sample (at 2000) (from 9) 5 7 40 ≡ ok (after_spend, [])
unfolding execute_transfer_from deduct_allowance transfer_internal receive_share
    ensure_deposit_costs bond_info add_costs compute_deposit_time
transfer_from_run = refl

execute_transfer_from_spends_example :
    (40 ≤ 50)
    × ((k : Addr × Addr)
        → allowance_in after_spend.allowances k ≡ (
            if pair_eq k (5, 9)
            then allowance_in sample.allowances k - 40
            else allowance_in sample.allowances k))
    × (40 ≤ 100)
    × ((c : Addr) → balance_in after_spend.rewards c ≡ balance_moved 5 7 40 sample.rewards c)
execute_transfer_from_spends_example =
    execute_transfer_from_spends math-IsMath api is_expired sample (at 2000) (from 9) 5 7 40
      transfer_from_run refl refl

increase_run :
    execute_increase_allowance api sample (from 5) 9 7 none
    ≡ ok (
      record sample { allowances = ((5, 9), record { allowance = 57; expires = never }) ∷ [] },
      [],
    )
unfolding execute_increase_allowance
increase_run = refl

execute_increase_allowance_adds_example : ◌≡◌ {A = ℕ} 57 57
execute_increase_allowance_adds_example =
    execute_increase_allowance_adds math-IsMath api sample (from 5) 9 7 none increase_run refl
      (5, 9)

decrease_run :
    execute_decrease_allowance api sample (from 5) 9 60 none
    ≡ ok (record sample { allowances = [] }, [])
unfolding execute_decrease_allowance
decrease_run = refl

execute_decrease_allowance_takes_example : ◌≡◌ {A = ℕ} 0 0
execute_decrease_allowance_takes_example =
    execute_decrease_allowance_takes math-IsMath api sample (from 5) 9 60 none sample-IsValid
      decrease_run refl (5, 9)

-- The same token twice in a row passes where the amounts differ, and is refused where they agree.
duplicates_run :
    (check_duplicates
        (record { info = token 2; amount = 1 } ∷ record { info = token 2; amount = 3 } ∷ [])
      ≡ ok tt)
    × (check_duplicates
          (record { info = token 2; amount = 3 } ∷ record { info = token 2; amount = 3 } ∷ [])
        ≡ err duplicated_asset)
unfolding check_duplicates check_adjacent
duplicates_run = (refl, refl)

abbrev instantiate_msg : InstantiateMsg
instantiate_msg = record {
  owner = 1;
  staking_contract = 20;
  compound_proxy = 21;
  controller = 22;
  fee = 100_000_000_000_000_000;
  fee_collector = 23;
  liquidity_token = 24;
  base_reward_token = 25;
  pair = 26;
  name = name_bytes;
  symbol = name_bytes;
}

abbrev created : Store
created = record {
  config = config;
  state = record { total_bond_share = 0 };
  rewards = [];
  allowances = [];
  pool_info = none;
  ownership_proposal = none;
}

instantiate_run : instantiate api instantiate_msg ≡ ok created
unfolding instantiate validate validate_percentage
instantiate_run = refl

abbrev first_bond : ExecuteMsg
first_bond =
    ExecuteMsg.receive (record { sender = 5; amount = 100; msg = some (Cw20HookMsg.bond none) })

abbrev bonded : Store
bonded = record created {
  state = record { total_bond_share = 100 };
  rewards = (5, record (user 100) { deposit_costs = 100 ∷ 200 ∷ [] }) ∷ [];
}

first_bond_run :
    execute api (answers 0) is_expired created (at 1000) (from 24) first_bond
    ≡ ok (bonded, send 24 20 100 ∷ [])
unfolding execute receive_cw20 bond bond_internal calc_bond_share calc_bond_amount
    ensure_deposit_costs bond_info add_costs compute_deposit_time
first_bond_run = refl

Reachable-IsValid_example : IsValid bonded
Reachable-IsValid_example = Reachable-IsValid math-IsMath {api = api} {is_expired = is_expired} (
    next (answers 0) (at 1000) (from 24) first_bond (send 24 20 100 ∷ [])
      (start instantiate_msg instantiate_run) first_bond_run)

execute-IsAllowed_example : ◌≡◌ {A = Addr} 24 24
execute-IsAllowed_example =
    execute-IsAllowed math-IsMath api (answers 0) is_expired created (at 1000) (from 24) first_bond
      first_bond_run
