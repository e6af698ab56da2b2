-- ===== src/GeneratorProxy/Tests.antt =====
-- contracts/generator_proxy at concrete inputs: a user deposits 100 LP tokens, the pool earns 400
-- ASTRO, and the user claims.
use spectrum_core.Base.{
  ◌↔◌, is_ok, true, ℕ, ◌+◌, ◌-◌, ◌*◌, ◌/◌, ◌≤◌, ◌<◌, ◌≡◌, refl, not, if◌then◌else◌, ltb, ◌==◌, none,
  some, Option, List, [], ◌∷◌, arith, ok, err, Result,
}
use spectrum_core.Cosmwasm.Math.{math, math-IsMath, decimal_one, increased}
use spectrum_core.Cosmwasm.Std.{Addr, Api, Env, MessageInfo, StdError, generic_err}
use spectrum_core.Cosmwasm.Map.{ℕ_key, pair_key, lookup}
use spectrum_core.Farm.Shares.Dilution.{worth}
use spectrum_core.Helper.{multiply_ratio_and_ceil}
use spectrum_core.Farm.Adapters
use spectrum_core.GeneratorProxy.{
  AstroGov, Config, PoolInfo, UserInfo, RewardInfo, OwnershipProposal, Store, exceed_quota,
  CallbackMsg, Message, adapter, callback,
}
use spectrum_core.GeneratorProxy.Messages.{InstantiateMsg, ExecuteMsg, Owners, IsOwners}
use spectrum_core.GeneratorProxy.Chain.{
  Chain, UserInfoV2, Lock, query_user_info, claim_loop, calc_claim_amount,
}
use spectrum_core.GeneratorProxy.Pool.{
  calc_bond_share, reconcile_astro_reward, reconcile_to_user_info, accrue,
}
use spectrum_core.GeneratorProxy.Bond.{
  transfer_msg, credit_astro, claimed_astro, claimed_tokens, callback_deposit, callback_withdraw,
  callback_claim_rewards, callback_after_bond_claimed,
}
use spectrum_core.GeneratorProxy.Staking.{
  execute_stake, lock_messages, reconcile_staker, reconcile_staker_income, reconcile_to_staker_info,
}
use spectrum_core.GeneratorProxy.Staking
use spectrum_core.GeneratorProxy.Oper.{validate_percentage}
use spectrum_core.GeneratorProxy.Contract.{instantiate, execute, handle_callback}
use spectrum_core.GeneratorProxy.Invariant.{IsValid}
use spectrum_core.GeneratorProxy.Invariant.Credit.{Split}
use spectrum_core.GeneratorProxy.Claim.{Answers}
use spectrum_core.GeneratorProxy.Dilution.{SameOthers}
use spectrum_core.GeneratorProxy.Quota.{locked_by}
use spectrum_core.GeneratorProxy.Solvency.{
  start, next, Attainable, Attainable-IsValid, callback_claim_rewards_pays,
  reconcile_astro_reward_splits, callback_deposit_no_dilution, callback_withdraw_no_dilution,
  execute-IsPermitted, claim_loop_any_fuel, calc_claim_amount_sum, execute_stake_quota,
}

abbrev api : Api
api a = ok a

abbrev at : Env
at = record { height = 1; time = 1000; contract = 9 }

abbrev from : Addr → MessageInfo
from a = record { sender = a; funds = [] }

abbrev gov : AstroGov
gov = record {
  fee_distributor = 31;
  generator_controller = 32;
  voting_escrow = 33;
  xastro_token = 4;
}

abbrev generator_user : UserInfoV2
generator_user = record {
  amount = 100;
  reward_user_index = 0;
  reward_debt_proxy = [];
  virtual_amount = 100;
}

-- The contract has 40 xASTRO in its lock, and of each token the given balance.
abbrev chain : ℕ → ℕ → Chain
chain deposit balance = record {
  query_deposit = λ g lp a. ok deposit;
  query_pending_token = λ g lp a. ok (record { pending = 0; pending_on_proxy = none });
  query_token_balance = λ t a. ok balance;
  user_info = λ g lp a. ok (some generator_user);
  proxy_reward_asset = λ g p. ok none;
  locked =
      λ e a. ok (some (record { amount = 40; start = 0; end = 8; last_extend_lock_period = 0 }));
  last_claim_period = λ f a. ok (some 3);
  rewards_per_week = λ f p. ok (some 1000);
  lock_info_end = λ e a. ok 5;
  user_voting_power_at_period = λ e a p. ok 2;
  total_voting_power_at_period = λ e p. ok 10;
  get_period = λ t. ok 1;
  week = 604800;
}

abbrev claim_by :
    Option OwnershipProposal
    → Store
    → Env
    → MessageInfo
    → (Store → Addr → Result StdError Store)
    → Result StdError Store
claim_by none s env info cb = err (generic_err "Ownership proposal not found")
claim_by (some p) s env info cb =
    if not (info.sender == p.owner)
    then err (generic_err "Unauthorized")
    else if ltb p.ttl env.time
    then err (generic_err "Ownership proposal expired")
    else cb (record s { ownership_proposal = none }) p.owner

abbrev owners : Owners
owners = record {
  propose_new_owner = λ s env info new_owner expires_in owner.
      if info.sender == owner
      then ok (record s {
        ownership_proposal = some (record { owner = new_owner; ttl = env.time + expires_in });
      })
      else err (generic_err "Unauthorized");
  drop_ownership_proposal = λ s info owner.
      if info.sender == owner
      then ok (record s { ownership_proposal = none })
      else err (generic_err "Unauthorized");
  claim_ownership = λ s env info cb. claim_by s.ownership_proposal s env info cb;
}

claim_by-law :
    (o : Option OwnershipProposal) (s : Store) (env : Env) (info : MessageInfo)
    (cb : Store → Addr → Result StdError Store) {s' : Store}
    → claim_by o s env info cb ≡ ok s'
    → (p : OwnershipProposal) × (o ≡ some p)
      × (info.sender ≡ p.owner)
      × (env.time ≤ p.ttl)
      × (cb (record s { ownership_proposal = none }) p.owner ≡ ok s')
claim_by-law none s env info cb h = cc
claim_by-law (some p) s env info cb h = (p, refl, ground arith, ground arith, ground arith)

owners-IsOwners : IsOwners owners
owners-IsOwners = record {
  propose_law = λ s env info new_owner expires_in owner h.
      (ground arith, record { owner = new_owner; ttl = env.time + expires_in }, ground arith);
  drop_law = λ s info owner h. (ground arith, ground arith);
  claim_law = λ s env info cb h. claim_by-law s.ownership_proposal s env info cb h;
}

abbrev instantiate_msg : InstantiateMsg
instantiate_msg = record {
  generator = 30;
  astro_gov = gov;
  owner = 1;
  controller = 2;
  astro_token = 3;
  fee_collector = 5;
  max_quota = 1000;
  staker_rate = 500_000_000_000_000_000;
  boost_fee = 100_000_000_000_000_000;
}

abbrev config : Config
config = record {
  generator = 30;
  astro_gov = gov;
  owner = 1;
  controller = 2;
  astro_token = 3;
  fee_collector = 5;
  max_quota = 1000;
  staker_rate = 500_000_000_000_000_000;
  boost_fee = 100_000_000_000_000_000;
}

abbrev created : Store
created = record {
  config = config;
  pool_info = [];
  user_info = [];
  reward_info = [];
  staking_state = record {
    total_bond_share = 0;
    reward_index = 0;
    next_claim_period = 1;
    total_unstaking_amount = 0;
    total_unstaked_amount = 0;
    unstaking_period = 1;
  };
  staker_info = [];
  ownership_proposal = none;
}

instantiate_run : instantiate api (chain 0 500) at instantiate_msg ≡ ok created
unfolding instantiate validate_percentage
instantiate_run = refl

abbrev user : UserInfo
user = record { bond_share = 100; reward_indexes = []; pending_rewards = [] }

abbrev new_pool : PoolInfo
new_pool = record {
  total_bond_share = 100;
  reward_indexes = [];
  prev_reward_user_index = 0;
  prev_reward_debt_proxy = [];
  last_reconcile = 0;
}

abbrev deposited : Store
deposited = record created { pool_info = (7, new_pool) ∷ []; user_info = ((7, 20), user) ∷ [] }

abbrev deposit_messages : List Message
deposit_messages =
    adapter (Adapters.deposit_msg 30 7 100) ∷ callback 9 (CallbackMsg.after_bond_changed 7) ∷ []

deposit_run :
    execute api
      (chain 0 500)
      owners
      created
      at
      (from 9)
      (ExecuteMsg.callback (CallbackMsg.deposit 7 20 100))
    ≡ ok (deposited, deposit_messages)
unfolding execute handle_callback callback_deposit reconcile_to_user_info accrue calc_bond_share
deposit_run = refl

-- Of 400 ASTRO 24 are the fee, 108 go to the stakers and 268 to the users.
abbrev pool : PoolInfo
pool = record new_pool { reward_indexes = (3, 2_680_000_000_000_000_000) ∷ []; last_reconcile = 1 }

abbrev astro_reward : RewardInfo
astro_reward = record { reconciled_amount = 400; fee = 24; staker_income = 108 }

abbrev claimed : Store
claimed = record deposited { pool_info = (7, pool) ∷ []; reward_info = (3, astro_reward) ∷ [] }

claimed_run :
    execute api
      (chain 100 500)
      owners
      deposited
      at
      (from 9)
      (ExecuteMsg.callback (CallbackMsg.after_bond_claimed 7 ((3, 100) ∷ [])))
    ≡ ok (claimed, [])
unfolding execute handle_callback callback_after_bond_claimed query_user_info claimed_astro
    credit_astro reconcile_astro_reward claimed_tokens
claimed_run = refl

claimed-Attainable : Attainable api owners claimed
claimed-Attainable =
    next (chain 100 500) at (from 9)
      (ExecuteMsg.callback (CallbackMsg.after_bond_claimed 7 ((3, 100) ∷ []))) []
      (next (chain 0 500) at (from 9) (ExecuteMsg.callback (CallbackMsg.deposit 7 20 100))
        deposit_messages (start (chain 0 500) at instantiate_msg instantiate_run) deposit_run)
      claimed_run

Attainable-IsValid_example : IsValid claimed
Attainable-IsValid_example = Attainable-IsValid math-IsMath owners-IsOwners claimed-Attainable

execute-IsPermitted_example : ◌≡◌ {A = Addr} 9 9
execute-IsPermitted_example =
    execute-IsPermitted math-IsMath api (chain 0 500) owners created at (from 9)
      (ExecuteMsg.callback (CallbackMsg.deposit 7 20 100)) owners-IsOwners deposit_run

abbrev settled : UserInfo
settled = record {
  bond_share = 100;
  reward_indexes = (3, 2_680_000_000_000_000_000) ∷ [];
  pending_rewards = (3, 268) ∷ [];
}

settle_run : reconcile_to_user_info pool user ≡ ok settled
unfolding reconcile_to_user_info accrue
settle_run = refl

-- The user is paid 268.
callback_claim_rewards_pays_example :
    (s' : Store) × (callback_claim_rewards claimed 7 20 ≡ ok (s', transfer_msg 3 268 20 ∷ []))
    × (lookup (7, 20) s'.user_info ≡ some (record settled { pending_rewards = [] }))
callback_claim_rewards_pays_example =
    callback_claim_rewards_pays math-IsMath claimed 7 20 user settled pool
      Attainable-IsValid_example refl refl settle_run

split_run :
    reconcile_astro_reward config generator_user new_pool
      (record { reconciled_amount = 0; fee = 0; staker_income = 0 })
      400
    ≡ ok (record pool { last_reconcile = 0 }, astro_reward)
unfolding reconcile_astro_reward
split_run = refl

reconcile_astro_reward_splits_example :
    (p : Split config generator_user 400) × (400 ≡ 0 + 400)
    × (24 ≡ 0 + p.fee)
    × (108 ≡ 0 + p.to_staker)
    × (increased 3 (p.to_lp * decimal_one / 100) [] ≡ some ((3, 2_680_000_000_000_000_000) ∷ []))
reconcile_astro_reward_splits_example =
    reconcile_astro_reward_splits math-IsMath config generator_user new_pool
      (record { reconciled_amount = 0; fee = 0; staker_income = 0 }) 400 split_run

-- Where 100 shares are worth 110 LP tokens, a deposit of 50 makes 45 shares.
abbrev second : Store
second = record deposited {
  pool_info = (7, record new_pool { total_bond_share = 145 }) ∷ [];
  user_info = ((7, 20), user) ∷ ((7, 21), record user { bond_share = 45 }) ∷ [];
}

second_run :
    callback_deposit (chain 110 500) deposited at 7 21 50
    ≡ ok (
      second,
      adapter (Adapters.deposit_msg 30 7 50) ∷ callback 9 (CallbackMsg.after_bond_changed 7) ∷ [],
    )
unfolding callback_deposit reconcile_to_user_info accrue calc_bond_share
second_run = refl

callback_deposit_no_dilution_example :
    SameOthers 7 21 deposited second × ((h : ℕ) → worth 100 110 h ≤ worth 145 (110 + 50) h)
callback_deposit_no_dilution_example =
    callback_deposit_no_dilution math-IsMath (chain 110 500) deposited at 7 21 50 110 second_run
      refl

-- A withdrawal of 11 takes 10 shares.
abbrev withdrawn : Store
withdrawn = record deposited {
  pool_info = (7, record new_pool { total_bond_share = 90 }) ∷ [];
  user_info = ((7, 20), record user { bond_share = 90 }) ∷ [];
}

withdraw_run :
    callback_withdraw (chain 110 500) deposited at 7 20 11
    ≡ ok (
      withdrawn,
      adapter (Adapters.withdraw_msg 30 7 11)
          ∷ transfer_msg 7 11 20
          ∷ callback 9 (CallbackMsg.after_bond_changed 7)
          ∷ [],
    )
unfolding callback_withdraw reconcile_to_user_info accrue calc_bond_share multiply_ratio_and_ceil
withdraw_run = refl

callback_withdraw_no_dilution_example :
    SameOthers 7 20 deposited withdrawn
    × ((h : ℕ) → h ≤ 90 → worth 100 110 h ≤ worth 90 (110 - 11) h)
callback_withdraw_no_dilution_example =
    callback_withdraw_no_dilution math-IsMath (chain 110 500) deposited at 7 20 11 110 withdraw_run
      refl

claim_loop_any_fuel_example :
    claim_loop (chain 0 0) 3 gov 9 5 4 1 0 ≡ claim_loop (chain 0 0) 8 gov 9 5 4 1 0
claim_loop_any_fuel_example =
    claim_loop_any_fuel math-IsMath (chain 0 0) gov 9 5 4 3 8 1 0 (omega arith) (omega arith)

answers : Answers (chain 0 0) gov 9 (λ p. 2) (λ p. 10) (λ p. 1000)
answers = record { vp_answer = λ p. refl; total_answer = λ p. refl; rewards_answer = λ p. refl }

-- Of the 1000 of each week 1/5 are for the contract, for the periods 3, 4 and 5.
calc_claim_amount_sum_example : calc_claim_amount (chain 0 0) gov 9 3 8 ≡ ok 600
calc_claim_amount_sum_example =
    calc_claim_amount_sum math-IsMath (chain 0 0) gov 9 (λ p. 2) (λ p. 10) (λ p. 1000) answers 5 3 8
      refl (omega arith) (omega arith)

abbrev lock : Lock
lock = record { amount = 40; start = 0; end = 8; last_extend_lock_period = 0 }

-- A stake up to the quota is accepted, a stake above it is refused.
abbrev rewarded : Store
rewarded = record created {
  reward_info = (3, record { reconciled_amount = 0; fee = 0; staker_income = 0 }) ∷ [];
}

quota_met_run : is_ok (execute_stake (chain 0 0) rewarded at (from 4) 21 960) ≡ true
unfolding execute_stake lock_messages reconcile_staker reconcile_staker_income
    reconcile_to_staker_info Staking.calc_bond_share
quota_met_run = refl

quota_exceeded_run : execute_stake (chain 0 0) rewarded at (from 4) 21 961 ≡ err (exceed_quota 960)
unfolding execute_stake
quota_exceeded_run = refl

execute_stake_quota_example :
    ((x : ℕ)
      → (execute_stake (chain 0 0) created at (from 4) 21 970 ≡ err (exceed_quota x)) ↔ (
          (◌≡◌ {A = Addr} 4 4)
          × (1000 < 40 + 970)
          × (40 + 970 < 340_282_366_920_938_463_463_374_607_431_768_211_456)
          × (x ≡ 1000 - 40)))
    × ((out : Store × List Message)
        → execute_stake (chain 0 0) created at (from 4) 21 970 ≡ ok out
        → (locked_by out.1 ≡ 970) × (40 + locked_by out.1 ≤ 1000))
execute_stake_quota_example =
    execute_stake_quota math-IsMath (chain 0 0) created at (from 4) 21 970 lock refl
