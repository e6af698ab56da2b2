-- ===== src/ProxyToSpec/Tests.antt =====
-- contracts/generator_proxy_to_spec at concrete inputs: 100 LP tokens that are staked and withdrawn.
use spectrum_core.Base.{ℕ, ◌≡◌, refl, none, some, [], ◌∷◌, ok}
use spectrum_core.Cosmwasm.Math.{math, math-IsMath}
use spectrum_core.Cosmwasm.Std.{Api, Env}
use spectrum_core.LpStaking
use spectrum_core.LpStaking.{Store, read_reward_info, Transfer}
use spectrum_core.LpStaking.Rewards.{
  compute_reward, compute_staker_reward, distribute, distribution,
}
use spectrum_core.LpStaking.Handlers
use spectrum_core.LpStaking.Handlers.{bond_to, receive_cw20, unbond}
use spectrum_core.LpStaking.Handlers.Invariant.{IsValid}
use spectrum_core.ProxyToSpec.{
  Config, deposit, send, transfer, staking, call_back, Chain, transfer_lp_tokens_after_withdraw,
  ExecuteMsg,
}
use spectrum_core.ProxyToSpec.Contract
use spectrum_core.ProxyToSpec.Custody.{deposit_withdraw_returns}

abbrev api : Api
api a = ok a

abbrev at : ℕ → Env
at t = record { height = 1; time = t; contract = 40 }

abbrev cfg : Config
cfg = record {
  generator_contract_addr = 30;
  pair_addr = 8;
  lp_token_addr = 7;
  reward_contract_addr = 41;
  reward_token_addr = 6;
}

-- The proxy has the given balance of each token.
abbrev chain : ℕ → Chain
chain balance = record {
  query_balance = λ t a. ok balance;
  query_reward_info = λ r t a. ok (record {
    staker_addr = a;
    reward_info = record {
      staking_token = 7;
      bond_amount = 0;
      reward_index = 0;
      pending_reward = 0;
    };
  });
}

abbrev empty : Store
empty = record {
  config = record { owner = 1; reward_token = 6; staking_token = 7; distribution_schedule = [] };
  state = record { last_distributed = 0; total_bond_amount = 0; global_reward_index = 0 };
  reward_infos = [];
  ownership_proposal = none;
}

empty-IsValid : IsValid empty
empty-IsValid = record { sorted = tt; total = refl; paid = tt }

abbrev bonded : Store
bonded = record empty {
  state = record { last_distributed = 10; total_bond_amount = 100; global_reward_index = 0 };
  reward_infos = (40, record { reward_index = 0; bond_amount = 100; pending_reward = 0 }) ∷ [];
}

bond_run :
    Handlers.execute api empty
      (at 10)
      (record { sender = 7; funds = [] })
      (LpStaking.ExecuteMsg.receive
        (record { sender = 40; amount = 100; msg = some (LpStaking.bond none) }))
    ≡ ok (bonded, [])
unfolding Handlers.execute receive_cw20 bond_to compute_reward compute_staker_reward distribute
    distribution read_reward_info
bond_run = refl

abbrev unbonded : Store
unbonded = record empty {
  state = record { last_distributed = 20; total_bond_amount = 0; global_reward_index = 0 };
}

unbond_run :
    Handlers.execute api bonded
      (at 20)
      (record { sender = 40; funds = [] })
      (LpStaking.ExecuteMsg.unbond 100)
    ≡ ok (unbonded, record { token = 7; recipient = 40; amount = 100 } ∷ [])
unfolding Handlers.execute unbond compute_reward compute_staker_reward distribute distribution
    read_reward_info
unbond_run = refl

deposit_withdraw_returns_example :
    (Contract.execute api
        (chain 5)
        cfg
        (at 10)
        (record { sender = 7; funds = [] })
        (ExecuteMsg.receive (record { sender = 30; amount = 100; msg = some deposit }))
      ≡ ok (send 7 41 100 (LpStaking.bond none) ∷ []))
    × (Contract.execute api
          (chain 5)
          cfg
          (at 10)
          (record { sender = 30; funds = [] })
          (ExecuteMsg.withdraw 20 100)
        ≡ ok (
            staking 41 (LpStaking.ExecuteMsg.unbond 100)
            ∷ call_back 40 (transfer_lp_tokens_after_withdraw 20 5)
            ∷ []))
    × (Contract.execute api
          (chain 105)
          cfg
          (at 10)
          (record { sender = 40; funds = [] })
          (ExecuteMsg.callback (transfer_lp_tokens_after_withdraw 20 5))
        ≡ ok (transfer 7 20 100 ∷ []))
    × ((read_reward_info unbonded 40).bond_amount ≡ (read_reward_info empty 40).bond_amount)
deposit_withdraw_returns_example =
    deposit_withdraw_returns math-IsMath api (chain 5) (chain 105) cfg (at 10) (at 20) empty 100 20
      5 empty-IsValid refl refl bond_run unbond_run refl refl
