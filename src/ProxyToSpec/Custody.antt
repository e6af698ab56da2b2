-- ===== src/ProxyToSpec/Custody.antt =====
-- What the generator gets back of what it has staked in contracts/lp_staking by
-- contracts/generator_proxy_to_spec.
use spectrum_core.Base.{ℕ, ◌+◌, ◌≡◌, none, some, List, [], ◌∷◌, ok}
use spectrum_core.Cosmwasm.Math.{Math, IsMath, Math-eq}
use spectrum_core.Cosmwasm.Std.{Addr, Api, Env}
use spectrum_core.LpStaking
use spectrum_core.LpStaking.{Store, read_reward_info, Transfer}
use spectrum_core.LpStaking.Handlers
use spectrum_core.LpStaking.Handlers.Invariant.{IsValid}
use spectrum_core.ProxyToSpec.{
  Config, deposit, send, transfer, staking, call_back, Chain, transfer_lp_tokens_after_withdraw,
  ExecuteMsg,
}
use spectrum_core.ProxyToSpec.Contract
use spectrum_core.ProxyToSpec.Together
use spectrum_core.ProxyToSpec.Together.{received}

module _ ⦃m : Math⦄ (lawful : IsMath m) where
  -- Where the storage of the staking contract and the addresses are valid, the staking
  -- contract bonds an amount for the proxy and unbonds it again with success, and the
  -- balance of the proxy then is what it was and what the unbonding has sent: the proxy
  -- answers a deposit by the generator with the bonding, a withdrawal by the generator with
  -- the unbonding and a callback, and the callback with a transfer of the whole amount to
  -- the account; the bond of the proxy is what it was before.
  pub deposit_withdraw_returns :
      (api : Api) (c c' : Chain) (cfg : Config) (env env' : Env) (s : Store)
      (amount account prev : ℕ) {to : Addr} {after_bond after_unbond : Store × List Transfer}
      → IsValid s
      → api env.contract ≡ ok env.contract
      → api account ≡ ok to
      → Handlers.execute api s env
          (record { sender = cfg.lp_token_addr; funds = [] })
          (LpStaking.ExecuteMsg.receive
            (record { sender = env.contract; amount = amount; msg = some (LpStaking.bond none) }))
        ≡ ok after_bond
      → Handlers.execute api after_bond.0 env'
          (record { sender = env.contract; funds = [] })
          (LpStaking.ExecuteMsg.unbond amount)
        ≡ ok after_unbond
      → c.query_balance cfg.lp_token_addr env.contract ≡ ok prev
      → c'.query_balance cfg.lp_token_addr env.contract
        ≡ ok (prev + received cfg.lp_token_addr env.contract after_unbond.1)
      → (Contract.execute api c cfg env
            (record { sender = cfg.lp_token_addr; funds = [] })
            (ExecuteMsg.receive (record {
              sender = cfg.generator_contract_addr;
              amount = amount;
              msg = some deposit;
            }))
          ≡ ok (send cfg.lp_token_addr cfg.reward_contract_addr amount (LpStaking.bond none) ∷ []))
        × (Contract.execute api c cfg env
              (record { sender = cfg.generator_contract_addr; funds = [] })
              (ExecuteMsg.withdraw account amount)
            ≡ ok (
                staking cfg.reward_contract_addr (LpStaking.ExecuteMsg.unbond amount)
                ∷ call_back env.contract (transfer_lp_tokens_after_withdraw to prev)
                ∷ []))
        × (Contract.execute api c' cfg env
              (record { sender = env.contract; funds = [] })
              (ExecuteMsg.callback (transfer_lp_tokens_after_withdraw to prev))
            ≡ ok (transfer cfg.lp_token_addr to amount ∷ []))
        × ((read_reward_info after_unbond.0 env.contract).bond_amount
            ≡ (read_reward_info s env.contract).bond_amount)
  deposit_withdraw_returns = rw (Math-eq m lawful) Together.deposit_withdraw-returns
