-- ===== src/GeneratorProxy/Access.antt =====
-- Who can send which message to contracts/generator_proxy.
use spectrum_core.Base.{ℕ, ◌≤◌, ◌≡◌, ◌⊎◌, some, arith, ok}
use spectrum_core.Cosmwasm.Math.{math}
use spectrum_core.Cosmwasm.Std.{Api, Env, MessageInfo}
use spectrum_core.GeneratorProxy.{Store, OwnershipProposal, Response}
use spectrum_core.GeneratorProxy.Messages.{Cw20HookMsg, ExecuteMsg, Owners, IsOwners}
use spectrum_core.GeneratorProxy.Chain.{Chain}
use spectrum_core.GeneratorProxy.Staking.{execute_stake, execute_relock}
use spectrum_core.GeneratorProxy.Oper.{
  execute_update_config, execute_update_parameters, execute_controller_vote, execute_send_income,
}
use spectrum_core.GeneratorProxy.Contract.{execute, receive_cw20, handle_callback, set_owner}

-- Who the sender of a message has to be, where not everybody may send it.
abbrev pub IsPermitted : Store → Env → MessageInfo → ExecuteMsg → Type 0
IsPermitted s env info (ExecuteMsg.receive msg) =
    msg.msg ≡ ok Cw20HookMsg.stake → info.sender ≡ s.config.astro_gov.xastro_token
IsPermitted s env info (ExecuteMsg.callback msg) = info.sender ≡ env.contract
IsPermitted s env info (ExecuteMsg.update_config k f) = info.sender ≡ s.config.owner
IsPermitted s env info (ExecuteMsg.update_parameters q r) = info.sender ≡ s.config.controller
IsPermitted s env info (ExecuteMsg.controller_vote votes) = info.sender ≡ s.config.controller
IsPermitted s env info ExecuteMsg.send_income = info.sender ≡ s.config.controller
IsPermitted s env info (ExecuteMsg.propose_new_owner o e) = info.sender ≡ s.config.owner
IsPermitted s env info ExecuteMsg.drop_ownership_proposal = info.sender ≡ s.config.owner
IsPermitted s env info ExecuteMsg.claim_ownership =
    (p : OwnershipProposal) × (s.ownership_proposal ≡ some p)
    × (info.sender ≡ p.owner)
    × (env.time ≤ p.ttl)
IsPermitted s env info ExecuteMsg.relock =
    (info.sender ≡ s.config.controller) ⊎ (info.sender ≡ env.contract)
IsPermitted s env info _ = Unit

module _ (api : Api) (c : Chain) (owners : Owners) (s : Store) (env : Env)
    (info : MessageInfo) where
  ownership_calls :
      (owner expires_in : ℕ)
      → ((out : Response)
          → execute api c owners s env info (ExecuteMsg.propose_new_owner owner expires_in) ≡ ok out
          → owners.propose_new_owner s env info owner expires_in s.config.owner ≡ ok out.0)
        × ((out : Response)
            → execute api c owners s env info ExecuteMsg.drop_ownership_proposal ≡ ok out
            → owners.drop_ownership_proposal s info s.config.owner ≡ ok out.0)
        × ((out : Response)
            → execute api c owners s env info ExecuteMsg.claim_ownership ≡ ok out
            → owners.claim_ownership s env info set_owner ≡ ok out.0)
  unfolding execute
  ownership_calls owner expires_in =
      (λ out h. ground arith, λ out h. ground arith, λ out h. ground arith)

  pub execute-IsPermitted :
      (msg : ExecuteMsg) {out : Response}
      → IsOwners owners
      → execute api c owners s env info msg ≡ ok out
      → IsPermitted s env info msg
  unfolding execute receive_cw20 handle_callback execute_stake execute_relock execute_update_config
      execute_update_parameters execute_controller_vote execute_send_income
  execute-IsPermitted (ExecuteMsg.receive msg) o h = λ hook. ground arith
  execute-IsPermitted (ExecuteMsg.callback msg) o h = ground arith
  execute-IsPermitted (ExecuteMsg.update_config k f) o h = ground arith
  execute-IsPermitted (ExecuteMsg.update_parameters q r) o h = ground arith
  execute-IsPermitted (ExecuteMsg.controller_vote votes) o h = ground arith
  execute-IsPermitted ExecuteMsg.send_income o h = ground arith
  execute-IsPermitted (ExecuteMsg.claim_rewards lps) o h = tt
  execute-IsPermitted (ExecuteMsg.withdraw lp amount) o h = tt
  execute-IsPermitted (ExecuteMsg.propose_new_owner owner e) {out} o h =
      (o.propose_law s env info owner e s.config.owner ((ownership_calls owner e).0 out h)).0
  execute-IsPermitted ExecuteMsg.drop_ownership_proposal {out} o h =
      (o.drop_law s info s.config.owner ((ownership_calls 0 0).1 out h)).0
  execute-IsPermitted ExecuteMsg.claim_ownership {out} o h =
      let (p, found, sender, time, _) =
        o.claim_law s env info set_owner ((ownership_calls 0 0).2 out h) in
      (p, found, sender, time)
  execute-IsPermitted ExecuteMsg.relock o h = ground arith
  execute-IsPermitted (ExecuteMsg.request_unstake amount) o h = tt
  execute-IsPermitted (ExecuteMsg.withdraw_unstaked amount) o h = tt
  execute-IsPermitted ExecuteMsg.claim_income o h = tt
