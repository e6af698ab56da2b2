-- ===== src/GeneratorProxy/Invariant/Preserves.antt =====
-- Every message to contracts/generator_proxy keeps the invariant of its storage.
use spectrum_core.Base.{
  ℕ, ◌-◌, ◌≤◌, ◌≡◌, refl, Option, none, some, arith, ok, ok-value, List, [], ◌⊎◌, inl, inr, get_or,
}
use spectrum_core.Cosmwasm.Math.{math, decimal_one}
use spectrum_core.Cosmwasm.Std.{Addr, Api, Env, MessageInfo}
use spectrum_core.Cosmwasm.Map.{ℕ_key, pair_key, lookup, insert}
use spectrum_core.GeneratorProxy.{
  Config, RewardInfo, Store, OwnershipProposal, CallbackMsg, Response,
}
use spectrum_core.GeneratorProxy.Messages.{
  InstantiateMsg, Cw20ReceiveMsg, ExecuteMsg, Owners, IsOwners,
}
use spectrum_core.GeneratorProxy.Chain.{Chain}
use spectrum_core.GeneratorProxy.Bond.{save_reward, execute_deposit}
use spectrum_core.GeneratorProxy.Staking.{execute_stake}
use spectrum_core.GeneratorProxy.Oper.{
  validate_percentage, percentage_or, controller_or, staker_rate_text, boost_fee_text,
  execute_update_config, execute_update_parameters, execute_controller_vote, execute_send_income,
}
use spectrum_core.GeneratorProxy.Contract.{
  instantiate, receive_cw20, handle_callback, execute, set_owner,
}
use spectrum_core.GeneratorProxy.Invariant.{IsValid}
use spectrum_core.GeneratorProxy.Invariant.Claims.{
  execute_deposit-IsValid, execute_withdraw-IsValid, execute_claim_rewards-IsValid,
  callback_after_bond_claimed-IsValid, callback_after_bond_changed-IsValid,
}
use spectrum_core.GeneratorProxy.Invariant.Users.{
  callback_deposit-IsValid, callback_withdraw-IsValid, callback_claim_rewards-IsValid,
}
use spectrum_core.GeneratorProxy.Invariant.Stakers.{
  state_saved-IsValid, astro_saved-other, astro_saved-at,
}
use spectrum_core.GeneratorProxy.Invariant.Staking.{
  execute_claim_income-IsValid, execute_stake-IsValid, execute_request_unstake-IsValid,
  execute_withdraw_unstaked-IsValid,
}
use spectrum_core.GeneratorProxy.Invariant.Income.{
  callback_after_staking_claimed-IsValid, execute_relock-IsValid,
}

-- A change of the configuration that keeps the token and proper rates, or of the proposal
config_IsValid :
    (s : Store) (config : Config) (proposal : Option OwnershipProposal)
    → IsValid s
    → config.astro_token ≡ s.config.astro_token
    → config.staker_rate ≤ decimal_one
    → config.boost_fee ≤ decimal_one
    → IsValid (record s { config = config; ownership_proposal = proposal })
config_IsValid s config proposal v e rate fee = record {
  users_sorted = v.users_sorted;
  stakers_sorted = v.stakers_sorted;
  restricted = v.restricted;
  pool_total = v.pool_total;
  staking_total = v.staking_total;
  unstaking_total = v.unstaking_total;
  staker_rate = rate;
  boost_fee = fee;
  covered = λ t. rw e (v.covered t);
}

percentage_or-le :
    (value : Option ℕ) (text : _) (old : ℕ) {x : ℕ}
    → percentage_or value text old ≡ ok x
    → old ≤ decimal_one
    → x ≤ decimal_one
unfolding percentage_or validate_percentage
percentage_or-le none text old h le = ground arith
percentage_or-le (some value) text old h le = ground arith

module _ (s : Store) (info : MessageInfo) where
  execute_update_config-ok :
      (api : Api) (controller boost_fee : Option ℕ) {out : Response}
      → execute_update_config api s info controller boost_fee ≡ ok out
      → (k : Addr) × (controller_or api controller s.config.controller ≡ ok k)
        × (f : ℕ) × (percentage_or boost_fee boost_fee_text s.config.boost_fee ≡ ok f)
        × (out.0 ≡ record s { config = record s.config { controller = k; boost_fee = f } })
  unfolding execute_update_config
  execute_update_config-ok api controller boost_fee h = ground arith

  execute_update_config-IsValid :
      (api : Api) (controller boost_fee : Option ℕ) {out : Response}
      → IsValid s
      → execute_update_config api s info controller boost_fee ≡ ok out
      → IsValid out.0
  execute_update_config-IsValid api controller boost_fee v h =
      let (k, _, f, fee, e) = execute_update_config-ok api controller boost_fee h in
      rw e (
        config_IsValid s _ s.ownership_proposal v refl v.staker_rate
          (percentage_or-le boost_fee boost_fee_text s.config.boost_fee fee v.boost_fee))

  execute_update_parameters-ok :
      (max_quota staker_rate : Option ℕ) {out : Response}
      → execute_update_parameters s info max_quota staker_rate ≡ ok out
      → (r : ℕ) × (percentage_or staker_rate staker_rate_text s.config.staker_rate ≡ ok r)
        × (out.0 ≡ record s {
          config = record s.config {
            max_quota = get_or max_quota s.config.max_quota;
            staker_rate = r;
          };
        })
  unfolding execute_update_parameters
  execute_update_parameters-ok max_quota staker_rate h = ground arith

  execute_update_parameters-IsValid :
      (max_quota staker_rate : Option ℕ) {out : Response}
      → IsValid s
      → execute_update_parameters s info max_quota staker_rate ≡ ok out
      → IsValid out.0
  execute_update_parameters-IsValid max_quota staker_rate v h =
      let (r, rate, e) = execute_update_parameters-ok max_quota staker_rate h in
      rw e (
        config_IsValid s _ s.ownership_proposal v refl
          (percentage_or-le staker_rate staker_rate_text s.config.staker_rate rate v.staker_rate)
          v.boost_fee)

  execute_controller_vote-same :
      (votes : List (ℕ × ℕ)) {out : Response}
      → execute_controller_vote s info votes ≡ ok out
      → out.0 ≡ s
  unfolding execute_controller_vote
  execute_controller_vote-same votes h = ground arith

  pub execute_send_income-ok :
      {out : Response}
      → execute_send_income s info ≡ ok out
      → (r : RewardInfo) × (lookup s.config.astro_token s.reward_info ≡ some r)
        × (r.fee ≤ r.reconciled_amount)
        × (out.0
            ≡ save_reward s.config.astro_token
                (record r { fee = 0; reconciled_amount = r.reconciled_amount - r.fee })
                s)
  unfolding execute_send_income
  execute_send_income-ok h = ground arith

  execute_send_income-IsValid :
      {out : Response} → IsValid s → execute_send_income s info ≡ ok out → IsValid out.0
  execute_send_income-IsValid v h =
      let (r, found, le, e) = execute_send_income-ok h in
      let astro = s.config.astro_token in
      let r' : RewardInfo = record r { fee = 0; reconciled_amount = r.reconciled_amount - r.fee } in
      rw e (
        state_saved-IsValid s (insert astro r' s.reward_info) s.staking_state s.staker_info v
          (astro_saved-other astro r' s.reward_info)
          (rw (found, astro_saved-at astro r' s.reward_info) (omega (arith, le))) v.stakers_sorted
          v.staking_total v.unstaking_total)

module _ (api : Api) (c : Chain) where
  receive_cw20-cases :
      (s : Store) (env : Env) (info : MessageInfo) (msg : Cw20ReceiveMsg) {out : Response}
      → receive_cw20 api c s env info msg ≡ ok out
      → (a : Addr) × (api msg.sender ≡ ok a)
        × ((execute_deposit c s env info a msg.amount ≡ ok out)
            ⊎ (execute_stake c s env info a msg.amount ≡ ok out))
  unfolding receive_cw20
  receive_cw20-cases s env info msg h = ground arith

  receive_cw20-IsValid :
      (s : Store) (env : Env) (info : MessageInfo) (msg : Cw20ReceiveMsg) {out : Response}
      → IsValid s
      → receive_cw20 api c s env info msg ≡ ok out
      → IsValid out.0
  receive_cw20-IsValid s env info msg v h =
      let (a, _, which) = receive_cw20-cases s env info msg h in
      elim which [
        | inl deposited ↦ execute_deposit-IsValid c s env info a msg.amount v deposited
        | inr staked ↦ execute_stake-IsValid s info c env a msg.amount v staked
      ]

  handle_callback-IsValid :
      (s : Store) (env : Env) (info : MessageInfo) (msg : CallbackMsg) {out : Response}
      → IsValid s
      → handle_callback api c s env info msg ≡ ok out
      → IsValid out.0
  unfolding handle_callback
  handle_callback-IsValid s env info (CallbackMsg.after_bond_claimed lp prev) {out} v h =
      callback_after_bond_claimed-IsValid c s env lp prev {out = out} v (ground arith)
  handle_callback-IsValid s env info (CallbackMsg.deposit lp a amount) {out} v h =
      callback_deposit-IsValid c s env lp a amount {out = out} v (ground arith)
  handle_callback-IsValid s env info (CallbackMsg.withdraw lp a amount) {out} v h =
      callback_withdraw-IsValid c s env lp a amount {out = out} v (ground arith)
  handle_callback-IsValid s env info (CallbackMsg.after_bond_changed lp) {out} v h =
      callback_after_bond_changed-IsValid c s env lp {out = out} v (ground arith)
  handle_callback-IsValid s env info (CallbackMsg.claim_rewards lp a) {out} v h =
      callback_claim_rewards-IsValid s lp a {out = out} v (ground arith)
  handle_callback-IsValid s env info (CallbackMsg.after_staking_claimed before) {out} v h =
      callback_after_staking_claimed-IsValid c s env before {out = out} v (ground arith)

  -- The handlers of the ownership change the proposal, and a claim the owner.
  ownership_IsValid :
      (owners : Owners) (s : Store) (env : Env) (info : MessageInfo) (owner expires_in : ℕ)
      → IsOwners owners
      → IsValid s
      → ((out : Response)
          → execute api c owners s env info (ExecuteMsg.propose_new_owner owner expires_in) ≡ ok out
          → IsValid out.0)
        × ((out : Response)
            → execute api c owners s env info ExecuteMsg.drop_ownership_proposal ≡ ok out
            → IsValid out.0)
        × ((out : Response)
            → execute api c owners s env info ExecuteMsg.claim_ownership ≡ ok out
            → IsValid out.0)
  unfolding execute
  ownership_IsValid owners s env info owner expires_in o v = (
    λ out h.
        let e : owners.propose_new_owner s env info owner expires_in s.config.owner ≡ ok out.0 =
          ground arith in
        let (_, p, left) = o.propose_law s env info owner expires_in s.config.owner e in
        rw left (config_IsValid s s.config (some p) v refl v.staker_rate v.boost_fee),
    λ out h.
        let e : owners.drop_ownership_proposal s info s.config.owner ≡ ok out.0 = ground arith in
        let (_, left) = o.drop_law s info s.config.owner e in
        rw left (config_IsValid s s.config none v refl v.staker_rate v.boost_fee),
    λ out h.
        let e : owners.claim_ownership s env info set_owner ≡ ok out.0 = ground arith in
        let (p, _, _, _, left) = o.claim_law s env info set_owner e in
        rw (ok-value left) (config_IsValid s _ none v refl v.staker_rate v.boost_fee),
  )

  pub execute-IsValid :
      (owners : Owners) (s : Store) (env : Env) (info : MessageInfo) (msg : ExecuteMsg)
      {out : Response}
      → IsOwners owners
      → IsValid s
      → execute api c owners s env info msg ≡ ok out
      → IsValid out.0
  unfolding execute
  execute-IsValid owners s env info (ExecuteMsg.receive msg) o v h =
      receive_cw20-IsValid s env info msg v h
  execute-IsValid owners s env info (ExecuteMsg.callback msg) o v h =
      handle_callback-IsValid s env info msg v h
  execute-IsValid owners s env info (ExecuteMsg.update_config k f) o v h =
      execute_update_config-IsValid s info api k f v h
  execute-IsValid owners s env info (ExecuteMsg.update_parameters q r) o v h =
      execute_update_parameters-IsValid s info q r v h
  execute-IsValid owners s env info (ExecuteMsg.controller_vote votes) o v h =
      rw (execute_controller_vote-same s info votes h) v
  execute-IsValid owners s env info ExecuteMsg.send_income o v h =
      execute_send_income-IsValid s info v h
  execute-IsValid owners s env info (ExecuteMsg.claim_rewards lps) o v h =
      execute_claim_rewards-IsValid c api s env info lps v h
  execute-IsValid owners s env info (ExecuteMsg.withdraw lp amount) o v h =
      execute_withdraw-IsValid c api s env info lp amount v h
  execute-IsValid owners s env info (ExecuteMsg.propose_new_owner owner expires_in) {out} o v h =
      (ownership_IsValid owners s env info owner expires_in o v).0 out h
  execute-IsValid owners s env info ExecuteMsg.drop_ownership_proposal {out} o v h =
      (ownership_IsValid owners s env info 0 0 o v).1 out h
  execute-IsValid owners s env info ExecuteMsg.claim_ownership {out} o v h =
      (ownership_IsValid owners s env info 0 0 o v).2 out h
  execute-IsValid owners s env info ExecuteMsg.relock o v h =
      execute_relock-IsValid c s env info v h
  execute-IsValid owners s env info (ExecuteMsg.request_unstake amount) o v h =
      execute_request_unstake-IsValid s info c env amount v h
  execute-IsValid owners s env info (ExecuteMsg.withdraw_unstaked amount) o v h =
      execute_withdraw_unstaked-IsValid s info amount v h
  execute-IsValid owners s env info ExecuteMsg.claim_income o v h =
      execute_claim_income-IsValid s info v h

  instantiate-ok :
      (env : Env) (msg : InstantiateMsg) {s : Store}
      → instantiate api c env msg ≡ ok s
      → (s.pool_info ≡ [])
        × (s.user_info ≡ [])
        × (s.reward_info ≡ [])
        × (s.staker_info ≡ [])
        × (s.staking_state.total_bond_share ≡ 0)
        × (s.staking_state.total_unstaking_amount ≡ 0)
        × (s.staking_state.total_unstaked_amount ≡ 0)
        × (s.config.staker_rate ≤ decimal_one)
        × (s.config.boost_fee ≤ decimal_one)
  unfolding instantiate validate_percentage
  instantiate-ok env msg h = ground arith

  pub instantiate-IsValid :
      (env : Env) (msg : InstantiateMsg) {s : Store} → instantiate api c env msg ≡ ok s → IsValid s
  instantiate-IsValid env msg {s} h =
      let (pools, users, rewards, stakers, total, unstaking, unstaked, rate, fee) =
        instantiate-ok env msg h in
      record {
        users_sorted = rw users tt;
        stakers_sorted = rw stakers tt;
        restricted = λ lp. rw pools tt;
        pool_total = λ lp. rw (pools, users);
        staking_total = rw (stakers, total);
        unstaking_total = rw (stakers, unstaking, unstaked);
        staker_rate = rate;
        boost_fee = fee;
        covered = λ t. rw (pools, users, rewards, stakers) (ground arith);
      }
