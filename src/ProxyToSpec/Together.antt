-- ===== src/ProxyToSpec/Together.antt =====
-- contracts/generator_proxy_to_spec together with contracts/lp_staking, its reward contract.
use spectrum_core.Base.{
  ℕ, ◌+◌, ◌-◌, ◌≡◌, refl, ap, subst, ◌∙◌, inl, inr, if◌then◌else◌, none, some, List, [], ◌∷◌, arith,
  ◌==◌, ◌&&◌, Bool-cases, ok, get_or,
}
use spectrum_core.Cosmwasm.Math.{math}
use spectrum_core.Cosmwasm.Std.{Addr, Api, Env}
use spectrum_core.Cosmwasm.Map.{ℕ_key, IsSorted, insert, lookup-insert, lookup-erase}
use spectrum_core.LpStaking
use spectrum_core.LpStaking.{RewardInfo, Store, read_reward_info, Transfer}
use spectrum_core.LpStaking.Handlers
use spectrum_core.LpStaking.Handlers.{store_reward_info}
use spectrum_core.LpStaking.Handlers.Invariant.{
  IsValid, compute_staker_reward-ok, bond_to-ok, unbond-ok, receive_cw20-ok, execute-IsValid,
}
use spectrum_core.ProxyToSpec.{
  Config, deposit, send, transfer, staking, call_back, Chain, transfer_lp_tokens_after_withdraw,
  ExecuteMsg,
}
use spectrum_core.ProxyToSpec.Contract

read-insert :
    (s : Store) (a : Addr) (r : RewardInfo) (st : LpStaking.State)
    → read_reward_info (record s { reward_infos = insert a r s.reward_infos; state = st }) a ≡ r
unfolding read_reward_info
read-insert s a r st = ground (arith, lookup-insert a a r s.reward_infos)

-- What is read back of an entry that is stored has its bond, also where the entry is removed.
read-store :
    (s : Store) (a : Addr) (r : RewardInfo) (st : LpStaking.State)
    → IsSorted s.reward_infos
    → (read_reward_info
        (record s { reward_infos = store_reward_info a r s.reward_infos; state = st })
        a).bond_amount
      ≡ r.bond_amount
unfolding read_reward_info
read-store s a r st sorted = elim (Bool-cases (r.pending_reward == 0 && r.bond_amount == 0)) [
  | inl e ↦ rw e (ground (arith, lookup-erase a a s.reward_infos sorted))
  | inr e ↦ rw e (ground (arith, lookup-insert a a r s.reward_infos))
]

module _ (api : Api) (s : Store) (env : Env) (lp proxy amount : ℕ) where
  pub bonded_by-proxy :
      {out : Store × List Transfer}
      → api proxy ≡ ok proxy
      → Handlers.execute api s env
          (record { sender = lp; funds = [] })
          (LpStaking.ExecuteMsg.receive
            (record { sender = proxy; amount = amount; msg = some (LpStaking.bond none) }))
        ≡ ok out
      → ((read_reward_info out.0 proxy).bond_amount
          ≡ (read_reward_info s proxy).bond_amount + amount)
        × (lp ≡ s.config.staking_token)
        × (out.0.config ≡ s.config)
        × (out.1 ≡ [])
  unfolding Handlers.execute
  bonded_by-proxy {out} valid h =
      let msg : LpStaking.Cw20ReceiveMsg = record {
        sender = proxy;
        amount = amount;
        msg = some (LpStaking.bond none);
      } in
      let (staker, sender, parsed, from, named, bonded) =
        receive_cw20-ok api s env (record { sender = lp; funds = [] }) msg h in
      let nobody : staker ≡ none = ground arith in
      let same : sender ≡ proxy = ground arith in
      let who : get_or staker sender ≡ proxy = rw (nobody, same) in
      let (a, state, r, known, _, settled, left) =
        bond_to-ok api s env (get_or staker sender) amount bonded in
      let at : a ≡ proxy = ground arith in
      let (bond, _, _) = compute_staker_reward-ok state (read_reward_info s a) settled in
      let kept : (read_reward_info out.0 a).bond_amount ≡ r.bond_amount + amount =
        rw left (ap (λ (x : RewardInfo). x.bond_amount) (read-insert s a _ _)) in
      (
        subst
            (λ x.
              (read_reward_info out.0 x).bond_amount ≡ (read_reward_info s x).bond_amount + amount)
            at (kept ∙ ap (λ (n : ℕ). n + amount) bond),
        from,
        rw left,
        rw left,
      )

  pub unbonded_by-proxy :
      {out : Store × List Transfer}
      → IsValid s
      → Handlers.execute api s env
          (record { sender = proxy; funds = [] })
          (LpStaking.ExecuteMsg.unbond amount)
        ≡ ok out
      → ((read_reward_info out.0 proxy).bond_amount + amount
          ≡ (read_reward_info s proxy).bond_amount)
        × (out.1
            ≡ record { token = s.config.staking_token; recipient = proxy; amount = amount } ∷ [])
  unfolding Handlers.execute
  unbonded_by-proxy v h =
      let (state, r, _, settled, enough, _, left) =
        unbond-ok s env (record { sender = proxy; funds = [] }) amount h in
      let (bond, _, _) = compute_staker_reward-ok state (read_reward_info s proxy) settled in
      let kept =
        read-store s proxy (record r { bond_amount = r.bond_amount - amount })
          (record state { total_bond_amount = state.total_bond_amount - amount }) v.sorted in
      rw left (omega (arith, kept, enough, bond), refl)

-- What a list of transfers brings of a token to a recipient
abbrev pub received : Addr → Addr → List Transfer → ℕ
received token to [] = 0
received token to (t ∷ ts) =
    (if t.token == token && t.recipient == to then t.amount else 0) + received token to ts

-- The answers of the proxy
module _ (api : Api) (c : Chain) (cfg : Config) (env : Env) (amount account prev : ℕ) where
  pub deposit_msgs :
      (c : Chain)
      → Contract.execute api c cfg env
          (record { sender = cfg.lp_token_addr; funds = [] })
          (ExecuteMsg.receive
            (record { sender = cfg.generator_contract_addr; amount = amount; msg = some deposit }))
        ≡ ok (send cfg.lp_token_addr cfg.reward_contract_addr amount (LpStaking.bond none) ∷ [])
  unfolding Contract.execute Contract.receive_cw20
  deposit_msgs c = ground arith

  pub withdraw_msgs :
      {to : Addr}
      → api account ≡ ok to
      → c.query_balance cfg.lp_token_addr env.contract ≡ ok prev
      → Contract.execute api c cfg env
          (record { sender = cfg.generator_contract_addr; funds = [] })
          (ExecuteMsg.withdraw account amount)
        ≡ ok (
            staking cfg.reward_contract_addr (LpStaking.ExecuteMsg.unbond amount)
            ∷ call_back env.contract (transfer_lp_tokens_after_withdraw to prev)
            ∷ [])
  unfolding Contract.execute Contract.withdraw
  withdraw_msgs valid asked = ground arith

  pub callback_msgs :
      (to : Addr) {balance : ℕ}
      → c.query_balance cfg.lp_token_addr env.contract ≡ ok balance
      → balance ≡ prev + amount
      → Contract.execute api c cfg env
          (record { sender = env.contract; funds = [] })
          (ExecuteMsg.callback (transfer_lp_tokens_after_withdraw to prev))
        ≡ ok (transfer cfg.lp_token_addr to amount ∷ [])
  unfolding Contract.execute Contract.handle_callback Contract.transfer_lp_tokens
  callback_msgs to asked e = ground arith

module _ (api : Api) (c c' : Chain) (cfg : Config) (env env' : Env) (s : Store) where
  pub deposit_withdraw-returns :
      (amount account prev : ℕ) {to : Addr} {after_bond after_unbond : Store × List Transfer}
      → IsValid s
      → api env.contract ≡ ok env.contract
      → api account ≡ ok to
      → Handlers.execute api s env
          (record { sender = cfg.lp_token_addr; funds = [] })
          (LpStaking.ExecuteMsg.receive
            (record { sender = env.contract; amount = amount; msg = some (LpStaking.bond none) }))
        ≡ ok after_bond
      → Handlers.execute api after_bond.0 env'
          (record { sender = env.contract; funds = [] })
          (LpStaking.ExecuteMsg.unbond amount)
        ≡ ok after_unbond
      → c.query_balance cfg.lp_token_addr env.contract ≡ ok prev
      → c'.query_balance cfg.lp_token_addr env.contract
        ≡ ok (prev + received cfg.lp_token_addr env.contract after_unbond.1)
      → (Contract.execute api c cfg env
            (record { sender = cfg.lp_token_addr; funds = [] })
            (ExecuteMsg.receive (record {
              sender = cfg.generator_contract_addr;
              amount = amount;
              msg = some deposit;
            }))
          ≡ ok (send cfg.lp_token_addr cfg.reward_contract_addr amount (LpStaking.bond none) ∷ []))
        × (Contract.execute api c cfg env
              (record { sender = cfg.generator_contract_addr; funds = [] })
              (ExecuteMsg.withdraw account amount)
            ≡ ok (
                staking cfg.reward_contract_addr (LpStaking.ExecuteMsg.unbond amount)
                ∷ call_back env.contract (transfer_lp_tokens_after_withdraw to prev)
                ∷ []))
        × (Contract.execute api c' cfg env
              (record { sender = env.contract; funds = [] })
              (ExecuteMsg.callback (transfer_lp_tokens_after_withdraw to prev))
            ≡ ok (transfer cfg.lp_token_addr to amount ∷ []))
        × ((read_reward_info after_unbond.0 env.contract).bond_amount
            ≡ (read_reward_info s env.contract).bond_amount)
  deposit_withdraw-returns amount account prev {to} {after_bond} {after_unbond} v self valid bonded
        unbonded before after =
      let proxy = env.contract in
      let (more, lp, config, _) =
        bonded_by-proxy api s env cfg.lp_token_addr proxy amount self bonded in
      let v' =
        execute-IsValid api s env (record { sender = cfg.lp_token_addr; funds = [] }) _ v bonded in
      let (less, paid) =
        unbonded_by-proxy api after_bond.0 env' cfg.lp_token_addr proxy amount v' unbonded in
      let token : after_bond.0.config.staking_token ≡ cfg.lp_token_addr = rw (config, lp) in
      let sum : received cfg.lp_token_addr proxy after_unbond.1 ≡ amount =
        rw (paid, token) (ground arith) in
      (
        deposit_msgs api c cfg env amount account prev c,
        withdraw_msgs api c cfg env amount account prev valid before,
        callback_msgs api c' cfg env amount account prev to after (omega (arith, sum)),
        omega (arith, more, less),
      )
