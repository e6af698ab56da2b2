-- ===== src/Farm/Contract/Preserves.antt =====
-- Every message to contracts/astroport_farm keeps the invariant of its storage.
use spectrum_core.Base.{ℕ, ◌-◌, ◌≡◌, Option, some, List, [], arith, ok, get_or}
use spectrum_core.Cosmwasm.Math.{math}
use spectrum_core.Cosmwasm.Std.{Addr, Api, Env, MessageInfo, IsExpired}
use spectrum_core.Cosmwasm.Map.{ℕ_key}
use spectrum_core.Farm.{Store, Message, CallbackMsg, Cw20ReceiveMsg, Cw20HookMsg}
use spectrum_core.Farm.Messages.{InstantiateMsg, ExecuteMsg}
use spectrum_core.Farm.Adapters.{Querier}
use spectrum_core.Farm.Balances.{IsValid}
use spectrum_core.Farm.Bond.{bond_internal, bond_to, bond}
use spectrum_core.Farm.Bond.Steps.{bond_internal-IsValid, unbond-IsValid}
use spectrum_core.Farm.Cw20.{
  transfer_internal, burn_internal, deduct_allowance, execute_transfer, execute_send, execute_burn,
  execute_transfer_from, execute_send_from, execute_burn_from,
}
use spectrum_core.Farm.Compound.{stake}
use spectrum_core.Farm.Contract.{
  instantiate, execute, validate_percentage, receive_cw20, handle_callback,
}
use spectrum_core.Farm.Contract.Invariant.{
  same-IsValid, burn_internal-IsValid, transfer_internal-IsValid, deduct_allowance-same,
  allowances-same, update_config-same, ownership-same, bond_assets-same, compound-same, stake-same,
}

bond_to-ok :
    (q : Querier) (s : Store) (env : Env) (to prev_balance : ℕ) (minimum_receive : Option ℕ)
    {out : Store × List Message}
    → bond_to q s env to prev_balance minimum_receive ≡ ok out
    → (balance : ℕ) × (q.query_token_balance s.config.liquidity_token env.contract ≡ ok balance)
      × (bond_internal q s env to (balance - prev_balance) ≡ ok out)
unfolding bond_to
bond_to-ok q s env to prev_balance minimum_receive h = ground arith

receive_cw20-ok :
    (api : Api) (q : Querier) (s : Store) (env : Env) (info : MessageInfo) (msg : Cw20ReceiveMsg)
    {out : Store × List Message}
    → receive_cw20 api q s env info msg ≡ ok out
    → (named : Option ℕ) × (msg.msg ≡ some (Cw20HookMsg.bond named))
      × (staker : Addr) × (api (get_or named msg.sender) ≡ ok staker)
      × (info.sender ≡ s.config.liquidity_token)
      × (bond_internal q s env staker msg.amount ≡ ok out)
unfolding receive_cw20 bond
receive_cw20-ok api q s env info msg h = ground arith

handle_callback-ok :
    (api : Api) (q : Querier) (s : Store) (env : Env) (info : MessageInfo)
    {out : Store × List Message}
    → ((prev_balance : ℕ) (minimum_receive : Option ℕ)
        → handle_callback api q s env info (CallbackMsg.stake prev_balance minimum_receive) ≡ ok out
        → (info.sender ≡ env.contract) × (stake q s env prev_balance minimum_receive ≡ ok out))
      × ((to prev_balance : ℕ) (minimum_receive : Option ℕ)
          → handle_callback api q s env info (CallbackMsg.bond_to to prev_balance minimum_receive)
            ≡ ok out
          → (info.sender ≡ env.contract)
            × (bond_to q s env to prev_balance minimum_receive ≡ ok out))
unfolding handle_callback
handle_callback-ok api q s env info = (λ p m h. ground arith, λ t p m h. ground arith)

module _ (api : Api) (s : Store) where
  transfers-ok :
      (info : MessageInfo) (recipient amount : ℕ) (msg : List ℕ) {out : Store × List Message}
      → (execute_transfer api s info recipient amount ≡ ok out
          → transfer_internal api s info.sender recipient amount ≡ ok out.0)
        × (execute_send api s info recipient amount msg ≡ ok out
            → transfer_internal api s info.sender recipient amount ≡ ok out.0)
        × (execute_burn s info amount ≡ ok out → burn_internal s info.sender amount ≡ ok out.0)
  unfolding execute_transfer execute_send execute_burn
  transfers-ok info recipient amount msg = (λ h. ground arith, λ h. ground arith, λ h. ground arith)

  pub transfer_from-ok :
      (is_expired : IsExpired) (env : Env) (info : MessageInfo) (owner recipient amount : ℕ)
      {out : Store × List Message}
      → execute_transfer_from api is_expired s env info owner recipient amount ≡ ok out
      → (a : Addr) × (api owner ≡ ok a)
        × (s' : Store) × (deduct_allowance is_expired s a info.sender env amount ≡ ok s')
        × (transfer_internal api s' a recipient amount ≡ ok out.0)
  unfolding execute_transfer_from
  transfer_from-ok is_expired env info owner recipient amount h = ground arith

  pub send_from-ok :
      (is_expired : IsExpired) (env : Env) (info : MessageInfo) (owner recipient amount : ℕ)
      (msg : List ℕ) {out : Store × List Message}
      → execute_send_from api is_expired s env info owner recipient amount msg ≡ ok out
      → (a : Addr) × (api owner ≡ ok a)
        × (s' : Store) × (deduct_allowance is_expired s a info.sender env amount ≡ ok s')
        × (transfer_internal api s' a recipient amount ≡ ok out.0)
  unfolding execute_send_from
  send_from-ok is_expired env info owner recipient amount msg h = ground arith

  pub burn_from-ok :
      (is_expired : IsExpired) (env : Env) (info : MessageInfo) (owner amount : ℕ)
      {out : Store × List Message}
      → execute_burn_from api is_expired s env info owner amount ≡ ok out
      → (a : Addr) × (api owner ≡ ok a)
        × (s' : Store) × (deduct_allowance is_expired s a info.sender env amount ≡ ok s')
        × (burn_internal s' a amount ≡ ok out.0)
  unfolding execute_burn_from
  burn_from-ok is_expired env info owner amount h = ground arith

module _ (api : Api) (q : Querier) (is_expired : IsExpired) (s : Store) (env : Env)
    (info : MessageInfo) where
  deduct_IsValid :
      (owner spender amount : ℕ) {s' : Store}
      → IsValid s
      → deduct_allowance is_expired s owner spender env amount ≡ ok s'
      → IsValid s'
  deduct_IsValid owner spender amount {s'} v h =
      same-IsValid s s' (deduct_allowance-same is_expired s owner spender env amount h) v

  handle_callback-IsValid :
      (msg : CallbackMsg) {out : Store × List Message}
      → IsValid s
      → handle_callback api q s env info msg ≡ ok out
      → IsValid out.0
  handle_callback-IsValid (CallbackMsg.stake p m) {out} v h =
      same-IsValid s out.0
        (stake-same q s env p m ((handle_callback-ok api q s env info).0 p m h).1) v
  handle_callback-IsValid (CallbackMsg.bond_to to p m) v h =
      let (_, bonded) = (handle_callback-ok api q s env info).1 to p m h in
      let (balance, _, bonded') = bond_to-ok q s env to p m bonded in
      bond_internal-IsValid q s env to (balance - p) v bonded'

  pub execute-IsValid :
      (msg : ExecuteMsg) {out : Store × List Message}
      → IsValid s
      → execute api q is_expired s env info msg ≡ ok out
      → IsValid out.0
  unfolding execute
  execute-IsValid (ExecuteMsg.receive msg) v h =
      let (_, _, staker, _, _, bonded) = receive_cw20-ok api q s env info msg h in
      bond_internal-IsValid q s env staker msg.amount v bonded
  execute-IsValid (ExecuteMsg.update_config p c f k) {out} v h =
      same-IsValid s out.0 (update_config-same api s info p c f k h) v
  execute-IsValid (ExecuteMsg.unbond amount) v h = unbond-IsValid q s env info amount v h
  execute-IsValid (ExecuteMsg.compound m t) {out} v h =
      same-IsValid s out.0 (compound-same q s env info m t h) v
  execute-IsValid (ExecuteMsg.bond_assets a m n t) {out} v h =
      same-IsValid s out.0 (bond_assets-same q s env info a m n t h) v
  execute-IsValid (ExecuteMsg.propose_new_owner o e) {out} v h =
      same-IsValid s out.0 ((ownership-same api q is_expired s env info o e).0 out h) v
  execute-IsValid ExecuteMsg.drop_ownership_proposal {out} v h =
      same-IsValid s out.0 ((ownership-same api q is_expired s env info 0 0).1 out h) v
  execute-IsValid ExecuteMsg.claim_ownership {out} v h =
      same-IsValid s out.0 ((ownership-same api q is_expired s env info 0 0).2 out h) v
  execute-IsValid (ExecuteMsg.callback msg) v h = handle_callback-IsValid msg v h
  execute-IsValid (ExecuteMsg.transfer r a) v h =
      transfer_internal-IsValid api s info.sender r a v ((transfers-ok api s info r a []).0 h)
  execute-IsValid (ExecuteMsg.burn a) v h =
      burn_internal-IsValid s info.sender a v ((transfers-ok api s info 0 a []).2 h)
  execute-IsValid (ExecuteMsg.send r a m) v h =
      transfer_internal-IsValid api s info.sender r a v ((transfers-ok api s info r a m).1 h)
  execute-IsValid (ExecuteMsg.increase_allowance b a e) {out} v h =
      same-IsValid s out.0 ((allowances-same api s info b a e).0 out h) v
  execute-IsValid (ExecuteMsg.decrease_allowance b a e) {out} v h =
      same-IsValid s out.0 ((allowances-same api s info b a e).1 out h) v
  execute-IsValid (ExecuteMsg.transfer_from o r a) v h =
      let (o', _, s', deducted, moved) = transfer_from-ok api s is_expired env info o r a h in
      transfer_internal-IsValid api s' o' r a (deduct_IsValid o' info.sender a v deducted) moved
  execute-IsValid (ExecuteMsg.send_from o r a m) v h =
      let (o', _, s', deducted, moved) = send_from-ok api s is_expired env info o r a m h in
      transfer_internal-IsValid api s' o' r a (deduct_IsValid o' info.sender a v deducted) moved
  execute-IsValid (ExecuteMsg.burn_from o a) v h =
      let (o', _, s', deducted, burnt) = burn_from-ok api s is_expired env info o a h in
      burn_internal-IsValid s' o' a (deduct_IsValid o' info.sender a v deducted) burnt
  execute-IsValid ExecuteMsg.mint v h = ground arith
  execute-IsValid ExecuteMsg.update_marketing v h = ground arith
  execute-IsValid ExecuteMsg.upload_logo v h = ground arith

pub instantiate-IsValid :
    (api : Api) (msg : InstantiateMsg) {s : Store} → instantiate api msg ≡ ok s → IsValid s
unfolding instantiate validate_percentage
instantiate-IsValid api msg h = ground arith
