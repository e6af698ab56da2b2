-- ===== src/GeneratorProxy/Solvency.antt =====
-- What contracts/generator_proxy promises to those who deposit LP tokens and stake xASTRO.
use spectrum_core.Base.{
  ◌↔◌, ℕ, ◌+◌, ◌-◌, ◌≤◌, ◌<◌, ◌≡◌, min, ◌^◌, ◌*◌, ◌/◌, some, List, [], ok, err,
}
use spectrum_core.Cosmwasm.Math.{Math, IsMath, Math-eq, u128_mod, decimal_one, increased}
use spectrum_core.Cosmwasm.Std.{Addr, Api, Env, MessageInfo}
use spectrum_core.Cosmwasm.Map.{ℕ_key, pair_key, lookup}
use spectrum_core.Farm.Shares.Dilution.{worth}
use spectrum_core.GeneratorProxy.{
  AstroGov, Config, PoolInfo, UserInfo, RewardInfo, Store, exceed_quota, Message, Response,
}
use spectrum_core.GeneratorProxy.Messages.{InstantiateMsg, ExecuteMsg, Owners, IsOwners}
use spectrum_core.GeneratorProxy.Chain.{
  Chain, UserInfoV2, Lock, query_lock, claim_loop, calc_claim_amount,
}
use spectrum_core.GeneratorProxy.Pool.{reconcile_astro_reward, reconcile_to_user_info}
use spectrum_core.GeneratorProxy.Bond.{callback_deposit, callback_withdraw, callback_claim_rewards}
use spectrum_core.GeneratorProxy.Staking.{execute_stake}
use spectrum_core.GeneratorProxy.Contract.{instantiate, execute}
use spectrum_core.GeneratorProxy.Invariant.{IsValid, pool_at}
use spectrum_core.GeneratorProxy.Invariant.Preserves
use spectrum_core.GeneratorProxy.Invariant.Credit.{Split}
use spectrum_core.GeneratorProxy.Invariant.Credit
use spectrum_core.GeneratorProxy.Invariant.Payment.{payments}
use spectrum_core.GeneratorProxy.Invariant.Payment
use spectrum_core.GeneratorProxy.Claim.{Answers, claimable_sum}
use spectrum_core.GeneratorProxy.Claim
use spectrum_core.GeneratorProxy.Access.{IsPermitted}
use spectrum_core.GeneratorProxy.Access
use spectrum_core.GeneratorProxy.Dilution.{SameOthers}
use spectrum_core.GeneratorProxy.Dilution
use spectrum_core.GeneratorProxy.Quota
use spectrum_core.GeneratorProxy.Quota.{locked_by}

-- The storages that the contract can come to: from `instantiate`, by messages of anybody at any
-- time that succeed, whatever the other contracts answer.
pub data Attainable ⦃m : Math⦄ (api : Api) (owners : Owners) : Store → Type 0 where
  start :
      (c : Chain) (env : Env) (msg : InstantiateMsg) {s : Store}
      → instantiate api c env msg ≡ ok s
      → Attainable api owners s
  next :
      {s : Store} (c : Chain) (env : Env) (info : MessageInfo) (msg : ExecuteMsg) {s' : Store}
      (sent : List Message)
      → Attainable api owners s
      → execute api c owners s env info msg ≡ ok (s', sent)
      → Attainable api owners s'

module _ ⦃m : Math⦄ (lawful : IsMath m) where
  execute-IsValid :
      (api : Api) (c : Chain) (owners : Owners) (s : Store) (env : Env) (info : MessageInfo)
      (msg : ExecuteMsg) {out : Response}
      → IsOwners owners
      → IsValid s
      → execute api c owners s env info msg ≡ ok out
      → IsValid out.0
  execute-IsValid = rw (Math-eq m lawful) Preserves.execute-IsValid

  -- Where the handlers of the ownership do what is documented, in every storage that
  -- messages can lead to, the reconciled amount of each token is at least the fee, the
  -- income of the stakers and all that the users and, of ASTRO, the stakers can claim; the
  -- shares of each pool and of the staking are the sums of the entries, what is unstaking
  -- and unstaked is the sum of the stakers' amounts, the entries of the users and of the
  -- stakers stand in order with no key twice, no pool has two indexes of a token, and both
  -- rates are at most 1.
  pub Attainable-IsValid :
      {api : Api} {owners : Owners} {s : Store}
      → IsOwners owners
      → Attainable api owners s
      → IsValid s
  Attainable-IsValid o (start c env msg h) = Preserves.instantiate-IsValid _ c env msg h
  Attainable-IsValid {api} {owners} o (next {s = s} c env info msg sent r h) =
      execute-IsValid api c owners s env info msg o (Attainable-IsValid o r) h

  -- On a valid storage a user of a pool whose entry can be reconciled is paid every pending
  -- amount that is not 0, exactly, and nothing is pending afterwards.
  pub callback_claim_rewards_pays :
      (s : Store) (lp a : Addr) (u u' : UserInfo) (pool : PoolInfo)
      → IsValid s
      → lookup (lp, a) s.user_info ≡ some u
      → lookup lp s.pool_info ≡ some pool
      → reconcile_to_user_info pool u ≡ ok u'
      → (s' : Store) × (callback_claim_rewards s lp a ≡ ok (s', payments a u'.pending_rewards))
        × (lookup (lp, a) s'.user_info ≡ some (record u' { pending_rewards = [] }))
  callback_claim_rewards_pays = rw (Math-eq m lawful) Payment.callback_claim_rewards-pays

  -- A reconciliation of ASTRO that succeeds splits the amount, with nothing lost, into the
  -- fee and the stakers' part of what lies above the unboosted part, and the rest for the
  -- users; the reconciled amount, the fee and the income grow by these, and the index of
  -- ASTRO by the rest for each share.
  pub reconcile_astro_reward_splits :
      (config : Config) (astro_user_info : UserInfoV2) (pool : PoolInfo) (r : RewardInfo) (net : ℕ)
      {out : PoolInfo × RewardInfo}
      → reconcile_astro_reward config astro_user_info pool r net ≡ ok out
      → (p : Split config astro_user_info net) × (out.1.reconciled_amount
          ≡ r.reconciled_amount + net)
        × (out.1.fee ≡ r.fee + p.fee)
        × (out.1.staker_income ≡ r.staker_income + p.to_staker)
        × (increased config.astro_token
              (p.to_lp * decimal_one / pool.total_bond_share)
              pool.reward_indexes
            ≡ some out.0.reward_indexes)
  reconcile_astro_reward_splits = rw (Math-eq m lawful) Credit.reconcile_astro_reward-split

  -- A deposit that succeeds changes no other user and no other pool, and any number of
  -- shares is worth no less of the pool with the deposit than of the pool without.
  pub callback_deposit_no_dilution :
      (c : Chain) (s : Store) (env : Env) (lp a amount L : ℕ) {out : Response}
      → callback_deposit c s env lp a amount ≡ ok out
      → c.query_deposit s.config.generator lp env.contract ≡ ok L
      → SameOthers lp a s out.0
        × ((h : ℕ)
            → worth (pool_at lp s.pool_info).total_bond_share L h
              ≤ worth (pool_at lp out.0.pool_info).total_bond_share (L + amount) h)
  callback_deposit_no_dilution = rw (Math-eq m lawful) Dilution.callback_deposit-others

  -- A withdrawal that succeeds changes no other user and no other pool, and any number of
  -- the shares that are left is worth no less of what is left of the pool than of the pool
  -- before.
  pub callback_withdraw_no_dilution :
      (c : Chain) (s : Store) (env : Env) (lp a amount L : ℕ) {out : Response}
      → callback_withdraw c s env lp a amount ≡ ok out
      → c.query_deposit s.config.generator lp env.contract ≡ ok L
      → SameOthers lp a s out.0
        × ((h : ℕ)
            → h ≤ (pool_at lp out.0.pool_info).total_bond_share
            → worth (pool_at lp s.pool_info).total_bond_share L h
              ≤ worth (pool_at lp out.0.pool_info).total_bond_share (L - amount) h)
  callback_withdraw_no_dilution = rw (Math-eq m lawful) Dilution.callback_withdraw-others

  -- Where the handlers of the ownership do what is documented, a message that succeeds was
  -- sent by who may send it: a stake by the xASTRO token, a callback by the contract
  -- itself, a relock by the controller or the contract, the parameters, the votes and the
  -- sending of the income by the controller, a change of the configuration and a proposal
  -- or its withdrawal by the owner, and a claim of the ownership by the proposed owner up
  -- to the ttl.
  pub execute-IsPermitted :
      (api : Api) (c : Chain) (owners : Owners) (s : Store) (env : Env) (info : MessageInfo)
      (msg : ExecuteMsg) {out : Response}
      → IsOwners owners
      → execute api c owners s env info msg ≡ ok out
      → IsPermitted s env info msg
  execute-IsPermitted = rw (Math-eq m lawful) Access.execute-IsPermitted

  -- Any two amounts of fuel that are at least the periods up to the current one give the
  -- same result, errors and panics included, so the loop ends by itself within the fuel
  -- that `calc_claim_amount` gives.
  pub claim_loop_any_fuel :
      (c : Chain) (gov : AstroGov) (account lock_end current fuel fuel' period amount : ℕ)
      → current - period ≤ fuel
      → current - period ≤ fuel'
      → claim_loop c fuel gov account lock_end current period amount
        ≡ claim_loop c fuel' gov account lock_end current period amount
  claim_loop_any_fuel = rw (Math-eq m lawful) Claim.claim_loop_enough

  -- Where the contracts of the governance answer for every period and the sum fits, the
  -- loop does not fail, and comes to the sum of what each period pays, from the first one
  -- to before the current one and no later than the end of the lock.
  pub calc_claim_amount_sum :
      (c : Chain) (gov : AstroGov) (account : Addr) (vp total rewards : ℕ → ℕ)
      → Answers c gov account vp total rewards
      → (lock_end start current : ℕ) → c.lock_info_end gov.voting_escrow account ≡ ok lock_end
      → current < 2 ^ 64
      → claimable_sum c gov account vp total rewards start (min current (lock_end + 1) - start)
        < u128_mod
      → calc_claim_amount c gov account start current
        ≡ ok (
            claimable_sum c gov account vp total rewards start (min current (lock_end + 1) - start))
  calc_claim_amount_sum = rw (Math-eq m lawful) Claim.calc_claim_amount-sum

  -- While the contract's lock is known, a stake is refused with `ExceedQuota`, which names what is
  -- left of the quota, exactly where it is sent by xASTRO and the lock and the amount, whose sum
  -- fits, come to more than the quota; the messages of a stake that succeeds add just the amount to
  -- the lock, and keep it within the quota.
  pub execute_stake_quota :
      (c : Chain) (s : Store) (env : Env) (info : MessageInfo) (a amount : ℕ) (lock : Lock)
      → query_lock c s.config.astro_gov env.contract ≡ ok lock
      → ((x : ℕ)
          → (execute_stake c s env info a amount ≡ err (exceed_quota x)) ↔ (
              (info.sender ≡ s.config.astro_gov.xastro_token)
              × (s.config.max_quota < lock.amount + amount)
              × (lock.amount + amount < u128_mod)
              × (x ≡ s.config.max_quota - lock.amount)))
        × ((out : Response)
            → execute_stake c s env info a amount ≡ ok out
            → (locked_by out.1 ≡ amount) × (lock.amount + locked_by out.1 ≤ s.config.max_quota))
  execute_stake_quota = rw (Math-eq m lawful) Quota.execute_stake-quota
