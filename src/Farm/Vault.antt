-- ===== src/Farm/Vault.antt =====
-- The vault of contracts/astroport_farm as a whole, under any arithmetic that follows its
-- documentation: its invariant, what deposits and withdrawals leave to the others, and what becomes
-- of the rewards.
use spectrum_core.Base.{ℕ, ◌+◌, ◌-◌, ◌≤◌, ◌<◌, ◌≡◌, ◌≢◌, ◌⊎◌, min, some, List, ok, get_or}
use spectrum_core.Cosmwasm.Math.{Math, IsMath, Math-eq, u128_mod}
use spectrum_core.Cosmwasm.Std.{Addr, Api, Env, MessageInfo, IsExpired}
use spectrum_core.Cosmwasm.Map.{ℕ_key, lookup}
use spectrum_core.Farm.{State, RewardInfo, Store, Message, ContractError, default_reward_info}
use spectrum_core.Farm.Messages.{InstantiateMsg, ExecuteMsg}
use spectrum_core.Farm.Adapters.{Querier}
use spectrum_core.Farm.Shares.{calc_user_balance, day}
use spectrum_core.Farm.Shares.Dilution.{worth, calc_user_balance-ok}
use spectrum_core.Farm.Bond.{bond_internal, unbond}
use spectrum_core.Farm.Compound.Totals
use spectrum_core.Farm.Balances.{IsValid, balance_in}
use spectrum_core.Farm.Contract.{instantiate, execute}
use spectrum_core.Farm.Contract.Preserves
use spectrum_core.Farm.Contract.Access
use spectrum_core.Farm.Contract.Access.{IsAllowed}
use spectrum_core.Farm.Worth.{NotDiluted, bond_internal-worth, unbond-worth, bond_internal-deposit}

-- The storages that the contract can come to: from `instantiate`, by messages of anybody at any
-- time that succeed, whatever the other contracts answer.
pub data Reachable ⦃m : Math⦄ (api : Api) (is_expired : IsExpired) : Store → Type 0 where
  start :
      (msg : InstantiateMsg) {s : Store} → instantiate api msg ≡ ok s → Reachable api is_expired s
  next :
      {s : Store} (q : Querier) (env : Env) (info : MessageInfo) (msg : ExecuteMsg) {s' : Store}
      (sent : List Message)
      → Reachable api is_expired s
      → execute api q is_expired s env info msg ≡ ok (s', sent)
      → Reachable api is_expired s'

module _ ⦃m : Math⦄ (lawful : IsMath m) where
  execute-IsValid :
      (api : Api) (q : Querier) (is_expired : IsExpired) (s : Store) (env : Env)
      (info : MessageInfo) (msg : ExecuteMsg) {out : Store × List Message}
      → IsValid s
      → execute api q is_expired s env info msg ≡ ok out
      → IsValid out.0
  execute-IsValid = rw (Math-eq m lawful) Preserves.execute-IsValid

  -- In every storage that messages can lead to, the total share is the sum of the users' shares,
  -- the entries of the users and the allowances stand in order with no key twice, and the fee is
  -- at most 1.
  pub Reachable-IsValid :
      {api : Api} {is_expired : IsExpired} {s : Store} → Reachable api is_expired s → IsValid s
  Reachable-IsValid (start msg h) = Preserves.instantiate-IsValid _ msg h
  Reachable-IsValid {api} {is_expired} (next {s = s} q env info msg sent r h) =
      execute-IsValid api q is_expired s env info msg (Reachable-IsValid r) h

  -- A deposit that succeeds on a valid storage leaves every other user's entry as it is, and its
  -- shares are worth no less of the vault with the deposit than they were of the vault without.
  pub bond_internal_no_dilution :
      (q : Querier) (s : Store) (env : Env) (a : Addr) (amount : ℕ) {out : Store × List Message}
      {lp_balance : ℕ}
      → IsValid s
      → bond_internal q s env a amount ≡ ok out
      → q.query_deposit s.config.staking_contract s.config.liquidity_token env.contract
        ≡ ok lp_balance
      → (c : Addr) {r : RewardInfo} → c ≢ a
      → lookup c s.rewards ≡ some r
      → (lookup c out.0.rewards ≡ some r)
        × NotDiluted s.state lp_balance out.0.state (lp_balance + amount) r.bond_share
  bond_internal_no_dilution = rw (Math-eq m lawful) bond_internal-worth

  -- A withdrawal that succeeds on a valid storage, from a vault with less than 2^128 LP tokens,
  -- takes no more than the vault has, leaves the entry of every other user as it is, or missing,
  -- and the shares of every other user are worth no less of what is left in the vault than they
  -- were of the vault before.
  pub unbond_no_dilution :
      (q : Querier) (s : Store) (env : Env) (info : MessageInfo) (amount : ℕ)
      {out : Store × List Message} {lp_balance : ℕ}
      → IsValid s
      → unbond q s env info amount ≡ ok out
      → q.query_deposit s.config.staking_contract s.config.liquidity_token env.contract
        ≡ ok lp_balance
      → lp_balance < u128_mod
      → (c : Addr)
      → (amount ≤ lp_balance)
        × ((c ≡ info.sender)
            ⊎ ((lookup c out.0.rewards ≡ lookup c s.rewards)
                × NotDiluted s.state lp_balance out.0.state
                    (lp_balance - amount)
                    (balance_in s.rewards c)))
  unbond_no_dilution = rw (Math-eq m lawful) unbond-worth

  -- Where there are shares, or no LP token is deposited, a deposit credits the depositor with no
  -- more than its amount.
  pub bond_internal_credit :
      (q : Querier) (s : Store) (env : Env) (a : Addr) (amount : ℕ) {out : Store × List Message}
      {lp_balance : ℕ}
      → bond_internal q s env a amount ≡ ok out
      → q.query_deposit s.config.staking_contract s.config.liquidity_token env.contract
        ≡ ok lp_balance
      → (0 < s.state.total_bond_share) ⊎ (lp_balance ≡ 0)
      → (get_or (lookup a out.0.rewards) default_reward_info).deposit_amount
        ≤ (get_or (lookup a s.rewards) default_reward_info).deposit_amount + amount
  bond_internal_credit = rw (Math-eq m lawful) bond_internal-deposit

  -- What a user can take out is at most what the shares are worth and at least the smaller of that
  -- and the deposit; it is counted only from the time of the deposit on, and is exactly the worth
  -- from a day after it on.
  pub calc_user_balance_bounds :
      (r : RewardInfo) (state : State) (lp_balance time : ℕ) {v : ℕ}
      → calc_user_balance {E = ContractError} r state lp_balance time ≡ ok v
      → (v ≤ worth state.total_bond_share lp_balance r.bond_share)
        × (min r.deposit_amount (worth state.total_bond_share lp_balance r.bond_share) ≤ v)
        × (r.deposit_time ≤ time)
        × (r.deposit_time + day ≤ time → v ≡ worth state.total_bond_share lp_balance r.bond_share)
  calc_user_balance_bounds = rw (Math-eq m lawful) calc_user_balance-ok

  -- A message that succeeds was sent by who may send it: cw20 tokens by the LP token, a compounding
  -- by the controller, a change of the configuration and a proposal or its withdrawal by the owner,
  -- a claim by the proposed owner up to the ttl, and a callback by the contract itself; `Mint`,
  -- `UpdateMarketing` and `UploadLogo` never succeed.
  pub execute-IsAllowed :
      (api : Api) (q : Querier) (is_expired : IsExpired) (s : Store) (env : Env)
      (info : MessageInfo) (msg : ExecuteMsg) {out : Store × List Message}
      → execute api q is_expired s env info msg ≡ ok out
      → IsAllowed s env info msg
  execute-IsAllowed = rw (Math-eq m lawful) Access.execute-IsAllowed
