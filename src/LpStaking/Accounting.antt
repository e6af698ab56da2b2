-- ===== src/LpStaking/Accounting.antt =====
-- The contract of contracts/lp_staking as a whole, under any arithmetic that follows its
-- documentation: its invariant from the first block on, and what it owes.
use spectrum_core.Base.{◌+◌, ◌≤◌, ◌≡◌, List, ok, length}
use spectrum_core.Cosmwasm.Math.{Math, IsMath, Math-eq}
use spectrum_core.Cosmwasm.Std.{Addr, Api, Env, MessageInfo}
use spectrum_core.Cosmwasm.Map.{ℕ_key, lookup}
use spectrum_core.LpStaking.{Store, ExecuteMsg, Transfer}
use spectrum_core.LpStaking.Rewards.Emission.{AllOrdered, emissions}
use spectrum_core.LpStaking.Handlers.{InstantiateMsg, instantiate, execute}
use spectrum_core.LpStaking.Handlers.Invariant
use spectrum_core.LpStaking.Handlers.Invariant.{IsValid}
use spectrum_core.LpStaking.Handlers.Liability.{liability, rewards_paid, execute-liability}
use spectrum_core.LpStaking.Handlers.Frame

-- The storages that the contract can come to: from `instantiate`, by messages of anybody at any
-- time that succeed. (What fails leaves the storage as it was.)
pub data Reach ⦃m : Math⦄ (api : Api) : Store → Type 0 where
  start :
      (env : Env) (msg : InstantiateMsg) {s : Store} → instantiate api env msg ≡ ok s → Reach api s
  next :
      {s : Store} (env : Env) (info : MessageInfo) (msg : ExecuteMsg) {s' : Store}
      (sent : List Transfer)
      → Reach api s
      → execute api s env info msg ≡ ok (s', sent)
      → Reach api s'

module _ ⦃m : Math⦄ (lawful : IsMath m) where
  -- A message that succeeds keeps the invariant.
  execute-IsValid :
      (api : Api) (s : Store) (env : Env) (info : MessageInfo) (msg : ExecuteMsg)
      {out : Store × List Transfer}
      → IsValid s
      → execute api s env info msg ≡ ok out
      → IsValid out.0
  execute-IsValid = rw (Math-eq m lawful) Invariant.execute-IsValid

  -- In every storage that the contract can come to, the entries of the stakers stand in order with
  -- no key twice, the total bond is the sum of the stakers' bonds, and no staker's index is above
  -- the global one.
  pub Reach-IsValid : {api : Api} {s : Store} → Reach api s → IsValid s
  Reach-IsValid (start env msg h) = Invariant.instantiate-IsValid _ env msg h
  Reach-IsValid {api} (next {s = s} env info msg sent r h) =
      execute-IsValid api s env info msg (Reach-IsValid r) h

  -- A message that succeeds on a valid storage, at a time not before the last distribution and
  -- under a schedule whose entries end after they start, leaves a liability that together with the
  -- rewards that it pays is at most the liability before, what the schedule emits since the last
  -- distribution, and one unit for each staker (who is paid a floored difference of two products).
  pub execute_solvency :
      (api : Api) (s : Store) (env : Env) (info : MessageInfo) (msg : ExecuteMsg)
      {out : Store × List Transfer}
      → IsValid s
      → AllOrdered s.config.distribution_schedule
      → s.state.last_distributed ≤ env.time
      → execute api s env info msg ≡ ok out
      → liability out.0.state.global_reward_index out.0.reward_infos + rewards_paid msg out.1
        ≤ liability s.state.global_reward_index s.reward_infos
          + emissions s.config.distribution_schedule s.state.last_distributed env.time
          + length s.reward_infos
  execute_solvency = rw (Math-eq m lawful) execute-liability

  -- A message that succeeds changes the entry of at most one staker: the one for whom a cw20
  -- message bonds, or else the sender.
  pub execute_others :
      (api : Api) (s : Store) (env : Env) (info : MessageInfo) (msg : ExecuteMsg) (a : Addr)
      {out : Store × List Transfer}
      → IsValid s
      → execute api s env info msg ≡ ok out
      → ¬ Frame.Concerns api info msg a
      → lookup a out.0.reward_infos ≡ lookup a s.reward_infos
  execute_others = rw (Math-eq m lawful) Frame.execute_others
