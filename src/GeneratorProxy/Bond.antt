-- ===== src/GeneratorProxy/Bond.antt =====
-- contracts/generator_proxy/src/bond.rs: deposits of LP tokens, their withdrawal, and the rewards.
-- A reward is claimed from the generator by withdrawing and depositing one unit.
use spectrum_core.Base.{
  ℕ, min, ◌++◌, Bool, true, false, Option, none, some, List, [], ◌∷◌, ◌==◌, if◌then◌else◌, get_or,
  Result, ok, ◌>>=◌, map_err, ok_or,
}
use spectrum_core.Cosmwasm.Math.{Math}
use spectrum_core.Cosmwasm.Std.{Addr, Api, Env, MessageInfo, StdError, not_found, generic_err}
use spectrum_core.Cosmwasm.Uint.{add, sub, mul_decimal, checked_sub_or, saturating_sub}
use spectrum_core.Cosmwasm.Map.{ℕ_key, pair_key, lookup, insert}
use spectrum_core.Farm.{token}
use spectrum_core.Farm.Adapters
use spectrum_core.GeneratorProxy.{
  Vector, Config, PoolInfo, UserInfo, RewardInfo, ContractError, std, overflow, Store,
  default_pool_info, default_reward_info, CallbackMsg, Message, adapter, callback, Response,
}
use spectrum_core.GeneratorProxy.Chain.{Chain, UserInfoV2, query_user_info}
use spectrum_core.GeneratorProxy.Pool.{
  hash_get, create_user, calc_bond_share, reconcile_astro_reward, reconcile_token_reward,
  reconcile_to_user_info,
}

-- `token_asset(token, amount).transfer_msg(&to)`
abbrev pub transfer_msg : Addr → ℕ → Addr → Message
transfer_msg contract amount to =
    adapter (Adapters.transfer_msg (record { info = token contract; amount = amount }) to)

-- `REWARD_INFO.may_load(token)?.unwrap_or_default()` and `REWARD_INFO.save`
abbrev pub reward_at : Addr → Store → RewardInfo
reward_at t s = get_or (lookup t s.reward_info) default_reward_info

abbrev pub save_reward : Addr → RewardInfo → Store → Store
save_reward t r s = record s { reward_info = insert t r s.reward_info }

abbrev pub save_pool : Addr → PoolInfo → Store → Store
save_pool lp_token pool_info s = record s { pool_info = insert lp_token pool_info s.pool_info }

module _ ⦃m : Math⦄ where
  -- `if !net_amount.is_zero() { reconcile_astro_reward(...)?; REWARD_INFO.save(...)? }`
  unfoldable pub credit_astro :
      UserInfoV2 → ℕ → PoolInfo → Store → Result StdError (PoolInfo × Store)
  credit_astro astro_user_info net_amount pool_info s =
      if net_amount == 0 then ok (pool_info, s) else (do
        (pool_info', astro_reward) ←
            reconcile_astro_reward s.config astro_user_info pool_info
              (reward_at s.config.astro_token s) net_amount
        ok (pool_info', save_reward s.config.astro_token astro_reward s))

  unfoldable pub credit_token : Addr → ℕ → PoolInfo → Store → Result StdError (PoolInfo × Store)
  credit_token t net_amount pool_info s = if net_amount == 0 then ok (pool_info, s) else (do
    (pool_info', token_reward) ← reconcile_token_reward t pool_info (reward_at t s) net_amount
    ok (pool_info', save_reward t token_reward s))

  -- What of ASTRO was claimed is credited, where the balance before is known.
  unfoldable pub claimed_astro :
      UserInfoV2 → ℕ → Option ℕ → PoolInfo → Store → Result ContractError (PoolInfo × Store)
  claimed_astro astro_user_info astro_amount none pool_info s = ok (pool_info, s)
  claimed_astro astro_user_info astro_amount (some prev_amount) pool_info s = do
    net_amount ← checked_sub_or overflow astro_amount prev_amount
    map_err std (credit_astro astro_user_info net_amount pool_info s)

  module _ (c : Chain) where
    -- The loop of `fetch_balance`
    unfoldable pub token_balances : Addr → Vector → Result StdError Vector
    token_balances contract [] = ok []
    token_balances contract ((t, _) ∷ rest) = do
      token_amount ← c.query_token_balance t contract
      balances ← token_balances contract rest
      ok ((t, token_amount) ∷ balances)

    unfoldable pub fetch_balance : Config → Addr → UserInfoV2 → Result StdError Vector
    fetch_balance config contract astro_user_info = do
      astro_amount ← c.query_token_balance config.astro_token contract
      balances ← token_balances contract astro_user_info.reward_debt_proxy
      ok ((config.astro_token, astro_amount) ∷ balances)

    -- What the contract has of a token beyond what is reconciled, at most the expected amount
    unfoldable pub net_amount_of : Addr → Addr → ℕ → Store → Result StdError (ℕ × ℕ)
    net_amount_of contract t target s = do
      amount ← c.query_token_balance t contract
      ok (amount, min (saturating_sub amount (reward_at t s).reconciled_amount) target)

    -- The loop of `reconcile_claimed_by_others` over the other tokens
    unfoldable pub reconcile_tokens :
        Addr → Vector → Vector → PoolInfo → Store → Result StdError (PoolInfo × Store × Vector)
    reconcile_tokens contract prev_debts [] pool_info s = ok (pool_info, s, [])
    reconcile_tokens contract prev_debts ((t, debt) ∷ rest) pool_info s = do
      (token_amount, net_amount) ←
          net_amount_of contract t (saturating_sub debt (get_or (hash_get t prev_debts) 0)) s
      (pool_info', s') ← credit_token t net_amount pool_info s
      (pool_info'', s'', balances) ← reconcile_tokens contract prev_debts rest pool_info' s'
      ok (pool_info'', s'', (t, token_amount) ∷ balances)

    -- `reconcile_claimed_by_others` on a pool that has shares and is not reconciled in this block
    unfoldable pub reconcile_pool :
        Env → Addr → UserInfoV2 → PoolInfo → Store → Result StdError (Store × Bool × Vector)
    reconcile_pool env lp_token astro_user_info pool_info s = do
      index_growth ← sub astro_user_info.reward_user_index pool_info.prev_reward_user_index
      target ← mul_decimal astro_user_info.virtual_amount index_growth
      (astro_amount, net_amount) ← net_amount_of env.contract s.config.astro_token target s
      (pool_info', s') ← credit_astro astro_user_info net_amount pool_info s
      (pool_info'', s'', balances) ←
          reconcile_tokens env.contract pool_info.prev_reward_debt_proxy
            astro_user_info.reward_debt_proxy pool_info' s'
      let pool_info''' : PoolInfo = record pool_info'' {
        prev_reward_user_index = astro_user_info.reward_user_index;
        prev_reward_debt_proxy = astro_user_info.reward_debt_proxy;
      }
      ok (
        save_pool lp_token pool_info''' s'',
        true,
        (s.config.astro_token, astro_amount) ∷ balances,
      )

    -- The answer is whether to claim, and the balances before.
    unfoldable pub reconcile_claimed_by_others :
        Store → Env → Addr → UserInfoV2 → Result StdError (Store × Bool × Vector)
    reconcile_claimed_by_others s env lp_token astro_user_info =
        elim (lookup lp_token s.pool_info) [
          | none ↦ do
            balances ← fetch_balance s.config env.contract astro_user_info
            ok (s, true, balances)
          | some pool_info ↦
              if pool_info.total_bond_share == 0
              then (do
                balances ← fetch_balance s.config env.contract astro_user_info
                ok (s, true, balances))
              else if pool_info.last_reconcile == env.height
              then (do
                balances ← fetch_balance s.config env.contract astro_user_info
                ok (s, false, balances))
              else reconcile_pool env lp_token astro_user_info pool_info s
        ]

    -- The messages that claim the rewards of a pool
    unfoldable pub claim_messages : Store → Env → Addr → Bool → Vector → List Message
    claim_messages s env lp_token claim prev_balances =
        if claim
        then adapter (Adapters.withdraw_msg s.config.generator lp_token 1)
          ∷ adapter (Adapters.deposit_msg s.config.generator lp_token 1)
          ∷ callback env.contract (CallbackMsg.after_bond_claimed lp_token prev_balances)
          ∷ []
        else []

    -- Reconcile a pool, and claim.
    unfoldable pub reconcile_and_claim :
        Store → Env → Addr → UserInfoV2 → Result ContractError Response
    reconcile_and_claim s env lp_token astro_user_info = do
      (s', claim, prev_balances) ←
          map_err std (reconcile_claimed_by_others s env lp_token astro_user_info)
      ok (s', claim_messages s env lp_token claim prev_balances)

    unfoldable pub execute_deposit :
        Store → Env → MessageInfo → Addr → ℕ → Result ContractError Response
    execute_deposit s env info staker_addr amount = do
      astro_user_info ← map_err std (query_user_info c s.config.generator info.sender env.contract)
      (s', messages) ← elim astro_user_info [
        | none ↦ ok (s, [])
        | some found ↦ reconcile_and_claim s env info.sender found
      ]
      ok (
        s',
        messages ++ callback env.contract (CallbackMsg.deposit info.sender staker_addr amount) ∷ [],
      )

    unfoldable pub execute_withdraw :
        Api → Store → Env → MessageInfo → ℕ → ℕ → Result ContractError Response
    execute_withdraw api s env info lp_token amount = do
      lp_token ← map_err std (api lp_token)
      op ← map_err std (query_user_info c s.config.generator lp_token env.contract)
      astro_user_info ← ok_or op (std (generic_err "UserInfo is not found"))
      (s', messages) ← reconcile_and_claim s env lp_token astro_user_info
      ok (
        s',
        messages ++ callback env.contract (CallbackMsg.withdraw lp_token info.sender amount) ∷ [],
      )

    unfoldable pub execute_claim_rewards :
        Api → Store → Env → MessageInfo → List ℕ → Result ContractError Response
    execute_claim_rewards api s env info [] = ok (s, [])
    execute_claim_rewards api s env info (lp_token ∷ rest) = do
      lp_token ← map_err std (api lp_token)
      op ← map_err std (query_user_info c s.config.generator lp_token env.contract)
      astro_user_info ← ok_or op (std (generic_err "UserInfo is not found"))
      (s', messages) ← reconcile_and_claim s env lp_token astro_user_info
      (s'', messages') ← execute_claim_rewards api s' env info rest
      ok (
        s'',
        messages
            ++ callback env.contract (CallbackMsg.claim_rewards lp_token info.sender) ∷ messages',
      )

    -- The loop of `callback_after_bond_claimed` over the other tokens
    unfoldable pub claimed_tokens :
        Addr → Vector → Vector → PoolInfo → Store → Result ContractError (PoolInfo × Store)
    claimed_tokens contract prev_balances [] pool_info s = ok (pool_info, s)
    claimed_tokens contract prev_balances ((t, _) ∷ rest) pool_info s = do
      (pool_info', s') ← elim (hash_get t prev_balances) [
        | none ↦ ok (pool_info, s)
        | some prev_amount ↦ do
          token_amount ← map_err std (c.query_token_balance t contract)
          net_amount ← checked_sub_or overflow token_amount prev_amount
          map_err std (credit_token t net_amount pool_info s)
      ]
      claimed_tokens contract prev_balances rest pool_info' s'

    unfoldable pub callback_after_bond_claimed :
        Store → Env → Addr → Vector → Result ContractError Response
    callback_after_bond_claimed s env lp_token prev_balances = do
      pool_info ← ok_or (lookup lp_token s.pool_info) (std not_found)
      op ← map_err std (query_user_info c s.config.generator lp_token env.contract)
      astro_user_info ← ok_or op (std (generic_err "UserInfo not found"))
      astro_amount ← map_err std (c.query_token_balance s.config.astro_token env.contract)
      (pool_info', s') ←
          claimed_astro astro_user_info astro_amount (hash_get s.config.astro_token prev_balances)
            pool_info s
      (pool_info'', s'') ←
          claimed_tokens env.contract prev_balances astro_user_info.reward_debt_proxy pool_info' s'
      let pool_info''' : PoolInfo = record pool_info'' {
        prev_reward_user_index = astro_user_info.reward_user_index;
        prev_reward_debt_proxy = astro_user_info.reward_debt_proxy;
        last_reconcile = env.height;
      }
      ok (save_pool lp_token pool_info''' s'', [])

    unfoldable pub callback_after_bond_changed : Store → Env → Addr → Result ContractError Response
    callback_after_bond_changed s env lp_token = do
      op ← map_err std (query_user_info c s.config.generator lp_token env.contract)
      elim op [
        | none ↦ ok (s, [])
        | some astro_user_info ↦ do
          pool_info ← ok_or (lookup lp_token s.pool_info) (std not_found)
          let pool_info' : PoolInfo = record pool_info {
            prev_reward_user_index = astro_user_info.reward_user_index;
            prev_reward_debt_proxy = astro_user_info.reward_debt_proxy;
          }
          ok (save_pool lp_token pool_info' s, [])
      ]

    unfoldable pub callback_deposit : Store → Env → Addr → Addr → ℕ → Result ContractError Response
    callback_deposit s env lp_token staker_addr amount = do
      let pool_info = get_or (lookup lp_token s.pool_info) default_pool_info
      let user_info = get_or (lookup (lp_token, staker_addr) s.user_info) (create_user pool_info)
      user_info' ← map_err std (reconcile_to_user_info pool_info user_info)
      total_bond_amount ← map_err std (c.query_deposit s.config.generator lp_token env.contract)
      share ← calc_bond_share pool_info total_bond_amount amount false
      bond_share ← add user_info'.bond_share share
      total_bond_share ← add pool_info.total_bond_share share
      let user_info'' : UserInfo = record user_info' { bond_share = bond_share }
      let pool_info' : PoolInfo = record pool_info { total_bond_share = total_bond_share }
      ok (
        save_pool lp_token pool_info'
            (record s { user_info = insert (lp_token, staker_addr) user_info'' s.user_info }),
        adapter (Adapters.deposit_msg s.config.generator lp_token amount)
            ∷ callback env.contract (CallbackMsg.after_bond_changed lp_token)
            ∷ [],
      )

    unfoldable pub callback_withdraw : Store → Env → Addr → Addr → ℕ → Result ContractError Response
    callback_withdraw s env lp_token staker_addr amount = do
      pool_info ← ok_or (lookup lp_token s.pool_info) (std not_found)
      user_info ← ok_or (lookup (lp_token, staker_addr) s.user_info) (std not_found)
      user_info' ← map_err std (reconcile_to_user_info pool_info user_info)
      total_bond_amount ← map_err std (c.query_deposit s.config.generator lp_token env.contract)
      share ← calc_bond_share pool_info total_bond_amount amount true
      bond_share ← checked_sub_or overflow user_info'.bond_share share
      total_bond_share ← checked_sub_or overflow pool_info.total_bond_share share
      let user_info'' : UserInfo = record user_info' { bond_share = bond_share }
      let pool_info' : PoolInfo = record pool_info { total_bond_share = total_bond_share }
      ok (
        save_pool lp_token pool_info'
            (record s { user_info = insert (lp_token, staker_addr) user_info'' s.user_info }),
        adapter (Adapters.withdraw_msg s.config.generator lp_token amount)
            ∷ transfer_msg lp_token amount staker_addr
            ∷ callback env.contract (CallbackMsg.after_bond_changed lp_token)
            ∷ [],
      )

  -- The loop of `callback_claim_rewards` over the pending rewards
  unfoldable pub pay_rewards : Addr → Vector → Store → Result ContractError Response
  pay_rewards staker_addr [] s = ok (s, [])
  pay_rewards staker_addr ((t, amount) ∷ rest) s = do
    (s', messages) ←
        (if amount == 0 then ok (s, []) else (do
          reward_info ← ok_or (lookup t s.reward_info) (std not_found)
          reconciled_amount ← checked_sub_or overflow reward_info.reconciled_amount amount
          ok (
            save_reward t (record reward_info { reconciled_amount = reconciled_amount }) s,
            transfer_msg t amount staker_addr ∷ [],
          )))
    (s'', messages') ← pay_rewards staker_addr rest s'
    ok (s'', messages ++ messages')

  unfoldable pub callback_claim_rewards : Store → Addr → Addr → Result ContractError Response
  callback_claim_rewards s lp_token staker_addr = do
    user_info ← ok_or (lookup (lp_token, staker_addr) s.user_info) (std not_found)
    pool_info ← ok_or (lookup lp_token s.pool_info) (std not_found)
    user_info' ← map_err std (reconcile_to_user_info pool_info user_info)
    (s', messages) ← pay_rewards staker_addr user_info'.pending_rewards s
    let user_info'' : UserInfo = record user_info' { pending_rewards = [] }
    ok (record s' { user_info = insert (lp_token, staker_addr) user_info'' s'.user_info }, messages)
