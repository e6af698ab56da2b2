-- ===== src/Farm/Cw20.antt =====
-- contracts/astroport_farm/src/cw20.rs: the shares of the vault as a cw20 token.
pub mod Steps
pub mod Allowances
pub mod Effects
use spectrum_core.Base.{
  ℕ, Option, none, some, List, [], ◌∷◌, map, ltb, ◌==◌, if◌then◌else◌, get_or, Result, ok, err,
  ◌>>=◌, ◌>>◌, err_if, map_err, ok_or,
}
use spectrum_core.Cosmwasm.Math.{Math}
use spectrum_core.Cosmwasm.Std.{
  Addr, Api, Env, MessageInfo, Expiration, IsExpired, StdError, not_found,
}
use spectrum_core.Cosmwasm.Uint.{add, sub, multiply_ratio, checked_sub}
use spectrum_core.Cosmwasm.Map.{ℕ_key, pair_key, lookup, insert, erase}
use spectrum_core.Farm.{
  native_token, Asset, PoolResponse, RewardInfo, Allowance, Store, ContractError, std,
  invalid_zero_amount, expired, no_allowance, cannot_set_own_account, default_reward_info,
  default_allowance, Message, receive,
}
use spectrum_core.Farm.Shares.{ensure_deposit_costs, bond_info, unbond_info}
use spectrum_core.Farm.Bond.{Response}

-- The costs of a deposit as the assets of a pool; the denomination is not read.
abbrev pub pool_of : RewardInfo → PoolResponse
pool_of r = record {
  assets = map (λ cost. record { info = native_token 0; amount = cost }) r.deposit_costs;
  total_share = r.deposit_amount;
}

module _ ⦃m : Math⦄ where
  -- The sender and the receiver after `share` has left the sender's `bond_share`.
  unfoldable pub receive_share :
      Option PoolResponse
      → RewardInfo
      → RewardInfo
      → ℕ
      → Result ContractError (RewardInfo × RewardInfo)
  receive_share pool_info sender receiver share =
      if ltb receiver.transfer_share share
      then (do
        new_share ← sub share receiver.transfer_share
        bond_share ← add receiver.bond_share receiver.transfer_share
        total_share ← add sender.bond_share sender.transfer_share
        deposit_amount ← multiply_ratio sender.deposit_amount new_share total_share
        sender' ← map_err std (ensure_deposit_costs sender pool_info)
        receiver' ← map_err std (
            bond_info (record receiver { bond_share = bond_share; transfer_share = 0 }) new_share
              deposit_amount sender'.deposit_time (pool_of sender'))
        ok (sender', receiver'))
      else (do
        bond_share ← add receiver.bond_share share
        transfer_share ← sub receiver.transfer_share share
        ok (sender, record receiver { bond_share = bond_share; transfer_share = transfer_share }))

  unfoldable pub transfer_internal : Api → Store → Addr → ℕ → ℕ → Result ContractError Store
  transfer_internal api s sender_addr recipient share = do
    err_if (share == 0) invalid_zero_amount
    sender ← ok_or (lookup sender_addr s.rewards) (std not_found)
    bond_share ← map_err std (checked_sub sender.bond_share share)
    transfer_share ← add sender.transfer_share share
    let sender' : RewardInfo = record sender {
      bond_share = bond_share;
      transfer_share = transfer_share;
    }
    let rewards = insert sender_addr sender' s.rewards
    rcpt_addr ← map_err std (api recipient)
    let receiver = get_or (lookup rcpt_addr rewards) default_reward_info
    (sender'', receiver') ← receive_share s.pool_info sender' receiver share
    ok (record s { rewards = insert rcpt_addr receiver' (insert sender_addr sender'' rewards) })

  unfoldable pub execute_transfer :
      Api → Store → MessageInfo → ℕ → ℕ → Result ContractError Response
  execute_transfer api s info recipient amount = do
    s' ← transfer_internal api s info.sender recipient amount
    ok (s', [])

  unfoldable pub burn_internal : Store → Addr → ℕ → Result ContractError Store
  burn_internal s sender share = do
    err_if (share == 0) invalid_zero_amount
    reward_info ← ok_or (lookup sender s.rewards) (std not_found)
    total_bond_share ← map_err std (checked_sub s.state.total_bond_share share)
    reward_info' ← map_err std (unbond_info reward_info share)
    ok (record s {
      state = record { total_bond_share = total_bond_share };
      rewards = insert sender reward_info' s.rewards;
    })

  unfoldable pub execute_burn : Store → MessageInfo → ℕ → Result ContractError Response
  execute_burn s info amount = do s' ← burn_internal s info.sender amount; ok (s', [])

  -- `msg` is the payload that is passed on.
  unfoldable pub execute_send :
      Api → Store → MessageInfo → ℕ → ℕ → List ℕ → Result ContractError Response
  execute_send api s info contract amount msg = do
    s' ← transfer_internal api s info.sender contract amount
    ok (s', receive contract info.sender amount msg ∷ [])

  unfoldable pub execute_increase_allowance :
      Api → Store → MessageInfo → ℕ → ℕ → Option Expiration → Result ContractError Response
  execute_increase_allowance api s info spender amount expires = do
    spender_addr ← map_err std (api spender)
    err_if (spender_addr == info.sender) cannot_set_own_account
    let old = get_or (lookup (info.sender, spender_addr) s.allowances) default_allowance
    allowance ← add old.allowance amount
    let new : Allowance = record { allowance = allowance; expires = get_or expires old.expires }
    ok (record s { allowances = insert (info.sender, spender_addr) new s.allowances }, [])

  unfoldable pub execute_decrease_allowance :
      Api → Store → MessageInfo → ℕ → ℕ → Option Expiration → Result ContractError Response
  execute_decrease_allowance api s info spender amount expires = do
    spender_addr ← map_err std (api spender)
    err_if (spender_addr == info.sender) cannot_set_own_account
    old ← ok_or (lookup (info.sender, spender_addr) s.allowances) (std not_found)
    if ltb amount old.allowance
        then (do
          allowance ← map_err std (checked_sub old.allowance amount)
          let new : Allowance = record {
            allowance = allowance;
            expires = get_or expires old.expires;
          }
          ok (record s { allowances = insert (info.sender, spender_addr) new s.allowances }, []))
        else ok (record s { allowances = erase (info.sender, spender_addr) s.allowances }, [])

  unfoldable pub deduct_allowance :
      IsExpired → Store → Addr → Addr → Env → ℕ → Result ContractError Store
  deduct_allowance is_expired s owner spender env amount = do
    a ← ok_or (lookup (owner, spender) s.allowances) no_allowance
    err_if (is_expired a.expires env) expired
    allowance ← map_err std (checked_sub a.allowance amount)
    let new : Allowance = record a { allowance = allowance }
    ok (record s { allowances = insert (owner, spender) new s.allowances })

  module _ (api : Api) (is_expired : IsExpired) where
    unfoldable pub execute_transfer_from :
        Store → Env → MessageInfo → ℕ → ℕ → ℕ → Result ContractError Response
    execute_transfer_from s env info owner recipient amount = do
      owner_addr ← map_err std (api owner)
      s' ← deduct_allowance is_expired s owner_addr info.sender env amount
      s'' ← transfer_internal api s' owner_addr recipient amount
      ok (s'', [])

    unfoldable pub execute_burn_from :
        Store → Env → MessageInfo → ℕ → ℕ → Result ContractError Response
    execute_burn_from s env info owner amount = do
      owner_addr ← map_err std (api owner)
      s' ← deduct_allowance is_expired s owner_addr info.sender env amount
      s'' ← burn_internal s' owner_addr amount
      ok (s'', [])

    unfoldable pub execute_send_from :
        Store → Env → MessageInfo → ℕ → ℕ → ℕ → List ℕ → Result ContractError Response
    execute_send_from s env info owner contract amount msg = do
      owner_addr ← map_err std (api owner)
      s' ← deduct_allowance is_expired s owner_addr info.sender env amount
      s'' ← transfer_internal api s' owner_addr contract amount
      ok (s'', receive contract info.sender amount msg ∷ [])
