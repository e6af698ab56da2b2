-- ===== src/Farm/Token.antt =====
-- The cw20 token of contracts/astroport_farm, under any arithmetic that follows its documentation.
use spectrum_core.Base.{ℕ, ◌+◌, ◌-◌, ◌≤◌, ◌≡◌, if◌then◌else◌, Option, List, ok}
use spectrum_core.Cosmwasm.Math.{Math, IsMath, Math-eq}
use spectrum_core.Cosmwasm.Std.{Addr, Api, Env, MessageInfo, Expiration, IsExpired}
use spectrum_core.Cosmwasm.Map.{pair_eq}
use spectrum_core.Farm.{Store, Message}
use spectrum_core.Farm.Balances.{balance_in, IsValid}
use spectrum_core.Farm.Cw20.{
  transfer_internal, execute_transfer_from, execute_increase_allowance, execute_decrease_allowance,
}
use spectrum_core.Farm.Cw20.Steps.{balance_moved}
use spectrum_core.Farm.Cw20.Effects.{
  allowance_in, transfer_internal-balance, execute_transfer_from-effect,
  execute_increase_allowance-allowance, execute_decrease_allowance-allowance,
}

module _ ⦃m : Math⦄ (lawful : IsMath m) where
  -- A transfer that succeeds moves no more than the sender's balance from the sender to the
  -- recipient, and changes no other balance; a transfer to oneself changes none.
  pub transfer_internal_moves :
      (api : Api) (s : Store) (a : Addr) (recipient share : ℕ) {s' : Store} {b : Addr}
      → transfer_internal api s a recipient share ≡ ok s'
      → api recipient ≡ ok b
      → (share ≤ balance_in s.rewards a)
        × ((c : Addr) → balance_in s'.rewards c ≡ balance_moved a b share s.rewards c)
  transfer_internal_moves = rw (Math-eq m lawful) transfer_internal-balance

  -- A transfer by a spender that succeeds moves no more than the allowance and no more than the
  -- owner's balance; it moves that amount from the owner to the recipient, takes it off the
  -- allowance, and changes no other balance and no other allowance.
  pub execute_transfer_from_spends :
      (api : Api) (is_expired : IsExpired) (s : Store) (env : Env) (info : MessageInfo)
      (owner recipient amount : ℕ) {out : Store × List Message} {a b : Addr}
      → execute_transfer_from api is_expired s env info owner recipient amount ≡ ok out
      → api owner ≡ ok a
      → api recipient ≡ ok b
      → (amount ≤ allowance_in s.allowances (a, info.sender))
        × ((k : Addr × Addr)
            → allowance_in out.0.allowances k ≡ (
                if pair_eq k (a, info.sender)
                then allowance_in s.allowances k - amount
                else allowance_in s.allowances k))
        × (amount ≤ balance_in s.rewards a)
        × ((c : Addr) → balance_in out.0.rewards c ≡ balance_moved a b amount s.rewards c)
  execute_transfer_from_spends = rw (Math-eq m lawful) execute_transfer_from-effect

  -- To increase an allowance adds the amount to the one of the sender for the spender, and changes
  -- no other.
  pub execute_increase_allowance_adds :
      (api : Api) (s : Store) (info : MessageInfo) (spender amount : ℕ)
      (expires : Option Expiration) {out : Store × List Message} {b : Addr}
      → execute_increase_allowance api s info spender amount expires ≡ ok out
      → api spender ≡ ok b
      → (k : Addr × Addr)
      → allowance_in out.0.allowances k ≡ (
          if pair_eq k (info.sender, b)
          then allowance_in s.allowances k + amount
          else allowance_in s.allowances k)
  execute_increase_allowance_adds = rw (Math-eq m lawful) execute_increase_allowance-allowance

  -- To decrease an allowance on a valid storage takes the amount off the one of the sender for the
  -- spender, down to 0, and changes no other.
  pub execute_decrease_allowance_takes :
      (api : Api) (s : Store) (info : MessageInfo) (spender amount : ℕ)
      (expires : Option Expiration) {out : Store × List Message} {b : Addr}
      → IsValid s
      → execute_decrease_allowance api s info spender amount expires ≡ ok out
      → api spender ≡ ok b
      → (k : Addr × Addr)
      → allowance_in out.0.allowances k ≡ (
          if pair_eq k (info.sender, b)
          then allowance_in s.allowances k - amount
          else allowance_in s.allowances k)
  execute_decrease_allowance_takes = rw (Math-eq m lawful) execute_decrease_allowance-allowance
