-- ===== src/Farm/Cw20/Allowances.antt =====
-- What a change of an allowance that succeeds leaves.
use spectrum_core.Base.{
  ℕ, ◌+◌, ◌-◌, ◌≤◌, ◌<◌, ◌≡◌, ◌≢◌, ◌⊎◌, false, Option, some, List, [], arith, ok, get_or,
}
use spectrum_core.Cosmwasm.Math.{math}
use spectrum_core.Cosmwasm.Std.{Addr, Api, Env, MessageInfo, Expiration, IsExpired}
use spectrum_core.Cosmwasm.Map.{pair_key, lookup, insert, erase}
use spectrum_core.Farm.{Allowance, Store, Message, default_allowance}
use spectrum_core.Farm.Cw20.{
  deduct_allowance, execute_increase_allowance, execute_decrease_allowance,
}

-- The allowance once `amount` is added or taken away, with a new expiration where one is given.
abbrev pub increased : Allowance → ℕ → Option Expiration → Allowance
increased a amount expires = record {
  allowance = a.allowance + amount;
  expires = get_or expires a.expires;
}

abbrev pub decreased : Allowance → ℕ → Option Expiration → Allowance
decreased a amount expires = record {
  allowance = a.allowance - amount;
  expires = get_or expires a.expires;
}

pub execute_increase_allowance-ok :
    (api : Api) (s : Store) (info : MessageInfo) (spender amount : ℕ) (expires : Option Expiration)
    {out : Store × List Message}
    → execute_increase_allowance api s info spender amount expires ≡ ok out
    → (b : Addr) × (api spender ≡ ok b)
      × (b ≢ info.sender)
      × (out ≡ (
        record s {
          allowances =
              insert
                (info.sender, b)
                (increased
                  (get_or (lookup (info.sender, b) s.allowances) default_allowance)
                  amount
                  expires)
                s.allowances;
        },
        [],
      ))
unfolding execute_increase_allowance
execute_increase_allowance-ok api s info spender amount expires h = ground arith

pub execute_decrease_allowance-ok :
    (api : Api) (s : Store) (info : MessageInfo) (spender amount : ℕ) (expires : Option Expiration)
    {out : Store × List Message}
    → execute_decrease_allowance api s info spender amount expires ≡ ok out
    → (b : Addr) × (api spender ≡ ok b)
      × (b ≢ info.sender)
      × (old : Allowance) × (lookup (info.sender, b) s.allowances ≡ some old)
      × (((amount < old.allowance)
            × (out ≡ (
              record s {
                allowances = insert (info.sender, b) (decreased old amount expires) s.allowances;
              },
              [],
            )))
          ⊎ ((old.allowance ≤ amount)
              × (out ≡ (record s { allowances = erase (info.sender, b) s.allowances }, []))))
unfolding execute_decrease_allowance
execute_decrease_allowance-ok api s info spender amount expires h = ground arith

pub deduct_allowance-ok :
    (is_expired : IsExpired) (s : Store) (owner spender : Addr) (env : Env) (amount : ℕ)
    {s' : Store}
    → deduct_allowance is_expired s owner spender env amount ≡ ok s'
    → (a : Allowance) × (lookup (owner, spender) s.allowances ≡ some a)
      × (is_expired a.expires env ≡ false)
      × (amount ≤ a.allowance)
      × (s' ≡ record s {
        allowances =
            insert (owner, spender) (record a { allowance = a.allowance - amount }) s.allowances;
      })
unfolding deduct_allowance
deduct_allowance-ok is_expired s owner spender env amount h = ground arith
