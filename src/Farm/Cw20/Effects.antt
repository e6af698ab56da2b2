-- ===== src/Farm/Cw20/Effects.antt =====
-- What the messages of the cw20 token do to the balances and to the allowances.
use spectrum_core.Base.{
  ℕ, ◌+◌, ◌-◌, ◌≤◌, ◌≡◌, refl, sym, subst, ap, ◌∙◌, Bool, Bool-cases, true, none, if◌then◌else◌,
  false, inl, inr, Option, some, List, arith, ok, get_or,
}
use spectrum_core.Cosmwasm.Math.{math}
use spectrum_core.Cosmwasm.Std.{Addr, Api, Env, MessageInfo, Expiration, IsExpired}
use spectrum_core.Cosmwasm.Map.{
  Map, ℕ_key, pair_key, pair_eq, pair_eq_iff, erase, IsSorted, lookup, insert, lookup-insert,
  lookup-erase,
}
use spectrum_core.Farm.{Allowance, Store, Message, default_allowance, default_reward_info}
use spectrum_core.Farm.Balances.{balance_in, IsValid, entry-balance}
use spectrum_core.Farm.Cw20.{
  transfer_internal, deduct_allowance, execute_transfer_from, execute_increase_allowance,
  execute_decrease_allowance,
}
use spectrum_core.Farm.Cw20.Steps.{
  transfer_internal-ok, receive_share-ok, debit, balance_moved, after_transfer-balance,
}
use spectrum_core.Farm.Cw20.Allowances.{
  increased, decreased, execute_increase_allowance-ok, execute_decrease_allowance-ok,
  deduct_allowance-ok,
}
use spectrum_core.Farm.Contract.Preserves.{transfer_from-ok}
use spectrum_core.Farm.Contract.Invariant.{deduct_allowance-same}

-- What `query_allowance` reads.
abbrev pub allowance_in : Map (Addr × Addr) Allowance → Addr × Addr → ℕ
allowance_in m k = (get_or (lookup k m) default_allowance).allowance

allowance-insert :
    (k : Addr × Addr) (a : Allowance) (m : Map (Addr × Addr) Allowance) (j : Addr × Addr)
    → allowance_in (insert k a m) j ≡ (if pair_eq j k then a.allowance else allowance_in m j)
allowance-insert k a m j = ground (arith, lookup-insert k j a m)

abbrev amount_of : Option Allowance → ℕ
amount_of o = (get_or o default_allowance).allowance

allowance-lookup :
    (k : Addr × Addr) (m : Map (Addr × Addr) Allowance) {a : Allowance}
    → lookup k m ≡ some a
    → allowance_in m k ≡ a.allowance
allowance-lookup k m found = ap amount_of found

amount_of_if :
    (c : Bool) (o : Option Allowance)
    → amount_of (if c then none else o) ≡ (if c then 0 else amount_of o)
amount_of_if true o = refl
amount_of_if false o = refl

allowance-erase :
    (k : Addr × Addr) (m : Map (Addr × Addr) Allowance) (j : Addr × Addr)
    → IsSorted m
    → allowance_in (erase k m) j ≡ (if pair_eq j k then 0 else allowance_in m j)
allowance-erase k m j sorted =
    ap amount_of (lookup-erase k j m sorted) ∙ amount_of_if (pair_eq j k) (lookup j m)

spent_out :
    (m : Map (Addr × Addr) Allowance) (k j : Addr × Addr) (amount : ℕ)
    → allowance_in m k ≤ amount
    → (if pair_eq j k then 0 else allowance_in m j)
      ≡ (if pair_eq j k then allowance_in m j - amount else allowance_in m j)
spent_out m k j amount covered = elim (Bool-cases (pair_eq j k)) [
  | inl e ↦
      let same : allowance_in m j ≡ allowance_in m k =
        ap (allowance_in m) ((pair_eq_iff j k).0 e) in
      rw e (omega arith)
  | inr e ↦ rw e refl
]

pub transfer_internal-balance :
    (api : Api) (s : Store) (a : Addr) (recipient share : ℕ) {s' : Store} {b : Addr}
    → transfer_internal api s a recipient share ≡ ok s'
    → api recipient ≡ ok b
    → (share ≤ balance_in s.rewards a)
      × ((c : Addr) → balance_in s'.rewards c ≡ balance_moved a b share s.rewards c)
transfer_internal-balance api s a recipient share {s'} {b} h valid =
    let (sender, found, enough, _, b', valid', out, received, left) =
      transfer_internal-ok api s a recipient share h in
    let same : b' ≡ b = ground arith in
    let debited = insert a (debit sender share) s.rewards in
    let r =
      receive_share-ok s.pool_info (debit sender share)
        (get_or (lookup b' debited) default_reward_info) share received in
    let part : balance_in s.rewards a ≡ sender.bond_share = rw found refl in
    (
      omega arith,
      λ c.
          rw (left, sym same)
            (after_transfer-balance s.rewards a b' share sender out.0 out.1 c found enough r.0
              (omega (arith, r.1, entry-balance debited b'))),
    )

pub deduct_allowance-allowance :
    (is_expired : IsExpired) (s : Store) (owner spender : Addr) (env : Env) (amount : ℕ)
    {s' : Store}
    → deduct_allowance is_expired s owner spender env amount ≡ ok s'
    → (amount ≤ allowance_in s.allowances (owner, spender))
      × ((k : Addr × Addr)
          → allowance_in s'.allowances k ≡ (
              if pair_eq k (owner, spender)
              then allowance_in s.allowances k - amount
              else allowance_in s.allowances k))
deduct_allowance-allowance is_expired s owner spender env amount h =
    let (a, found, _, enough, left) = deduct_allowance-ok is_expired s owner spender env amount h in
    let part : allowance_in s.allowances (owner, spender) ≡ a.allowance =
      allowance-lookup (owner, spender) s.allowances found in
    (
      omega arith,
      λ k. rw left (
          ground (
            arith,
            allowance-insert (owner, spender) (record a { allowance = a.allowance - amount })
                s.allowances k,
          )),
    )

pub execute_increase_allowance-allowance :
    (api : Api) (s : Store) (info : MessageInfo) (spender amount : ℕ) (expires : Option Expiration)
    {out : Store × List Message} {b : Addr}
    → execute_increase_allowance api s info spender amount expires ≡ ok out
    → api spender ≡ ok b
    → (k : Addr × Addr)
    → allowance_in out.0.allowances k ≡ (
        if pair_eq k (info.sender, b)
        then allowance_in s.allowances k + amount
        else allowance_in s.allowances k)
execute_increase_allowance-allowance api s info spender amount expires {out} {b} h valid k =
    let (b', valid', _, left) = execute_increase_allowance-ok api s info spender amount expires h in
    let same : b' ≡ b = ground arith in
    rw (left, same)
      (ground (
        arith,
        allowance-insert (info.sender, b)
            (increased (get_or (lookup (info.sender, b) s.allowances) default_allowance) amount
              expires)
            s.allowances k,
      ))

pub execute_decrease_allowance-allowance :
    (api : Api) (s : Store) (info : MessageInfo) (spender amount : ℕ) (expires : Option Expiration)
    {out : Store × List Message} {b : Addr}
    → IsValid s
    → execute_decrease_allowance api s info spender amount expires ≡ ok out
    → api spender ≡ ok b
    → (k : Addr × Addr)
    → allowance_in out.0.allowances k ≡ (
        if pair_eq k (info.sender, b)
        then allowance_in s.allowances k - amount
        else allowance_in s.allowances k)
execute_decrease_allowance-allowance api s info spender amount expires {out} {b} v h valid k =
    let (b', valid', _, old, found, which) =
      execute_decrease_allowance-ok api s info spender amount expires h in
    let same : b' ≡ b = ground arith in
    let found' = subst (λ x. lookup (info.sender, x) s.allowances ≡ some old) same found in
    let part : allowance_in s.allowances (info.sender, b) ≡ old.allowance =
      allowance-lookup (info.sender, b) s.allowances found' in
    elim which [
      | inl (_, left) ↦
          rw (left, same)
            (ground (
              arith,
              allowance-insert (info.sender, b) (decreased old amount expires) s.allowances k,
            ))
      | inr (covered, left) ↦
          rw (left, same, allowance-erase (info.sender, b) s.allowances k v.allowances_sorted)
            (spent_out s.allowances (info.sender, b) k amount (omega arith))
    ]

transfer_internal-allowances :
    (api : Api) (s : Store) (a : Addr) (recipient share : ℕ) {s' : Store}
    → transfer_internal api s a recipient share ≡ ok s'
    → s'.allowances ≡ s.allowances
transfer_internal-allowances api s a recipient share h =
    let (_, _, _, _, _, _, _, _, left) = transfer_internal-ok api s a recipient share h in
    rw left refl

-- A spender moves what the allowance covers, and the allowance falls by it.
pub execute_transfer_from-effect :
    (api : Api) (is_expired : IsExpired) (s : Store) (env : Env) (info : MessageInfo)
    (owner recipient amount : ℕ) {out : Store × List Message} {a b : Addr}
    → execute_transfer_from api is_expired s env info owner recipient amount ≡ ok out
    → api owner ≡ ok a
    → api recipient ≡ ok b
    → (amount ≤ allowance_in s.allowances (a, info.sender))
      × ((k : Addr × Addr)
          → allowance_in out.0.allowances k ≡ (
              if pair_eq k (a, info.sender)
              then allowance_in s.allowances k - amount
              else allowance_in s.allowances k))
      × (amount ≤ balance_in s.rewards a)
      × ((c : Addr) → balance_in out.0.rewards c ≡ balance_moved a b amount s.rewards c)
execute_transfer_from-effect api is_expired s env info owner recipient amount {out} {a} {b} h valid
      valid' =
    let (a', valid_a, s', deducted, moved) =
      transfer_from-ok api s is_expired env info owner recipient amount h in
    let same : a' ≡ a = ground arith in
    let deducted' =
      subst (λ x. deduct_allowance is_expired s x info.sender env amount ≡ ok s') same deducted in
    let moved' = subst (λ x. transfer_internal api s' x recipient amount ≡ ok out.0) same moved in
    let spent = deduct_allowance-allowance is_expired s a info.sender env amount deducted' in
    let kept = (deduct_allowance-same is_expired s a info.sender env amount deducted').1 in
    let effect = transfer_internal-balance api s' a recipient amount moved' valid' in
    (
      spent.0,
      λ k. rw (transfer_internal-allowances api s' a recipient amount moved') (spent.1 k),
      rw (sym kept) effect.0,
      λ c. rw (sym kept) (effect.1 c),
    )
