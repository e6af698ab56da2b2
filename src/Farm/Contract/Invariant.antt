-- ===== src/Farm/Contract/Invariant.antt =====
-- The invariant of the storage of contracts/astroport_farm: the total share is the sum of the
-- users' shares.
use spectrum_core.Base.{
  ◌∙◌, sym, refl, ℕ, ◌-◌, ◌≤◌, ◌≡◌, refl, Bool, Option, List, arith, inl, inr, ok, get_or,
}
use spectrum_core.Cosmwasm.Math.{math, decimal_one}
use spectrum_core.Cosmwasm.Std.{Addr, Api, Env, MessageInfo, Expiration, IsExpired}
use spectrum_core.Cosmwasm.Map.{
  ℕ_key, pair_key, erase-IsSorted, IsSorted, lookup, insert, insert-IsSorted,
}
use spectrum_core.Ownership
use spectrum_core.Farm.{Asset, Store, Message, default_reward_info, default_allowance}
use spectrum_core.Farm.Messages.{ExecuteMsg}
use spectrum_core.Farm.Adapters.{Querier}
use spectrum_core.Farm.Balances.{IsValid, entry-balance, remove_share-IsValid}
use spectrum_core.Farm.Bond.{bond_assets}
use spectrum_core.Farm.Cw20.{
  transfer_internal, burn_internal, deduct_allowance, execute_increase_allowance,
  execute_decrease_allowance,
}
use spectrum_core.Farm.Cw20.Allowances.{
  increased, decreased, execute_increase_allowance-ok, execute_decrease_allowance-ok,
  deduct_allowance-ok,
}
use spectrum_core.Farm.Cw20.Steps.{
  transfer_internal-ok, burn_internal-ok, receive_share-ok, debit, after_transfer-sum,
}
use spectrum_core.Farm.Compound.{compound, stake}
use spectrum_core.Farm.Contract.{execute, update_config, validate_percentage}

-- The total and the entries, which the other handlers leave alone.
abbrev pub SameBalances : Store → Store → Type 0
SameBalances s s' =
    (s'.state ≡ s.state)
    × (s'.rewards ≡ s.rewards)
    × (IsSorted s.allowances → IsSorted s'.allowances)
    × (s.config.fee ≤ decimal_one → s'.config.fee ≤ decimal_one)

pub same-IsValid : (s s' : Store) → SameBalances s s' → IsValid s → IsValid s'
same-IsValid s s' (e, f, g, h) v = record {
  sorted = rw f v.sorted;
  total = rw (e, f) v.total;
  allowances_sorted = g v.allowances_sorted;
  fee = h v.fee;
}

pub burn_internal-IsValid :
    (s : Store) (a : Addr) (share : ℕ) {s' : Store}
    → IsValid s
    → burn_internal s a share ≡ ok s'
    → IsValid s'
burn_internal-IsValid s a share v h =
    let (r, r', found, unbonded, covered, left) = burn_internal-ok s a share h in
    rw left (remove_share-IsValid s a share r r' v found unbonded covered)

pub transfer_internal-IsValid :
    (api : Api) (s : Store) (a : Addr) (recipient share : ℕ) {s' : Store}
    → IsValid s
    → transfer_internal api s a recipient share ≡ ok s'
    → IsValid s'
transfer_internal-IsValid api s a recipient share v h =
    let (sender, found, enough, _, b, _, out, received, left) =
      transfer_internal-ok api s a recipient share h in
    let debited = insert a (debit sender share) s.rewards in
    let r =
      receive_share-ok s.pool_info (debit sender share)
        (get_or (lookup b debited) default_reward_info) share received in
    let sum =
      after_transfer-sum s.rewards a b share sender out.0 out.1 v.sorted found enough r.0
        (omega (arith, r.1, entry-balance debited b)) in
    rw left (record {
      sorted = sum.0;
      total = v.total ∙ sym sum.1;
      allowances_sorted = v.allowances_sorted;
      fee = v.fee;
    })

-- An allowance is not a balance.
pub deduct_allowance-same :
    (is_expired : IsExpired) (s : Store) (owner spender : Addr) (env : Env) (amount : ℕ)
    {s' : Store}
    → deduct_allowance is_expired s owner spender env amount ≡ ok s'
    → SameBalances s s'
deduct_allowance-same is_expired s owner spender env amount h =
    let (a, _, _, _, left) = deduct_allowance-ok is_expired s owner spender env amount h in
    rw left (
      refl,
      refl,
      insert-IsSorted (owner, spender) (record a { allowance = a.allowance - amount }) s.allowances,
      λ f. f,
    )

pub allowances-same :
    (api : Api) (s : Store) (info : MessageInfo) (spender amount : ℕ) (expires : Option Expiration)
    → ((out : Store × List Message)
        → execute_increase_allowance api s info spender amount expires ≡ ok out
        → SameBalances s out.0)
      × ((out : Store × List Message)
          → execute_decrease_allowance api s info spender amount expires ≡ ok out
          → SameBalances s out.0)
allowances-same api s info spender amount expires = (
  λ out h.
      let (b, _, _, left) = execute_increase_allowance-ok api s info spender amount expires h in
      rw left (
        refl,
        refl,
        insert-IsSorted (info.sender, b)
            (increased (get_or (lookup (info.sender, b) s.allowances) default_allowance) amount
              expires)
            s.allowances,
        λ f. f,
      ),
  λ out h.
      let (b, _, _, old, _, which) =
        execute_decrease_allowance-ok api s info spender amount expires h in
      elim which [
        | inl (_, left) ↦ rw left (
          refl,
          refl,
          insert-IsSorted (info.sender, b) (decreased old amount expires) s.allowances,
          λ f. f,
        )
        | inr (_, left) ↦ rw left (refl, refl, erase-IsSorted (info.sender, b) s.allowances, λ f. f)
      ],
)

pub update_config-same :
    (api : Api) (s : Store) (info : MessageInfo) (proxy controller fee collector : Option ℕ)
    {out : Store × List Message}
    → update_config api s info proxy controller fee collector ≡ ok out
    → SameBalances s out.0
unfolding update_config validate_percentage
update_config-same api s info proxy controller fee collector h = ground arith

pub ownership-same :
    (api : Api) (q : Querier) (is_expired : IsExpired) (s : Store) (env : Env) (info : MessageInfo)
    (owner expires_in : ℕ)
    → ((out : Store × List Message)
        → execute api q is_expired s env info (ExecuteMsg.propose_new_owner owner expires_in)
          ≡ ok out
        → SameBalances s out.0)
      × ((out : Store × List Message)
          → execute api q is_expired s env info ExecuteMsg.drop_ownership_proposal ≡ ok out
          → SameBalances s out.0)
      × ((out : Store × List Message)
          → execute api q is_expired s env info ExecuteMsg.claim_ownership ≡ ok out
          → SameBalances s out.0)
unfolding execute Ownership.propose_new_owner Ownership.drop_ownership_proposal
    Ownership.claim_ownership
ownership-same api q is_expired s env info owner expires_in =
    (λ out h. ground arith, λ out h. ground arith, λ out h. ground arith)

module _ (q : Querier) (s : Store) (env : Env) where
  pub bond_assets-same :
      (info : MessageInfo) (assets : List Asset) (minimum_receive : Option ℕ)
      (no_swap : Option Bool) (slippage : Option ℕ) {out : Store × List Message}
      → bond_assets q s env info assets minimum_receive no_swap slippage ≡ ok out
      → SameBalances s out.0
  unfolding bond_assets
  bond_assets-same info assets minimum_receive no_swap slippage h = ground arith

  pub compound-same :
      (info : MessageInfo) (minimum_receive slippage : Option ℕ) {out : Store × List Message}
      → compound q s env info minimum_receive slippage ≡ ok out
      → SameBalances s out.0
  unfolding compound
  compound-same info minimum_receive slippage h = ground arith

  pub stake-same :
      (prev_balance : ℕ) (minimum_receive : Option ℕ) {out : Store × List Message}
      → stake q s env prev_balance minimum_receive ≡ ok out
      → SameBalances s out.0
  unfolding stake
  stake-same prev_balance minimum_receive h = ground arith
