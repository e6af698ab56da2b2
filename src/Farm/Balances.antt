-- ===== src/Farm/Balances.antt =====
-- The balances of the cw20 token of contracts/astroport_farm, and the invariant of its storage.
use spectrum_core.Base.{
  ℕ, ◌+◌, ◌-◌, ◌≤◌, ◌≡◌, some, arith, inl, inr, Option-cases, ok, get_or, if◌then◌else◌, ◌==◌,
}
use spectrum_core.Cosmwasm.Math.{math, decimal_one}
use spectrum_core.Cosmwasm.Std.{Addr}
use spectrum_core.Cosmwasm.Map.{
  Map, ℕ_key, pair_key, IsSorted, lookup, insert, insert-IsSorted, lookup-insert,
}
use spectrum_core.Cosmwasm.Map.Sums.{sum_by, sum_by-insert, part_of}
use spectrum_core.Farm.{RewardInfo, Store, default_reward_info}
use spectrum_core.Farm.Shares.Updates.{unbond_info-ok}
use spectrum_core.Farm.Shares.{unbond_info}

abbrev pub share_of : RewardInfo → ℕ
share_of r = r.bond_share

-- The balance of the cw20 token
abbrev pub balance_in : Map Addr RewardInfo → Addr → ℕ
balance_in rewards a = part_of share_of (lookup a rewards)

pub record IsValid (s : Store) : Type 0 where
  pub sorted : IsSorted s.rewards
  pub total : s.state.total_bond_share ≡ sum_by share_of s.rewards
  pub allowances_sorted : IsSorted s.allowances
  pub fee : s.config.fee ≤ decimal_one

pub entry-balance :
    (rewards : Map Addr RewardInfo) (a : Addr)
    → (get_or (lookup a rewards) default_reward_info).bond_share ≡ balance_in rewards a
entry-balance rewards a = elim (Option-cases (lookup a rewards)) [
  | inl e ↦ rw e
  | inr (r, e) ↦ rw e
]

-- One entry is replaced, and the total changes as the entry does.
pub store_IsValid :
    (s : Store) (a : Addr) (r : RewardInfo) (total : ℕ)
    → IsValid s
    → total + balance_in s.rewards a ≡ s.state.total_bond_share + r.bond_share
    → IsValid
        (record s { rewards = insert a r s.rewards; state = record { total_bond_share = total } })
store_IsValid s a r total v h = record {
  sorted = insert-IsSorted a r s.rewards v.sorted;
  total = omega (arith, h, v.total, sum_by-insert share_of a r s.rewards v.sorted);
  allowances_sorted = v.allowances_sorted;
  fee = v.fee;
}

-- Shares are taken out of an entry and out of the total.
pub remove_share-IsValid :
    (s : Store) (a : Addr) (share : ℕ) (r r' : RewardInfo)
    → IsValid s
    → lookup a s.rewards ≡ some r
    → unbond_info r share ≡ ok r'
    → share ≤ s.state.total_bond_share
    → IsValid (record s {
      rewards = insert a r' s.rewards;
      state = record { total_bond_share = s.state.total_bond_share - share };
    })
remove_share-IsValid s a share r r' v found unbonded covered =
    let u = unbond_info-ok r share unbonded in
    let part : balance_in s.rewards a ≡ r.bond_share = rw found in
    store_IsValid s a r' (s.state.total_bond_share - share) v (omega arith)

-- A balance after an entry is stored.
pub balance-insert :
    (a : Addr) (r : RewardInfo) (rewards : Map Addr RewardInfo) (c : Addr)
    → balance_in (insert a r rewards) c ≡ (if c == a then r.bond_share else balance_in rewards c)
balance-insert a r rewards c = ground (arith, lookup-insert a c r rewards)
