-- ===== src/Farm/Cw20/Steps.antt =====
-- What a transfer and a burn of shares that succeed have computed, and what they leave.
use spectrum_core.Base.{
  ℕ, ◌+◌, ◌-◌, ◌*◌, ◌/◌, ◌≤◌, ◌<◌, ◌≡◌, refl, ◌⊎◌, Option, some, arith, inl, inr, Bool-cases, ltb,
  ok, get_or, if◌then◌else◌, ◌==◌,
}
use spectrum_core.Cosmwasm.Math.{math}
use spectrum_core.Cosmwasm.Std.{Addr, Api}
use spectrum_core.Cosmwasm.Map.{Map, ℕ_key, IsSorted, lookup, insert, insert-IsSorted}
use spectrum_core.Cosmwasm.Map.Sums.{sum_by, sum_by-insert}
use spectrum_core.Farm.{PoolResponse, RewardInfo, Store, default_reward_info}
use spectrum_core.Farm.Shares.Updates.{ensure_deposit_costs-ok, bond_info-ok}
use spectrum_core.Farm.Shares.{bond_info, unbond_info, ensure_deposit_costs}
use spectrum_core.Farm.Cw20.{receive_share, pool_of, transfer_internal, burn_internal}
use spectrum_core.Farm.Balances.{share_of, balance_in, balance-insert}

pub burn_internal-ok :
    (s : Store) (a : Addr) (share : ℕ) {s' : Store}
    → burn_internal s a share ≡ ok s'
    → (r : RewardInfo) × (r' : RewardInfo) × (lookup a s.rewards ≡ some r)
      × (unbond_info r share ≡ ok r')
      × (share ≤ s.state.total_bond_share)
      × (s' ≡ (record s {
        rewards = insert a r' s.rewards;
        state = record { total_bond_share = s.state.total_bond_share - share };
      }))
unfolding burn_internal
burn_internal-ok s a share h = ground arith

receive_share_cases :
    (pool_info : Option PoolResponse) (sender receiver : RewardInfo) (share : ℕ)
    {sender' receiver' : RewardInfo}
    → receive_share pool_info sender receiver share ≡ ok (sender', receiver')
    → ((sender' ≡ sender) × (receiver'.bond_share ≡ receiver.bond_share + share))
      ⊎ ((ensure_deposit_costs sender pool_info ≡ ok sender')
          × (receiver.transfer_share ≤ share)
          × (deposit_amount : ℕ) × (bond_info
                (record receiver {
                  bond_share = receiver.bond_share + receiver.transfer_share;
                  transfer_share = 0;
                })
                (share - receiver.transfer_share)
                deposit_amount
                sender'.deposit_time
                (pool_of sender')
              ≡ ok receiver'))
unfolding receive_share
receive_share_cases pool_info sender receiver share h =
    elim (Bool-cases (ltb receiver.transfer_share share)) [
      | inl e ↦ inr (
        ground arith,
        ground arith,
        sender.deposit_amount
            * (share - receiver.transfer_share)
            / (sender.bond_share + sender.transfer_share),
        ground arith,
      )
      | inr e ↦ inl (ground arith)
    ]

-- The sender's shares stay, and the receiver has `share` more.
pub receive_share-ok :
    (pool_info : Option PoolResponse) (sender receiver : RewardInfo) (share : ℕ)
    {sender' receiver' : RewardInfo}
    → receive_share pool_info sender receiver share ≡ ok (sender', receiver')
    → (sender'.bond_share ≡ sender.bond_share)
      × (receiver'.bond_share ≡ receiver.bond_share + share)
receive_share-ok pool_info sender receiver share {sender'} {receiver'} h =
    elim (receive_share_cases pool_info sender receiver share h) [
      | inl (e, b) ↦ (rw e refl, b)
      | inr (ensured, enough, deposit_amount, bonded) ↦
          let same = ensure_deposit_costs-ok sender pool_info ensured in
          let b =
            bond_info-ok
              (record receiver {
                bond_share = receiver.bond_share + receiver.transfer_share;
                transfer_share = 0;
              })
              (share - receiver.transfer_share) deposit_amount sender'.deposit_time
              (pool_of sender') bonded in
          (same.bond_share, omega (arith, b.0, enough))
    ]

-- The sender's entry once the shares have left it.
abbrev pub debit : RewardInfo → ℕ → RewardInfo
debit r share = record r {
  bond_share = r.bond_share - share;
  transfer_share = r.transfer_share + share;
}

pub transfer_internal-ok :
    (api : Api) (s : Store) (a : Addr) (recipient share : ℕ) {s' : Store}
    → transfer_internal api s a recipient share ≡ ok s'
    → (sender : RewardInfo) × (lookup a s.rewards ≡ some sender)
      × (share ≤ sender.bond_share)
      × (0 < share)
      × (b : Addr) × (api recipient ≡ ok b)
      × (out : RewardInfo × RewardInfo) × (receive_share s.pool_info
            (debit sender share)
            (get_or (lookup b (insert a (debit sender share) s.rewards)) default_reward_info)
            share
          ≡ ok out)
      × (s' ≡ record s {
        rewards = insert b out.1 (insert a out.0 (insert a (debit sender share) s.rewards));
      })
unfolding transfer_internal
transfer_internal-ok api s a recipient share h = ground arith

-- The balance of `c` after `share` is moved from `a` to `b`.
abbrev pub balance_moved : Addr → Addr → ℕ → Map Addr RewardInfo → Addr → ℕ
balance_moved a b share rewards c =
    if a == b
    then balance_in rewards c
    else if c == a
    then balance_in rewards c - share
    else if c == b
    then balance_in rewards c + share
    else balance_in rewards c

module _ (rewards : Map Addr RewardInfo) (a b : Addr) (share : ℕ)
    (sender sender' receiver' : RewardInfo) where
  abbrev after_transfer : Map Addr RewardInfo
  after_transfer = insert b receiver' (insert a sender' (insert a (debit sender share) rewards))

  pub after_transfer-balance :
      (c : Addr)
      → lookup a rewards ≡ some sender
      → share ≤ sender.bond_share
      → sender'.bond_share ≡ sender.bond_share - share
      → receiver'.bond_share ≡ balance_in (insert a (debit sender share) rewards) b + share
      → balance_in after_transfer c ≡ balance_moved a b share rewards c
  after_transfer-balance c found enough e f =
      let part : balance_in rewards a ≡ sender.bond_share = rw found refl in
      ground (
        arith,
        balance-insert b receiver' (insert a sender' (insert a (debit sender share) rewards)) c,
        balance-insert a sender' (insert a (debit sender share) rewards) c,
        balance-insert a (debit sender share) rewards c,
        balance-insert a (debit sender share) rewards b,
      )

  pub after_transfer-sum :
      IsSorted rewards
      → lookup a rewards ≡ some sender
      → share ≤ sender.bond_share
      → sender'.bond_share ≡ sender.bond_share - share
      → receiver'.bond_share ≡ balance_in (insert a (debit sender share) rewards) b + share
      → IsSorted after_transfer × (sum_by share_of after_transfer ≡ sum_by share_of rewards)
  after_transfer-sum sorted found enough e f =
      let part : balance_in rewards a ≡ sender.bond_share = rw found refl in
      let sorted1 = insert-IsSorted a (debit sender share) rewards sorted in
      let sorted2 = insert-IsSorted a sender' (insert a (debit sender share) rewards) sorted1 in
      (
        insert-IsSorted b receiver' (insert a sender' (insert a (debit sender share) rewards))
            sorted2,
        ground (
          arith,
          sum_by-insert share_of a (debit sender share) rewards sorted,
          sum_by-insert share_of a sender' (insert a (debit sender share) rewards) sorted1,
          sum_by-insert share_of b receiver'
              (insert a sender' (insert a (debit sender share) rewards)) sorted2,
          balance-insert a (debit sender share) rewards a,
          balance-insert a (debit sender share) rewards b,
          balance-insert a sender' (insert a (debit sender share) rewards) b,
        ),
      )
