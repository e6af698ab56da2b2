-- ===== src/Farm/Shares/Updates.antt =====
-- What an update of a user's entry leaves, where it succeeds.
use spectrum_core.Base.{ℕ, ◌+◌, ◌-◌, ◌*◌, ◌/◌, ◌≤◌, ◌≡◌, Option, arith, ok}
use spectrum_core.Cosmwasm.Math.{math}
use spectrum_core.Helper.{compute_deposit_time}
use spectrum_core.Farm.{PoolResponse, RewardInfo}
use spectrum_core.Farm.Shares.{ensure_deposit_costs, bond_info, unbond_info}

-- The entries differ in the costs of the deposits at most.
pub record SameShares (r r' : RewardInfo) : Type 0 where
  pub bond_share : r'.bond_share ≡ r.bond_share
  pub transfer_share : r'.transfer_share ≡ r.transfer_share
  pub deposit_amount : r'.deposit_amount ≡ r.deposit_amount
  pub deposit_time : r'.deposit_time ≡ r.deposit_time

pub ensure_deposit_costs-ok :
    (r : RewardInfo) (pool_info : Option PoolResponse) {r' : RewardInfo}
    → ensure_deposit_costs r pool_info ≡ ok r'
    → SameShares r r'
unfolding ensure_deposit_costs
ensure_deposit_costs-ok r pool_info h = ground arith

pub bond_info-ok :
    (r : RewardInfo) (share deposit_amount time : ℕ) (pool_info : PoolResponse) {r' : RewardInfo}
    → bond_info r share deposit_amount time pool_info ≡ ok r'
    → (r'.bond_share ≡ r.bond_share + share)
      × (r'.transfer_share ≡ r.transfer_share)
      × (r'.deposit_amount ≡ r.deposit_amount + deposit_amount)
      × (compute_deposit_time r.deposit_amount deposit_amount r.deposit_time time
          ≡ ok r'.deposit_time)
unfolding bond_info
bond_info-ok r share deposit_amount time pool_info h = ground arith

pub unbond_info-ok :
    (r : RewardInfo) (share : ℕ) {r' : RewardInfo}
    → unbond_info r share ≡ ok r'
    → (share ≤ r.bond_share)
      × (r'.bond_share ≡ r.bond_share - share)
      × (r'.transfer_share ≡ r.transfer_share)
      × (r'.deposit_time ≡ r.deposit_time)
      × (r'.deposit_amount
          ≡ r.deposit_amount
            * (r.bond_share - share + r.transfer_share)
            / (r.bond_share + r.transfer_share))
unfolding unbond_info
unbond_info-ok r share h = ground arith
