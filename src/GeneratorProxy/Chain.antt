-- ===== src/GeneratorProxy/Chain.antt =====
-- contracts/generator_proxy/src/astro_generator.rs and astro_gov.rs: what the contract asks of the
-- contracts of Astroport, and what it sends to those of the governance.
use spectrum_core.Base.{
  ℕ, zero, suc, ◌-◌, ◌&&◌, not, true, false, Option, none, some, List, [], ◌∷◌, ltb, leb, ◌==◌,
  if◌then◌else◌, get_or, is_empty, Result, ok, ◌>>=◌, ok_or,
}
use spectrum_core.Cosmwasm.Math.{Math}
use spectrum_core.Cosmwasm.Std.{Addr, Api, StdError, generic_err}
use spectrum_core.Cosmwasm.Uint.{multiply_ratio, checked_add, add_word, vector_update}
use spectrum_core.Farm.{AssetInfo}
use spectrum_core.Farm.Adapters.{name_of, PendingTokenResponse}
use spectrum_core.GeneratorProxy.{
  Vector, AstroGov, Message, claim, vote, create_lock, extend_lock_amount, extend_lock_time,
  withdraw_lock,
}

-- `UserInfoV2` of packages/astroport
pub record UserInfoV2 : Type 0 where
  pub amount : ℕ
  pub reward_user_index : ℕ
  pub reward_debt_proxy : Vector
  pub virtual_amount : ℕ

pub record Lock : Type 0 where
  pub amount : ℕ
  pub start : ℕ
  pub end : ℕ
  pub last_extend_lock_period : ℕ

-- `Lock::default()`
abbrev pub default_lock : Lock
default_lock = record { amount = 0; start = 0; end = 0; last_extend_lock_period = 0 }

-- What other contracts answer, the first address being the contract that is asked, and the calendar
-- of packages/astroport-governance: `get_period` and `WEEK`. The fields `user_info` to
-- `rewards_per_week` read the storage of another contract (`LOCK.query` and the like).
pub record Chain : Type 0 where
  pub query_deposit : Addr → Addr → Addr → Result StdError ℕ
  pub query_pending_token : Addr → Addr → Addr → Result StdError PendingTokenResponse
  pub query_token_balance : Addr → Addr → Result StdError ℕ
  pub user_info : Addr → Addr → Addr → Result StdError (Option UserInfoV2)
  pub proxy_reward_asset : Addr → Addr → Result StdError (Option AssetInfo)
  pub locked : Addr → Addr → Result StdError (Option Lock)
  pub last_claim_period : Addr → Addr → Result StdError (Option ℕ)
  pub rewards_per_week : Addr → ℕ → Result StdError (Option ℕ)
  pub lock_info_end : Addr → Addr → Result StdError ℕ
  pub user_voting_power_at_period : Addr → Addr → ℕ → Result StdError ℕ
  pub total_voting_power_at_period : Addr → ℕ → Result StdError ℕ
  pub get_period : ℕ → Result StdError ℕ
  pub week : ℕ

-- `AstroGovUnchecked::check`
abbrev pub check : Api → AstroGov → Result StdError AstroGov
check api gov = do
  fee_distributor ← api gov.fee_distributor
  generator_controller ← api gov.generator_controller
  voting_escrow ← api gov.voting_escrow
  xastro_token ← api gov.xastro_token
  ok (record {
    fee_distributor = fee_distributor;
    generator_controller = generator_controller;
    voting_escrow = voting_escrow;
    xastro_token = xastro_token;
  })

module _ (c : Chain) where
  abbrev pub query_lock : AstroGov → Addr → Result StdError Lock
  query_lock gov user = do lock ← c.locked gov.voting_escrow user; ok (get_or lock default_lock)

  abbrev pub query_last_claim_period : AstroGov → Addr → Result StdError ℕ
  query_last_claim_period gov user = do
    last_claim_period ← c.last_claim_period gov.fee_distributor user
    ok_or last_claim_period (generic_err "last_claim_period not found")

module _ ⦃m : Math⦄ (c : Chain) where
  -- The loop of `query_user_info`: each proxy is named by its reward token.
  unfoldable pub debts_by_token : Addr → Vector → Vector → Result StdError Vector
  debts_by_token generator [] debts = ok debts
  debts_by_token generator ((proxy_addr, value) ∷ rest) debts = do
    asset_info ← c.proxy_reward_asset generator proxy_addr
    debts' ← elim asset_info [
      | none ↦ ok debts
      | some info ↦ vector_update (name_of info) value debts
    ]
    debts_by_token generator rest debts'

  unfoldable pub query_user_info : Addr → Addr → Addr → Result StdError (Option UserInfoV2)
  query_user_info generator lp_token user = do
    op ← c.user_info generator lp_token user
    elim op [
      | none ↦ ok none
      | some user_info ↦ if is_empty user_info.reward_debt_proxy then ok (some user_info) else (do
        debts ← debts_by_token generator user_info.reward_debt_proxy []
        ok (some (record user_info { reward_debt_proxy = debts })))
    ]

  unfoldable pub calculate_reward : AstroGov → ℕ → ℕ → ℕ → Result StdError ℕ
  calculate_reward gov period user_vp total_vp = do
    rewards_per_week ← c.rewards_per_week gov.fee_distributor period
    multiply_ratio user_vp (get_or rewards_per_week 0) total_vp

  -- What one round of the loop of `calc_claim_amount` adds.
  unfoldable pub claim_period_amount : AstroGov → Addr → ℕ → ℕ → Result StdError ℕ
  claim_period_amount gov account claim_period claim_amount = do
    user_vp ← c.user_voting_power_at_period gov.voting_escrow account claim_period
    total_vp ← c.total_voting_power_at_period gov.voting_escrow claim_period
    if not (user_vp == 0) && not (total_vp == 0)
        then (do
          reward ← calculate_reward gov claim_period user_vp total_vp
          checked_add claim_amount reward)
        else ok claim_amount

  -- The loop, with the periods up to the current one as fuel.
  unfoldable pub claim_loop : ℕ → AstroGov → Addr → ℕ → ℕ → ℕ → ℕ → Result StdError ℕ
  claim_loop zero gov account lock_end current_period claim_period claim_amount = ok claim_amount
  claim_loop (suc fuel) gov account lock_end current_period claim_period claim_amount =
      elim (ltb claim_period current_period && leb claim_period lock_end) [
        | false ↦ ok claim_amount
        | true ↦ do
          claim_amount' ← claim_period_amount gov account claim_period claim_amount
          claim_period' ← add_word 64 claim_period 1
          claim_loop fuel gov account lock_end current_period claim_period' claim_amount'
      ]

  unfoldable pub calc_claim_amount : AstroGov → Addr → ℕ → ℕ → Result StdError ℕ
  calc_claim_amount gov account claim_start current_period = do
    lock_end_period ← c.lock_info_end gov.voting_escrow account
    claim_loop (current_period - claim_start) gov account lock_end_period current_period claim_start
        0

abbrev pub claim_msg : AstroGov → Message
claim_msg gov = claim gov.fee_distributor none none

abbrev pub controller_vote_msg : AstroGov → List (ℕ × ℕ) → Message
controller_vote_msg gov votes = vote gov.generator_controller votes

abbrev pub create_lock_msg : AstroGov → ℕ → ℕ → Message
create_lock_msg gov amount time = create_lock gov.xastro_token gov.voting_escrow amount time

abbrev pub extend_lock_amount_msg : AstroGov → ℕ → Message
extend_lock_amount_msg gov amount = extend_lock_amount gov.xastro_token gov.voting_escrow amount

abbrev pub extend_lock_time_msg : AstroGov → ℕ → Message
extend_lock_time_msg gov time = extend_lock_time gov.voting_escrow time

abbrev pub withdraw_msg : AstroGov → Message
withdraw_msg gov = withdraw_lock gov.voting_escrow
