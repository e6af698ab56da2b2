-- ===== src/Ownership.antt =====
-- contracts/lp_staking/src/ownership.rs, and contracts/astroport_farm/src/ownership.rs, which is the
-- same code: the two steps in which a contract changes its owner.
pub mod Rules
mod Tests
use Prim.Native.String.{String}
use spectrum_core.Base.{
  ℕ, ◌≡◌, not, Option, none, some, ltb, ◌==◌, if◌then◌else◌, Result, ok, err, ◌>>=◌, ◌>>◌, err_if,
  ok_or,
}
use spectrum_core.Cosmwasm.Std.{Addr, Api, Env, MessageInfo, StdError, generic_err}
use spectrum_core.Cosmwasm.Uint.{add_word}

pub record OwnershipProposal : Type 0 where
  pub owner : Addr
  pub ttl : ℕ

-- `Item<OwnershipProposal>` in the storage `S` of a contract.
pub record ProposalItem {ℓ} (S : Type ℓ) : Type ℓ where
  pub may_load : S → Option OwnershipProposal
  pub save : OwnershipProposal → S → S
  pub remove : S → S
  pub may_load-save : (p : OwnershipProposal) (s : S) → may_load (save p s) ≡ some p
  pub may_load-remove : (s : S) → may_load (remove s) ≡ none

module _ {ℓ} {S : Type ℓ} (item : ProposalItem S) where
  unfoldable pub propose_new_owner : Api → S → Env → MessageInfo → ℕ → ℕ → Addr → Result StdError S
  propose_new_owner api s env info new_owner expires_in owner = do
    err_if (not (info.sender == owner)) (generic_err "Unauthorized")
    new_owner ← api new_owner
    err_if (new_owner == owner) (generic_err "New owner cannot be same")
    ttl ← add_word 64 env.time expires_in
    ok (item.save (record { owner = new_owner; ttl = ttl }) s)

  unfoldable pub drop_ownership_proposal : S → MessageInfo → Addr → Result StdError S
  drop_ownership_proposal s info owner = do
    err_if (not (info.sender == owner)) (generic_err "Unauthorized")
    ok (item.remove s)

  -- `cb` is the callback that stores the new owner
  unfoldable pub claim_ownership :
      S → Env → MessageInfo → (S → Addr → Result StdError S) → Result StdError S
  claim_ownership s env info cb = do
    p ← ok_or (item.may_load s) (generic_err "Ownership proposal not found")
    err_if (not (info.sender == p.owner)) (generic_err "Unauthorized")
    err_if (ltb p.ttl env.time) (generic_err "Ownership proposal expired")
    cb (item.remove s) p.owner
