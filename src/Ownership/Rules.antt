-- ===== src/Ownership/Rules.antt =====
-- Who can change the owner of a contract, and until when.
use spectrum_core.Base.{
  ◌≢◌, not, ◌^◌, if◌then◌else◌, ℕ, ◌+◌, ◌≤◌, ◌<◌, ◌≡◌, some, arith, Result, ok, err, ltb, ◌==◌,
}
use spectrum_core.Cosmwasm.Std.{Addr, Api, Env, MessageInfo, StdError, generic_err}
use spectrum_core.Ownership.{
  OwnershipProposal, ProposalItem, propose_new_owner, drop_ownership_proposal, claim_ownership,
}

module _ {ℓ} {S : Type ℓ} (item : ProposalItem S) where
  -- A claim that succeeds was made by the owner of the stored proposal, no later than its ttl; the
  -- callback ran on the storage from which the proposal is gone, with that owner.
  pub claim_ownership-ok :
      (s : S) (env : Env) (info : MessageInfo) (cb : S → Addr → Result StdError S) {s' : S}
      → claim_ownership item s env info cb ≡ ok s'
      → (p : OwnershipProposal) × (item.may_load s ≡ some p)
        × (info.sender ≡ p.owner)
        × (env.time ≤ p.ttl)
        × (cb (item.remove s) p.owner ≡ ok s')
  unfolding claim_ownership
  claim_ownership-ok s env info cb h = ground (arith)

  -- A proposal that succeeds was made by the owner, and stores a validated address other than the
  -- owner's, with a ttl that does not wrap.
  pub propose_new_owner-ok :
      (api : Api) (s : S) (env : Env) (info : MessageInfo) (new_owner expires_in : ℕ) (owner : Addr)
      {s' : S}
      → propose_new_owner item api s env info new_owner expires_in owner ≡ ok s'
      → (a : Addr) × (api new_owner ≡ ok a)
        × (info.sender ≡ owner)
        × (a ≢ owner)
        × (env.time + expires_in < 2 ^ 64)
        × (item.may_load s' ≡ some (record { owner = a; ttl = env.time + expires_in }))
  unfolding propose_new_owner
  propose_new_owner-ok api s env info new_owner expires_in owner h =
      grind (arith, item.may_load-save)

  -- After a proposal the proposed owner, and no one else, can claim up to the ttl.
  pub claim_ownership-propose :
      (api : Api) (s : S) (env env' : Env) (info info' : MessageInfo) (new_owner expires_in : ℕ)
      (owner : Addr) (cb : S → Addr → Result StdError S) {s' : S} {a : Addr}
      → propose_new_owner item api s env info new_owner expires_in owner ≡ ok s'
      → api new_owner ≡ ok a
      → claim_ownership item s' env' info' cb ≡ (
          if not (info'.sender == a)
          then err (generic_err "Unauthorized")
          else if ltb (env.time + expires_in) env'.time
          then err (generic_err "Ownership proposal expired")
          else cb (item.remove s') a)
  unfolding propose_new_owner claim_ownership
  claim_ownership-propose api s env env' info info' new_owner expires_in owner cb h e =
      grind (arith, item.may_load-save)

  -- After the proposal is dropped nobody can claim.
  pub claim_ownership-drop :
      (s : S) (env : Env) (info info' : MessageInfo) (owner : Addr)
      (cb : S → Addr → Result StdError S) {s' : S}
      → drop_ownership_proposal item s info owner ≡ ok s'
      → claim_ownership item s' env info' cb ≡ err (generic_err "Ownership proposal not found")
  unfolding drop_ownership_proposal claim_ownership
  claim_ownership-drop s env info info' owner cb h = grind (arith, item.may_load-remove)
