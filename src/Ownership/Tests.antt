-- ===== src/Ownership/Tests.antt =====
-- A change of the owner at a concrete input, for a storage that holds nothing but the proposal.
use spectrum_core.Base.{ℕ, ◌≤◌, ◌≡◌, refl, Option, none, some, [], Result, ok, err}
use spectrum_core.Cosmwasm.Std.{Addr, Api, Env, MessageInfo, StdError, generic_err}
use spectrum_core.Ownership.{
  OwnershipProposal, ProposalItem, propose_new_owner, drop_ownership_proposal, claim_ownership,
}
use spectrum_core.Ownership.Rules.{
  claim_ownership-ok, claim_ownership-propose, claim_ownership-drop,
}

abbrev S : Type 0
S = Option OwnershipProposal

abbrev item : ProposalItem S
item = record {
  may_load = λ s. s;
  save = λ p s. some p;
  remove = λ s. none;
  may_load-save = λ p s. refl;
  may_load-remove = λ s. refl;
}

abbrev api : Api
api a = ok a

abbrev at : ℕ → Env
at time = record { height = 1; time = time; contract = 9 }

abbrev from : Addr → MessageInfo
from sender = record { sender = sender; funds = [] }

abbrev keep : S → Addr → Result StdError S
keep s a = ok s

abbrev proposed : OwnershipProposal
proposed = record { owner = 8; ttl = 106 }

propose_run : propose_new_owner item api none (at 6) (from 1) 8 100 1 ≡ ok (some proposed)
unfolding propose_new_owner
propose_run = refl

claim_run : claim_ownership item (some proposed) (at 50) (from 8) keep ≡ ok none
unfolding claim_ownership
claim_run = refl

drop_run : drop_ownership_proposal item (some proposed) (from 1) 1 ≡ ok none
unfolding drop_ownership_proposal
drop_run = refl

claim_ownership-ok_example :
    (p : OwnershipProposal) × (◌≡◌ {A = S} (some proposed) (some p))
    × (8 ≡ p.owner)
    × (50 ≤ p.ttl)
    × (◌≡◌ {A = Result StdError S} (ok none) (ok none))
claim_ownership-ok_example = claim_ownership-ok item (some proposed) (at 50) (from 8) keep claim_run

claim_ownership-propose_example :
    claim_ownership item (some proposed) (at 200) (from 8) keep
    ≡ err (generic_err "Ownership proposal expired")
claim_ownership-propose_example =
    claim_ownership-propose item api none (at 6) (at 200) (from 1) (from 8) 8 100 1 keep propose_run
      refl

claim_ownership-drop_example :
    claim_ownership item none (at 50) (from 8) keep
    ≡ err (generic_err "Ownership proposal not found")
claim_ownership-drop_example =
    claim_ownership-drop item (some proposed) (at 50) (from 1) (from 8) 1 keep drop_run
