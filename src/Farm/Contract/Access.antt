-- ===== src/Farm/Contract/Access.antt =====
-- Who can send which message to contracts/astroport_farm.
use spectrum_core.Base.{◌≤◌, ◌≡◌, some, List, arith, ok}
use spectrum_core.Cosmwasm.Math.{math}
use spectrum_core.Cosmwasm.Std.{Api, Env, MessageInfo, IsExpired}
use spectrum_core.Ownership
use spectrum_core.Ownership.{OwnershipProposal}
use spectrum_core.Farm.{Store, Message}
use spectrum_core.Farm.Messages.{ExecuteMsg}
use spectrum_core.Farm.Adapters.{Querier}
use spectrum_core.Farm.Bond.{bond}
use spectrum_core.Farm.Compound.{compound}
use spectrum_core.Farm.Contract.{execute, update_config, receive_cw20, handle_callback}

-- Who the sender of a message has to be, where not everybody may send it.
abbrev pub IsAllowed : Store → Env → MessageInfo → ExecuteMsg → Type 0
IsAllowed s env info (ExecuteMsg.receive msg) = info.sender ≡ s.config.liquidity_token
IsAllowed s env info (ExecuteMsg.update_config p c f k) = info.sender ≡ s.config.owner
IsAllowed s env info (ExecuteMsg.compound m t) = info.sender ≡ s.config.controller
IsAllowed s env info (ExecuteMsg.propose_new_owner o e) = info.sender ≡ s.config.owner
IsAllowed s env info ExecuteMsg.drop_ownership_proposal = info.sender ≡ s.config.owner
IsAllowed s env info ExecuteMsg.claim_ownership =
    (p : OwnershipProposal) × (s.ownership_proposal ≡ some p)
    × (info.sender ≡ p.owner)
    × (env.time ≤ p.ttl)
IsAllowed s env info (ExecuteMsg.callback msg) = info.sender ≡ env.contract
IsAllowed s env info ExecuteMsg.mint = ⊥
IsAllowed s env info ExecuteMsg.update_marketing = ⊥
IsAllowed s env info ExecuteMsg.upload_logo = ⊥
IsAllowed s env info _ = Unit

pub execute-IsAllowed :
    (api : Api) (q : Querier) (is_expired : IsExpired) (s : Store) (env : Env) (info : MessageInfo)
    (msg : ExecuteMsg) {out : Store × List Message}
    → execute api q is_expired s env info msg ≡ ok out
    → IsAllowed s env info msg
unfolding execute receive_cw20 bond update_config compound handle_callback
    Ownership.propose_new_owner Ownership.drop_ownership_proposal Ownership.claim_ownership
execute-IsAllowed api q is_expired s env info (ExecuteMsg.receive msg) h = ground arith
execute-IsAllowed api q is_expired s env info (ExecuteMsg.update_config p c f k) h = ground arith
execute-IsAllowed api q is_expired s env info (ExecuteMsg.unbond a) h = tt
execute-IsAllowed api q is_expired s env info (ExecuteMsg.compound m t) h = ground arith
execute-IsAllowed api q is_expired s env info (ExecuteMsg.bond_assets a m n t) h = tt
execute-IsAllowed api q is_expired s env info (ExecuteMsg.propose_new_owner o e) h = ground arith
execute-IsAllowed api q is_expired s env info ExecuteMsg.drop_ownership_proposal h = ground arith
execute-IsAllowed api q is_expired s env info ExecuteMsg.claim_ownership h = ground arith
execute-IsAllowed api q is_expired s env info (ExecuteMsg.callback msg) h = ground arith
execute-IsAllowed api q is_expired s env info (ExecuteMsg.transfer r a) h = tt
execute-IsAllowed api q is_expired s env info (ExecuteMsg.burn a) h = tt
execute-IsAllowed api q is_expired s env info (ExecuteMsg.send r a m) h = tt
execute-IsAllowed api q is_expired s env info (ExecuteMsg.increase_allowance b a e) h = tt
execute-IsAllowed api q is_expired s env info (ExecuteMsg.decrease_allowance b a e) h = tt
execute-IsAllowed api q is_expired s env info (ExecuteMsg.transfer_from o r a) h = tt
execute-IsAllowed api q is_expired s env info (ExecuteMsg.send_from o r a m) h = tt
execute-IsAllowed api q is_expired s env info (ExecuteMsg.burn_from o a) h = tt
execute-IsAllowed api q is_expired s env info ExecuteMsg.mint h = ground arith
execute-IsAllowed api q is_expired s env info ExecuteMsg.update_marketing h = ground arith
execute-IsAllowed api q is_expired s env info ExecuteMsg.upload_logo h = ground arith
