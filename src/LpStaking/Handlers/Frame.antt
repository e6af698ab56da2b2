-- ===== src/LpStaking/Handlers/Frame.antt =====
-- Whose entry a message to contracts/lp_staking can change.
use spectrum_core.Base.{
  ℕ, ◌+◌, ◌-◌, ◌≡◌, ◌≢◌, inl, inr, Option, some, List, arith, ◌==◌, ◌&&◌, Bool-cases, ok, get_or,
}
use spectrum_core.Cosmwasm.Math.{math}
use spectrum_core.Cosmwasm.Std.{Addr, Api, Env, MessageInfo}
use spectrum_core.Cosmwasm.Map.{Map, ℕ_key, IsSorted, lookup, insert, lookup-insert, lookup-erase}
use spectrum_core.LpStaking.{RewardInfo, Store, ExecuteMsg, Transfer, bond}
use spectrum_core.LpStaking.Handlers.{store_reward_info, execute}
use spectrum_core.LpStaking.Handlers.Invariant.{
  IsValid, bond_to-ok, unbond-ok, withdraw-ok, receive_cw20-ok, update_config-same, ownership-same,
}

-- The address `a` is the sender, or the staker for whom a cw20 message bonds.
abbrev pub Concerns : Api → MessageInfo → ExecuteMsg → Addr → Type 0
Concerns api info (ExecuteMsg.receive msg) a =
    (staker : Option ℕ) × (cw20_sender : Addr) × (msg.msg ≡ some (bond staker))
    × (api msg.sender ≡ ok cw20_sender)
    × (api (get_or staker cw20_sender) ≡ ok a)
Concerns api info _ a = a ≡ info.sender

lookup-insert_ne :
    (k a : Addr) (r : RewardInfo) (m : Map Addr RewardInfo)
    → a ≢ k
    → lookup a (insert k r m) ≡ lookup a m
lookup-insert_ne k a r m h = ground (arith, lookup-insert k a r m)

pub lookup-store_ne :
    (k a : Addr) (r : RewardInfo) (m : Map Addr RewardInfo)
    → IsSorted m
    → a ≢ k
    → lookup a (store_reward_info k r m) ≡ lookup a m
lookup-store_ne k a r m s h = elim (Bool-cases (r.pending_reward == 0 && r.bond_amount == 0)) [
  | inl e ↦ rw e (ground (arith, lookup-erase k a m s))
  | inr e ↦ rw e (lookup-insert_ne k a r m h)
]

pub execute_others :
    (api : Api) (s : Store) (env : Env) (info : MessageInfo) (msg : ExecuteMsg) (a : Addr)
    {out : Store × List Transfer}
    → IsValid s
    → execute api s env info msg ≡ ok out
    → ¬ Concerns api info msg a
    → lookup a out.0.reward_infos ≡ lookup a s.reward_infos
unfolding execute
execute_others api s env info (ExecuteMsg.receive msg) a v h n =
    let (staker, sender, parsed, _, valid, bonded) = receive_cw20-ok api s env info msg h in
    let (b, state, r, named, _, _, left) =
      bond_to-ok api s env (get_or staker sender) msg.amount bonded in
    rw left (
      lookup-insert_ne b a (record r { bond_amount = r.bond_amount + msg.amount }) s.reward_infos
        (λ e. n (staker, sender, parsed, valid, rw e named)))
execute_others api s env info (ExecuteMsg.unbond amount) a v h n =
    let (state, r, _, _, _, _, left) = unbond-ok s env info amount h in
    rw left (
      lookup-store_ne info.sender a (record r { bond_amount = r.bond_amount - amount })
        s.reward_infos v.sorted n)
execute_others api s env info (ExecuteMsg.withdraw spec) a v h n =
    let (state, r, _, _, _, left) = withdraw-ok s env info spec h in
    rw left (
      lookup-store_ne info.sender a
        (record r { pending_reward = r.pending_reward - get_or spec r.pending_reward })
        s.reward_infos v.sorted n)
execute_others api s env info (ExecuteMsg.update_config l) a v h n =
    rw ((update_config-same s info l h).1)
execute_others api s env info (ExecuteMsg.propose_new_owner owner expires_in) a {out} v h n =
    rw (((ownership-same api s env info owner expires_in).0 out h).1)
execute_others api s env info ExecuteMsg.drop_ownership_proposal a {out} v h n =
    rw (((ownership-same api s env info 0 0).1 out h).1)
execute_others api s env info ExecuteMsg.claim_ownership a {out} v h n =
    rw (((ownership-same api s env info 0 0).2 out h).1)
