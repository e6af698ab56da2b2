-- ===== src/LpStaking/Handlers/Liability.antt =====
-- What contracts/lp_staking owes its stakers in reward tokens, and how the handlers change it.
use spectrum_core.Base.{
  ℕ, ◌+◌, ◌-◌, ◌*◌, ◌/◌, ◌≤◌, ◌≡◌, sym, ap, inl, inr, Option, List, [], ◌∷◌, arith, ◌==◌, ◌&&◌,
  Bool-cases, Option-cases, ok, get_or, div_add-le, length,
}
use native.Mathlib.Nat.{zero-mul, mul-add, add-mul, mul-div-le}
use spectrum_core.Cosmwasm.Math.{math, decimal_one}
use spectrum_core.Cosmwasm.Std.{Addr, Api, Env, MessageInfo}
use spectrum_core.Cosmwasm.Map.{Map, ℕ_key, lookup, insert}
use spectrum_core.Cosmwasm.Map.Sums.{sum_by, sum_by-insert, sum_by-erase, part_of}
use spectrum_core.LpStaking.{
  State, Config, RewardInfo, Store, read_reward_info, ExecuteMsg, Transfer,
}
use spectrum_core.LpStaking.Rewards.{compute_reward, compute_staker_reward}
use spectrum_core.LpStaking.Rewards.Emission.{AllOrdered, emissions, compute_reward-index}
use spectrum_core.LpStaking.Handlers.{store_reward_info, bond_to, unbond, withdraw, execute}
use spectrum_core.LpStaking.Handlers.Invariant.{
  IsValid, bond_of, compute_staker_reward-ok, bond_to-ok, unbond-ok, withdraw-ok, receive_cw20-ok,
  update_config-same, ownership-same, SameStakers,
}

-- A bond's part of an index, in whole tokens.
abbrev pub earned : ℕ → ℕ → ℕ
earned bond index = bond * index / decimal_one

-- What a staker could withdraw at an index.
abbrev pub owed : ℕ → RewardInfo → ℕ
owed index r = r.pending_reward + (earned r.bond_amount index - earned r.bond_amount r.reward_index)

abbrev pub liability : ℕ → Map Addr RewardInfo → ℕ
liability index = sum_by (owed index)

-- Up to the index to which a staker has been paid, only what is pending is owed.
owed-paid : (index : ℕ) (r : RewardInfo) → r.reward_index ≡ index → owed index r ≡ r.pending_reward
owed-paid index r e = rw e (omega arith)

owed-nothing :
    (index : ℕ) (r : RewardInfo) → r.pending_reward ≡ 0 → r.bond_amount ≡ 0 → owed index r ≡ 0
owed-nothing index r p q = rw (p, q, zero-mul) (omega arith)

-- To settle moves what is owed to what is pending.
settled-pending :
    (state : State) (r : RewardInfo) {r' : RewardInfo}
    → compute_staker_reward state r ≡ ok r'
    → (owed state.global_reward_index r ≡ r'.pending_reward)
      × (r'.reward_index ≡ state.global_reward_index)
settled-pending state r h = let c = compute_staker_reward-ok state r h in (sym c.2, c.1)

read_reward_info-owed :
    (s : Store) (a : Addr) (index : ℕ)
    → owed index (read_reward_info s a) ≡ part_of (owed index) (lookup a s.reward_infos)
unfolding read_reward_info
read_reward_info-owed s a index = elim (Option-cases (lookup a s.reward_infos)) [
  | inl e ↦ rw (e, zero-mul)
  | inr (r, e) ↦ rw e
]

-- To replace a staker's entry changes what is owed by what is owed to that staker.
insert-liability :
    (s : Store) (a : Addr) (r' : RewardInfo) (index : ℕ)
    → IsValid s
    → liability index (insert a r' s.reward_infos) + owed index (read_reward_info s a)
      ≡ liability index s.reward_infos + owed index r'
insert-liability s a r' index v =
    rw (read_reward_info-owed s a index) (sum_by-insert (owed index) a r' s.reward_infos v.sorted)

store-liability :
    (s : Store) (a : Addr) (r' : RewardInfo) (index : ℕ)
    → IsValid s
    → liability index (store_reward_info a r' s.reward_infos) + owed index (read_reward_info s a)
      ≡ liability index s.reward_infos + owed index r'
store-liability s a r' index v = elim (Bool-cases (r'.pending_reward == 0 && r'.bond_amount == 0)) [
  | inl e ↦ rw e (
      omega (
        arith,
        read_reward_info-owed s a index,
        sum_by-erase (owed index) a s.reward_infos,
        owed-nothing index r' (ground arith) (ground arith),
      ))
  | inr e ↦ rw e (insert-liability s a r' index v)
]

-- What a handler's messages pay out in rewards.
pub bond_to-liability :
    (api : Api) (s : Store) (env : Env) (sender amount : ℕ) {out : Store × List Transfer}
    → IsValid s
    → bond_to api s env sender amount ≡ ok out
    → liability out.0.state.global_reward_index out.0.reward_infos
      ≡ liability out.0.state.global_reward_index s.reward_infos
bond_to-liability api s env sender amount v h =
    let (a, state, r, _, computed, settled, left) = bond_to-ok api s env sender amount h in
    rw left (
      omega (
        arith,
        insert-liability s a (record r { bond_amount = r.bond_amount + amount })
            state.global_reward_index v,
        settled-pending state (read_reward_info s a) settled,
        owed-paid state.global_reward_index (record r { bond_amount = r.bond_amount + amount })
            (settled-pending state (read_reward_info s a) settled).1,
      ))

pub unbond-liability :
    (s : Store) (env : Env) (info : MessageInfo) (amount : ℕ) {out : Store × List Transfer}
    → IsValid s
    → unbond s env info amount ≡ ok out
    → liability out.0.state.global_reward_index out.0.reward_infos
      ≡ liability out.0.state.global_reward_index s.reward_infos
unbond-liability s env info amount v h =
    let (state, r, computed, settled, _, _, left) = unbond-ok s env info amount h in
    rw left (
      omega (
        arith,
        store-liability s info.sender (record r { bond_amount = r.bond_amount - amount })
            state.global_reward_index v,
        settled-pending state (read_reward_info s info.sender) settled,
        owed-paid state.global_reward_index (record r { bond_amount = r.bond_amount - amount })
            (settled-pending state (read_reward_info s info.sender) settled).1,
      ))

-- A withdrawal lowers what is owed by exactly the amount that it sends.
pub withdraw-liability :
    (s : Store) (env : Env) (info : MessageInfo) (spec_amount : Option ℕ)
    {out : Store × List Transfer}
    → IsValid s
    → withdraw s env info spec_amount ≡ ok out
    → (amount : ℕ) × (out.1
        ≡ record { token = s.config.reward_token; recipient = info.sender; amount = amount } ∷ [])
      × (liability out.0.state.global_reward_index out.0.reward_infos + amount
          ≡ liability out.0.state.global_reward_index s.reward_infos)
withdraw-liability s env info spec_amount v h =
    let (state, r, computed, settled, enough, left) = withdraw-ok s env info spec_amount h in
    let amount = get_or spec_amount r.pending_reward in
    let r' : RewardInfo = record r { pending_reward = r.pending_reward - amount } in
    (
      amount,
      rw left,
      rw left (
          omega (
            arith,
            store-liability s info.sender r' state.global_reward_index v,
            settled-pending state (read_reward_info s info.sender) settled,
            owed-paid state.global_reward_index r'
                (settled-pending state (read_reward_info s info.sender) settled).1,
          )),
    )

-- A bond's part of a sum of indexes is at most the sum of its parts, and one.
earned_add-le :
    (bond index growth : ℕ)
    → earned bond (index + growth) ≤ earned bond index + earned bond growth + 1
earned_add-le bond index growth = rw mul-add (omega arith)

-- When the index grows, what is owed grows by the stakers' parts of the growth, rounded up.
liability_growth :
    (m : Map Addr RewardInfo) (index growth : ℕ)
    → liability (index + growth) m
      ≤ liability index m + sum_by (λ r. earned r.bond_amount growth) m + length m
liability_growth [] index growth = omega arith
liability_growth ((a, r) ∷ m) index growth =
    omega (arith, earned_add-le r.bond_amount index growth, liability_growth m index growth)

-- The stakers' parts of the growth come to no more than the whole bond's part.
earned_sum-le :
    (m : Map Addr RewardInfo) (growth : ℕ)
    → sum_by (λ r. earned r.bond_amount growth) m ≤ earned (sum_by bond_of m) growth
earned_sum-le [] growth = omega arith
earned_sum-le ((a, r) ∷ m) growth = rw add-mul (
    omega (
      arith,
      earned_sum-le m growth,
      div_add-le (r.bond_amount * growth) (sum_by bond_of m * growth) decimal_one,
    ))

-- What `compute_reward` adds to the index, times the total bond, is no more than the emission.
pub compute_reward-growth :
    {E : Type 0} (config : Config) (state : State) (now : ℕ) {state' : State}
    → AllOrdered config.distribution_schedule
    → state.last_distributed ≤ now
    → compute_reward {E = E} config state now ≡ ok state'
    → (growth : ℕ) × (state'.global_reward_index ≡ state.global_reward_index + growth)
      × (state.total_bond_amount * growth
          ≤ emissions config.distribution_schedule state.last_distributed now * decimal_one)
compute_reward-growth {E} config state now o h c =
    let n = emissions config.distribution_schedule state.last_distributed now * decimal_one in
    (
      n / state.total_bond_amount,
      compute_reward-index {E = E} config state now o h c,
      mul-div-le n state.total_bond_amount,
    )

-- Distribution raises what is owed by no more than the emission, and one unit for each staker.
pub compute_reward-liability :
    {E : Type 0} (s : Store) (now : ℕ) {state' : State}
    → IsValid s
    → AllOrdered s.config.distribution_schedule
    → s.state.last_distributed ≤ now
    → compute_reward {E = E} s.config s.state now ≡ ok state'
    → liability state'.global_reward_index s.reward_infos
      ≤ liability s.state.global_reward_index s.reward_infos
        + emissions s.config.distribution_schedule s.state.last_distributed now
        + length s.reward_infos
compute_reward-liability s now v o h c =
    let (growth, grown, bounded) = compute_reward-growth s.config s.state now o h c in
    rw grown (
      omega (
        arith,
        liability_growth s.reward_infos s.state.global_reward_index growth,
        earned_sum-le s.reward_infos growth,
        ap (λ (t : ℕ). t * growth) v.total,
        bounded,
      ))

-- The same, at the index of a storage that keeps the new state's.
index-liability :
    {E : Type 0} (s : Store) (now : ℕ) {state' : State} {index : ℕ}
    → IsValid s
    → AllOrdered s.config.distribution_schedule
    → s.state.last_distributed ≤ now
    → compute_reward {E = E} s.config s.state now ≡ ok state'
    → index ≡ state'.global_reward_index
    → liability index s.reward_infos
      ≤ liability s.state.global_reward_index s.reward_infos
        + emissions s.config.distribution_schedule s.state.last_distributed now
        + length s.reward_infos
index-liability {E} s now v o t c e = rw e (compute_reward-liability {E = E} s now v o t c)

-- A handler that leaves the stakers alone.
same-liability :
    (s s' : Store) (extra : ℕ)
    → SameStakers s s'
    → liability s'.state.global_reward_index s'.reward_infos + 0
      ≤ liability s.state.global_reward_index s.reward_infos + extra + length s.reward_infos
same-liability s s' extra (e, f) = rw (e, f) (omega arith)

-- The rewards that a message pays: what a withdrawal sends.
abbrev pub amounts : List Transfer → ℕ
amounts [] = 0
amounts (t ∷ ts) = t.amount + amounts ts

abbrev pub rewards_paid : ExecuteMsg → List Transfer → ℕ
rewards_paid (ExecuteMsg.withdraw amount) sent = amounts sent
rewards_paid _ sent = 0

-- The handlers that settle first advance the index by `compute_reward`, and then keep what is owed.
pub execute-liability :
    (api : Api) (s : Store) (env : Env) (info : MessageInfo) (msg : ExecuteMsg)
    {out : Store × List Transfer}
    → IsValid s
    → AllOrdered s.config.distribution_schedule
    → s.state.last_distributed ≤ env.time
    → execute api s env info msg ≡ ok out
    → liability out.0.state.global_reward_index out.0.reward_infos + rewards_paid msg out.1
      ≤ liability s.state.global_reward_index s.reward_infos
        + emissions s.config.distribution_schedule s.state.last_distributed env.time
        + length s.reward_infos
unfolding execute
execute-liability api s env info (ExecuteMsg.receive msg) v o t h =
    let (staker, sender, _, _, _, bonded) = receive_cw20-ok api s env info msg h in
    let (a, state, r, _, computed, _, left) =
      bond_to-ok api s env (get_or staker sender) msg.amount bonded in
    omega (
      arith,
      bond_to-liability api s env (get_or staker sender) msg.amount v bonded,
      index-liability s env.time v o t computed
          (ap (λ (x : Store × List Transfer). x.0.state.global_reward_index) left),
    )
execute-liability api s env info (ExecuteMsg.unbond amount) v o t h =
    let (state, r, computed, _, _, _, left) = unbond-ok s env info amount h in
    omega (
      arith,
      unbond-liability s env info amount v h,
      index-liability s env.time v o t computed
          (ap (λ (x : Store × List Transfer). x.0.state.global_reward_index) left),
    )
execute-liability api s env info (ExecuteMsg.withdraw amount) {out} v o t h =
    let (state, r, computed, _, _, left) = withdraw-ok s env info amount h in
    let (paid, sent, kept) = withdraw-liability s env info amount v h in
    let e : amounts out.1 ≡ paid = rw sent (omega arith) in
    omega (
      arith,
      e,
      kept,
      index-liability s env.time v o t computed
          (ap (λ (x : Store × List Transfer). x.0.state.global_reward_index) left),
    )
execute-liability api s env info (ExecuteMsg.update_config l) {out} v o t h =
    same-liability s out.0 _ (update_config-same s info l h)
execute-liability api s env info (ExecuteMsg.propose_new_owner owner expires_in) {out} v o t h =
    same-liability s out.0 _ ((ownership-same api s env info owner expires_in).0 out h)
execute-liability api s env info ExecuteMsg.drop_ownership_proposal {out} v o t h =
    same-liability s out.0 _ ((ownership-same api s env info 0 0).1 out h)
execute-liability api s env info ExecuteMsg.claim_ownership {out} v o t h =
    same-liability s out.0 _ ((ownership-same api s env info 0 0).2 out h)
