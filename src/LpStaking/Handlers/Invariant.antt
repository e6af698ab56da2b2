-- ===== src/LpStaking/Handlers/Invariant.antt =====
-- The invariant of the storage of contracts/lp_staking: the total is the sum of the stakers' bonds,
-- and no staker has been paid past the global index.
use spectrum_core.Base.{
  ℕ, ◌+◌, ◌-◌, ◌*◌, ◌/◌, ◌≤◌, ◌≡◌, inl, inr, Option, some, List, [], ◌∷◌, arith, ◌==◌, ◌&&◌,
  Bool-cases, Option-cases, ok, get_or,
}
use spectrum_core.Ownership
use native.Mathlib.Nat.{le_trans}
use spectrum_core.Cosmwasm.Math.{math, decimal_one}
use spectrum_core.Cosmwasm.Std.{Addr, Api, Env, MessageInfo}
use spectrum_core.Cosmwasm.Map.{
  ℕ_key, IsSorted, lookup, insert, erase, insert-IsSorted, erase-IsSorted,
}
use spectrum_core.Cosmwasm.Map.Sums.{
  sum_by, All, All-map, All-insert, All-erase, All-lookup, sum_by-insert, sum_by-erase, part_of,
  part_of-le,
}
use spectrum_core.LpStaking.{
  Schedule, Config, State, RewardInfo, Store, ContractError, read_reward_info, Cw20ReceiveMsg,
  ExecuteMsg, Transfer, bond,
}
use spectrum_core.LpStaking.Rewards.{compute_reward, compute_staker_reward}
use spectrum_core.LpStaking.Handlers.{
  InstantiateMsg, instantiate, store_reward_info, bond_to, receive_cw20, unbond, withdraw,
  update_config, execute,
}

abbrev pub bond_of : RewardInfo → ℕ
bond_of r = r.bond_amount

abbrev pub PaidUpTo : ℕ → RewardInfo → Type 0
PaidUpTo index r = r.reward_index ≤ index

pub record IsValid (s : Store) : Type 0 where
  pub sorted : IsSorted s.reward_infos
  pub total : s.state.total_bond_amount ≡ sum_by bond_of s.reward_infos
  pub paid : All (PaidUpTo s.state.global_reward_index) s.reward_infos

pub compute_reward-ok :
    {E : Type 0} (config : Config) (state : State) (now : ℕ) {state' : State}
    → compute_reward {E = E} config state now ≡ ok state'
    → (state'.last_distributed ≡ now)
      × (state'.total_bond_amount ≡ state.total_bond_amount)
      × (state.global_reward_index ≤ state'.global_reward_index)
unfolding compute_reward
compute_reward-ok config state now h = ground arith

pub compute_staker_reward-ok :
    (state : State) (r : RewardInfo) {r' : RewardInfo}
    → compute_staker_reward state r ≡ ok r'
    → (r'.bond_amount ≡ r.bond_amount)
      × (r'.reward_index ≡ state.global_reward_index)
      × (r'.pending_reward
          ≡ r.pending_reward
            + (r.bond_amount * state.global_reward_index / decimal_one
                - r.bond_amount * r.reward_index / decimal_one))
unfolding compute_staker_reward
compute_staker_reward-ok state r h = ground arith

-- The part of a staker in the sum of the bonds is what `read_reward_info` reads.
read_reward_info-bond :
    (s : Store) (a : Addr)
    → (read_reward_info s a).bond_amount ≡ part_of bond_of (lookup a s.reward_infos)
unfolding read_reward_info
read_reward_info-bond s a = elim (Option-cases (lookup a s.reward_infos)) [
  | inl e ↦ rw e
  | inr (r, e) ↦ rw e
]

-- What the invariant says of one staker, also of one with no entry.
pub read_reward_info-IsValid :
    (s : Store) (a : Addr)
    → IsValid s
    → ((read_reward_info s a).reward_index ≤ s.state.global_reward_index)
      × ((read_reward_info s a).bond_amount ≤ s.state.total_bond_amount)
unfolding read_reward_info
read_reward_info-IsValid s a v =
    let le = part_of-le bond_of a s.reward_infos in
    elim (Option-cases (lookup a s.reward_infos)) [
      | inl e ↦ rw e (omega arith, omega arith)
      | inr (r, e) ↦
          let paid = All-lookup (PaidUpTo s.state.global_reward_index) a s.reward_infos v.paid e in
          let part : part_of bond_of (lookup a s.reward_infos) ≡ r.bond_amount = rw e in
          rw e (paid, omega (arith, v.total))
    ]

-- One staker's entry is replaced, and the total changes as the entry does.
store_IsValid :
    (s : Store) (a : Addr) (state' : State) (r' : RewardInfo)
    → IsValid s
    → s.state.global_reward_index ≤ state'.global_reward_index
    → state'.total_bond_amount + (read_reward_info s a).bond_amount
      ≡ s.state.total_bond_amount + r'.bond_amount
    → r'.reward_index ≤ state'.global_reward_index
    → IsValid (record s { reward_infos = insert a r' s.reward_infos; state = state' })
store_IsValid s a state' r' v g t p = record {
  sorted = insert-IsSorted a r' s.reward_infos v.sorted;
  total = omega (
    arith,
    v.total,
    sum_by-insert bond_of a r' s.reward_infos v.sorted,
    read_reward_info-bond s a,
  );
  paid = All-insert (PaidUpTo state'.global_reward_index) a r' s.reward_infos p (
      All-map (PaidUpTo s.state.global_reward_index) (PaidUpTo state'.global_reward_index)
        s.reward_infos (λ r h. le_trans h g) v.paid);
}

-- An entry without a bond is removed.
remove_IsValid :
    (s : Store) (a : Addr) (state' : State)
    → IsValid s
    → s.state.global_reward_index ≤ state'.global_reward_index
    → state'.total_bond_amount + (read_reward_info s a).bond_amount ≡ s.state.total_bond_amount
    → IsValid (record s { reward_infos = erase a s.reward_infos; state = state' })
remove_IsValid s a state' v g t = record {
  sorted = erase-IsSorted a s.reward_infos v.sorted;
  total = omega (arith, v.total, sum_by-erase bond_of a s.reward_infos, read_reward_info-bond s a);
  paid = All-erase (PaidUpTo state'.global_reward_index) a s.reward_infos (
      All-map (PaidUpTo s.state.global_reward_index) (PaidUpTo state'.global_reward_index)
        s.reward_infos (λ r h. le_trans h g) v.paid);
}

-- `store_reward_info` does the one or the other.
store_reward_info-IsValid :
    (s : Store) (a : Addr) (state' : State) (r' : RewardInfo)
    → IsValid s
    → s.state.global_reward_index ≤ state'.global_reward_index
    → state'.total_bond_amount + (read_reward_info s a).bond_amount
      ≡ s.state.total_bond_amount + r'.bond_amount
    → r'.reward_index ≤ state'.global_reward_index
    → IsValid (record s { reward_infos = store_reward_info a r' s.reward_infos; state = state' })
store_reward_info-IsValid s a state' r' v g t p =
    elim (Bool-cases (r'.pending_reward == 0 && r'.bond_amount == 0)) [
      | inl e ↦ rw e (remove_IsValid s a state' v g (ground arith))
      | inr e ↦ rw e (store_IsValid s a state' r' v g t p)
    ]

-- What a bond that succeeds has computed, and what it leaves.
pub bond_to-ok :
    (api : Api) (s : Store) (env : Env) (sender amount : ℕ) {out : Store × List Transfer}
    → bond_to api s env sender amount ≡ ok out
    → (a : Addr) × (state : State) × (r : RewardInfo) × (api sender ≡ ok a)
      × (compute_reward {E = ContractError} s.config s.state env.time ≡ ok state)
      × (compute_staker_reward state (read_reward_info s a) ≡ ok r)
      × (out ≡ (
        record s {
          reward_infos =
              insert a (record r { bond_amount = r.bond_amount + amount }) s.reward_infos;
          state = record state { total_bond_amount = state.total_bond_amount + amount };
        },
        [],
      ))
unfolding bond_to
bond_to-ok api s env sender amount h = ground arith

bond_to-IsValid :
    (api : Api) (s : Store) (env : Env) (sender amount : ℕ) {out : Store × List Transfer}
    → IsValid s
    → bond_to api s env sender amount ≡ ok out
    → IsValid out.0
bond_to-IsValid api s env sender amount v h =
    let (a, state, r, _, computed, settled, left) = bond_to-ok api s env sender amount h in
    let c = compute_reward-ok s.config s.state env.time computed in
    let d = compute_staker_reward-ok state (read_reward_info s a) settled in
    rw left (
      store_IsValid s a (record state { total_bond_amount = state.total_bond_amount + amount })
        (record r { bond_amount = r.bond_amount + amount }) v c.2 (omega arith) (omega arith))

-- What an unbond that succeeds has computed, what it leaves and what it sends.
pub unbond-ok :
    (s : Store) (env : Env) (info : MessageInfo) (amount : ℕ) {out : Store × List Transfer}
    → unbond s env info amount ≡ ok out
    → (state : State) × (r : RewardInfo) × (compute_reward {E = ContractError} s.config s.state
          env.time
        ≡ ok state)
      × (compute_staker_reward state (read_reward_info s info.sender) ≡ ok r)
      × (amount ≤ r.bond_amount)
      × (amount ≤ state.total_bond_amount)
      × (out ≡ (
        record s {
          reward_infos =
              store_reward_info info.sender
                (record r { bond_amount = r.bond_amount - amount })
                s.reward_infos;
          state = record state { total_bond_amount = state.total_bond_amount - amount };
        },
        record { token = s.config.staking_token; recipient = info.sender; amount = amount } ∷ [],
      ))
unfolding unbond
unbond-ok s env info amount h = ground arith

unbond-IsValid :
    (s : Store) (env : Env) (info : MessageInfo) (amount : ℕ) {out : Store × List Transfer}
    → IsValid s
    → unbond s env info amount ≡ ok out
    → IsValid out.0
unbond-IsValid s env info amount v h =
    let (state, r, computed, settled, enough, covered, left) = unbond-ok s env info amount h in
    let c = compute_reward-ok s.config s.state env.time computed in
    let d = compute_staker_reward-ok state (read_reward_info s info.sender) settled in
    rw left (
      store_reward_info-IsValid s info.sender
        (record state { total_bond_amount = state.total_bond_amount - amount })
        (record r { bond_amount = r.bond_amount - amount }) v c.2 (omega arith) (omega arith))

-- What a withdrawal that succeeds has computed, what it leaves and what it sends.
pub withdraw-ok :
    (s : Store) (env : Env) (info : MessageInfo) (spec_amount : Option ℕ)
    {out : Store × List Transfer}
    → withdraw s env info spec_amount ≡ ok out
    → (state : State) × (r : RewardInfo) × (compute_reward {E = ContractError} s.config s.state
          env.time
        ≡ ok state)
      × (compute_staker_reward state (read_reward_info s info.sender) ≡ ok r)
      × (get_or spec_amount r.pending_reward ≤ r.pending_reward)
      × (out ≡ (
        record s {
          reward_infos =
              store_reward_info info.sender
                (record r {
                  pending_reward = r.pending_reward - get_or spec_amount r.pending_reward;
                })
                s.reward_infos;
          state = state;
        },
        record {
          token = s.config.reward_token;
          recipient = info.sender;
          amount = get_or spec_amount r.pending_reward;
        }
            ∷ [],
      ))
unfolding withdraw
withdraw-ok s env info spec_amount h = ground arith

withdraw-IsValid :
    (s : Store) (env : Env) (info : MessageInfo) (spec_amount : Option ℕ)
    {out : Store × List Transfer}
    → IsValid s
    → withdraw s env info spec_amount ≡ ok out
    → IsValid out.0
withdraw-IsValid s env info spec_amount v h =
    let (state, r, computed, settled, enough, left) = withdraw-ok s env info spec_amount h in
    let c = compute_reward-ok s.config s.state env.time computed in
    let d = compute_staker_reward-ok state (read_reward_info s info.sender) settled in
    rw left (
      store_reward_info-IsValid s info.sender state
        (record r { pending_reward = r.pending_reward - get_or spec_amount r.pending_reward }) v c.2
        (omega arith) (omega arith))

-- A cw20 message that succeeds comes from the staking token, and bonds for the named staker or for
-- the sender of the tokens.
pub receive_cw20-ok :
    (api : Api) (s : Store) (env : Env) (info : MessageInfo) (msg : Cw20ReceiveMsg)
    {out : Store × List Transfer}
    → receive_cw20 api s env info msg ≡ ok out
    → (staker : Option ℕ) × (cw20_sender : Addr) × (msg.msg ≡ some (bond staker))
      × (info.sender ≡ s.config.staking_token)
      × (api msg.sender ≡ ok cw20_sender)
      × (bond_to api s env (get_or staker cw20_sender) msg.amount ≡ ok out)
unfolding receive_cw20
receive_cw20-ok api s env info msg h = ground arith

-- The storage of the stakers, which the other handlers leave alone.
abbrev pub SameStakers : Store → Store → Type 0
SameStakers s s' = (s'.state ≡ s.state) × (s'.reward_infos ≡ s.reward_infos)

same-IsValid : (s s' : Store) → SameStakers s s' → IsValid s → IsValid s'
same-IsValid s s' (e, f) v = record {
  sorted = rw f v.sorted;
  total = rw (e, f) v.total;
  paid = rw (e, f) v.paid;
}

pub update_config-same :
    (s : Store) (info : MessageInfo) (l : Option (List Schedule)) {out : Store × List Transfer}
    → update_config s info l ≡ ok out
    → SameStakers s out.0
unfolding update_config
update_config-same s info l h = ground arith

pub ownership-same :
    (api : Api) (s : Store) (env : Env) (info : MessageInfo) (owner expires_in : ℕ)
    → ((out : Store × List Transfer)
        → execute api s env info (ExecuteMsg.propose_new_owner owner expires_in) ≡ ok out
        → SameStakers s out.0)
      × ((out : Store × List Transfer)
          → execute api s env info ExecuteMsg.drop_ownership_proposal ≡ ok out
          → SameStakers s out.0)
      × ((out : Store × List Transfer)
          → execute api s env info ExecuteMsg.claim_ownership ≡ ok out
          → SameStakers s out.0)
unfolding execute Ownership.propose_new_owner Ownership.drop_ownership_proposal
    Ownership.claim_ownership
ownership-same api s env info owner expires_in =
    (λ out h. ground arith, λ out h. ground arith, λ out h. ground arith)

-- Every message that succeeds keeps the invariant, whoever sends it.
pub execute-IsValid :
    (api : Api) (s : Store) (env : Env) (info : MessageInfo) (msg : ExecuteMsg)
    {out : Store × List Transfer}
    → IsValid s
    → execute api s env info msg ≡ ok out
    → IsValid out.0
unfolding execute
execute-IsValid api s env info (ExecuteMsg.receive msg) v h =
    let (staker, sender, _, _, _, bonded) = receive_cw20-ok api s env info msg h in
    bond_to-IsValid api s env (get_or staker sender) msg.amount v bonded
execute-IsValid api s env info (ExecuteMsg.unbond amount) v h = unbond-IsValid s env info amount v h
execute-IsValid api s env info (ExecuteMsg.withdraw amount) v h =
    withdraw-IsValid s env info amount v h
execute-IsValid api s env info (ExecuteMsg.update_config l) {out} v h =
    same-IsValid s out.0 (update_config-same s info l h) v
execute-IsValid api s env info (ExecuteMsg.propose_new_owner owner expires_in) {out} v h =
    same-IsValid s out.0 ((ownership-same api s env info owner expires_in).0 out h) v
execute-IsValid api s env info ExecuteMsg.drop_ownership_proposal {out} v h =
    same-IsValid s out.0 ((ownership-same api s env info 0 0).1 out h) v
execute-IsValid api s env info ExecuteMsg.claim_ownership {out} v h =
    same-IsValid s out.0 ((ownership-same api s env info 0 0).2 out h) v

pub instantiate-IsValid :
    (api : Api) (env : Env) (msg : InstantiateMsg) {s : Store}
    → instantiate api env msg ≡ ok s
    → IsValid s
unfolding instantiate
instantiate-IsValid api env msg h = ground arith
