-- ===== src/LpStaking/Refusals.antt =====
-- When the handlers of contracts/lp_staking refuse with `UnbondExceedBalance`.
use spectrum_core.Base.{
  ℕ, ◌<◌, ◌↔◌, bind-err, if-err, Option-cases, not, ◌==◌, get_or, ◌>>◌, sym, leb, ◌&&◌, or_panic,
  length, subst, ◌≡◌, ◌≢◌, inl, inr, refl, Option, none, some, List, [], ◌∷◌, arith, Result, ok,
  err, ◌>>=◌, map_err, err_if, ltb,
}
use spectrum_core.Cosmwasm.Math.{math}
use spectrum_core.Cosmwasm.Std.{Env, MessageInfo, StdError, Api}
use spectrum_core.Cosmwasm.Map.{Map, insert, lookup}
use spectrum_core.Cosmwasm.Uint.{add, add_word, sub_word}
use spectrum_core.LpStaking.{
  Config, State, Store, ContractError, std, unauthorized, invalid_message, bond,
  unbond_exceed_balance, invalid_distribution_schedule, distribution_schedule_started,
  read_reward_info, ExecuteMsg, Schedule, Cw20ReceiveMsg,
}
use spectrum_core.LpStaking.Rewards.{compute_reward, distribute, distribution, is_outside}
use spectrum_core.LpStaking.NewSchedules.{
  assert_new_schedules, count_schedules, count_in, check_existing, check_new, schedule_key,
}
use spectrum_core.LpStaking.Handlers.{
  unbond, withdraw, receive_cw20, bond_to, update_config, execute, lift_ownership,
}

distribution-err :
    {E : Type 0} (a : Schedule) (last now : ℕ) {e : E} → distribution {E = E} a last now ≢ err e
unfolding distribution
distribution-err a last now h = ground arith

distribute-err :
    {E : Type 0} (l : List Schedule) (last now x : ℕ) {e : E}
    → distribute {E = E} l last now x ≢ err e
unfolding distribute
distribute-err [] last now x h = ground arith
distribute-err {E} (a ∷ rest) last now x h =
    elim (if-err (is_outside a last now) (distribute {E = E} rest last now x) _ h) [
      | inl bad ↦ distribute-err rest last now x bad
      | inr more ↦ elim (bind-err (distribution {E = E} a last now) _ more) [
        | inl bad ↦ distribution-err a last now bad
        | inr (amount, _, left) ↦ elim (bind-err (add {E = E} x amount) _ left) [
          | inl bad ↦ ground arith
          | inr (y, _, later) ↦ distribute-err rest last now y later
        ]
      ]
    ]

compute_reward-err :
    {E : Type 0} (config : Config) (state : State) (now : ℕ) {e : E}
    → compute_reward {E = E} config state now ≢ err e
unfolding compute_reward
compute_reward-err {E} config state now h =
    let last = state.last_distributed in
    elim (if-err (state.total_bond_amount == 0) (ok (record state { last_distributed = now })) _
      h) [
        | inl bad ↦ cc
        | inr more ↦
            elim (bind-err (distribute {E = E} config.distribution_schedule last now 0) _ more) [
              | inl bad ↦ distribute-err config.distribution_schedule last now 0 bad
              | inr (amount, _, left) ↦ ground arith
            ]
      ]

std-err : {A : Type 0} (r : Result StdError A) → map_err std r ≢ err unbond_exceed_balance
std-err r h = ground arith

count_schedules-err :
    (l : List Schedule) (counts : Map Schedule ℕ) {e : ContractError}
    → count_schedules l counts ≢ err e
unfolding count_schedules
count_schedules-err [] counts h = ground arith
count_schedules-err (a ∷ l) counts h =
    elim (bind-err (add_word {E = ContractError} 32 (count_in a counts) 1) _ h) [
      | inl bad ↦ ground arith
      | inr (counter, _, later) ↦ count_schedules-err l (insert a counter counts) later
    ]

check_existing-err :
    (last : ℕ) (old new : Map Schedule ℕ) → check_existing last old new ≢ err unbond_exceed_balance
unfolding check_existing
check_existing-err last [] new h = ground arith
check_existing-err last ((a, count) ∷ rest) new h =
    elim (if-err (leb a.start last) _ (check_existing last rest new) h) [
      | inl more ↦
          elim (bind-err (err_if (ltb (count_in a new) count) distribution_schedule_started) _
            more) [
              | inl bad ↦ ground arith
              | inr (_, _, more') ↦
                  elim (bind-err (or_panic {E = ContractError} (lookup a new)) _ more') [
                    | inl bad ↦ ground arith
                    | inr (n, _, more'') ↦
                        elim (bind-err (sub_word {E = ContractError} n count) _ more'') [
                          | inl bad ↦ ground arith
                          | inr (left, _, later) ↦
                              check_existing-err last rest (insert a left new) later
                        ]
                  ]
            ]
      | inr later ↦ check_existing-err last rest new later
    ]

check_new-err : (last : ℕ) (new : Map Schedule ℕ) → check_new last new ≢ err unbond_exceed_balance
unfolding check_new
check_new-err last [] h = ground arith
check_new-err last ((a, count) ∷ rest) h =
    elim (if-err (ltb 0 count && leb a.start last) _ (check_new last rest) h) [
      | inl bad ↦ ground arith
      | inr later ↦ check_new-err last rest later
    ]

assert_new_schedules-err :
    (config : Config) (state : State) (schedules : List Schedule)
    → assert_new_schedules config state schedules ≢ err unbond_exceed_balance
unfolding assert_new_schedules
assert_new_schedules-err config state schedules h =
    elim (bind-err
      (err_if (ltb (length schedules) (length config.distribution_schedule))
        invalid_distribution_schedule)
      _ h) [
        | inl bad ↦ ground arith
        | inr (_, _, h1) ↦ elim (bind-err (count_schedules config.distribution_schedule []) _ h1) [
          | inl bad ↦ count_schedules-err config.distribution_schedule [] bad
          | inr (old, _, h2) ↦ elim (bind-err (count_schedules schedules []) _ h2) [
            | inl bad ↦ count_schedules-err schedules [] bad
            | inr (new, _, h3) ↦
                elim (bind-err (check_existing state.last_distributed old new) _ h3) [
                  | inl bad ↦ check_existing-err state.last_distributed old new bad
                  | inr (left, _, h4) ↦ check_new-err state.last_distributed left h4
                ]
          ]
        ]
      ]

lift_ownership-err : (r : Result StdError Store) → lift_ownership r ≢ err unbond_exceed_balance
lift_ownership-err r h = ground arith

update_config-err :
    (s : Store) (info : MessageInfo) (l : Option (List Schedule))
    → update_config s info l ≢ err unbond_exceed_balance
unfolding update_config
update_config-err s info none h = ground arith
update_config-err s info (some l) h = ground (arith, assert_new_schedules-err s.config s.state l)

no_error :
    (s : Store) (env : Env)
    → compute_reward {E = ContractError} s.config s.state env.time ≢ err unbond_exceed_balance
no_error s env = compute_reward-err s.config s.state env.time

withdraw-err :
    (s : Store) (env : Env) (info : MessageInfo) (amount : Option ℕ)
    → withdraw s env info amount ≢ err unbond_exceed_balance
unfolding withdraw
withdraw-err s env info amount h = ground (arith, no_error s env)

bond_to-err :
    (api : Api) (s : Store) (env : Env) (a amount : ℕ)
    → bond_to api s env a amount ≢ err unbond_exceed_balance
unfolding bond_to
bond_to-err api s env a amount h = ground (arith, no_error s env)

receive_cw20-err :
    (api : Api) (s : Store) (env : Env) (info : MessageInfo) (msg : Cw20ReceiveMsg)
    → receive_cw20 api s env info msg ≢ err unbond_exceed_balance
unfolding receive_cw20
receive_cw20-err api s env info msg h = elim (Option-cases msg.msg) [
  | inl e ↦ ground arith
  | inr (bond staker, e) ↦
      elim (bind-err (err_if (not (s.config.staking_token == info.sender)) unauthorized) _ (
        subst
          (λ m.
            (elim m [
              | none ↦ err invalid_message
              | some (bond staker_addr) ↦ do
                err_if (not (s.config.staking_token == info.sender)) unauthorized
                cw20_sender ← map_err std (api msg.sender)
                bond_to api s env (get_or staker_addr cw20_sender) msg.amount
            ])
            ≡ err unbond_exceed_balance)
          e h)) [
            | inl bad ↦ ground arith
            | inr (_, _, more) ↦ elim (bind-err (map_err std (api msg.sender)) _ more) [
              | inl bad ↦ std-err (api msg.sender) bad
              | inr (a, _, later) ↦ bond_to-err api s env (get_or staker a) msg.amount later
            ]
          ]
]

unbond-err :
    (s : Store) (env : Env) (info : MessageInfo) (amount : ℕ)
    → unbond s env info amount ≡ err unbond_exceed_balance
    → (read_reward_info s info.sender).bond_amount < amount
unfolding unbond
unbond-err s env info amount h = ground (arith, no_error s env)

execute-refused :
    (api : Api) (s : Store) (env : Env) (info : MessageInfo) (msg : ExecuteMsg)
    → execute api s env info msg ≡ err unbond_exceed_balance
    → (amount : ℕ) × (msg ≡ ExecuteMsg.unbond amount)
      × ((read_reward_info s info.sender).bond_amount < amount)
unfolding execute
execute-refused api s env info (ExecuteMsg.receive m) h =
    absurd (receive_cw20-err api s env info m h)
execute-refused api s env info (ExecuteMsg.unbond amount) h =
    (amount, refl, unbond-err s env info amount h)
execute-refused api s env info (ExecuteMsg.withdraw amount) h =
    absurd (withdraw-err s env info amount h)
execute-refused api s env info (ExecuteMsg.update_config l) h =
    absurd (update_config-err s info l h)
execute-refused api s env info (ExecuteMsg.propose_new_owner owner expires_in) h =
    absurd (lift_ownership-err _ h)
execute-refused api s env info ExecuteMsg.drop_ownership_proposal h =
    absurd (lift_ownership-err _ h)
execute-refused api s env info ExecuteMsg.claim_ownership h = absurd (lift_ownership-err _ h)

execute-refuses :
    (api : Api) (s : Store) (env : Env) (info : MessageInfo) (amount : ℕ)
    → (read_reward_info s info.sender).bond_amount < amount
    → execute api s env info (ExecuteMsg.unbond amount) ≡ err unbond_exceed_balance
unfolding execute unbond
execute-refuses api s env info amount over = ground arith

pub execute-exceeds_iff :
    (api : Api) (s : Store) (env : Env) (info : MessageInfo) (msg : ExecuteMsg)
    → (execute api s env info msg ≡ err unbond_exceed_balance) ↔ (
        (amount : ℕ) × (msg ≡ ExecuteMsg.unbond amount)
        × ((read_reward_info s info.sender).bond_amount < amount))
execute-exceeds_iff api s env info msg = (
  execute-refused api s env info msg,
  λ (amount, e, over).
      subst (λ m. execute api s env info m ≡ err unbond_exceed_balance) (sym e)
        (execute-refuses api s env info amount over),
)
