-- ===== src/FeesCollector/Contract.antt =====
-- contracts/fees_collector/src/contract.rs, but for the simulation of a collection.
use spectrum_core.Base.{
  ℕ, ◌&&◌, not, Bool, true, false, Option, none, some, List, [], ◌∷◌, ◌++◌, map, is_empty, ltb, leb,
  ◌==◌, if◌then◌else◌, get_or, Result, ok, err, ◌>>=◌, ◌>>◌, err_if, map_err, map_result,
}
use spectrum_core.Cosmwasm.Math.{Math}
use spectrum_core.Cosmwasm.Std.{Addr, Api, Env, MessageInfo, StdError, generic_err}
use spectrum_core.Cosmwasm.Uint.{add_word, multiply_ratio}
use spectrum_core.Cosmwasm.Map.{Map, ℕ_key, insert, erase}
use spectrum_core.Farm.{AssetInfo, token, native_token, Asset}
use spectrum_core.Farm.Adapters
use spectrum_core.Farm.Adapters.{name_of, info_eq}
use spectrum_core.FeesCollector.{
  Config, ContractError, std, unauthorized, invalid_bridge, max_bridge_depth, duplicated_asset,
  assertion_minimum_receive, Store, AssetWithLimit, InstantiateMsg, ExecuteMsg, Message, adapter,
  execute_self, Chain, Owners,
}
use spectrum_core.FeesCollector.Swaps.{
  bridges_initial_depth, bridges_execution_max_depth, build_swap_bridge_msg, swap_assets,
  validate_bridge, validation_fuel,
}

abbrev Response : Type 0
Response = Store × List Message

-- `target_list.into_iter().map(|(addr, weight)| Ok((addr_validate(&addr)?, weight))).collect()`
unfoldable pub validate_targets : Api → List (ℕ × ℕ) → Result StdError (List (Addr × ℕ))
validate_targets api l = map_result (λ t. api t.0 >>= λ a. ok (a, t.1)) l

unfoldable pub instantiate : Api → Chain → InstantiateMsg → Result ContractError Store
instantiate api c msg = do
  map_err std (c.check msg.stablecoin)
  owner ← map_err std (api msg.owner)
  operator ← map_err std (api msg.operator)
  factory_contract ← map_err std (api msg.factory_contract)
  target_list ← map_err std (validate_targets api msg.target_list)
  let config : Config = record {
    owner = owner;
    operator = operator;
    factory_contract = factory_contract;
    target_list = target_list;
    stablecoin = msg.stablecoin;
  }
  ok (record { config = config; bridges = []; ownership_proposal = none })

-- Whether `uniq.insert(a.info.to_string())` is true for all
abbrev pub is_named : ℕ → List AssetWithLimit → Bool
is_named n [] = false
is_named n (a ∷ rest) = if name_of a.info == n then true else is_named n rest

abbrev pub all_distinct : List AssetWithLimit → Bool
all_distinct [] = true
all_distinct (a ∷ rest) = not (is_named (name_of a.info) rest) && all_distinct rest

abbrev pub without : AssetInfo → List AssetWithLimit → List AssetWithLimit
without stablecoin [] = []
without stablecoin (a ∷ rest) =
    if info_eq a.info stablecoin then without stablecoin rest else a ∷ without stablecoin rest

unfoldable pub update_config :
    Api
    → Store
    → MessageInfo
    → Option ℕ
    → Option ℕ
    → Option (List (ℕ × ℕ))
    → Result ContractError Response
update_config api s info operator factory_contract target_list = do
  err_if (not (info.sender == s.config.owner)) unauthorized
  operator' ← elim operator [ none ↦ ok s.config.operator | some a ↦ map_err std (api a) ]
  factory_contract' ← elim factory_contract [
    | none ↦ ok s.config.factory_contract
    | some a ↦ map_err std (api a)
  ]
  target_list' ← elim target_list [
    | none ↦ ok s.config.target_list
    | some l ↦ map_err std (validate_targets api l)
  ]
  let config : Config = record s.config {
    operator = operator';
    factory_contract = factory_contract';
    target_list = target_list';
  }
  ok (record s { config = config }, [])

-- The weights are summed as u64.
unfoldable pub sum_weights : List (Addr × ℕ) → Result ContractError ℕ
sum_weights [] = ok 0
sum_weights ((_, weight) ∷ rest) = sum_weights rest >>= λ sum. add_word 64 weight sum

module _ ⦃m : Math⦄ where
  -- The loop of `distribute`
  unfoldable pub send_each :
      AssetInfo → ℕ → ℕ → List (Addr × ℕ) → Result ContractError (List Message)
  send_each stablecoin total_amount total_weight [] = ok []
  send_each stablecoin total_amount total_weight ((to, weight) ∷ rest) = do
    amount ← multiply_ratio total_amount weight total_weight
    messages ← send_each stablecoin total_amount total_weight rest
    if amount == 0
        then ok messages
        else ok (
            adapter (Adapters.transfer_msg (record { info = stablecoin; amount = amount }) to)
            ∷ messages)

  unfoldable pub distribute : Chain → Store → Env → Option ℕ → Result ContractError (List Message)
  distribute c s env minimum_receive = do
    total_amount ← map_err std (c.query_pool s.config.stablecoin env.contract)
    elim minimum_receive [
      | none ↦ ok tt
      | some minimum ↦
          err_if (ltb total_amount minimum) (assertion_minimum_receive minimum total_amount)
    ]
    if total_amount == 0 then ok [] else (do
      total_weight ← sum_weights s.config.target_list
      send_each s.config.stablecoin total_amount total_weight s.config.target_list)

  unfoldable pub distribute_fees :
      Chain → Store → Env → MessageInfo → Option ℕ → Result ContractError Response
  distribute_fees c s env info minimum_receive = do
    err_if (not (info.sender == env.contract)) unauthorized
    messages ← distribute c s env minimum_receive
    ok (s, messages)

-- The bridges that are removed, and those that are added
unfoldable pub remove_bridges : List AssetInfo → Map ℕ AssetInfo → Map ℕ AssetInfo
remove_bridges [] bridges = bridges
remove_bridges (asset ∷ rest) bridges = remove_bridges rest (erase (name_of asset) bridges)

unfoldable pub add_bridges :
    List (AssetInfo × AssetInfo) → Map ℕ AssetInfo → Result ContractError (Map ℕ AssetInfo)
add_bridges [] bridges = ok bridges
add_bridges ((asset, bridge) ∷ rest) bridges =
    if info_eq asset bridge
    then err (invalid_bridge asset bridge)
    else add_bridges rest (insert (name_of asset) bridge bridges)

module _ (api : Api) (c : Chain) (uluna : ℕ) where
  -- A label that is an address is a token.
  unfoldable pub asset_of : ℕ → Result ContractError AssetInfo
  asset_of label = elim (api label) [
    | ok contract_addr ↦ ok (token contract_addr)
    | err e ↦ ok (native_token label)
    | Result.panic ↦ Result.panic
  ]

  unfoldable pub validate_bridges : Store → Map ℕ AssetInfo → Result ContractError (Unit {0})
  validate_bridges s [] = ok tt
  validate_bridges s ((label, bridge) ∷ rest) = do
    asset ← asset_of label
    validate_bridge c uluna validation_fuel s asset bridge bridges_initial_depth
    validate_bridges s rest

  unfoldable pub update_bridges :
      Store
      → MessageInfo
      → Option (List (AssetInfo × AssetInfo))
      → Option (List AssetInfo)
      → Result ContractError Response
  update_bridges s info add remove = do
    err_if (not (info.sender == s.config.operator)) unauthorized
    bridges ← add_bridges (get_or add []) (remove_bridges (get_or remove []) s.bridges)
    let s' : Store = record s { bridges = bridges }
    validate_bridges s' bridges
    ok (s', [])

  unfoldable pub collect :
      Store → Env → MessageInfo → List AssetWithLimit → Option ℕ → Result ContractError Response
  collect s env info assets minimum_receive = do
    err_if (not (info.sender == s.config.operator)) unauthorized
    err_if (not (all_distinct assets)) duplicated_asset
    (messages, bridge_assets) ←
        swap_assets c uluna s env.contract (without s.config.stablecoin assets)
    ok (
      s,
      messages
          ++ (if not (is_empty messages) && not (is_empty bridge_assets)
              then build_swap_bridge_msg env.contract bridge_assets bridges_initial_depth ∷ []
              else [])
          ++ execute_self env.contract (ExecuteMsg.distribute_fees minimum_receive) ∷ [],
    )

  unfoldable pub swap_bridge_assets :
      Store → Env → MessageInfo → List AssetInfo → ℕ → Result ContractError Response
  swap_bridge_assets s env info assets depth = do
    err_if (not (info.sender == env.contract)) unauthorized
    if is_empty assets then ok (s, []) else (do
      err_if (leb bridges_execution_max_depth depth) (max_bridge_depth depth)
      (messages, bridge_assets) ←
          swap_assets c uluna s env.contract (map (λ a. record { info = a; limit = none }) assets)
      err_if (is_empty messages) (std (generic_err "Empty swap messages"))
      if is_empty bridge_assets then ok (s, messages) else (do
        depth' ← add_word 64 depth 1
        ok (s, messages ++ build_swap_bridge_msg env.contract bridge_assets depth' ∷ [])))

abbrev pub set_owner : Store → Addr → Result StdError Store
set_owner s new_owner = ok (record s { config = record s.config { owner = new_owner } })

abbrev pub lift_ownership : Result StdError Store → Result ContractError Response
lift_ownership r = map_err std r >>= λ s. ok (s, [])

module _ ⦃m : Math⦄ (api : Api) (c : Chain) (uluna : ℕ) (owners : Owners) where
  unfoldable pub execute : Store → Env → MessageInfo → ExecuteMsg → Result ContractError Response
  execute s env info (ExecuteMsg.collect assets minimum) =
      collect api c uluna s env info assets minimum
  execute s env info (ExecuteMsg.update_bridges add remove) =
      update_bridges api c uluna s info add remove
  execute s env info (ExecuteMsg.update_config operator factory targets) =
      update_config api s info operator factory targets
  execute s env info (ExecuteMsg.swap_bridge_assets assets depth) =
      swap_bridge_assets api c uluna s env info assets depth
  execute s env info (ExecuteMsg.distribute_fees minimum) = distribute_fees c s env info minimum
  execute s env info (ExecuteMsg.propose_new_owner owner expires_in) =
      lift_ownership (owners.propose_new_owner s env info owner expires_in s.config.owner)
  execute s env info ExecuteMsg.drop_ownership_proposal =
      lift_ownership (owners.drop_ownership_proposal s info s.config.owner)
  execute s env info ExecuteMsg.claim_ownership =
      lift_ownership (owners.claim_ownership s env info set_owner)

-- The loop of `query_get_balances`
unfoldable pub query_get_balances : Chain → Env → List AssetInfo → Result StdError (List Asset)
query_get_balances c env [] = ok []
query_get_balances c env (a ∷ rest) = do
  balance ← c.query_pool a env.contract
  balances ← query_get_balances c env rest
  ok (if balance == 0 then balances else record { info = a; amount = balance } ∷ balances)

unfoldable pub query_bridges : Store → List (ℕ × ℕ)
query_bridges s = map (λ b. (b.0, name_of b.1)) s.bridges
