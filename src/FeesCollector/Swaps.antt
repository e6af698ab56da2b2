-- ===== src/FeesCollector/Swaps.antt =====
-- contracts/fees_collector/src/utils.rs, and the swaps of contract.rs.
use spectrum_core.Base.{
  ℕ, zero, suc, ◌+◌, Option, none, some, List, [], ◌∷◌, ◌++◌, ltb, leb, ◌==◌, if◌then◌else◌, Result,
  ok, err, panic, ◌>>=◌, ◌>>◌, err_if, map_err, ok_or,
}
use spectrum_core.Cosmwasm.Std.{Addr}
use spectrum_core.Cosmwasm.Map.{ℕ_key, lookup}
use spectrum_core.Farm.{AssetInfo, native_token}
use spectrum_core.Farm.Adapters.{name_of, info_eq}
use spectrum_core.FeesCollector.{
  Config, ContractError, std, invalid_bridge_destination, max_bridge_depth, cannot_swap, Store,
  AssetWithLimit, Message, swap_in, execute_self, Chain, ExecuteMsg,
}

abbrev pub bridges_initial_depth : ℕ
bridges_initial_depth = 0

abbrev pub bridges_max_depth : ℕ
bridges_max_depth = 2

abbrev pub bridges_execution_max_depth : ℕ
bridges_execution_max_depth = 3

-- The fuel of `validate_bridge`: far more calls than its guard on the depth lets it make
abbrev pub validation_fuel : ℕ
validation_fuel = 16

-- `Decimal::MAX` and `Decimal::percent(MAX_SPREAD)`
abbrev pub decimal_max : ℕ
decimal_max = 340_282_366_920_938_463_463_374_607_431_768_211_455

abbrev pub max_spread : ℕ
max_spread = 500_000_000_000_000_000

abbrev pub build_swap_bridge_msg : Addr → List AssetInfo → ℕ → Message
build_swap_bridge_msg contract assets depth =
    execute_self contract (ExecuteMsg.swap_bridge_assets assets depth)

pub data SwapTarget : Type 0 where
  stable : Message → SwapTarget
  bridge : AssetInfo → Message → SwapTarget

-- `bridge_assets.insert(asset.to_string(), asset)`
abbrev pub insert_asset : AssetInfo → List AssetInfo → List AssetInfo
insert_asset asset [] = asset ∷ []
insert_asset asset (a ∷ rest) =
    if name_of asset == name_of a then asset ∷ rest else a ∷ insert_asset asset rest

-- `if let Some(limit) = a.limit { if limit < balance { balance = limit } }`
abbrev pub limited : Option ℕ → ℕ → ℕ
limited none balance = balance
limited (some limit) balance = if ltb limit balance then limit else balance

module _ (c : Chain) (uluna : ℕ) where
  unfoldable pub try_build_swap_msg :
      Config → AssetInfo → AssetInfo → ℕ → Result ContractError Message
  try_build_swap_msg config from to amount = do
    pair ← map_err std (c.query_pair_info config.factory_contract from to)
    ok (swap_in pair (record { info = from; amount = amount }) (some decimal_max) (some max_spread))

  -- `swap` where there is no bridge and no pair with the stablecoin
  unfoldable pub swap_to_uluna : Config → AssetInfo → ℕ → Result ContractError SwapTarget
  swap_to_uluna config from_token amount_in =
      if info_eq from_token (native_token uluna)
      then err (cannot_swap from_token)
      else elim (try_build_swap_msg config from_token (native_token uluna) amount_in) [
        | ok msg ↦ ok (bridge (native_token uluna) msg)
        | err e ↦ err (cannot_swap from_token)
        | panic ↦ panic
      ]

  unfoldable pub swap : Store → AssetInfo → ℕ → Result ContractError SwapTarget
  swap s from_token amount_in = elim (lookup (name_of from_token) s.bridges) [
    | some asset ↦ do
      msg ← try_build_swap_msg s.config from_token asset amount_in
      ok (bridge asset msg)
    | none ↦ elim (try_build_swap_msg s.config from_token s.config.stablecoin amount_in) [
      | ok msg ↦ ok (stable msg)
      | err e ↦ swap_to_uluna s.config from_token amount_in
      | panic ↦ panic
    ]
  ]

  -- The loop of `swap_assets`, with the bridge assets so far
  unfoldable pub swap_each :
      Store
      → Addr
      → List AssetWithLimit
      → List AssetInfo
      → Result ContractError (List Message × List AssetInfo)
  swap_each s contract [] bridges = ok ([], bridges)
  swap_each s contract (a ∷ rest) bridges = do
    balance ← map_err std (c.query_pool a.info contract)
    let amount = limited a.limit balance
    (sent, bridges') ←
        (if amount == 0 then ok ([], bridges) else (do
          target ← swap s a.info amount
          elim target [
            | stable msg ↦ ok (msg ∷ [], bridges)
            | bridge asset msg ↦ ok (msg ∷ [], insert_asset asset bridges)
          ]))
    (messages, bridges'') ← swap_each s contract rest bridges'
    ok (sent ++ messages, bridges'')

  unfoldable pub swap_assets :
      Store → Addr → List AssetWithLimit → Result ContractError (List Message × List AssetInfo)
  swap_assets s contract assets = do
    (messages, bridges) ← swap_each s contract assets []
    ok (messages, c.visit bridges)

  -- The body of `validate_bridge`, with what its call of itself does as an argument; the pair that
  -- it answers is not used.
  abbrev pub validate_step :
      (AssetInfo → AssetInfo → ℕ → Result ContractError (Unit {0}))
      → Store
      → AssetInfo
      → AssetInfo
      → ℕ
      → Result ContractError (Unit {0})
  validate_step validate s from_token bridge_token depth = do
    _ ← map_err std (c.query_pair_info s.config.factory_contract from_token bridge_token)
    elim (c.query_pair_info s.config.factory_contract bridge_token s.config.stablecoin) [
      | ok _ ↦ ok tt
      | err e ↦ do
        err_if (leb bridges_max_depth depth) (max_bridge_depth depth)
        next ←
            ok_or (lookup (name_of bridge_token) s.bridges) (invalid_bridge_destination from_token)
        validate bridge_token next (depth + 1)
      | panic ↦ panic
    ]

  -- `validate_bridge`, with fuel for its calls of itself: without fuel such a call panics.
  unfoldable pub validate_bridge :
      ℕ → Store → AssetInfo → AssetInfo → ℕ → Result ContractError (Unit {0})
  validate_bridge zero s from_token bridge_token depth =
      validate_step (λ from next deeper. panic) s from_token bridge_token depth
  validate_bridge (suc fuel) s from_token bridge_token depth =
      validate_step (validate_bridge fuel s) s from_token bridge_token depth
