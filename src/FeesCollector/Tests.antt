-- ===== src/FeesCollector/Tests.antt =====
-- contracts/fees_collector at concrete inputs: 100 is distributed by the weights 1, 1 and 1,
-- and 5 is swapped for 4 by way of three bridges.
use spectrum_core.Base.{
  ◌+◌, ◌≤◌, ◌<◌, ◌≡◌, refl, none, some, List, [], ◌∷◌, length, ok, arith, err, ℕ, Result,
  if◌then◌else◌, ◌==◌, ◌||◌, ◌&&◌,
}
use spectrum_core.Cosmwasm.Math.{math, math-IsMath}
use spectrum_core.Cosmwasm.Std.{Addr, Env, Api, StdError, generic_err}
use spectrum_core.Cosmwasm.Map.{ℕ_key}
use spectrum_core.Farm
use spectrum_core.Farm.{native_token, AssetInfo}
use spectrum_core.Farm.Adapters.{name_of}
use spectrum_core.FeesCollector.Routes.{validate_bridge_enough}
use spectrum_core.FeesCollector.Swaps.{validate_bridge}
use spectrum_core.FeesCollector.{max_bridge_depth, Store, Message, adapter, Chain}
use spectrum_core.FeesCollector.Contract.{
  sum_weights, send_each, distribute, distribute_fees, update_bridges, add_bridges, remove_bridges,
  validate_bridges, asset_of,
}
use spectrum_core.FeesCollector.Distribution.{distribute_fees_sends}

abbrev chain : Chain
chain = record {
  query_pool = λ i a. ok 100;
  query_pair_info = λ f a b. ok 50;
  check = λ i. ok tt;
  visit = λ l. l;
}

abbrev store : Store
store = record {
  config = record {
    owner = 1;
    operator = 2;
    factory_contract = 3;
    target_list = (11, 1) ∷ (12, 1) ∷ (13, 1) ∷ [];
    stablecoin = native_token 4;
  };
  bridges = [];
  ownership_proposal = none;
}

abbrev at : Env
at = record { height = 1; time = 1000; contract = 9 }

abbrev sent : List Message
sent =
    adapter (Farm.bank_send 11 4 33)
    ∷ adapter (Farm.bank_send 12 4 33)
    ∷ adapter (Farm.bank_send 13 4 33)
    ∷ []

distribute_run :
    distribute_fees chain store at (record { sender = 9; funds = [] }) (some 90) ≡ ok (store, sent)
unfolding distribute_fees distribute sum_weights send_each
distribute_run = refl

distribute_fees_sends_example :
    (◌≡◌ {A = Addr} 9 9)
    × (store ≡ store)
    × (90 ≤ 100)
    × (99 ≤ 100)
    × (0 < length store.config.target_list → 100 < 99 + length store.config.target_list)
distribute_fees_sends_example =
    distribute_fees_sends math-IsMath chain store at (record { sender = 9; funds = [] }) (some 90)
      100 distribute_run refl

-- 5 is swapped for 4 by way of three bridges, 6, 7 and 8, for which only there are pairs.
abbrev pair_of : ℕ → ℕ → Result StdError ℕ
pair_of a b = if (b == a + 1) || ((a == 8) && (b == 4)) then ok 50 else err (generic_err "No pair")

abbrev bridged : Chain
bridged = record chain { query_pair_info = λ f a b. pair_of (name_of a) (name_of b) }

abbrev updated : Store
updated = record store {
  bridges = (5, native_token 6) ∷ (6, native_token 7) ∷ (7, native_token 8) ∷ [];
}

abbrev no_address : Api
no_address label = err (generic_err "Invalid address")

abbrev three_bridges : List (AssetInfo × AssetInfo)
three_bridges =
    (native_token 5, native_token 6)
    ∷ (native_token 6, native_token 7)
    ∷ (native_token 7, native_token 8)
    ∷ []

-- A fourth bridge is refused.
refused_run :
    update_bridges no_address bridged 1 store
      (record { sender = 2; funds = [] })
      (some ((native_token 4, native_token 5) ∷ three_bridges))
      none
    ≡ err (max_bridge_depth 2)
unfolding update_bridges add_bridges remove_bridges validate_bridges asset_of validate_bridge
refused_run = refl

validate_bridge_enough_example :
    validate_bridge bridged 1 3 updated (native_token 6) (native_token 7) 0
    ≡ validate_bridge bridged 1 2 updated (native_token 6) (native_token 7) 0
validate_bridge_enough_example =
    validate_bridge_enough bridged 1 updated 2 (native_token 6) (native_token 7) 0 arith_le
  where
    arith_le : 2 ≤ 2 + 0
    arith_le = omega arith
