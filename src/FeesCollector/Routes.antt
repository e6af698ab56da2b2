-- ===== src/FeesCollector/Routes.antt =====
-- `validate_bridge` of contracts/fees_collector, and the bridges that `update_bridges` has accepted
use mathlib.Core.Path.{fun_ext, ap}
use spectrum_core.Base.{
  sym, ◌∙◌, ℕ, zero, suc, ◌+◌, ◌≤◌, ◌≡◌, Option, some, List, [], arith, bind-ok, Result, ok, panic,
  ◌⊎◌, inl, inr, refl, true, false, Bool, ◌>>=◌, ◌==◌, not, get_or, ok-value, leb, err_if, map_err,
}
use spectrum_core.Cosmwasm.Std.{Addr, Api, MessageInfo}
use spectrum_core.Cosmwasm.Map.{Map, ℕ_key, lookup}
use spectrum_core.Farm.{AssetInfo}
use spectrum_core.Farm.Adapters.{name_of}
use spectrum_core.FeesCollector.{
  Store, Message, Chain, ContractError, std, unauthorized, max_bridge_depth,
  invalid_bridge_destination,
}
use spectrum_core.FeesCollector.Retry.{map_err-ok, retry, retry-ok}
use spectrum_core.FeesCollector.Swaps.{validate_step, validate_bridge, bridges_max_depth}
use spectrum_core.FeesCollector.Contract.{
  validate_bridges, update_bridges, add_bridges, remove_bridges,
}

module _ (c : Chain) (s : Store) where
  -- The factory has a pair of two assets.
  abbrev pub HasPair : AssetInfo → AssetInfo → Type 0
  HasPair x y = (pair : Addr) × (c.query_pair_info s.config.factory_contract x y ≡ ok pair)

  -- A swap of an asset for a bridge token and on, along the bridges, to the stablecoin, with the
  -- number of swaps
  pub data Route : AssetInfo → AssetInfo → ℕ → Type 0 where
    last :
        (from via : AssetInfo)
        → HasPair from via
        → HasPair via s.config.stablecoin
        → Route from via 2
    next :
        (from via to : AssetInfo) (n : ℕ)
        → HasPair from via
        → lookup (name_of via) s.bridges ≡ some to
        → Route via to n
        → Route from via (suc n)

module _ (c : Chain) (uluna : ℕ) (s : Store) where
  validate_step-ok :
      (validate : AssetInfo → AssetInfo → ℕ → Result ContractError (Unit {0}))
      (from via : AssetInfo) (depth : ℕ)
      → validate_step c uluna validate s from via depth ≡ ok tt
      → HasPair c s from via
        × (HasPair c s via s.config.stablecoin
            ⊎ ((to : AssetInfo) × (leb bridges_max_depth depth ≡ false)
                × (lookup (name_of via) s.bridges ≡ some to)
                × (validate via to (depth + 1) ≡ ok tt)))
  validate_step-ok validate from via depth h =
      let query = c.query_pair_info s.config.factory_contract in
      let (pair, asked, left) = bind-ok (map_err std (query from via)) _ h in
      (
        (pair, map_err-ok (query from via) asked),
        retry-ok (query via s.config.stablecoin) (leb bridges_max_depth depth)
            (lookup (name_of via) s.bridges) (max_bridge_depth depth)
            (invalid_bridge_destination from) (λ to. validate via to (depth + 1)) left,
      )

  pub validate_bridge-Route :
      (fuel : ℕ) (from via : AssetInfo) (depth : ℕ)
      → depth ≤ bridges_max_depth
      → validate_bridge c uluna fuel s from via depth ≡ ok tt
      → (n : ℕ) × (n + depth ≤ bridges_max_depth + 2) × Route c s from via n
  unfolding validate_bridge
  validate_bridge-Route zero from via depth low h =
      let (p, more) = validate_step-ok (λ from' next deeper. panic) from via depth h in
      elim more [ inl q ↦ (2, omega arith, last from via p q) | inr (to, shallow, e, later) ↦ cc ]
  validate_bridge-Route (suc fuel) from via depth low h =
      let (p, more) = validate_step-ok (validate_bridge c uluna fuel s) from via depth h in
      elim more [
        | inl q ↦ (2, omega arith, last from via p q)
        | inr (to, shallow, e, later) ↦
            let deeper : depth + 1 ≤ bridges_max_depth = ground arith in
            let (n, le, route) = validate_bridge-Route fuel via to (depth + 1) deeper later in
            (suc n, omega (arith, le), next from via to n p e route)
      ]

module _ (api : Api) (c : Chain) (uluna : ℕ) (s : Store) where
  pub update_bridges-ok :
      (info : MessageInfo) (add : Option (List (AssetInfo × AssetInfo)))
      (remove : Option (List AssetInfo)) {out : Store × List Message}
      → update_bridges api c uluna s info add remove ≡ ok out
      → (info.sender ≡ s.config.operator)
        × (out ≡ (record s { bridges = out.0.bridges }, []))
        × (validate_bridges api c uluna out.0 out.0.bridges ≡ ok tt)
  unfolding update_bridges
  update_bridges-ok info add remove h =
      let (_, sender, more) =
        bind-ok (err_if (not (info.sender == s.config.operator)) unauthorized) _ h in
      let (bridges, _, left) =
        bind-ok (add_bridges (get_or add []) (remove_bridges (get_or remove []) s.bridges)) _
          more in
      let s' : Store = record s { bridges = bridges } in
      let (_, valid, done) = bind-ok (validate_bridges api c uluna s' bridges) _ left in
      let same = ok-value done in (ground arith, rw same refl, rw same valid)

module _ (c : Chain) (uluna : ℕ) (s : Store) where
  -- At the maximal depth nothing follows.
  validate_step_deepest :
      (validate : AssetInfo → AssetInfo → ℕ → Result ContractError (Unit {0}))
      (from via : AssetInfo) (depth : ℕ)
      → leb bridges_max_depth depth ≡ true
      → validate_step c uluna validate s from via depth ≡ (
          map_err std (c.query_pair_info s.config.factory_contract from via) >>= λ _.
          retry true
            (lookup (name_of via) s.bridges)
            (max_bridge_depth depth)
            (invalid_bridge_destination from)
            (λ to. panic)
            (c.query_pair_info s.config.factory_contract via s.config.stablecoin))
  validate_step_deepest validate from via depth e =
      let query = c.query_pair_info s.config.factory_contract in
      ap
        (λ (b : Bool). map_err std (query from via) >>= λ _.
          retry b (lookup (name_of via) s.bridges) (max_bridge_depth depth)
            (invalid_bridge_destination from) (λ to. validate via to (depth + 1))
            (query via s.config.stablecoin))
        e

  -- From the fuel on with which the maximal depth is reached, more fuel changes no answer of
  -- `validate_bridge`, error or not.
  pub validate_bridge_enough :
      (fuel : ℕ) (from via : AssetInfo) (depth : ℕ)
      → bridges_max_depth ≤ fuel + depth
      → validate_bridge c uluna (suc fuel) s from via depth
        ≡ validate_bridge c uluna fuel s from via depth
  unfolding validate_bridge
  validate_bridge_enough zero from via depth deep =
      let e : leb bridges_max_depth depth ≡ true = ground arith in
      validate_step_deepest (validate_bridge c uluna 0 s) from via depth e
      ∙ sym (validate_step_deepest (λ from' next deeper. panic) from via depth e)
  validate_bridge_enough (suc fuel) from via depth deep =
      let query = c.query_pair_info s.config.factory_contract in
      ap
        (λ (k : AssetInfo → Result ContractError (Unit {0})). map_err std (query from via) >>= λ _.
          retry (leb bridges_max_depth depth) (lookup (name_of via) s.bridges)
            (max_bridge_depth depth) (invalid_bridge_destination from) k
            (query via s.config.stablecoin))
        (fun_ext λ to. validate_bridge_enough fuel via to (depth + 1) (omega (arith, deep)))
