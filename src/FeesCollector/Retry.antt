-- ===== src/FeesCollector/Retry.antt =====
-- What `validate_bridge` of contracts/fees_collector does where the pair with the stablecoin is missing.
use spectrum_core.Base.{
  ℕ, ◌≡◌, Option, some, ◌∷◌, arith, Result, ok, err, panic, ◌⊎◌, inl, inr, refl, none, true, false,
  Bool, ◌>>◌, ◌>>=◌, err_if, ok_or, map_err,
}
use spectrum_core.Cosmwasm.Std.{Addr, StdError}
use spectrum_core.Cosmwasm.Map.{Map, ℕ_key, lookup}
use spectrum_core.Farm.{AssetInfo}
use spectrum_core.FeesCollector.{ContractError, std}

pub map_err-ok : (r : Result StdError Addr) {a : Addr} → map_err std r ≡ ok a → r ≡ ok a
map_err-ok r h = ground arith

pub lookup-first :
    (k j : ℕ) (x y : AssetInfo) (m : Map ℕ AssetInfo)
    → lookup k ((j, x) ∷ m) ≡ some y
    → ((k ≡ j) × (x ≡ y)) ⊎ (lookup k m ≡ some y)
lookup-first k j x y m h = ground arith

-- What is left where the second pair is missing: the bridge of the token, and what follows of it
abbrev pub retry :
    Bool
    → Option AssetInfo
    → ContractError
    → ContractError
    → (AssetInfo → Result ContractError (Unit {0}))
    → Result StdError Addr
    → Result ContractError (Unit {0})
retry deep found e e' k (ok _) = ok tt
retry deep found e e' k (err _) = do err_if deep e; to ← ok_or found e'; k to
retry deep found e e' k panic = panic

pub retry-ok :
    (r : Result StdError Addr) (deep : Bool) (found : Option AssetInfo) (e e' : ContractError)
    (k : AssetInfo → Result ContractError (Unit {0}))
    → retry deep found e e' k r ≡ ok tt
    → ((pair : Addr) × (r ≡ ok pair))
      ⊎ ((to : AssetInfo) × (deep ≡ false) × (found ≡ some to) × (k to ≡ ok tt))
retry-ok (ok a) deep found e e' k h = inl (a, refl)
retry-ok (err _) false (some to) e e' k h = inr (to, refl, refl, h)
retry-ok (err _) false none e e' k h = cc
retry-ok (err _) true found e e' k h = cc
retry-ok panic deep found e e' k h = cc
