-- ===== src/Cosmwasm/Map/Sums.antt =====
-- The sum of a number over the entries of a map, and a predicate of all entries, under each update.
use spectrum_core.Base.{
  ℕ, ◌+◌, ◌≤◌, ◌≡◌, refl, Option, none, some, [], ◌∷◌, arith, Bool-cases, inl, inr, subst,
}
use spectrum_core.Cosmwasm.Map.{Key, Map, lookup, insert, erase, IsSorted, lookup-below}

module _ {ℓ κ} {K : Type ℓ} {V : Type κ} where
  abbrev pub sum_by : (V → ℕ) → Map K V → ℕ
  sum_by f [] = 0
  sum_by f ((j, w) ∷ m) = f w + sum_by f m

  abbrev pub All {μ} : (V → Type μ) → Map K V → Type μ
  All P [] = Unit
  All P ((j, w) ∷ m) = P w × All P m

-- What `f` is of the entry at a key, 0 where there is none.
abbrev pub part_of {κ} : {V : Type κ} → (V → ℕ) → Option V → ℕ
part_of f none = 0
part_of f (some v) = f v

module _ {ℓ κ} {K : Type ℓ} {V : Type κ} ⦃o : Key K⦄ (f : V → ℕ) where
  pub sum_by-insert :
      (k : K) (v : V) (m : Map K V)
      → IsSorted m
      → sum_by f (insert k v m) + part_of f (lookup k m) ≡ sum_by f m + f v
  sum_by-insert k v [] s = omega arith
  sum_by-insert k v ((j, w) ∷ m) s =
      ground (arith, o.eq_iff k j, lookup-below k j m, sum_by-insert k v m s.1)

  pub sum_by-erase :
      (k : K) (m : Map K V) → sum_by f (erase k m) + part_of f (lookup k m) ≡ sum_by f m
  sum_by-erase k [] = refl
  sum_by-erase k ((j, w) ∷ m) = ground (arith, sum_by-erase k m)

  pub part_of-le : (k : K) (m : Map K V) → part_of f (lookup k m) ≤ sum_by f m
  part_of-le k [] = omega arith
  part_of-le k ((j, w) ∷ m) = ground (arith, part_of-le k m)

module _ {ℓ κ μ} {K : Type ℓ} {V : Type κ} ⦃o : Key K⦄ (P : V → Type μ) where
  pub All-insert : (k : K) (v : V) (m : Map K V) → P v → All P m → All P (insert k v m)
  All-insert k v [] h a = (h, tt)
  All-insert k v ((j, w) ∷ m) h a = ground (arith, All-insert k v m h a.1)

  pub All-erase : (k : K) (m : Map K V) → All P m → All P (erase k m)
  All-erase k [] a = tt
  All-erase k ((j, w) ∷ m) a = ground (arith, All-erase k m a.1)

  pub All-lookup : (k : K) (m : Map K V) {v : V} → All P m → lookup k m ≡ some v → P v
  All-lookup k [] a h = cc
  All-lookup k ((j, w) ∷ m) {v} a h = elim (Bool-cases (o.eq k j)) [
    | inl here ↦ let e : w ≡ v = ground arith in subst P e a.0
    | inr other ↦ All-lookup k m a.1 (ground arith)
  ]

pub All-map {ℓ κ μ ν} :
    {K : Type ℓ} {V : Type κ} (P : V → Type μ) (Q : V → Type ν) (m : Map K V)
    → ((v : V) → P v → Q v)
    → All P m
    → All Q m
All-map P Q [] h a = tt
All-map P Q ((j, w) ∷ m) h a = (h w a.0, All-map P Q m h a.1)
