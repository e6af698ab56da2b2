-- ===== src/Cosmwasm/Map/Keyed.antt =====
-- The sum over the entries of a map of a number that depends on the key and on the value.
use spectrum_core.Base.{ℕ, ◌+◌, ◌*◌, ◌≤◌, ◌≡◌, Option, none, some, [], ◌∷◌, arith}
use spectrum_core.Cosmwasm.Map.{Key, Map, lookup, insert, IsSorted, lookup-below}

module _ {ℓ κ} {K : Type ℓ} {V : Type κ} where
  abbrev pub sum_at : (K → V → ℕ) → Map K V → ℕ
  sum_at f [] = 0
  sum_at f ((j, w) ∷ m) = f j w + sum_at f m

  -- What `f` is of the entry at a key, 0 where there is none.
  abbrev pub part_at : (K → V → ℕ) → K → Option V → ℕ
  part_at f k none = 0
  part_at f k (some v) = f k v

  pub sum_at-le :
      (f g h : K → V → ℕ) (m : Map K V)
      → ((k : K) (v : V) → f k v ≤ g k v + h k v)
      → sum_at f m ≤ sum_at g m + sum_at h m
  sum_at-le f g h [] le = omega arith
  sum_at-le f g h ((j, w) ∷ m) le = omega (arith, le j w, sum_at-le f g h m le)

  pub sum_at-scale :
      (f : K → V → ℕ) (d : ℕ) (m : Map K V) → sum_at (λ k v. d * f k v) m ≡ d * sum_at f m
  sum_at-scale f d [] = omega arith
  sum_at-scale f d ((j, w) ∷ m) = omega (arith, sum_at-scale f d m)

module _ {ℓ κ} {K : Type ℓ} {V : Type κ} ⦃o : Key K⦄ (f : K → V → ℕ) where
  pub sum_at-insert :
      (k : K) (v : V) (m : Map K V)
      → IsSorted m
      → sum_at f (insert k v m) + part_at f k (lookup k m) ≡ sum_at f m + f k v
  sum_at-insert k v [] s = omega arith
  sum_at-insert k v ((j, w) ∷ m) s =
      ground (arith, o.eq_iff k j, lookup-below k j m, sum_at-insert k v m s.1)

  pub part_at-le : (k : K) (m : Map K V) → part_at f k (lookup k m) ≤ sum_at f m
  part_at-le k [] = omega arith
  part_at-le k ((j, w) ∷ m) = ground (arith, o.eq_iff k j, part_at-le k m)
