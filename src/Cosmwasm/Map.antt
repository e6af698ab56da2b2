-- ===== src/Cosmwasm/Map.antt =====
-- `Map` of cw_storage_plus as the list of its entries in ascending order of the keys, which is the
-- order in which `range` visits them; also `BTreeMap` of the standard library.
pub mod Sums
pub mod Keyed
use spectrum_core.Base.{
  ℕ, ◌≡◌, refl, ◌↔◌, Bool, true, false, ◌&&◌, ◌||◌, Option, none, some, List, [], ◌∷◌, arith, ltb,
  ◌==◌, ==_iff, if◌then◌else◌,
}

-- What the order of the keys has to be.
pub record Key {ℓ} (K : Type ℓ) : Type ℓ where
  pub eq : K → K → Bool
  pub lt : K → K → Bool
  pub eq_iff : (a b : K) → (eq a b ≡ true) ↔ (a ≡ b)
  pub lt_irrefl : (a : K) → lt a a ≡ false
  pub lt_trans : (a b c : K) → lt a b ≡ true → lt b c ≡ true → lt a c ≡ true
  pub lt_connex : (a b : K) → eq a b ≡ false → lt a b ≡ false → lt b a ≡ true

pub ℕ-lt_irrefl : (a : ℕ) → ltb a a ≡ false
ℕ-lt_irrefl a = ground arith

pub ℕ-lt_trans : (a b c : ℕ) → ltb a b ≡ true → ltb b c ≡ true → ltb a c ≡ true
ℕ-lt_trans a b c p q = ground arith

pub ℕ-lt_connex : (a b : ℕ) → (a == b) ≡ false → ltb a b ≡ false → ltb b a ≡ true
ℕ-lt_connex a b p q = ground arith

instance abbrev pub ℕ_key : Key ℕ
ℕ_key = record {
  eq = ◌==◌;
  lt = ltb;
  eq_iff = ==_iff;
  lt_irrefl = ℕ-lt_irrefl;
  lt_trans = ℕ-lt_trans;
  lt_connex = ℕ-lt_connex;
}

-- The keys `(&Addr, &Addr)`, by the first address and then by the second.
abbrev pub pair_eq : ℕ × ℕ → ℕ × ℕ → Bool
pair_eq (a, b) (c, d) = a == c && b == d

abbrev pub pair_lt : ℕ × ℕ → ℕ × ℕ → Bool
pair_lt (a, b) (c, d) = ltb a c || (a == c && ltb b d)

pub pair_eq_iff : (a b : ℕ × ℕ) → (pair_eq a b ≡ true) ↔ (a ≡ b)
pair_eq_iff a b = ground arith

pub pair-lt_irrefl : (a : ℕ × ℕ) → pair_lt a a ≡ false
pair-lt_irrefl a = ground arith

pub pair-lt_trans : (a b c : ℕ × ℕ) → pair_lt a b ≡ true → pair_lt b c ≡ true → pair_lt a c ≡ true
pair-lt_trans a b c p q = ground arith

pub pair-lt_connex : (a b : ℕ × ℕ) → pair_eq a b ≡ false → pair_lt a b ≡ false → pair_lt b a ≡ true
pair-lt_connex a b p q = ground arith

instance abbrev pub pair_key : Key (ℕ × ℕ)
pair_key = record {
  eq = pair_eq;
  lt = pair_lt;
  eq_iff = pair_eq_iff;
  lt_irrefl = pair-lt_irrefl;
  lt_trans = pair-lt_trans;
  lt_connex = pair-lt_connex;
}

abbrev pub Map {ℓ κ} : Type ℓ → Type κ → Type (ℓ ⊔ κ)
Map K V = List (K × V)

module _ {ℓ κ} {K : Type ℓ} {V : Type κ} ⦃o : Key K⦄ where
  -- `may_load`
  abbrev pub lookup : K → Map K V → Option V
  lookup k [] = none
  lookup k ((j, v) ∷ m) = if o.eq k j then some v else lookup k m

  -- `save`
  abbrev pub insert : K → V → Map K V → Map K V
  insert k v [] = (k, v) ∷ []
  insert k v ((j, w) ∷ m) =
      if o.eq k j
      then (k, v) ∷ m
      else if o.lt k j
      then (k, v) ∷ (j, w) ∷ m
      else (j, w) ∷ insert k v m

  -- `remove`
  abbrev pub erase : K → Map K V → Map K V
  erase k [] = []
  erase k ((j, w) ∷ m) = if o.eq k j then m else (j, w) ∷ erase k m

  -- `range(storage, Some(Bound::exclusive(k)), None, Order::Ascending)`
  abbrev pub range_after : K → Map K V → Map K V
  range_after k [] = []
  range_after k ((j, w) ∷ m) = if o.lt k j then (j, w) ∷ range_after k m else range_after k m

  -- Every key lies above `k`, and every key above those before it.
  abbrev pub Above : K → Map K V → Type 0
  Above k [] = Unit
  Above k ((j, w) ∷ m) = (o.lt k j ≡ true) × Above k m

  abbrev pub IsSorted : Map K V → Type 0
  IsSorted [] = Unit
  IsSorted ((j, w) ∷ m) = Above j m × IsSorted m

  pub lookup-insert :
      (k j : K) (v : V) (m : Map K V)
      → lookup j (insert k v m) ≡ (if o.eq j k then some v else lookup j m)
  lookup-insert k j v [] = refl
  lookup-insert k j v ((i, w) ∷ m) =
      ground (arith, o.eq_iff k i, o.eq_iff j i, o.eq_iff j k, lookup-insert k j v m)

  Above-lt : (i j : K) (m : Map K V) → o.lt i j ≡ true → Above j m → Above i m
  Above-lt i j [] h a = tt
  Above-lt i j ((k, w) ∷ m) h a = (o.lt_trans i j k h a.0, Above-lt i j m h a.1)

  Above-insert :
      (i k : K) (v : V) (m : Map K V) → o.lt i k ≡ true → Above i m → Above i (insert k v m)
  Above-insert i k v [] h a = (h, tt)
  Above-insert i k v ((j, w) ∷ m) h a = ground (arith, Above-insert i k v m h a.1)

  Above-erase : (i k : K) (m : Map K V) → Above i m → Above i (erase k m)
  Above-erase i k [] a = tt
  Above-erase i k ((j, w) ∷ m) a = ground (arith, Above-erase i k m a.1)

  pub insert-IsSorted : (k : K) (v : V) (m : Map K V) → IsSorted m → IsSorted (insert k v m)
  insert-IsSorted k v [] s = (tt, tt)
  insert-IsSorted k v ((j, w) ∷ m) s = ground (
    arith,
    o.eq_iff k j,
    o.lt_connex k j,
    Above-lt k j m,
    Above-insert j k v m,
    insert-IsSorted k v m s.1,
  )

  pub erase-IsSorted : (k : K) (m : Map K V) → IsSorted m → IsSorted (erase k m)
  erase-IsSorted k [] s = tt
  erase-IsSorted k ((j, w) ∷ m) s = ground (arith, Above-erase j k m s.0, erase-IsSorted k m s.1)

  -- A key that lies below all others is not there.
  pub lookup-Above : (k : K) (m : Map K V) → Above k m → lookup k m ≡ none
  lookup-Above k [] a = refl
  lookup-Above k ((j, w) ∷ m) a = ground (arith, o.eq_iff k j, o.lt_irrefl k, lookup-Above k m a.1)

  pub lookup-below : (k j : K) (m : Map K V) → o.lt k j ≡ true → Above j m → lookup k m ≡ none
  lookup-below k j m h a = lookup-Above k m (Above-lt k j m h a)

  pub lookup-erase :
      (k j : K) (m : Map K V)
      → IsSorted m
      → lookup j (erase k m) ≡ (if o.eq j k then none else lookup j m)
  lookup-erase k j [] s = ground arith
  lookup-erase k j ((i, w) ∷ m) s = ground (
    arith,
    o.eq_iff k i,
    o.eq_iff j i,
    o.eq_iff j k,
    lookup-Above i m s.0,
    lookup-erase k j m s.1,
  )
