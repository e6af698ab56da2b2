-- ===== src/GeneratorProxy/Vectors.antt =====
-- The vectors of contracts/generator_proxy: the index of a token, the amounts of a token, and how
-- `RestrictedVector::update` and the loop of `reconcile_to_user_info` change them.
use spectrum_core.Base.{
  ℕ, ◌+◌, ◌-◌, ◌*◌, ◌/◌, ◌≤◌, ◌≡◌, none, some, [], ◌∷◌, arith, false, ◌==◌, if◌then◌else◌, get_or,
  ok, Option-cases, Bool-cases, inl, inr,
}
use native.Mathlib.Nat.{div-mul-le_self}
use spectrum_core.Cosmwasm.Math.{math, increased, decimal_one}
use spectrum_core.Cosmwasm.Std.{Addr}
use spectrum_core.GeneratorProxy.{Vector}
use spectrum_core.GeneratorProxy.Pool.{hash_get, accrue}

-- The index of a token, 0 where there is none
abbrev pub index_of : Addr → Vector → ℕ
index_of t l = get_or (hash_get t l) 0

-- All that a vector has of a token
abbrev pub amount_of : Addr → Vector → ℕ
amount_of t [] = 0
amount_of t ((k, v) ∷ l) = (if k == t then v else 0) + amount_of t l

-- No key of a vector occurs twice.
abbrev pub IsRestricted : Vector → Type 0
IsRestricted [] = Unit
IsRestricted ((k, v) ∷ l) = (hash_get k l ≡ none) × IsRestricted l

-- To increase the amount of one key adds to what the vector has of it.
pub increased-amount :
    (k v t : Addr) (l : Vector) {l' : Vector}
    → increased k v l ≡ some l'
    → amount_of t l' ≡ amount_of t l + (if k == t then v else 0)
increased-amount k v t [] h = ground arith
increased-amount k v t ((j, w) ∷ l) {l'} h = elim (Bool-cases (j == k)) [
  | inl e ↦ ground arith
  | inr e ↦ elim (Option-cases (increased k v l)) [
    | inl n ↦ ground arith
    | inr (rest, r) ↦ let step = increased-amount k v t l r in ground arith
  ]
]

hash_get-increased :
    (k v t : Addr) (l : Vector) {l' : Vector}
    → increased k v l ≡ some l'
    → (k == t) ≡ false
    → hash_get t l' ≡ hash_get t l
hash_get-increased k v t [] h d = ground arith
hash_get-increased k v t ((j, w) ∷ l) {l'} h d = elim (Bool-cases (j == k)) [
  | inl e ↦ ground arith
  | inr e ↦ elim (Option-cases (increased k v l)) [
    | inl n ↦ ground arith
    | inr (rest, r) ↦ let step = hash_get-increased k v t l r d in ground arith
  ]
]

pub increased-IsRestricted :
    (k v : Addr) (l : Vector) {l' : Vector}
    → increased k v l ≡ some l'
    → IsRestricted l
    → IsRestricted l'
increased-IsRestricted k v [] h r = ground arith
increased-IsRestricted k v ((j, w) ∷ l) {l'} h r = elim (Bool-cases (j == k)) [
  | inl e ↦ ground arith
  | inr e ↦ elim (Option-cases (increased k v l)) [
    | inl n ↦ ground arith
    | inr (rest, g) ↦
        let step = increased-IsRestricted k v l g r.1 in
        let other = hash_get-increased k v j l g (ground arith) in ground arith
  ]
]

-- On a vector without doublets the index of a key grows by the amount, and no other does.
pub increased-index :
    (k v t : Addr) (l : Vector) {l' : Vector}
    → increased k v l ≡ some l'
    → IsRestricted l
    → index_of t l' ≡ index_of t l + (if k == t then v else 0)
increased-index k v t [] h r = ground arith
increased-index k v t ((j, w) ∷ l) {l'} h r = elim (Bool-cases (j == k)) [
  | inl e ↦ ground arith
  | inr e ↦ elim (Option-cases (increased k v l)) [
    | inl n ↦ ground arith
    | inr (rest, g) ↦
        let step = increased-index k v t l g r.1 in
        let other = hash_get-increased k v j l g (ground arith) in ground arith
  ]
]

-- What one round of the loop has computed
accrue-step :
    (ui : Vector) (share token index : ℕ) (rest p : Vector) {p' : Vector}
    → accrue ui share ((token, index) ∷ rest) p ≡ ok p'
    → (q : Vector) × (index_of token ui ≤ index)
      × (increased token (share * (index - index_of token ui) / decimal_one) p ≡ some q)
      × (accrue ui share rest q ≡ ok p')
unfolding accrue
accrue-step ui share token index rest p h = ground arith

-- The loop adds no more of a token than the share's part of the growth of its index.
pub accrue-amount :
    (ui : Vector) (share t : ℕ) (l p : Vector) {p' : Vector}
    → accrue ui share l p ≡ ok p'
    → IsRestricted l
    → amount_of t p' * decimal_one
      ≤ amount_of t p * decimal_one + share * (index_of t l - index_of t ui)
unfolding accrue
accrue-amount ui share t [] p h r = ground arith
accrue-amount ui share t ((token, index) ∷ rest) p {p'} h r =
    let (q, le, grown, later) = accrue-step ui share token index rest p h in
    let ih = accrue-amount ui share t rest q later r.1 in
    let now =
      increased-amount token (share * (index - index_of token ui) / decimal_one) t p grown in
    let floor = div-mul-le_self (share * (index - index_of token ui)) decimal_one in
    elim (Bool-cases (token == t)) [ inl e ↦ ground arith | inr e ↦ ground arith ]
