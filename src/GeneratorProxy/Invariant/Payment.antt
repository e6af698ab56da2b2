-- ===== src/GeneratorProxy/Invariant/Payment.antt =====
-- A user of contracts/generator_proxy can claim: what is reconciled of each token is enough to pay.
use spectrum_core.Base.{
  ◌-◌, ◌≤◌, ◌≡◌, refl, sym, Bool-cases, Option-cases, inl, inr, some, ◌==◌, if◌then◌else◌, arith,
  ok, List, [], ◌∷◌,
}
use spectrum_core.Cosmwasm.Math.{math}
use spectrum_core.Cosmwasm.Std.{Addr}
use spectrum_core.Cosmwasm.Map.{ℕ_key, pair_key, lookup, insert, lookup-insert}
use spectrum_core.Cosmwasm.Map.Keyed.{part_at, part_at-le}
use spectrum_core.GeneratorProxy.{Vector, PoolInfo, UserInfo, RewardInfo, Store, Message}
use spectrum_core.GeneratorProxy.Vectors.{amount_of, IsRestricted}
use spectrum_core.GeneratorProxy.Pool.{reconcile_to_user_info}
use spectrum_core.GeneratorProxy.Bond.{
  transfer_msg, reward_at, save_reward, pay_rewards, callback_claim_rewards,
}
use spectrum_core.GeneratorProxy.Invariant.{IsValid, owed, owed_at, pool_at, reconciled-owed}

-- The messages that pay out the amounts of a vector, with nothing for an amount of 0
abbrev pub payments : Addr → Vector → List Message
payments a [] = []
payments a ((t, amount) ∷ rest) =
    if amount == 0 then payments a rest else transfer_msg t amount a ∷ payments a rest

-- Where what is reconciled covers the amounts, all of them are paid.
pub pay_rewards-pays :
    (a : Addr) (l : Vector) (s : Store)
    → ((t : Addr) → amount_of t l ≤ (reward_at t s).reconciled_amount)
    → (s' : Store) × (pay_rewards a l s ≡ ok (s', payments a l))
unfolding pay_rewards
pay_rewards-pays a [] s enough = (s, refl)
pay_rewards-pays a ((t, amount) ∷ rest) s enough = elim (Bool-cases (amount == 0)) [
  | inl nothing ↦
      let (s', e) = pay_rewards-pays a rest s (λ j. ground (arith, enough j)) in (s', ground arith)
  | inr something ↦ elim (Option-cases (lookup t s.reward_info)) [
    | inl missing ↦ ground (arith, enough t)
    | inr (r, found) ↦
        let le : amount ≤ r.reconciled_amount = ground (arith, enough t) in
        let r' : RewardInfo = record r { reconciled_amount = r.reconciled_amount - amount } in
        let (s', e) =
          pay_rewards-pays a rest (save_reward t r' s)
            (λ j. ground (arith, enough j, lookup-insert t j r' s.reward_info)) in
        (s', ground arith)
  ]
]

-- What is pending for a user is no more than what is reconciled.
pub pending_le :
    (s : Store) (lp a : Addr) (u u' : UserInfo) (pool : PoolInfo) (t : Addr)
    → IsValid s
    → lookup (lp, a) s.user_info ≡ some u
    → lookup lp s.pool_info ≡ some pool
    → reconcile_to_user_info pool u ≡ ok u'
    → amount_of t u'.pending_rewards ≤ (reward_at t s).reconciled_amount
pending_le s lp a u u' pool t v known found h =
    let at : pool_at lp s.pool_info ≡ pool = rw found in
    let r : IsRestricted pool.reward_indexes = rw (sym at) (v.restricted lp) in
    let (_, _, le) = reconciled-owed pool u t h r in
    let part : part_at (owed_at t s.pool_info) (lp, a) (lookup (lp, a) s.user_info)
        ≡ owed t pool.reward_indexes u =
      rw (known, at) in
    omega (arith, le, part, part_at-le (owed_at t s.pool_info) (lp, a) s.user_info, v.covered t)

pub callback_claim_rewards-pays :
    (s : Store) (lp a : Addr) (u u' : UserInfo) (pool : PoolInfo)
    → IsValid s
    → lookup (lp, a) s.user_info ≡ some u
    → lookup lp s.pool_info ≡ some pool
    → reconcile_to_user_info pool u ≡ ok u'
    → (s' : Store) × (callback_claim_rewards s lp a ≡ ok (s', payments a u'.pending_rewards))
      × (lookup (lp, a) s'.user_info ≡ some (record u' { pending_rewards = [] }))
unfolding callback_claim_rewards
callback_claim_rewards-pays s lp a u u' pool v known found h =
    let (s', paid) =
      pay_rewards-pays a u'.pending_rewards s
        (λ t. pending_le s lp a u u' pool t v known found h) in
    (
      record s' { user_info = insert (lp, a) (record u' { pending_rewards = [] }) s'.user_info },
      rw (known, found, h, paid) refl,
      ground (
        arith,
        pair_key.eq_iff (lp, a) (lp, a),
        lookup-insert (lp, a) (lp, a) (record u' { pending_rewards = [] }) s'.user_info,
      ),
    )
