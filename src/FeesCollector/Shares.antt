-- ===== src/FeesCollector/Shares.antt =====
-- How contracts/fees_collector distributes an amount by weights.
use spectrum_core.Base.{
  ℕ, ◌+◌, ◌*◌, ◌/◌, ◌≤◌, ◌<◌, ◌≡◌, sym, ap, ◌⊎◌, inl, inr, Option, none, some, List, [], ◌∷◌,
  length, get_or, arith, ok,
}
use native.Mathlib.Nat.{
  div-mul-le_self, lt-div-mul-add, le_of_mul-le-mul_right, lt_of_mul-lt-mul_right,
}
use spectrum_core.Cosmwasm.Math.{math}
use spectrum_core.Cosmwasm.Std.{Addr, Env, MessageInfo}
use spectrum_core.Farm
use spectrum_core.Farm.{AssetInfo, token, native_token}
use spectrum_core.FeesCollector.{Store, Message, adapter, Chain}
use spectrum_core.FeesCollector.Contract.{sum_weights, send_each, distribute, distribute_fees}

-- What a message, and all of them, pay out
abbrev pub paid_by : Message → ℕ
paid_by (adapter (Farm.transfer contract to amount)) = amount
paid_by (adapter (Farm.bank_send to denom amount)) = amount
paid_by _ = 0

abbrev pub paid : List Message → ℕ
paid [] = 0
paid (m ∷ ms) = paid_by m + paid ms

abbrev weights : List (Addr × ℕ) → ℕ
weights [] = 0
weights ((_, w) ∷ l) = w + weights l

abbrev parts : ℕ → ℕ → List (Addr × ℕ) → ℕ
parts amount total [] = 0
parts amount total ((_, w) ∷ l) = amount * w / total + parts amount total l

sum_weights-step :
    (to w : ℕ) (l : List (Addr × ℕ)) {total : ℕ}
    → sum_weights ((to, w) ∷ l) ≡ ok total
    → (rest : ℕ) × (sum_weights l ≡ ok rest) × (total ≡ w + rest)
unfolding sum_weights
sum_weights-step to w l h = ground arith

sum_weights-ok : (l : List (Addr × ℕ)) {total : ℕ} → sum_weights l ≡ ok total → total ≡ weights l
unfolding sum_weights
sum_weights-ok [] h = ground arith
sum_weights-ok ((to, w) ∷ l) h =
    let (rest, e, sum) = sum_weights-step to w l h in omega (arith, sum, sum_weights-ok l e)

send_each-step :
    (info : AssetInfo) (amount total to w : ℕ) (l : List (Addr × ℕ)) {out : List Message}
    → send_each info amount total ((to, w) ∷ l) ≡ ok out
    → (0 < total)
      × (rest : List Message) × (send_each info amount total l ≡ ok rest)
      × (paid out ≡ amount * w / total + paid rest)
unfolding send_each
send_each-step (token a) amount total to w l h = ground arith
send_each-step (native_token d) amount total to w l h = ground arith

send_each-paid :
    (info : AssetInfo) (amount total : ℕ) (l : List (Addr × ℕ)) {out : List Message}
    → send_each info amount total l ≡ ok out
    → (paid out ≡ parts amount total l) × ((0 < length l) → 0 < total)
unfolding send_each
send_each-paid info amount total [] h = (ground arith, λ n. omega arith)
send_each-paid info amount total ((to, w) ∷ l) h =
    let (pos, rest, later, sum) = send_each-step info amount total to w l h in
    (omega (arith, sum, (send_each-paid info amount total l later).0), λ _. pos)

parts-le :
    (amount total : ℕ) (l : List (Addr × ℕ)) → parts amount total l * total ≤ amount * weights l
parts-le amount total [] = omega arith
parts-le amount total ((_, w) ∷ l) =
    omega (arith, parts-le amount total l, div-mul-le_self (amount * w) total)

le-parts :
    (amount total : ℕ) (l : List (Addr × ℕ))
    → 0 < total
    → amount * weights l + length l ≤ parts amount total l * total + length l * total
le-parts amount total [] pos = omega arith
le-parts amount total ((_, w) ∷ l) pos =
    omega (arith, le-parts amount total l pos, lt-div-mul-add {a = amount * w} {b = total} pos)

-- The parts of all targets come to the amount, but for less than one unit for each target.
parts_bounds :
    (amount total : ℕ) (l : List (Addr × ℕ))
    → (0 < length l → 0 < total)
    → total ≡ weights l
    → (parts amount total l ≤ amount) × (0 < length l → amount < parts amount total l + length l)
parts_bounds amount total [] pos all = (omega arith, λ n. omega arith)
parts_bounds amount total ((to, w) ∷ rest) pos all =
    let l : List (Addr × ℕ) = (to, w) ∷ rest in
    let p : 0 < total = pos (omega arith) in
    let whole : amount * weights l ≡ amount * total = ap (λ (n : ℕ). amount * n) (sym all) in
    (
      le_of_mul-le-mul_right {k = total} (omega (arith, parts-le amount total l, whole)) p,
      λ n. lt_of_mul-lt-mul_right total (omega (arith, le-parts amount total l p, whole)),
    )

distribute_fees-parts :
    (c : Chain) (s : Store) (env : Env) (info : MessageInfo) (minimum : Option ℕ)
    {out : Store × List Message}
    → distribute_fees c s env info minimum ≡ ok out
    → (info.sender ≡ env.contract)
      × (out.0 ≡ s)
      × (amount : ℕ) × (c.query_pool s.config.stablecoin env.contract ≡ ok amount)
      × (((amount ≡ 0) × (out.1 ≡ []))
          ⊎ ((total : ℕ) × (sum_weights s.config.target_list ≡ ok total)
              × (send_each s.config.stablecoin amount total s.config.target_list ≡ ok out.1)))
unfolding distribute_fees distribute
distribute_fees-parts c s env info none h = ground arith
distribute_fees-parts c s env info (some minimum) h = ground arith

distribute_fees-minimum :
    (c : Chain) (s : Store) (env : Env) (info : MessageInfo) (minimum amount : ℕ)
    {out : Store × List Message}
    → distribute_fees c s env info (some minimum) ≡ ok out
    → c.query_pool s.config.stablecoin env.contract ≡ ok amount
    → minimum ≤ amount
unfolding distribute_fees distribute
distribute_fees-minimum c s env info minimum amount h asked = ground arith

pub distribute_fees-shares :
    (c : Chain) (s : Store) (env : Env) (info : MessageInfo) (minimum : Option ℕ) (amount : ℕ)
    {out : Store × List Message}
    → distribute_fees c s env info minimum ≡ ok out
    → c.query_pool s.config.stablecoin env.contract ≡ ok amount
    → (info.sender ≡ env.contract)
      × (out.0 ≡ s)
      × (get_or minimum 0 ≤ amount)
      × (paid out.1 ≤ amount)
      × (0 < length s.config.target_list → amount < paid out.1 + length s.config.target_list)
distribute_fees-shares c s env info minimum amount {out} h asked =
    let (self, same, a, answer, which) = distribute_fees-parts c s env info minimum h in
    let e : a ≡ amount = ground arith in
    let low : get_or minimum 0 ≤ amount = least minimum h in
    elim which [
      | inl (zero, sent) ↦
          (self, same, low, rw sent (omega arith), λ some_target. rw sent (omega arith))
      | inr (total, summed, sent) ↦
          let l = s.config.target_list in
          let (sum, pos) = send_each-paid s.config.stablecoin a total l sent in
          let all = sum_weights-ok l summed in
          let (le, lt) = parts_bounds a total l pos all in
          (
            self,
            same,
            low,
            omega (arith, sum, e, le),
            λ some_target. omega (arith, sum, e, lt some_target),
          )
    ]
  where
    least :
        (m : Option ℕ) {out : Store × List Message}
        → distribute_fees c s env info m ≡ ok out
        → get_or m 0 ≤ amount
    least none r = omega arith
    least (some m) r = distribute_fees-minimum c s env info m amount r asked
