-- ===== src/FeesCollector/Distribution.antt =====
-- What contracts/fees_collector sends of the balance that it distributes.
use spectrum_core.Base.{ℕ, ◌+◌, ◌≤◌, ◌<◌, ◌≡◌, Option, List, length, get_or, ok}
use spectrum_core.Cosmwasm.Math.{Math, IsMath, Math-eq}
use spectrum_core.Cosmwasm.Std.{Env, MessageInfo}
use spectrum_core.FeesCollector.{Store, Message, Chain}
use spectrum_core.FeesCollector.Contract.{distribute_fees}
use spectrum_core.FeesCollector.Shares
use spectrum_core.FeesCollector.Shares.{paid}

module _ ⦃m : Math⦄ (lawful : IsMath m) where
  -- A distribution that succeeds was called by the contract itself, changes nothing in its
  -- storage, has found no less than the minimum, and sends no more than the balance, and
  -- less than one unit for each target short of all of it, where there is a target.
  pub distribute_fees_sends :
      (c : Chain) (s : Store) (env : Env) (info : MessageInfo) (minimum : Option ℕ) (amount : ℕ)
      {out : Store × List Message}
      → distribute_fees c s env info minimum ≡ ok out
      → c.query_pool s.config.stablecoin env.contract ≡ ok amount
      → (info.sender ≡ env.contract)
        × (out.0 ≡ s)
        × (get_or minimum 0 ≤ amount)
        × (paid out.1 ≤ amount)
        × (0 < length s.config.target_list → amount < paid out.1 + length s.config.target_list)
  distribute_fees_sends = rw (Math-eq m lawful) Shares.distribute_fees-shares
