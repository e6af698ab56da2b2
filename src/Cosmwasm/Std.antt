-- ===== src/Cosmwasm/Std.antt =====
-- Errors, addresses, the environment of a call and the messages that it returns.
-- An address, a denomination and a text are numbers: the contracts only compare them, and order
-- them in the storage. A message is the value that is serialised, and an attribute is not modelled.
use Prim.Native.String.{String}
use spectrum_core.Base.{ℕ, Bool, List, Result}

abbrev pub Addr : Type 0
Addr = ℕ

-- `StdError`: what the contracts make, and what checked arithmetic and the storage return.
pub data StdError : Type 0 where
  generic_err : String → StdError
  overflow : StdError
  not_found : StdError

-- `Env`: the block's height and time in seconds, and the contract's own address.
pub record Env : Type 0 where
  pub height : ℕ
  pub time : ℕ
  pub contract : Addr

pub record Coin : Type 0 where
  pub denom : ℕ
  pub amount : ℕ

pub record MessageInfo : Type 0 where
  pub sender : Addr
  pub funds : List Coin

-- `deps.api.addr_validate`, which the contracts do not implement.
abbrev pub Api : Type 0
Api = ℕ → Result StdError Addr

-- `Expiration` of cw20, and whether it is over at a block, which the contracts do not implement.
pub data Expiration : Type 0 where
  at_height : ℕ → Expiration
  at_time : ℕ → Expiration
  never : Expiration

abbrev pub IsExpired : Type 0
IsExpired = Expiration → Env → Bool
