-- ===== src/GeneratorProxy/Oper.antt =====
-- contracts/generator_proxy/src/oper.rs: the actions of the owner and of the controller.
use Prim.Native.String.{String}
use spectrum_core.Base.{
  ℕ, not, Option, none, some, List, [], ◌∷◌, ltb, ◌==◌, if◌then◌else◌, get_or, Result, ok, ◌>>=◌,
  ◌>>◌, err_if, map_err, ok_or,
}
use spectrum_core.Cosmwasm.Math.{Math, decimal_one}
use spectrum_core.Cosmwasm.Std.{Addr, Api, MessageInfo, StdError, generic_err, not_found}
use spectrum_core.Cosmwasm.Uint.{sub}
use spectrum_core.Cosmwasm.Map.{ℕ_key, lookup}
use spectrum_core.GeneratorProxy.{
  Config, RewardInfo, ContractError, std, unauthorized, Store, Response,
}
use spectrum_core.GeneratorProxy.Chain.{controller_vote_msg}
use spectrum_core.GeneratorProxy.Bond.{transfer_msg, save_reward}

-- The text of the error is the field's, "staker_rate" or "boost_fee", and the rest.
unfoldable pub validate_percentage : ℕ → String → Result StdError (Unit {0})
validate_percentage value text = err_if (ltb decimal_one value) (generic_err text)

abbrev pub staker_rate_text : String
staker_rate_text = "staker_rate cannot greater than 1"

abbrev pub boost_fee_text : String
boost_fee_text = "boost_fee cannot greater than 1"

-- `if let Some(value) = value { validate_percentage(value, ...)?; field = value }`
unfoldable pub percentage_or : Option ℕ → String → ℕ → Result ContractError ℕ
percentage_or none text old = ok old
percentage_or (some value) text old = map_err std (validate_percentage value text) >> ok value

unfoldable pub controller_or : Api → Option ℕ → Addr → Result ContractError Addr
controller_or api none old = ok old
controller_or api (some a) old = map_err std (api a)

unfoldable pub execute_update_config :
    Api → Store → MessageInfo → Option ℕ → Option ℕ → Result ContractError Response
execute_update_config api s info controller boost_fee = do
  err_if (not (info.sender == s.config.owner)) unauthorized
  controller' ← controller_or api controller s.config.controller
  boost_fee' ← percentage_or boost_fee boost_fee_text s.config.boost_fee
  ok (
    record s { config = record s.config { controller = controller'; boost_fee = boost_fee' } },
    [],
  )

unfoldable pub execute_update_parameters :
    Store → MessageInfo → Option ℕ → Option ℕ → Result ContractError Response
execute_update_parameters s info max_quota staker_rate = do
  err_if (not (info.sender == s.config.controller)) unauthorized
  staker_rate' ← percentage_or staker_rate staker_rate_text s.config.staker_rate
  ok (
    record s {
      config = record s.config {
        max_quota = get_or max_quota s.config.max_quota;
        staker_rate = staker_rate';
      };
    },
    [],
  )

unfoldable pub execute_controller_vote :
    Store → MessageInfo → List (ℕ × ℕ) → Result ContractError Response
execute_controller_vote s info votes = do
  err_if (not (info.sender == s.config.controller)) unauthorized
  ok (s, controller_vote_msg s.config.astro_gov votes ∷ [])

unfoldable pub execute_send_income :
    ⦃m : Math⦄ → Store → MessageInfo → Result ContractError Response
execute_send_income s info = do
  err_if (not (info.sender == s.config.controller)) unauthorized
  reward_info ← ok_or (lookup s.config.astro_token s.reward_info) (std not_found)
  reconciled_amount ← sub reward_info.reconciled_amount reward_info.fee
  let reward_info' : RewardInfo = record reward_info {
    fee = 0;
    reconciled_amount = reconciled_amount;
  }
  ok (
    save_reward s.config.astro_token reward_info' s,
    (if reward_info.fee == 0
        then []
        else transfer_msg s.config.astro_token reward_info.fee s.config.fee_collector ∷ []),
  )

unfoldable pub query_config : Store → Config
query_config s = s.config
