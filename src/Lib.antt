-- ===== src/Lib.antt =====
-- A model of the contracts of Spectrum: contracts/lp_staking, which pays rewards for staked LP
-- tokens by a schedule, and contracts/astroport_farm, a vault that stakes LP tokens in a generator,
-- compounds their rewards and issues its shares as a cw20 token, and contracts/generator_proxy, which
-- stakes the LP tokens of many users in the generator of Astroport and shares what a lock of xASTRO
-- adds to their rewards between them and those who stake xASTRO, and
-- contracts/generator_proxy_to_spec, by which that generator stakes in contracts/lp_staking; with the change of ownership, and the
-- helpers of packages/spectrum that they use.
--
-- Each contract is a record of its storage as `instantiate` leaves it (`Store`), a function for
-- each handler that returns the storage and the messages that it sends, and `execute`, which calls
-- them. A handler returns a `Result`: a value, an error, or a panic (a `Uint128` that overflows, a
-- division by 0, a native number that overflows, since the release profile of Cargo.toml sets
-- `overflow-checks`). Errors and panics carry no storage, as the chain reverts the message. What the
-- messages lead to is an inductive type: `Reach` of the staking contract, `Reachable` of the vault,
-- `Attainable` of the proxy.
--
-- Files:
--   Base            numbers, tests, lists, results and division, shared by all
--   Cosmwasm        what the contracts use of cosmwasm_std and cw_storage_plus: errors, the
--                   environment, addresses; maps in the order of their keys (Cosmwasm/Map); arithmetic
--                   as a record of operations with the laws that its documentation states
--                   (Cosmwasm/Math), and its operations in results (Cosmwasm/Uint)
--   Ownership       ownership.rs of both contracts, for any storage with a place for the proposal
--   Helper          packages/spectrum/src/helper.rs
--   LpStaking       contracts/lp_staking/src/state.rs and packages/spectrum/src/lp_staking.rs;
--                   LpStaking/Rewards, NewSchedules, Handlers and Queries are the functions of
--                   contracts/lp_staking/src/contract.rs, LpStaking/Refusals lemmas,
--                   LpStaking/Accounting and LpStaking/Settlement the properties
--   Farm            contracts/astroport_farm/src/state.rs and error.rs; Farm/Messages is
--                   packages/spectrum/src/astroport_farm.rs, Farm/Adapters the message builders of
--                   packages/spectrum/src/adapters and compound_proxy.rs; Farm/Shares, Bond, Cw20,
--                   Compound, Contract and Queries are state.rs, bond.rs, cw20.rs, compound.rs and
--                   contract.rs of contracts/astroport_farm/src; Farm/Vault and Farm/Token are their
--                   properties
--   GeneratorProxy  contracts/generator_proxy/src/model.rs, state.rs and error.rs;
--                   GeneratorProxy/Messages is the rest of model.rs, GeneratorProxy/Chain is
--                   astro_generator.rs and astro_gov.rs, GeneratorProxy/Pool and Bond are bond.rs,
--                   GeneratorProxy/Staking, Oper, Contract and Queries the files of that name (the
--                   queries of bond.rs are in Queries); GeneratorProxy/Invariant and its modules, Claim,
--                   Access, Dilution and Quota are lemmas, GeneratorProxy/Solvency the properties
--   ProxyToSpec     contracts/generator_proxy_to_spec/src/state.rs and error.rs, and its messages;
--                   ProxyToSpec/Contract is its contract.rs, ProxyToSpec/Together lemmas of it with
--                   LpStaking, ProxyToSpec/Custody the property
--   FeesCollector   contracts/fees_collector/src/state.rs and error.rs, and
--                   packages/spectrum/src/fees_collector.rs; FeesCollector/Swaps is utils.rs with the
--                   swaps of contract.rs, FeesCollector/Contract the rest of contract.rs,
--                   FeesCollector/Shares and Retry lemmas, FeesCollector/Distribution and Routes the properties
--   */Tests         runs at concrete inputs, and each property at one of them
--
-- How they interact: the vault asks the generator for its deposit and the pair for its pool; these
-- answers are a `Querier`, an argument of the handlers, and no law is assumed of it. What
-- the proxy asks of the contracts of Astroport is a `Chain` in the same way; a property that needs an
-- answer names it. The contract
-- ProxyToSpec stakes in LpStaking: its property runs both, one after the other. The handlers of the
-- ownership that the proxy takes from packages/astroport are an
-- `Owners`, with what is documented of them as `IsOwners`; so has the fees
-- collector, with a `Chain` and an `Owners` of its own, where no law is needed. The validation
-- of an address is an `Api`, the test whether an allowance is over an `IsExpired`, both arguments. A
-- property that depends on the arithmetic is stated for every `Math` with the laws `IsMath`, and
-- proved by way of the one that they fix, `math`.
--
-- Numbers are natural numbers. A `Uint128` is at most 2^128 - 1, since each operation that makes one
-- panics above it; native u64, u32 and u128 likewise. A `Decimal` is its number of atomics. An address
-- or a denomination is a number, as the contracts only compare and order them; the name and the
-- symbol of the vault are lists of bytes. Loops are recursion on the list that they go through, but for the
-- one of `calc_claim_amount`, which goes through periods: its fuel is the number of periods from the
-- first to the current one, and each round advances by one; and for `validate_bridge`, whose fuel
-- (`validation_fuel`) is far more than the calls that its own test of the depth allows, and which panics
-- where the fuel is used up; no answer depends on it from BRIDGES_MAX_DEPTH on.
--
-- Not modelled: attributes of responses, serialisation (a message is the value that is serialised),
-- `migrate`, gas; the simulation of a collection in contracts/fees_collector;
-- the other contracts (contracts/compound_proxy, pair_proxy) and the copies of packages/astroport and
-- packages/astroport-governance.
pub mod Base
pub mod Cosmwasm
pub mod Ownership
pub mod Helper
pub mod LpStaking
pub mod Farm
pub mod GeneratorProxy
pub mod ProxyToSpec
pub mod FeesCollector
