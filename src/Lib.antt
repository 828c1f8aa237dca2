-- ===== src/Lib.antt =====
-- The parachain node template and its runtime: what the Rust code of this repository computes,
-- and what holds of it.
--
-- The program has three parts. The pallet (pallets/template/src/lib.rs) keeps one number that
-- signed calls set and increment. The runtime (runtime/src/) puts pallets together, fixes
-- times, fees and block limits, and decides which XCM messages are let in. The node (node/src/)
-- reads the command line, builds a chain specification, and starts a collator or a full node
-- with its relay chain client. The runtime takes its weights from runtime/src/weights/ and its
-- barrier from runtime/src/xcm_config.rs; the genesis of the node takes the existential deposit
-- of the runtime; the command starts the service with the parachain id of the specification's
-- extensions.
--
-- Base: shared names; a result type; `Action`, code that makes calls in order and ends in a
--   value, an error or a panic; `Panic`, code that may panic; `Runs`, what passes through a
--   sequence of actions; `Machine`, the calls of an action as a path through a state machine.
-- Weights: runtime/src/weights/. `BlockExecutionWeight` is block_execution_weight, and so on.
--   Sane has the bounds of the tests; Picoseconds is a weight library that counts picoseconds.
-- Template: pallets/template/src/lib.rs. The dispatchables are do_something_call and
--   cause_error_call, `dispatch` takes either as a value of `Call`, and `run` is a sequence of
--   calls. Atomic, Counter, Orders and Cost have the theorems on failures, on the stored
--   number, on sequences of calls, and on weights. Mock is the runtime of
--   pallets/template/src/mock.rs with the benchmark of benchmarking.rs.
-- Xcm: runtime/src/xcm_config.rs. `ShouldExecute` is a function from the origin, the weight and
--   what the filter may change to a verdict, what it left, and its log lines. `DenyThenTry` is
--   deny_then_try and `Barrier` is barrier; Reserve, Barrier and Entry have the theorems.
--   Origins has the converters of locations, Accounts what they give; Router has `XcmRouter`
--   and the weigher, and Capacity is about the room of a block for messages; Config has
--   `XcmConfig` and the configuration of the XCM pallets, Executor which messages are run with
--   it, Plain what this means for messages of plain instructions and what they cost, and Local what
--   accounts can do through pallet_xcm.
-- Runtime: runtime/src/lib.rs. Constants and `WeightToFee` (Runtime and Fees, and
--   Fees.Inclusion for the fee of an extrinsic), the block limits (Blocks),
--   `construct_runtime!` (Pallets), `impl_runtime_apis!` (Apis, and Optional for the methods of
--   two features), `CheckInherents` (Inherents), `register_validate_block!` and `Executive`
--   (Validate), the types of blocks (Generic), `SignedExtra` (Extra) and the `Config` impls
--   (Config and Config.Weighted, where `pallet_session::Config` is session_config, and so on).
-- Node.ChainSpec: node/src/chain_spec.rs, one function for each of its functions; the struct
--   and the closures inside are genesis_with, collator and genesis_of. A panic is `none`.
--   Genesis, Accounts, Distinct and Fits have the theorems, Funds those on what the
--   endowed accounts can pay, and Authors those on who authors the blocks.
-- Node.Cli: node/src/cli.rs and `RelayChainCli` of node/src/command.rs; Delegated has the
--   settings that are passed through.
-- Node.Command: the rest of node/src/command.rs. Calls has the subcommands and what running
--   them takes from outside, Substrate has `SubstrateCli` for both command lines, Run has `run`
--   by subcommand. Each closure that a runner gets is a function. Specs, Builtin, Features,
--   Start, Live, Joins and Once have the theorems.
-- Node.Service: node/src/service.rs and node/src/rpc.rs. Interface has the libraries, Calls the
--   structs that the code fills and the calls that act on the node, Partial `new_partial`,
--   Start `start_node_impl` in the two steps prepare and finish, Executor the native executor.
--   Phases is the state machine of a start, which Phases.Start follows through the code and
--   Phases.Milestones sums up; Stages names the calls that put a node to work; Order,
--   Components, Shared, Identity, Panics, Starts and Methods have the other theorems.
--
-- Code of Substrate, Cumulus, Polkadot and clap is a parameter everywhere: a record of types
-- and functions (WeightLib, PerbillLib, Limits, Config, Opaque, Allows, Converters, Routers,
-- Handlers, Execute, PalletXcm, Types, ExtensionLib, OptionalLib, InherentLib, ExecutorLib,
-- InclusionFee, AuraLib, GenericLib, NativeLib, CliLib, Tools, Runners, Starters, and an
-- Outside for chain specifications and one for the service). What a theorem asks of it is a
-- named hypothesis: IsDocumented for weights and for the converters of locations, IsRational
-- and IsPercentage for Perbill, DoublesPeriod for pallet_aura, EndsPeriodically for
-- pallet_session, PaysOnce for the checks of a transaction, AddsParts for
-- pallet_transaction_payment, Documented for the function that validates blocks, TakesTurns for
-- pallet_session and pallet_aura, DocumentedAllows for the filters of xcm_builder,
-- DocumentedRouters for the queues, CountsPlain for the weigher, IsGuarded and Admits for the
-- executor, IsPriced for the trader, ObeysFilters for pallet_xcm, DerivesApart for key
-- derivation, MergesNames for jsonrpsee, GivesKey for the relay chain interface, Grants for all that the start of a node
-- calls, Equipped for what a run of the program needs, DrivesOnce and PassesErrors for the
-- runner of the command, and KeepsExtensions for chain specifications.
--
-- There are no loops but over lists, so no function takes fuel. The native numbers stand for
-- u32, u64 and u128: the pallet's checked addition and the u64 products of the database weights
-- keep their bounds, and the constants lie far below theirs.
--
-- Not modelled: the proof size of weights but for `set_proof_size`; the associated types of
-- `Config` impls that only name a type of data, and the `Config` impls that choose nothing
-- else; what the log lines of the try-runtime API say; asynchrony, since each `await` follows
-- at once on its call, but for the futures of the subcommands, which a runner drives; creating
-- the database folder before the hardware benchmark, whose failure the code ignores; the
-- parachain account and the genesis state, which only go to the log; main.rs, which only calls
-- `run`, and the build scripts. The two tests of the pallet run in Template.Tests.
pub mod Base
pub mod Weights
pub mod Template
pub mod Xcm
pub mod Runtime
pub mod Node
