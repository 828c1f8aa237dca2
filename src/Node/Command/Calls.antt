-- ===== src/Node/Command/Calls.antt =====
-- node/src/cli.rs and node/src/command.rs: the subcommands, and what running them takes from outside.
use evm_parachain.Base.{ℕ, Bool, Option, List, String, Result}
use evm_parachain.Base.Action.{Action}
use evm_parachain.Runtime.Apis.{RuntimeVersion}
use evm_parachain.Node.ChainSpec
use evm_parachain.Node.ChainSpec.{GenesisSpec}
use evm_parachain.Node.Service.{Outside, CollatorOptions, Call}
use evm_parachain.Node.Cli.{CliLib, RelayChainCli}

-- The arguments of the subcommands, and what running them with the parts of a node gives.
pub record Tools (O : Outside) (L : CliLib O.Configuration) : Type 1 where
  pub ApiVersions : Type 0
  pub runtime_api_versions : ApiVersions
  pub Error : Type 0
  pub from_text : String → Error
  pub from_service : O.Error → Error
  pub from_cli : L.Error → Error
  -- A future of a command, and what it ends with once it is driven.
  pub Future : Type 0
  pub output : Future → Result Error (Unit {0})
  pub Runner : Type 0
  pub BuildSpecCmd : Type 0
  pub CheckBlockCmd : Type 0
  pub ExportBlocksCmd : Type 0
  pub ExportStateCmd : Type 0
  pub ImportBlocksCmd : Type 0
  pub RevertCmd : Type 0
  pub PurgeChainCmd : Type 0
  pub ExportGenesisStateCommand : Type 0
  pub ExportGenesisWasmCommand : Type 0
  pub PalletCmd : Type 0
  pub BlockCmd : Type 0
  pub StorageCmd : Type 0
  pub MachineCmd : Type 0
  pub OtherBenchmark : Type 0
  pub TryRuntimeCmd : Type 0
  pub build_spec_run : BuildSpecCmd → O.Configuration → Result Error (Unit {0})
  pub check_block_run : CheckBlockCmd → O.Client → O.ImportQueue → Future
  pub export_blocks_run : ExportBlocksCmd → O.Client → O.Configuration → Future
  pub export_state_run : ExportStateCmd → O.Client → O.Configuration → Future
  pub import_blocks_run : ImportBlocksCmd → O.Client → O.ImportQueue → Future
  pub revert_run : RevertCmd → O.Client → O.Backend → Future
  pub purge_chain_run : PurgeChainCmd → O.Configuration → O.Configuration → Result Error (Unit {0})
  pub state_chain : ExportGenesisStateCommand → Option String
  pub wasm_chain : ExportGenesisWasmCommand → Option String
  pub export_genesis_state_run :
      ExportGenesisStateCommand → L.ChainSpec → ℕ → Result Error (Unit {0})
  pub export_genesis_wasm_run : ExportGenesisWasmCommand → L.ChainSpec → Result Error (Unit {0})
  pub pallet_run : PalletCmd → O.Configuration → Result Error (Unit {0})
  pub block_run : BlockCmd → O.Client → Result Error (Unit {0})
  pub storage_run : StorageCmd → O.Configuration → O.Client → O.Backend → Result Error (Unit {0})
  pub machine_run : MachineCmd → O.Configuration → Result Error (Unit {0})
  pub try_runtime_run : TryRuntimeCmd → O.Configuration → Future
  pub runner_config : Runner → O.Configuration
  -- `TaskManager::new`, over the runner's configuration.
  pub new_task_manager : O.Configuration → Result Error O.TaskManager
  -- What chain specifications are made of, `ChainSpec::from_genesis` and `ChainSpec::from_json_file`.
  pub genesis : ChainSpec.Outside
  pub from_genesis : GenesisSpec genesis → L.ChainSpec
  pub from_json_file : String → Result String L.ChainSpec
  -- The command line of polkadot_cli, from its arguments.
  pub polkadot_load_spec : List String → String → Result String L.ChainSpec
  pub polkadot_native_runtime_version : L.ChainSpec → RuntimeVersion ApiVersions
  -- What the build puts into the environment.
  pub substrate_cli_impl_version : String
  pub cargo_pkg_authors : String
  pub executable_name : String
  -- `SubstrateCli::create_configuration`, with the text of its error.
  pub create_configuration : RelayChainCli L → O.Configuration → Result String O.Configuration
  pub database_path : O.Configuration → Option String
  pub gather_hwbench : String → O.HwBench
  pub Block : Type 0
  pub generate_genesis_block : L.ChainSpec → ℕ → Result String Block

-- `BenchmarkCmd`; the last is any command that the source does not name.
pub data BenchmarkCmd {O : Outside} {L : CliLib O.Configuration} (T : Tools O L) : Type 0 where
  pallet : T.PalletCmd → BenchmarkCmd T
  block : T.BlockCmd → BenchmarkCmd T
  storage : T.StorageCmd → BenchmarkCmd T
  machine : T.MachineCmd → BenchmarkCmd T
  other_benchmark : T.OtherBenchmark → BenchmarkCmd T

pub data Subcommand {O : Outside} {L : CliLib O.Configuration} (T : Tools O L) : Type 0 where
  build_spec : T.BuildSpecCmd → Subcommand T
  check_block : T.CheckBlockCmd → Subcommand T
  export_blocks : T.ExportBlocksCmd → Subcommand T
  export_state : T.ExportStateCmd → Subcommand T
  import_blocks : T.ImportBlocksCmd → Subcommand T
  revert : T.RevertCmd → Subcommand T
  purge_chain : T.PurgeChainCmd → Subcommand T
  export_genesis_state : T.ExportGenesisStateCommand → Subcommand T
  export_genesis_wasm : T.ExportGenesisWasmCommand → Subcommand T
  benchmark : BenchmarkCmd T → Subcommand T
  try_runtime : T.TryRuntimeCmd → Subcommand T

-- `Cli`: the collator options are those of its `run` part.
pub record Cli {O : Outside} {L : CliLib O.Configuration} (T : Tools O L) : Type 0 where
  pub subcommand : Option (Subcommand T)
  pub collator_options : CollatorOptions O
  pub no_hardware_benchmarks : Bool
  pub relay_chain_args : List String

-- The features that the node was built with.
pub record Features : Type 0 where
  pub runtime_benchmarks : Bool
  pub try_runtime : Bool

-- The calls of a run that act on something: the runner, a command's own code, the node's services,
-- and the log.
pub data RunCall (O : Outside) : Type 0 where
  create_runner : RunCall O
  execute : RunCall O
  gather_hwbench : String → RunCall O
  inform : ℕ → Bool → RunCall O
  warn_relay_args : RunCall O
  service : Call O → RunCall O

module _ {O : Outside} {L : CliLib O.Configuration} (T : Tools O L) where
  abbrev pub CommandAction : Type 0 → Type 0
  CommandAction A = Action (RunCall O) T.Error A

  -- `create_runner` and the three ways in which a runner runs a closure over its configuration. The
  -- closure of `async_run` makes a future, which the runner then drives.
  pub record Runners : Type 0 where
    pub create : Option (Subcommand T) → Result T.Error T.Runner
    pub sync_run :
        T.Runner → (O.Configuration → CommandAction (Unit {0})) → CommandAction (Unit {0})
    pub async_run :
        T.Runner
        → (O.Configuration → CommandAction (CommandAction (Unit {0}) × O.TaskManager))
        → CommandAction (Unit {0})
    pub run_node_until_exit :
        T.Runner → (O.Configuration → CommandAction O.TaskManager) → CommandAction (Unit {0})
