-- ===== src/Node/Command/Texts.antt =====
-- The libraries of the command over texts, above the service over numbers.
use evm_parachain.Base.{ℕ, Bool, false, Option, none, some, [], ◌∷◌, String, Result, ok, err}
use evm_parachain.Base.Action.{◌>>=◌, Ending, done, failed, panicked}
use evm_parachain.Node.ChainSpec.{Extensions, GenesisSpec}
use evm_parachain.Node.ChainSpec.Tests.{over_texts}
use evm_parachain.Node.Service.Numbers.{over_numbers, options, full_node, validator}
use evm_parachain.Runtime.Apis.{version}
use evm_parachain.Node.Cli.{CliLib}
use evm_parachain.Node.Cli.Tests.{lists_with, extensions}
use evm_parachain.Node.Command.Calls.{Tools, Cli, Subcommand, benchmark, pallet, Features, Runners}

abbrev pub spec_version_table : ℕ
spec_version_table = 1

abbrev pub lib_with : Option Extensions → CliLib (Bool × Bool)
lib_with found = lists_with (λ config. found) (λ config. none)

abbrev pub from_spec : GenesisSpec (over_texts none) → Option Extensions
from_spec spec = some spec.extensions

abbrev pub texts : (found : Option Extensions) → Tools over_numbers (lib_with found)
texts found = record {
  ApiVersions = ℕ;
  runtime_api_versions = spec_version_table;
  Error = String;
  from_text = λ s. s;
  from_service = λ e. "service";
  from_cli = λ e. "cli";
  Future = ℕ;
  output = λ f. ok tt;
  Runner = ℕ;
  BuildSpecCmd = ℕ;
  CheckBlockCmd = ℕ;
  ExportBlocksCmd = ℕ;
  ExportStateCmd = ℕ;
  ImportBlocksCmd = ℕ;
  RevertCmd = ℕ;
  PurgeChainCmd = ℕ;
  ExportGenesisStateCommand = ℕ;
  ExportGenesisWasmCommand = ℕ;
  PalletCmd = ℕ;
  BlockCmd = ℕ;
  StorageCmd = ℕ;
  MachineCmd = ℕ;
  OtherBenchmark = ℕ;
  TryRuntimeCmd = ℕ;
  build_spec_run = λ cmd config. ok tt;
  check_block_run = λ cmd client queue. cmd;
  export_blocks_run = λ cmd client config. cmd;
  export_state_run = λ cmd client config. cmd;
  import_blocks_run = λ cmd client queue. cmd;
  revert_run = λ cmd client backend. cmd;
  purge_chain_run = λ cmd config polkadot. ok tt;
  state_chain = λ cmd. none;
  wasm_chain = λ cmd. none;
  export_genesis_state_run = λ cmd spec version. ok tt;
  export_genesis_wasm_run = λ cmd spec. ok tt;
  pallet_run = λ cmd config. ok tt;
  block_run = λ cmd client. ok tt;
  storage_run = λ cmd config client backend. ok tt;
  machine_run = λ cmd config. ok tt;
  try_runtime_run = λ cmd config. cmd;
  runner_config = λ runner. validator;
  new_task_manager = λ config. ok 4;
  genesis = over_texts none;
  from_genesis = from_spec;
  from_json_file = λ path. err path;
  polkadot_load_spec = λ args id. err "no specification";
  polkadot_native_runtime_version = λ spec. version spec_version_table;
  substrate_cli_impl_version = "0.1.0";
  cargo_pkg_authors = "authors";
  executable_name = "node";
  create_configuration = λ cli config. ok full_node;
  database_path = λ config. some "/data";
  gather_hwbench = λ path. 3;
  Block = ℕ;
  generate_genesis_block = λ spec version. ok version;
}

abbrev pub without_value : {A : Type 0} → Ending String A → Ending String (Unit {0})
without_value (done a) = done tt
without_value (failed e) = failed e
without_value panicked = panicked

abbrev pub runners : (found : Option Extensions) → Result String ℕ → Runners (texts found)
runners found made = record {
  create = λ sub. made;
  sync_run = λ runner body. body validator;
  async_run = λ runner body. body validator >>= λ (work, tasks). work;
  run_node_until_exit = λ runner body. (without_value (body validator).0, (body validator).1);
}

abbrev pub lib : CliLib (Bool × Bool)
lib = lib_with (some extensions)

abbrev pub present : Option Extensions
present = some extensions

abbrev pub plain : Features
plain = record { runtime_benchmarks = false; try_runtime = false }

abbrev pub cli_for :
    (found : Option Extensions) → Option (Subcommand (texts found)) → Cli (texts found)
cli_for found sub = record {
  subcommand = sub;
  collator_options = options;
  no_hardware_benchmarks = false;
  relay_chain_args = "--dev" ∷ [];
}

abbrev pub command : Subcommand (texts present)
command = benchmark (pallet 1)
