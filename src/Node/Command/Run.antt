-- ===== src/Node/Command/Run.antt =====
-- node/src/command.rs: `run`, by subcommand, and the start of the node where there is none.
use evm_parachain.Base.{
  ℕ, Bool, true, false, ◌&&◌, Option, none, some, List, [], ◌∷◌, map, String, ◌<>◌, Result, map_err,
  ok_or,
}
use evm_parachain.Base.Action.{
  Ending, done, failed, panicked, pure, fail, ◌>>=◌, ◌>>◌, call, try_call, lift,
}
use evm_parachain.Node.Service.{
  Outside, Starters, PartialComponents, ServiceAction, new_partial, start_parachain_node,
}
use evm_parachain.Node.Cli.{CliLib, RelayChainCli, new, try_get, map_some, text_or_default}
use evm_parachain.Node.Command.Substrate.{cli_methods}
use evm_parachain.Node.Command.Calls.{
  Tools, Cli, Subcommand, BenchmarkCmd, build_spec, check_block, export_blocks, export_state,
  import_blocks, revert, purge_chain, export_genesis_state, export_genesis_wasm, benchmark,
  try_runtime, pallet, block, storage, machine, other_benchmark, Features, create_runner, execute,
  gather_hwbench, inform, warn_relay_args, service, CommandAction, Runners,
}

module _ {O : Outside} {L : CliLib O.Configuration} (T : Tools O L) where
  -- `Cli::native_runtime_version(spec).state_version()`
  abbrev pub state_version : L.ChainSpec → ℕ
  state_version spec = ((cli_methods T).native_runtime_version spec).state_version

  abbrev ending_of : {A : Type 0} → Ending O.Error A → Ending T.Error A
  ending_of (done a) = done a
  ending_of (failed e) = failed (T.from_service e)
  ending_of panicked = panicked

  -- A service's action within a command, with `?`.
  abbrev pub embed : {A : Type 0} → ServiceAction O A → CommandAction T A
  embed m = (ending_of m.0, map service m.1)

  abbrev pub relay_cli : Cli T → O.Configuration → RelayChainCli L
  relay_cli cli config = new L config (T.executable_name ∷ cli.relay_chain_args)

  -- The configuration of the relay chain node, with its error message.
  unfoldable pub polkadot_config : Cli T → O.Configuration → Result T.Error O.Configuration
  polkadot_config cli config =
      map_err (λ e. T.from_text ("Relay chain argument error: " <> e))
        (T.create_configuration (relay_cli cli config) config)

  -- `if !cli.no_hardware_benchmarks { .. }`
  abbrev pub benchmark_hardware : Bool → Option String → CommandAction T (Option O.HwBench)
  benchmark_hardware true path = pure none
  benchmark_hardware false none = pure none
  benchmark_hardware false (some path) = call (gather_hwbench path) (some (T.gather_hwbench path))

  abbrev pub no_para_id : T.Error
  no_para_id = T.from_text "Could not find parachain ID in chain-spec."

  abbrev is_given : Option O.Url → Bool
  is_given none = false
  is_given (some url) = true

  abbrev is_nonempty : List String → Bool
  is_nonempty [] = false
  is_nonempty (x ∷ xs) = true

  abbrev pub warn_if : Bool → CommandAction T (Unit {0})
  warn_if true = call warn_relay_args tt
  warn_if false = pure tt

  -- What the closure of `run_node_until_exit` computes before it starts the node. The genesis block
  -- only goes to the log, so only its error matters.
  pub record NodeSetup : Type 0 where
    pub hwbench : Option O.HwBench
    pub para_id : ℕ
    pub polkadot_config : O.Configuration

  unfoldable pub node_setup : Cli T → O.Configuration → CommandAction T NodeSetup
  unfolding try_get polkadot_config
  node_setup cli config = do
    hwbench ← benchmark_hardware cli.no_hardware_benchmarks (T.database_path config)
    id ← lift (ok_or (map_some (λ e. e.para_id) (try_get L (L.chain_spec config))) no_para_id)
    genesis ← lift (
        map_err T.from_text
          (T.generate_genesis_block (L.chain_spec config) (state_version (L.chain_spec config))))
    polkadot ← lift (polkadot_config cli config)
    pure (record { hwbench = hwbench; para_id = id; polkadot_config = polkadot })

  -- The log lines before the start.
  abbrev pub announce : Cli T → O.Configuration → ℕ → CommandAction T (Unit {0})
  announce cli config id = do
    call (inform id (O.is_authority config)) tt
    warn_if (is_given cli.collator_options.relay_chain_rpc_url && is_nonempty cli.relay_chain_args)

  -- The closure of `run_node_until_exit`.
  unfoldable pub run_node : Starters O → Cli T → O.Configuration → CommandAction T O.TaskManager
  run_node S cli config = do
    n ← node_setup cli config
    announce cli config n.para_id
    (task_manager, client) ←
        embed (
          start_parachain_node O S config n.polkadot_config cli.collator_options n.para_id
            n.hwbench)
    pure task_manager

  -- A command's future, which does its work when it is driven.
  abbrev pub future : T.Future → CommandAction T (Unit {0})
  future f = try_call execute (T.output f)

  -- What a closure makes, and then its future.
  abbrev pub driven :
      CommandAction T (CommandAction T (Unit {0}) × O.TaskManager) → CommandAction T (Unit {0})
  driven made = made >>= λ (work, tasks). work

  -- `construct_async_run!`
  abbrev pub with_components :
      (PartialComponents O → O.Configuration → T.Future)
      → O.Configuration
      → CommandAction T (CommandAction T (Unit {0}) × O.TaskManager)
  with_components body config = do
    components ← embed (new_partial O config)
    pure (future (body components config), components.task_manager)

module _ {O : Outside} {L : CliLib O.Configuration} (T : Tools O L) (R : Runners T)
    (F : Features) where
  abbrev runner_for : Subcommand T → CommandAction T T.Runner
  runner_for sub = try_call create_runner (R.create (some sub))

  abbrev async_command :
      Subcommand T → (PartialComponents O → O.Configuration → T.Future) → CommandAction T (Unit {0})
  async_command sub body = do runner ← runner_for sub; R.async_run runner (with_components T body)

  -- `cli.load_spec(&cmd.shared_params.chain.clone().unwrap_or_default())?`
  abbrev pub spec_of : Option String → CommandAction T L.ChainSpec
  spec_of chain = lift (map_err T.from_text ((cli_methods T).load_spec (text_or_default chain)))

  abbrev pub benchmarks_disabled : String
  benchmarks_disabled =
      "Benchmarking wasn't enabled when building the node. You can enable it with `--features runtime-benchmarks`."

  abbrev pub storage_disabled : String
  storage_disabled = "Compile with --features=runtime-benchmarks to enable storage benchmarks."

  abbrev pub try_runtime_disabled : String
  try_runtime_disabled = "Try-runtime must be enabled by `--features try-runtime`."

  -- The match on the benchmark command, with the runner that was made.
  unfoldable pub run_benchmark : T.Runner → BenchmarkCmd T → Bool → CommandAction T (Unit {0})
  run_benchmark runner (pallet cmd) true =
      R.sync_run runner λ config. try_call execute (T.pallet_run cmd config)
  run_benchmark runner (pallet cmd) false = fail (T.from_text benchmarks_disabled)
  run_benchmark runner (block cmd) built = R.sync_run runner λ config. do
    partials ← embed T (new_partial O config)
    try_call execute (T.block_run cmd partials.client)
  run_benchmark runner (storage cmd) false = fail (T.from_text storage_disabled)
  run_benchmark runner (storage cmd) true = R.sync_run runner λ config. do
    partials ← embed T (new_partial O config)
    try_call execute (T.storage_run cmd config partials.client partials.backend)
  run_benchmark runner (machine cmd) built =
      R.sync_run runner λ config. try_call execute (T.machine_run cmd config)
  run_benchmark runner (other_benchmark cmd) built =
      fail (T.from_text "Benchmarking sub-command unsupported")

  abbrev pub run_try_runtime : T.TryRuntimeCmd → Bool → CommandAction T (Unit {0})
  run_try_runtime cmd true = do
    runner ← runner_for (try_runtime cmd)
    task_manager ← lift (T.new_task_manager (T.runner_config runner))
    R.async_run runner λ config. pure (future T (T.try_runtime_run cmd config), task_manager)
  run_try_runtime cmd false = fail (T.from_text try_runtime_disabled)

  unfoldable pub run_subcommand : Cli T → Subcommand T → CommandAction T (Unit {0})
  unfolding run_benchmark polkadot_config
  run_subcommand cli (build_spec cmd) = do
    runner ← runner_for (build_spec cmd)
    R.sync_run runner λ config. try_call execute (T.build_spec_run cmd config)
  run_subcommand cli (check_block cmd) =
      async_command (check_block cmd)
        λ parts config. T.check_block_run cmd parts.client parts.import_queue
  run_subcommand cli (export_blocks cmd) =
      async_command (export_blocks cmd) λ parts config. T.export_blocks_run cmd parts.client config
  run_subcommand cli (export_state cmd) =
      async_command (export_state cmd) λ parts config. T.export_state_run cmd parts.client config
  run_subcommand cli (import_blocks cmd) =
      async_command (import_blocks cmd)
        λ parts config. T.import_blocks_run cmd parts.client parts.import_queue
  run_subcommand cli (revert cmd) =
      async_command (revert cmd) λ parts config. T.revert_run cmd parts.client parts.backend
  run_subcommand cli (purge_chain cmd) = do
    runner ← runner_for (purge_chain cmd)
    R.sync_run runner λ config. do
      polkadot ← lift (polkadot_config T cli config)
      try_call execute (T.purge_chain_run cmd config polkadot)
  run_subcommand cli (export_genesis_state cmd) = do
    runner ← runner_for (export_genesis_state cmd)
    R.sync_run runner λ config. do
      spec ← spec_of (T.state_chain cmd)
      try_call execute (T.export_genesis_state_run cmd spec (state_version T spec))
  run_subcommand cli (export_genesis_wasm cmd) = do
    runner ← runner_for (export_genesis_wasm cmd)
    R.sync_run runner λ config. do
      spec ← spec_of (T.wasm_chain cmd)
      try_call execute (T.export_genesis_wasm_run cmd spec)
  run_subcommand cli (benchmark cmd) = do
    runner ← runner_for (benchmark cmd)
    run_benchmark runner cmd F.runtime_benchmarks
  run_subcommand cli (try_runtime cmd) = run_try_runtime cmd F.try_runtime

  unfoldable pub run_cli : Starters O → Cli T → Option (Subcommand T) → CommandAction T (Unit {0})
  unfolding run_subcommand
  run_cli S cli (some sub) = run_subcommand cli sub
  run_cli S cli none = do
    runner ← try_call create_runner (R.create none)
    R.run_node_until_exit runner (run_node T S cli)

  -- `run`, after the arguments were parsed.
  unfoldable pub run : Starters O → Cli T → CommandAction T (Unit {0})
  unfolding run_cli
  run S cli = run_cli S cli cli.subcommand
