-- ===== src/Node/Service/Start.antt =====
-- node/src/service.rs: `build_relay_chain_interface` and `start_node_impl`.
use evm_parachain.Base.{ℕ, Bool, true, false, Option, none, some, map_err}
use evm_parachain.Base.Action.{pure, ◌>>=◌, ◌>>◌, call, try_call, expect}
use evm_parachain.Node.Service.Interface.{Outside, RelayChainError, service_sub, other_relay_error}
use evm_parachain.Node.Service.Calls.{
  Starters, BuildNetworkParams, SpawnTasksParams, StartCollatorParams, StartFullNodeParams,
  ServiceAction, CollatorOptions, PartialComponents, build_minimal_relay_chain_node,
  build_inprocess_relay_chain, build_network, build_offchain_workers, spawn_tasks, print_hwbench,
  spawn, start_collator, start_full_node, start_network,
}
use evm_parachain.Node.Service.Partial.{handle_of, new_partial}
use evm_parachain.Node.Service.Rpc.{create_full}
use evm_parachain.Node.Service.Consensus.{build_consensus}

abbrev pub relay_chain_slot_duration : ℕ
relay_chain_slot_duration = 6

module _ (O : Outside) where
  -- The closure of `map_err` behind the relay chain interface.
  abbrev pub relay_error : RelayChainError O.Error O.OtherRelayError → O.Error
  relay_error (service_sub x) = x
  relay_error (other_relay_error s) = O.to_string_into s

  -- With the error conversion of its one caller.
  unfoldable pub build_relay_chain_interface :
      O.Configuration
      → O.Configuration
      → Option O.TelemetryWorkerHandle
      → O.TaskManager
      → Option O.Url
      → Option O.HwBench
      → ServiceAction O (O.Relay × Option O.CollatorPair)
  build_relay_chain_interface polkadot_config config worker_handle task_manager (some url) hwbench =
      try_call (build_minimal_relay_chain_node polkadot_config task_manager url)
        (map_err relay_error (O.build_minimal_relay_chain_node polkadot_config url))
  build_relay_chain_interface polkadot_config config worker_handle task_manager none hwbench =
      try_call (build_inprocess_relay_chain polkadot_config config task_manager) (
        map_err relay_error
          (O.build_inprocess_relay_chain polkadot_config config worker_handle hwbench))

  abbrev pub offchain_workers :
      O.Configuration → O.TaskManager → O.Client → O.Network → Bool → ServiceAction O (Unit {0})
  offchain_workers config task_manager client network true =
      call (build_offchain_workers config task_manager client network) tt
  offchain_workers config task_manager client network false = pure tt

  abbrev pub network_of : O.Configuration → PartialComponents O → O.Relay → ℕ → BuildNetworkParams O
  network_of config params relay id = record {
    config = config;
    client = params.client;
    transaction_pool = params.transaction_pool;
    spawn_handle = params.task_manager;
    import_queue = params.import_queue;
    block_announce_validator = (relay, id);
  }

  abbrev pub hwbench_telemetry : O.TaskManager → Option O.Telemetry → ServiceAction O (Unit {0})
  hwbench_telemetry task_manager (some telemetry) = call (spawn task_manager "telemetry_hwbench") tt
  hwbench_telemetry task_manager none = pure tt

  abbrev pub report_hwbench :
      O.TaskManager → Option O.Telemetry → Option O.HwBench → ServiceAction O (Unit {0})
  report_hwbench task_manager telemetry (some hwbench) =
      call (print_hwbench hwbench) tt >> hwbench_telemetry task_manager telemetry
  report_hwbench task_manager telemetry none = pure tt

module _ (O : Outside) (S : Starters O) where
  -- The two branches of `if validator`.
  unfoldable pub start_as :
      Bool
      → O.Configuration
      → PartialComponents O
      → O.Relay
      → Option O.CollatorPair
      → O.Network
      → ℕ
      → ServiceAction O (Unit {0})
  unfolding build_consensus
  start_as true config params relay collator_key network id = do
    parachain_consensus ←
        build_consensus O S params.client (O.prometheus_registry config)
          (handle_of O params.telemetry) params.task_manager relay params.transaction_pool network
          params.keystore_container (O.force_authoring config) id
    key ← expect collator_key
    let collator : StartCollatorParams O = record {
      para_id = id;
      block_status = params.client;
      announce_block = network;
      client = params.client;
      task_manager = params.task_manager;
      relay_chain_interface = relay;
      parachain_consensus = parachain_consensus;
      import_queue = params.import_queue;
      collator_key = key;
      relay_chain_slot_duration = relay_chain_slot_duration;
    }
    try_call (start_collator collator) (S.start_collator collator)
  start_as false config params relay collator_key network id =
      let full_node : StartFullNodeParams O = record {
        client = params.client;
        announce_block = network;
        task_manager = params.task_manager;
        para_id = id;
        relay_chain_interface = relay;
        relay_chain_slot_duration = relay_chain_slot_duration;
        import_queue = params.import_queue;
      } in
      try_call (start_full_node full_node) (S.start_full_node full_node)

  -- What the first steps of `start_node_impl` leave to the later ones.
  pub record Prepared : Type 0 where
    pub params : PartialComponents O
    pub relay_chain_interface : O.Relay
    pub collator_key : Option O.CollatorPair
    pub network : O.Network
    pub system_rpc_tx : O.SystemRpcTx
    pub tx_handler_controller : O.TxHandlerController
    pub network_starter : O.NetworkStarter

  -- `start_node_impl` up to the network, over the prepared configuration.
  unfoldable pub prepare :
      O.Configuration
      → O.Configuration
      → CollatorOptions O
      → ℕ
      → Option O.HwBench
      → ServiceAction O Prepared
  prepare config polkadot_config collator_options id hwbench = do
    params ← new_partial O config
    (relay, collator_key) ←
        build_relay_chain_interface O polkadot_config config params.telemetry_worker_handle
          params.task_manager collator_options.relay_chain_rpc_url hwbench
    (network, system_rpc_tx, tx_handler_controller, network_starter) ←
        try_call (build_network (network_of O config params relay id)) (
          O.build_network config params.client params.transaction_pool params.import_queue relay id)
    pure (record {
      params = params;
      relay_chain_interface = relay;
      collator_key = collator_key;
      network = network;
      system_rpc_tx = system_rpc_tx;
      tx_handler_controller = tx_handler_controller;
      network_starter = network_starter;
    })

  abbrev pub tasks_of : O.Configuration → Prepared → SpawnTasksParams O
  tasks_of config n = record {
    rpc_builder = λ deny_unsafe. map_err O.rpc_error_into (
        create_full O (record {
          client = n.params.client;
          pool = n.params.transaction_pool;
          deny_unsafe = deny_unsafe;
        }));
    client = n.params.client;
    transaction_pool = n.params.transaction_pool;
    task_manager = n.params.task_manager;
    config = config;
    keystore = n.params.keystore_container;
    backend = n.params.backend;
    network = n.network;
    system_rpc_tx = n.system_rpc_tx;
    tx_handler_controller = n.tx_handler_controller;
    telemetry = n.params.telemetry;
  }

  -- The rest of `start_node_impl`.
  unfoldable pub finish :
      O.Configuration → ℕ → Option O.HwBench → Prepared → ServiceAction O (O.TaskManager × O.Client)
  finish config id hwbench n = do
    offchain_workers O config n.params.task_manager n.params.client n.network
        (O.offchain_worker_enabled config)
    try_call (spawn_tasks (tasks_of config n)) (S.spawn_tasks (tasks_of config n))
    report_hwbench O n.params.task_manager n.params.telemetry hwbench
    start_as (O.is_authority config) config n.params n.relay_chain_interface n.collator_key
        n.network id
    call (start_network n.network_starter) tt
    pure (n.params.task_manager, n.params.client)

  unfoldable pub start_node_impl :
      O.Configuration
      → O.Configuration
      → CollatorOptions O
      → ℕ
      → Option O.HwBench
      → ServiceAction O (O.TaskManager × O.Client)
  start_node_impl given_config polkadot_config collator_options id hwbench = do
    let config = O.prepare_node_config given_config
    prepared ← prepare config polkadot_config collator_options id hwbench
    finish config id hwbench prepared

  unfoldable pub start_parachain_node :
      O.Configuration
      → O.Configuration
      → CollatorOptions O
      → ℕ
      → Option O.HwBench
      → ServiceAction O (O.TaskManager × O.Client)
  start_parachain_node config polkadot_config collator_options id hwbench =
      start_node_impl config polkadot_config collator_options id hwbench
