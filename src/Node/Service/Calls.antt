-- ===== src/Node/Service/Calls.antt =====
-- node/src/service.rs: the parameter structs that it fills, and the calls that act on the node.
use evm_parachain.Base.{ℕ, Bool, Option, String, Result}
use evm_parachain.Base.Action.{Action}
use evm_parachain.Node.Service.Interface.{Outside}

module _ (O : Outside) where
  -- `PartialComponents`
  pub record PartialComponents : Type 0 where
    pub client : O.Client
    pub backend : O.Backend
    pub import_queue : O.ImportQueue
    pub keystore_container : O.Keystore
    pub task_manager : O.TaskManager
    pub transaction_pool : O.Pool
    pub telemetry : Option O.Telemetry
    pub telemetry_worker_handle : Option O.TelemetryWorkerHandle

  -- `BuildNetworkParams`; the validator of block announcements is over the relay chain and the parachain id.
  pub record BuildNetworkParams : Type 0 where
    pub config : O.Configuration
    pub client : O.Client
    pub transaction_pool : O.Pool
    pub spawn_handle : O.TaskManager
    pub import_queue : O.ImportQueue
    pub block_announce_validator : O.Relay × ℕ

  -- `SpawnTasksParams`
  pub record SpawnTasksParams : Type 0 where
    pub rpc_builder : O.DenyUnsafe → Result O.Error O.RpcModule
    pub client : O.Client
    pub transaction_pool : O.Pool
    pub task_manager : O.TaskManager
    pub config : O.Configuration
    pub keystore : O.Keystore
    pub backend : O.Backend
    pub network : O.Network
    pub system_rpc_tx : O.SystemRpcTx
    pub tx_handler_controller : O.TxHandlerController
    pub telemetry : Option O.Telemetry

  -- `BuildAuraConsensusParams`
  pub record BuildAuraConsensusParams : Type 0 where
    pub proposer_factory : O.ProposerFactory
    pub create_inherent_data_providers :
        O.Timestamp
        → O.RelayParent
        → O.ValidationData
        → Result String (O.Slot × O.Timestamp × O.ParachainInherent)
    pub block_import : O.Client
    pub para_client : O.Client
    pub sync_oracle : O.Network
    pub keystore : O.Keystore
    pub force_authoring : Bool
    pub slot_duration : O.SlotDuration
    pub block_proposal_slot_portion : O.SlotProportion
    pub max_block_proposal_slot_portion : Option O.SlotProportion
    pub telemetry : Option O.TelemetryHandle

  -- `StartCollatorParams`; the announcer of blocks is the network's.
  pub record StartCollatorParams : Type 0 where
    pub para_id : ℕ
    pub block_status : O.Client
    pub announce_block : O.Network
    pub client : O.Client
    pub task_manager : O.TaskManager
    pub relay_chain_interface : O.Relay
    pub parachain_consensus : O.Consensus
    pub import_queue : O.ImportQueue
    pub collator_key : O.CollatorPair
    pub relay_chain_slot_duration : ℕ

  -- `StartFullNodeParams`
  pub record StartFullNodeParams : Type 0 where
    pub client : O.Client
    pub announce_block : O.Network
    pub task_manager : O.TaskManager
    pub para_id : ℕ
    pub relay_chain_interface : O.Relay
    pub relay_chain_slot_duration : ℕ
    pub import_queue : O.ImportQueue

  -- The collator options that the service reads.
  pub record CollatorOptions : Type 0 where
    pub relay_chain_rpc_url : Option O.Url

  pub data Call : Type 0 where
    new_worker : ℕ → Call
    new_full_parts : O.Configuration → Option O.TelemetryHandle → O.Executor → Call
    spawn : O.TaskManager → String → Call
    new_full_pool : O.TaskManager → O.Client → Call
    import_queue :
        O.TaskManager
        → O.Client
        → (O.Timestamp → O.Slot × O.Timestamp)
        → Option O.Registry
        → Option O.TelemetryHandle
        → Call
    build_minimal_relay_chain_node : O.Configuration → O.TaskManager → O.Url → Call
    build_inprocess_relay_chain : O.Configuration → O.Configuration → O.TaskManager → Call
    build_network : BuildNetworkParams → Call
    build_offchain_workers : O.Configuration → O.TaskManager → O.Client → O.Network → Call
    spawn_tasks : SpawnTasksParams → Call
    print_hwbench : O.HwBench → Call
    build_consensus : BuildAuraConsensusParams → Call
    start_collator : StartCollatorParams → Call
    start_full_node : StartFullNodeParams → Call
    start_network : O.NetworkStarter → Call

  abbrev pub ServiceAction : Type 0 → Type 0
  ServiceAction A = Action Call O.Error A

-- The answers of the last calls: an action's result or an error.
pub record Starters (O : Outside) : Type 0 where
  pub build_consensus : BuildAuraConsensusParams O → O.Consensus
  pub spawn_tasks : SpawnTasksParams O → Result O.Error (Unit {0})
  pub start_collator : StartCollatorParams O → Result O.Error (Unit {0})
  pub start_full_node : StartFullNodeParams O → Result O.Error (Unit {0})
