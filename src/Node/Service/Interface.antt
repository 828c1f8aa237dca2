-- ===== src/Node/Service/Interface.antt =====
-- What node/src/service.rs takes from sc_service, cumulus and the other libraries.
use evm_parachain.Base.{ℕ, Bool, Option, Result}

-- The error of starting the relay chain: a service error of the substrate side, or another.
pub data RelayChainError (E R : Type 0) : Type 0 where
  service_sub : E → RelayChainError E R
  other_relay_error : R → RelayChainError E R

pub record Outside : Type 1 where
  -- `sc_service::Error`, with the texts that are made into one.
  pub Error : Type 0
  pub OtherRelayError : Type 0
  pub to_string_into : OtherRelayError → Error
  -- `sc_service::Configuration` and what is read of it.
  pub Configuration : Type 0
  pub Endpoints : Type 0
  pub WasmMethod : Type 0
  pub PoolOptions : Type 0
  pub Registry : Type 0
  pub telemetry_endpoints : Configuration → Option Endpoints
  pub is_empty : Endpoints → Bool
  pub wasm_method : Configuration → WasmMethod
  pub default_heap_pages : Configuration → Option ℕ
  pub max_runtime_instances : Configuration → Option ℕ
  pub runtime_cache_size : Configuration → ℕ
  pub transaction_pool : Configuration → PoolOptions
  pub is_authority : Configuration → Bool
  pub prometheus_registry : Configuration → Option Registry
  pub force_authoring : Configuration → Bool
  pub offchain_worker_enabled : Configuration → Bool
  pub prepare_node_config : Configuration → Configuration
  -- Telemetry.
  pub TelemetryWorker : Type 0
  pub TelemetryWorkerHandle : Type 0
  pub Telemetry : Type 0
  pub TelemetryHandle : Type 0
  pub new_worker : ℕ → Result Error TelemetryWorker
  pub worker_handle : TelemetryWorker → TelemetryWorkerHandle
  pub new_telemetry : TelemetryWorkerHandle → Endpoints → Telemetry
  pub telemetry_handle : Telemetry → TelemetryHandle
  -- The parts of a node.
  pub Executor : Type 0
  pub Client : Type 0
  pub Backend : Type 0
  pub Keystore : Type 0
  pub TaskManager : Type 0
  pub Pool : Type 0
  pub ImportQueue : Type 0
  pub new_executor : WasmMethod → Option ℕ → Option ℕ → ℕ → Executor
  pub new_full_parts :
      Configuration
      → Option TelemetryHandle
      → Executor
      → Result Error (Client × Backend × Keystore × TaskManager)
  pub new_full_pool : PoolOptions → Bool → Option Registry → TaskManager → Client → Pool
  -- Consensus.
  pub SlotDuration : Type 0
  pub Timestamp : Type 0
  pub Slot : Type 0
  pub aura_slot_duration : Client → Result Error SlotDuration
  pub slot_from_timestamp : Timestamp → SlotDuration → Slot
  pub aura_import_queue :
      Client
      → (Timestamp → Slot × Timestamp)
      → Option Registry
      → TaskManager
      → Option TelemetryHandle
      → Result Error ImportQueue
  pub RelayParent : Type 0
  pub ValidationData : Type 0
  pub ParachainInherent : Type 0
  pub Consensus : Type 0
  pub ProposerFactory : Type 0
  pub SlotProportion : Type 0
  -- `SlotProportion::new` of a quotient of two floats.
  pub slot_proportion : ℕ → ℕ → SlotProportion
  pub proposer_factory :
      TaskManager → Client → Pool → Option Registry → Option TelemetryHandle → ProposerFactory
  -- The relay chain.
  pub Url : Type 0
  pub HwBench : Type 0
  pub Relay : Type 0
  pub CollatorPair : Type 0
  pub create_at : RelayParent → Relay → ValidationData → ℕ → Option ParachainInherent
  pub build_minimal_relay_chain_node :
      Configuration
      → Url
      → Result (RelayChainError Error OtherRelayError) (Relay × Option CollatorPair)
  pub build_inprocess_relay_chain :
      Configuration
      → Configuration
      → Option TelemetryWorkerHandle
      → Option HwBench
      → Result (RelayChainError Error OtherRelayError) (Relay × Option CollatorPair)
  -- The network and the tasks.
  pub Network : Type 0
  pub SystemRpcTx : Type 0
  pub TxHandlerController : Type 0
  pub NetworkStarter : Type 0
  pub build_network :
      Configuration
      → Client
      → Pool
      → ImportQueue
      → Relay
      → ℕ
      → Result Error (Network × SystemRpcTx × TxHandlerController × NetworkStarter)
  -- RPC.
  pub DenyUnsafe : Type 0
  pub RpcModule : Type 0
  pub Methods : Type 0
  pub RpcError : Type 0
  pub empty_module : RpcModule
  pub system_rpc : Client → Pool → DenyUnsafe → Methods
  pub transaction_payment_rpc : Client → Methods
  pub merge : RpcModule → Methods → Result RpcError RpcModule
  pub rpc_error_into : RpcError → Error
