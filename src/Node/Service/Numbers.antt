-- ===== src/Node/Service/Numbers.antt =====
-- The libraries of the service over numbers: a configuration is its authority flag, whether it
-- names telemetry endpoints, and a slot duration if the chain has one.
use evm_parachain.Base.{
  ℕ, zero, suc, if◌then◌else◌, ◌+◌, ◌/◌, Bool, true, false, Option, none, some, ok, err, Result,
  List, [], ◌∷◌, ◌++◌, ◌||◌, ◌==◌, any,
}
use evm_parachain.Node.Service.Interface.{Outside}
use evm_parachain.Node.Service.Calls.{Starters, CollatorOptions}

abbrev pub validation_of : ℕ → Option ℕ
validation_of zero = none
validation_of (suc n) = some n

-- A method is its number; one that is taken fails the merge.
abbrev pub shares : List ℕ → List ℕ → Bool
shares [] ys = false
shares (x ∷ xs) ys = any (λ y. x == y) ys || shares xs ys

abbrev pub merge_names : List ℕ → List ℕ → Result ℕ (List ℕ)
merge_names m methods = if shares m methods then err 19 else ok (m ++ methods)

abbrev pub over_numbers : Outside
over_numbers = record {
  Error = ℕ;
  OtherRelayError = ℕ;
  to_string_into = λ e. e;
  Configuration = Bool × Bool;
  Endpoints = ℕ;
  WasmMethod = ℕ;
  PoolOptions = ℕ;
  Registry = ℕ;
  telemetry_endpoints = λ config. if config.1 then some 1 else none;
  is_empty = λ endpoints. false;
  wasm_method = λ config. 0;
  default_heap_pages = λ config. none;
  max_runtime_instances = λ config. some 8;
  runtime_cache_size = λ config. 2;
  transaction_pool = λ config. 0;
  is_authority = λ config. config.0;
  prometheus_registry = λ config. none;
  force_authoring = λ config. false;
  offchain_worker_enabled = λ config. true;
  prepare_node_config = λ config. config;
  TelemetryWorker = ℕ;
  TelemetryWorkerHandle = ℕ;
  Telemetry = ℕ;
  TelemetryHandle = ℕ;
  new_worker = λ size. ok size;
  worker_handle = λ worker. worker + 1;
  new_telemetry = λ handle endpoints. handle + endpoints;
  telemetry_handle = λ telemetry. telemetry;
  Executor = ℕ;
  Client = ℕ;
  Backend = ℕ;
  Keystore = ℕ;
  TaskManager = ℕ;
  Pool = ℕ;
  ImportQueue = ℕ;
  new_executor = λ method pages instances cache. cache;
  new_full_parts = λ config handle executor. ok (1, 2, 3, 4);
  new_full_pool = λ options authority registry tasks client. 5;
  SlotDuration = ℕ;
  Timestamp = ℕ;
  Slot = ℕ;
  aura_slot_duration = λ client. ok 12000;
  slot_from_timestamp = λ t d. t / d;
  aura_import_queue = λ client slots registry tasks telemetry. ok 6;
  RelayParent = ℕ;
  ValidationData = ℕ;
  ParachainInherent = ℕ;
  Consensus = ℕ;
  ProposerFactory = ℕ;
  SlotProportion = ℕ;
  slot_proportion = λ n d. d;
  proposer_factory = λ tasks client pool registry telemetry. 7;
  Url = ℕ;
  HwBench = ℕ;
  Relay = ℕ;
  CollatorPair = ℕ;
  create_at = λ parent relay validation id. validation_of validation;
  build_minimal_relay_chain_node = λ config url. ok (8, none);
  build_inprocess_relay_chain = λ polkadot config handle bench. ok (9, some 10);
  Network = ℕ;
  SystemRpcTx = ℕ;
  TxHandlerController = ℕ;
  NetworkStarter = ℕ;
  build_network = λ config client pool queue relay id. ok (11, 12, 13, 14);
  DenyUnsafe = Bool;
  RpcModule = List ℕ;
  Methods = List ℕ;
  RpcError = ℕ;
  empty_module = [];
  system_rpc = λ client pool deny. if deny then 1 ∷ 2 ∷ [] else 1 ∷ 2 ∷ 3 ∷ [];
  transaction_payment_rpc = λ client. 4 ∷ [];
  merge = merge_names;
  rpc_error_into = λ e. e;
}

abbrev pub starters : Starters over_numbers
starters = record {
  build_consensus = λ params. 15;
  spawn_tasks = λ params. ok tt;
  start_collator = λ params. ok tt;
  start_full_node = λ params. ok tt;
}

-- Without an address the relay chain node runs in the process; at the address there is no key.
abbrev pub options : CollatorOptions over_numbers
options = record { relay_chain_rpc_url = none }

abbrev pub over_rpc : CollatorOptions over_numbers
over_rpc = record { relay_chain_rpc_url = some 80 }

abbrev pub validator : Bool × Bool
validator = (true, true)

abbrev pub full_node : Bool × Bool
full_node = (false, false)
