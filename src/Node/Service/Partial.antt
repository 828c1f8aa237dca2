-- ===== src/Node/Service/Partial.antt =====
-- node/src/service.rs: `new_partial`, the parts of a node that chain operations need, and
-- `build_import_queue`.
use evm_parachain.Base.{Option, none, some, if◌then◌else◌}
use evm_parachain.Base.Action.{pure, ◌>>=◌, ◌>>◌, call, try_call, lift}
use evm_parachain.Node.Service.Interface.{Outside}
use evm_parachain.Node.Service.Calls.{
  PartialComponents, ServiceAction, new_worker, new_full_parts, spawn, new_full_pool, import_queue,
}

module _ (O : Outside) where
  -- `telemetry_endpoints.clone().filter(|x| !x.is_empty())`
  abbrev pub endpoints_in_use : Option O.Endpoints → Option O.Endpoints
  endpoints_in_use none = none
  endpoints_in_use (some endpoints) = if O.is_empty endpoints then none else some endpoints

  -- The closure of `map`, with `transpose` and `?` after it.
  abbrev pub start_telemetry :
      Option O.Endpoints → ServiceAction O (Option (O.TelemetryWorker × O.Telemetry))
  start_telemetry none = pure none
  start_telemetry (some endpoints) = do
    worker ← try_call (new_worker 16) (O.new_worker 16)
    pure (some (worker, O.new_telemetry (O.worker_handle worker) endpoints))

  abbrev pub worker_of : Option (O.TelemetryWorker × O.Telemetry) → Option O.TelemetryWorkerHandle
  worker_of none = none
  worker_of (some (worker, telemetry)) = some (O.worker_handle worker)

  abbrev pub telemetry_of : Option (O.TelemetryWorker × O.Telemetry) → Option O.Telemetry
  telemetry_of none = none
  telemetry_of (some (worker, telemetry)) = some telemetry

  abbrev pub handle_of : Option O.Telemetry → Option O.TelemetryHandle
  handle_of none = none
  handle_of (some telemetry) = some (O.telemetry_handle telemetry)

  -- The second `telemetry.map`, which starts the worker.
  abbrev pub run_worker :
      O.TaskManager → Option (O.TelemetryWorker × O.Telemetry) → ServiceAction O (Unit {0})
  run_worker task_manager none = pure tt
  run_worker task_manager (some (worker, telemetry)) = call (spawn task_manager "telemetry") tt

  -- `build_import_queue`; the closure makes the slot of the system's time.
  abbrev pub slot_and_timestamp : O.SlotDuration → O.Timestamp → O.Slot × O.Timestamp
  slot_and_timestamp slot_duration timestamp =
      (O.slot_from_timestamp timestamp slot_duration, timestamp)

  unfoldable pub build_import_queue :
      O.Client
      → O.Configuration
      → Option O.TelemetryHandle
      → O.TaskManager
      → ServiceAction O O.ImportQueue
  build_import_queue client config telemetry task_manager = do
    slot_duration ← lift (O.aura_slot_duration client)
    try_call
        (import_queue task_manager client (slot_and_timestamp slot_duration)
          (O.prometheus_registry config) telemetry)
        (O.aura_import_queue client (slot_and_timestamp slot_duration)
          (O.prometheus_registry config) task_manager telemetry)

  unfoldable pub new_partial : O.Configuration → ServiceAction O (PartialComponents O)
  unfolding build_import_queue
  new_partial config = do
    started ← start_telemetry (endpoints_in_use (O.telemetry_endpoints config))
    let executor =
        O.new_executor (O.wasm_method config) (O.default_heap_pages config)
          (O.max_runtime_instances config) (O.runtime_cache_size config)
    let early_handle = handle_of (telemetry_of started)
    (client, backend, keystore_container, task_manager) ←
        try_call (new_full_parts config early_handle executor)
          (O.new_full_parts config early_handle executor)
    run_worker task_manager started
    transaction_pool ← call (new_full_pool task_manager client) (
        O.new_full_pool (O.transaction_pool config) (O.is_authority config)
          (O.prometheus_registry config) task_manager client)
    queue ← build_import_queue client config (handle_of (telemetry_of started)) task_manager
    pure (record {
      client = client;
      backend = backend;
      import_queue = queue;
      keystore_container = keystore_container;
      task_manager = task_manager;
      transaction_pool = transaction_pool;
      telemetry = telemetry_of started;
      telemetry_worker_handle = worker_of started;
    })
