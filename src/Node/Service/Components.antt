-- ===== src/Node/Service/Components.antt =====
-- node/src/service.rs: what `new_partial` puts together, and which relay chain interface
-- is built.
use evm_parachain.Base.{
  Bool, true, false, ◌≡◌, ◌≢◌, Option, none, some, [], ◌∷◌, arith, ok, err, any, Result-cases, inl,
  inr,
}
use evm_parachain.Base.Action.{done, panicked}
use evm_parachain.Node.Service.Interface.{Outside}
use evm_parachain.Node.Service.Calls.{
  PartialComponents, Call, spawn, build_minimal_relay_chain_node, build_inprocess_relay_chain,
}
use evm_parachain.Node.Service.Partial.{
  new_partial, endpoints_in_use, handle_of, slot_and_timestamp,
}
use evm_parachain.Node.Service.Start.{build_relay_chain_interface}

module _ (O : Outside) where
  -- The tasks that run the telemetry worker.
  abbrev pub is_spawn : Call O → Bool
  is_spawn (spawn tasks name) = true
  is_spawn _ = false

  abbrev pub is_some : {A : Type 0} → Option A → Bool
  is_some none = false
  is_some (some a) = true

  module _ (config : O.Configuration) (parts : PartialComponents O)
      (built : (new_partial O config).0 ≡ done parts) where
    partial_telemetry :
        let in_use = is_some (endpoints_in_use O (O.telemetry_endpoints config)) in
        (is_some parts.telemetry ≡ in_use)
        × (is_some parts.telemetry_worker_handle ≡ in_use)
        × (any is_spawn (new_partial O config).1 ≡ in_use)
    unfolding new_partial
    partial_telemetry = ground arith

    partial_parts :
        (O.new_full_parts config (handle_of O parts.telemetry) (
            O.new_executor
              (O.wasm_method config)
              (O.default_heap_pages config)
              (O.max_runtime_instances config)
              (O.runtime_cache_size config))
          ≡ ok (parts.client, parts.backend, parts.keystore_container, parts.task_manager))
        × (parts.transaction_pool
            ≡ O.new_full_pool
                (O.transaction_pool config)
                (O.is_authority config)
                (O.prometheus_registry config)
                parts.task_manager
                parts.client)
    unfolding new_partial
    partial_parts = ground arith

    partial_queue :
        (d : O.SlotDuration)
        → O.aura_slot_duration parts.client ≡ ok d
        → O.aura_import_queue parts.client
            (slot_and_timestamp O d)
            (O.prometheus_registry config)
            parts.task_manager
            (handle_of O parts.telemetry)
          ≡ ok parts.import_queue
    unfolding new_partial
    partial_queue d e = ground arith

    partial_slot : (e : O.Error) → O.aura_slot_duration parts.client ≢ err e
    unfolding new_partial
    partial_slot e h = ground arith

    partial_import :
        (d : O.SlotDuration) × (O.aura_slot_duration parts.client ≡ ok d)
        × (O.aura_import_queue parts.client
              (slot_and_timestamp O d)
              (O.prometheus_registry config)
              parts.task_manager
              (handle_of O parts.telemetry)
            ≡ ok parts.import_queue)
    partial_import = elim (Result-cases (O.aura_slot_duration parts.client)) [
      | inl (d, e) ↦ (d, e, partial_queue d e)
      | inr (e, h) ↦ absurd (partial_slot e h)
    ]

  -- A partial node has telemetry, a handle to its worker, and a task that runs the worker, exactly if
  -- its configuration names at least one endpoint. Its client, backend, keystore and task manager are
  -- the ones that were built together; the pool and the import queue are built over that client.
  pub new_partial-done :
      (config : O.Configuration) (parts : PartialComponents O)
      → (new_partial O config).0 ≡ done parts
      → let in_use = is_some (endpoints_in_use O (O.telemetry_endpoints config)) in
        (is_some parts.telemetry ≡ in_use)
        × (is_some parts.telemetry_worker_handle ≡ in_use)
        × (any is_spawn (new_partial O config).1 ≡ in_use)
        × (O.new_full_parts config (handle_of O parts.telemetry) (
              O.new_executor
                (O.wasm_method config)
                (O.default_heap_pages config)
                (O.max_runtime_instances config)
                (O.runtime_cache_size config))
            ≡ ok (parts.client, parts.backend, parts.keystore_container, parts.task_manager))
        × (parts.transaction_pool
            ≡ O.new_full_pool
                (O.transaction_pool config)
                (O.is_authority config)
                (O.prometheus_registry config)
                parts.task_manager
                parts.client)
        × ((d : O.SlotDuration) × (O.aura_slot_duration parts.client ≡ ok d)
            × (O.aura_import_queue parts.client
                  (slot_and_timestamp O d)
                  (O.prometheus_registry config)
                  parts.task_manager
                  (handle_of O parts.telemetry)
                ≡ ok parts.import_queue))
  new_partial-done config parts h =
      let (telemetry, handle, spawned) = partial_telemetry config parts h in
      let (built, pool) = partial_parts config parts h in
      (telemetry, handle, spawned, built, pool, partial_import config parts h)

  -- The relay chain is reached over RPC exactly if an address is given, and then no relay chain node
  -- runs in the process; otherwise one does.
  pub build_relay_chain_interface_lem :
      (polkadot config : O.Configuration) (handle : Option O.TelemetryWorkerHandle)
      (tasks : O.TaskManager) (url : Option O.Url) (bench : Option O.HwBench)
      → let run = build_relay_chain_interface O polkadot config handle tasks url bench in
        ((u : O.Url) → url ≡ some u → run.1 ≡ build_minimal_relay_chain_node polkadot tasks u ∷ [])
        × (url ≡ none → run.1 ≡ build_inprocess_relay_chain polkadot config tasks ∷ [])
        × (run.0 ≢ panicked)
  unfolding build_relay_chain_interface
  build_relay_chain_interface_lem polkadot config handle tasks url bench =
      (λ u e. ground arith, λ e. ground arith, λ e. ground arith)
