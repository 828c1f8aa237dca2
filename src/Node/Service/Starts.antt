-- ===== src/Node/Service/Starts.antt =====
-- node/src/service.rs: whether a node starts, by what its libraries grant.
use evm_parachain.Base.{
  ℕ, Bool, true, false, ◌≡◌, ◌≢◌, refl, Option, none, some, is_ok, is_ok-map_err, ◌∙◌, arith,
}
use evm_parachain.Base.Action.{try_call, lift}
use evm_parachain.Base.Runs.{Succeeds, Succeeds-bind, ending-done}
use evm_parachain.Node.Service.Interface.{Outside}
use evm_parachain.Node.Service.Calls.{
  Starters, CollatorOptions, PartialComponents, SpawnTasksParams, StartCollatorParams,
  StartFullNodeParams, spawn_tasks, build_network,
}
use evm_parachain.Node.Service.Partial.{
  new_partial, build_import_queue, start_telemetry, endpoints_in_use, handle_of, telemetry_of,
  run_worker, slot_and_timestamp,
}
use evm_parachain.Node.Service.Start.{
  network_of, relay_error, build_relay_chain_interface, offchain_workers, report_hwbench, start_as,
  start_node_impl, Prepared, prepare, tasks_of, finish,
}
use evm_parachain.Node.Service.Consensus.{build_consensus}
use evm_parachain.Node.Service.Panics.{GivesKey, prepare-key}

module _ (O : Outside) where
  -- The relay chain is reached, over RPC or in the process.
  abbrev pub Reached : O.Configuration → O.Configuration → Option O.Url → Type 0
  Reached polkadot config (some url) = is_ok (O.build_minimal_relay_chain_node polkadot url) ≡ true
  Reached polkadot config none =
      (h : Option O.TelemetryWorkerHandle) (b : Option O.HwBench)
      → is_ok (O.build_inprocess_relay_chain polkadot config h b) ≡ true

  -- No library refuses what the start of a node asks of it.
  pub record Grants (S : Starters O) (polkadot config : O.Configuration)
      (options : CollatorOptions O) : Type 0 where
    pub worker : is_ok (O.new_worker 16) ≡ true
    pub parts :
        (h : Option O.TelemetryHandle) (e : O.Executor) → is_ok (O.new_full_parts config h e) ≡ true
    pub slot : (c : O.Client) → is_ok (O.aura_slot_duration c) ≡ true
    pub queue :
        (c : O.Client) (f : O.Timestamp → O.Slot × O.Timestamp) (t : O.TaskManager)
        (h : Option O.TelemetryHandle)
        → is_ok (O.aura_import_queue c f (O.prometheus_registry config) t h) ≡ true
    pub relay : Reached polkadot config options.relay_chain_rpc_url
    pub network :
        (c : O.Client) (p : O.Pool) (q : O.ImportQueue) (r : O.Relay) (id : ℕ)
        → is_ok (O.build_network config c p q r id) ≡ true
    pub tasks : (p : SpawnTasksParams O) → is_ok (S.spawn_tasks p) ≡ true
    pub collator : (p : StartCollatorParams O) → is_ok (S.start_collator p) ≡ true
    pub full_node : (p : StartFullNodeParams O) → is_ok (S.start_full_node p) ≡ true

  module _ (S : Starters O) (polkadot config : O.Configuration) (options : CollatorOptions O)
      (G : Grants S polkadot config options) where
    start_telemetry-Succeeds :
        (endpoints : Option O.Endpoints) → Succeeds (start_telemetry O endpoints)
    start_telemetry-Succeeds none = refl
    start_telemetry-Succeeds (some e) = ground (arith, G.worker)

    queue-Succeeds :
        (c : O.Client) (t : O.TaskManager) (h : Option O.TelemetryHandle)
        → Succeeds (build_import_queue O c config h t)
    unfolding build_import_queue
    queue-Succeeds c t h =
        Succeeds-bind (lift (O.aura_slot_duration c)) _
          (ending-done (O.aura_slot_duration c) (G.slot c))
          λ d _. ending-done _ (G.queue c (slot_and_timestamp O d) t h)

    run_worker-Succeeds :
        (t : O.TaskManager) (started : Option (O.TelemetryWorker × O.Telemetry))
        → Succeeds (run_worker O t started)
    run_worker-Succeeds t none = refl
    run_worker-Succeeds t (some s) = refl

    new_partial-Succeeds : Succeeds (new_partial O config)
    unfolding new_partial
    new_partial-Succeeds =
        Succeeds-bind (start_telemetry O (endpoints_in_use O (O.telemetry_endpoints config))) _
          (start_telemetry-Succeeds (endpoints_in_use O (O.telemetry_endpoints config)))
          λ started _.
            Succeeds-bind
              (try_call _ (O.new_full_parts config (handle_of O (telemetry_of O started)) _)) _
              (ending-done _ (G.parts (handle_of O (telemetry_of O started)) _))
              λ (client, backend, keystore, tasks) _.
                Succeeds-bind (run_worker O tasks started) _ (run_worker-Succeeds tasks started)
                  λ _ _.
                    Succeeds-bind
                      (build_import_queue O client config (handle_of O (telemetry_of O started))
                        tasks)
                      _ (queue-Succeeds client tasks (handle_of O (telemetry_of O started)))
                      λ _ _. refl

    relay-Succeeds :
        (h : Option O.TelemetryWorkerHandle) (t : O.TaskManager) (url : Option O.Url)
        (b : Option O.HwBench)
        → Reached polkadot config url
        → Succeeds (build_relay_chain_interface O polkadot config h t url b)
    unfolding build_relay_chain_interface
    relay-Succeeds h t (some u) b r =
        ending-done _
          (is_ok-map_err (relay_error O) (O.build_minimal_relay_chain_node polkadot u) ∙ r)
    relay-Succeeds h t none b r =
        ending-done _ (
          is_ok-map_err (relay_error O) (O.build_inprocess_relay_chain polkadot config h b) ∙ r h b)

    prepare-Succeeds :
        (id : ℕ) (bench : Option O.HwBench)
        → Succeeds (prepare O S config polkadot options id bench)
    unfolding prepare
    prepare-Succeeds id bench =
        Succeeds-bind (new_partial O config) _ new_partial-Succeeds λ params _.
          Succeeds-bind
            (build_relay_chain_interface O polkadot config params.telemetry_worker_handle
              params.task_manager options.relay_chain_rpc_url bench)
            _
            (relay-Succeeds params.telemetry_worker_handle params.task_manager
              options.relay_chain_rpc_url bench G.relay)
            λ (relay, key) _.
              Succeeds-bind
                (try_call (build_network (network_of O config params relay id)) (
                  O.build_network config params.client params.transaction_pool params.import_queue
                    relay id))
                _
                (ending-done _
                  (G.network params.client params.transaction_pool params.import_queue relay id))
                λ _ _. refl

    consensus-Succeeds :
        (c : O.Client) (h : Option O.TelemetryHandle) (t : O.TaskManager) (relay : O.Relay)
        (pool : O.Pool) (net : O.Network) (keystore : O.Keystore) (id : ℕ)
        → Succeeds (
            build_consensus O S c
              (O.prometheus_registry config)
              h
              t
              relay
              pool
              net
              keystore
              (O.force_authoring config)
              id)
    unfolding build_consensus
    consensus-Succeeds c h t relay pool net keystore id =
        Succeeds-bind (lift (O.aura_slot_duration c)) _
          (ending-done (O.aura_slot_duration c) (G.slot c)) λ d _. refl

    start_as-Succeeds :
        (role : Bool) (params : PartialComponents O) (relay : O.Relay) (key : Option O.CollatorPair)
        (net : O.Network) (id : ℕ)
        → (role ≡ true → key ≢ none)
        → Succeeds (start_as O S role config params relay key net id)
    unfolding start_as
    start_as-Succeeds true params relay none net id h = absurd (h refl refl)
    start_as-Succeeds true params relay (some key) net id h =
        let telemetry = handle_of O params.telemetry in
        Succeeds-bind
          (build_consensus O S params.client (O.prometheus_registry config) telemetry
            params.task_manager relay params.transaction_pool net params.keystore_container
            (O.force_authoring config) id)
          _
          (consensus-Succeeds params.client telemetry params.task_manager relay
            params.transaction_pool net params.keystore_container id)
          λ consensus _. ending-done _ (G.collator _)
    start_as-Succeeds false params relay key net id h = ending-done _ (G.full_node _)

    finish-Succeeds :
        (id : ℕ) (bench : Option O.HwBench) (n : Prepared O S)
        → (O.is_authority config ≡ true → n.collator_key ≢ none)
        → Succeeds (finish O S config id bench n)
    unfolding finish
    finish-Succeeds id bench n h =
        Succeeds-bind
          (offchain_workers O config n.params.task_manager n.params.client n.network
            (O.offchain_worker_enabled config))
          _ (ground arith)
          λ _ _.
            Succeeds-bind
              (try_call (spawn_tasks (tasks_of O S config n))
                (S.spawn_tasks (tasks_of O S config n)))
              _ (ending-done _ (G.tasks (tasks_of O S config n)))
              λ _ _.
                Succeeds-bind (report_hwbench O n.params.task_manager n.params.telemetry bench) _
                  (ground arith)
                  λ _ _.
                    Succeeds-bind
                      (start_as O S (O.is_authority config) config n.params n.relay_chain_interface
                        n.collator_key n.network id)
                      _
                      (start_as-Succeeds (O.is_authority config) n.params n.relay_chain_interface
                        n.collator_key n.network id h)
                      λ _ _. refl

  -- A node starts where no library refuses what its start asks, over the prepared configuration, and,
  -- if that makes the node an authority, the relay chain interface comes with a collator's key.
  pub start_node_impl-Succeeds :
      (S : Starters O) (config polkadot : O.Configuration) (options : CollatorOptions O) (id : ℕ)
      (bench : Option O.HwBench)
      → Grants S polkadot (O.prepare_node_config config) options
      → (O.is_authority (O.prepare_node_config config) ≡ true
          → GivesKey O polkadot (O.prepare_node_config config) options.relay_chain_rpc_url)
      → Succeeds (start_node_impl O S config polkadot options id bench)
  unfolding start_node_impl
  start_node_impl-Succeeds S config polkadot options id bench G keyed =
      let prepared = O.prepare_node_config config in
      Succeeds-bind (prepare O S prepared polkadot options id bench) _
        (prepare-Succeeds S polkadot prepared options G id bench)
        λ n made.
          finish-Succeeds S polkadot prepared options G id bench n
            λ authority. prepare-key O S prepared polkadot options id bench n (keyed authority) made
