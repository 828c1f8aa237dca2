-- ===== src/Node/Service/Phases/Start.antt =====
-- node/src/service.rs against the state machine of a node's start.
use evm_parachain.Base.{ℕ, Bool, true, false, ◌≡◌, refl, Option, none, some}
use evm_parachain.Base.Runs.{is_done}
use evm_parachain.Base.Machine.{
  Trace, Follows, Follows-bind, Follows-pure, Follows-call, Follows-try, Follows-lift,
  Follows-expect, Follows-final, Follows-go,
}
use evm_parachain.Node.Service.Interface.{Outside}
use evm_parachain.Node.Service.Calls.{
  Starters, CollatorOptions, PartialComponents, new_worker, new_full_parts, spawn, import_queue,
  build_minimal_relay_chain_node, build_inprocess_relay_chain, build_network,
  build_offchain_workers, spawn_tasks, print_hwbench, build_consensus, start_collator,
  start_full_node, start_network,
}
use evm_parachain.Node.Service.Partial.{
  start_telemetry, slot_and_timestamp, endpoints_in_use, run_worker, build_import_queue, handle_of,
  telemetry_of, new_partial,
}
use evm_parachain.Node.Service.Consensus.{build_consensus as consensus_of}
use evm_parachain.Node.Service.Start.{
  network_of, build_relay_chain_interface, offchain_workers, report_hwbench, start_as, Prepared,
  prepare, tasks_of, finish, start_node_impl,
}
use evm_parachain.Node.Service.Phases.{
  Phase, is_open, Step, bare, equipped, pooled, assembled, connected, networked, tasked, producing,
  staffed, open_network, worker, parts, telemetry, pool, queue, remote, inprocess, network,
  offchain, tasks, hwbench, report, consensus, collator, full_node, opens,
}

module _ (O : Outside) where
  module _ (role : Bool) where
    telemetry-Follows :
        (endpoints : Option O.Endpoints)
        → Follows (Step O role) is_open bare bare (start_telemetry O endpoints)
    telemetry-Follows none = Follows-pure none
    telemetry-Follows (some endpoints) =
        Follows-bind (Follows-try (new_worker 16) (O.new_worker 16) (worker 16) refl)
          λ w. Follows-pure _

    run_worker-Follows :
        (manager : O.TaskManager) (started : Option (O.TelemetryWorker × O.Telemetry))
        → Follows (Step O role) is_open equipped equipped (run_worker O manager started)
    run_worker-Follows manager none = Follows-pure tt
    run_worker-Follows manager (some (w, t)) =
        Follows-call (spawn manager "telemetry") tt (telemetry manager "telemetry")

    queue-Follows :
        (client : O.Client) (config : O.Configuration) (handle : Option O.TelemetryHandle)
        (manager : O.TaskManager)
        → Follows
            (Step O role)
            is_open
            pooled
            assembled
            (build_import_queue O client config handle manager)
    unfolding build_import_queue
    queue-Follows client config handle manager =
        Follows-bind (Follows-lift (O.aura_slot_duration client) refl) λ slot.
          Follows-try
            (import_queue manager client (slot_and_timestamp O slot) (O.prometheus_registry config)
              handle)
            _
            (queue manager client (slot_and_timestamp O slot) (O.prometheus_registry config) handle)
            refl

    new_partial-Follows :
        (config : O.Configuration)
        → Follows (Step O role) is_open bare assembled (new_partial O config)
    unfolding new_partial
    new_partial-Follows config =
        Follows-bind (telemetry-Follows (endpoints_in_use O (O.telemetry_endpoints config)))
          λ started.
            Follows-bind (Follows-try (new_full_parts config _ _) _ (parts config _ _) refl)
              λ (client, backend, keystore, manager).
                Follows-bind (run_worker-Follows manager started) λ _.
                  Follows-go _ (pool manager client) (
                    Follows-bind
                      (queue-Follows client config (handle_of O (telemetry_of O started)) manager)
                      λ q. Follows-pure _)

    relay-Follows :
        (polkadot config : O.Configuration) (handle : Option O.TelemetryWorkerHandle)
        (manager : O.TaskManager) (url : Option O.Url) (bench : Option O.HwBench)
        → Follows
            (Step O role)
            is_open
            assembled
            connected
            (build_relay_chain_interface O polkadot config handle manager url bench)
    unfolding build_relay_chain_interface
    relay-Follows polkadot config handle manager (some url) bench =
        Follows-try (build_minimal_relay_chain_node polkadot manager url) _
          (remote polkadot manager url) refl
    relay-Follows polkadot config handle manager none bench =
        Follows-try (build_inprocess_relay_chain polkadot config manager) _
          (inprocess polkadot config manager) refl

    offchain-Follows :
        (config : O.Configuration) (manager : O.TaskManager) (client : O.Client) (net : O.Network)
        (enabled : Bool)
        → Follows
            (Step O role)
            is_open
            networked
            networked
            (offchain_workers O config manager client net enabled)
    offchain-Follows config manager client net true =
        Follows-call (build_offchain_workers config manager client net) tt
          (offchain config manager client net)
    offchain-Follows config manager client net false = Follows-pure tt

    hwbench-Follows :
        (manager : O.TaskManager) (started : Option O.Telemetry) (bench : Option O.HwBench)
        → Follows (Step O role) is_open tasked tasked (report_hwbench O manager started bench)
    hwbench-Follows manager started none = Follows-pure tt
    hwbench-Follows manager none (some bench) =
        Follows-call (print_hwbench bench) tt (hwbench bench)
    hwbench-Follows manager (some t) (some bench) =
        Follows-go _ (hwbench bench)
          (Follows-call (spawn manager "telemetry_hwbench") tt (report manager "telemetry_hwbench"))

  module _ (S : Starters O) where
    prepare-Follows :
        (role : Bool) (config polkadot : O.Configuration) (options : CollatorOptions O) (id : ℕ)
        (bench : Option O.HwBench)
        → Follows
            (Step O role)
            is_open
            bare
            networked
            (prepare O S config polkadot options id bench)
    unfolding prepare
    prepare-Follows role config polkadot options id bench =
        Follows-bind (new_partial-Follows role config) λ params.
          Follows-bind
            (relay-Follows role polkadot config params.telemetry_worker_handle params.task_manager
              options.relay_chain_rpc_url bench)
            λ (relay, key).
              Follows-bind
                (Follows-try (build_network (network_of O config params relay id)) _
                  (network (network_of O config params relay id)) refl)
                λ made. Follows-pure _

    consensus-Follows :
        (client : O.Client) (registry : Option O.Registry) (handle : Option O.TelemetryHandle)
        (manager : O.TaskManager) (relay : O.Relay) (pool_of : O.Pool) (net : O.Network)
        (keystore : O.Keystore) (force : Bool) (id : ℕ)
        → Follows
            (Step O true)
            is_open
            tasked
            producing
            (consensus_of O S client registry handle manager relay pool_of net keystore force id)
    unfolding consensus_of
    consensus-Follows client registry handle manager relay pool_of net keystore force id =
        Follows-bind (Follows-lift (O.aura_slot_duration client) refl)
          λ slot. Follows-call (build_consensus _) _ (consensus _ refl)

    start_as-Follows :
        (role : Bool) (config : O.Configuration) (params : PartialComponents O) (relay : O.Relay)
        (key : Option O.CollatorPair) (net : O.Network) (id : ℕ)
        → Follows
            (Step O role)
            is_open
            tasked
            staffed
            (start_as O S role config params relay key net id)
    unfolding start_as
    start_as-Follows true config params relay key net id =
        Follows-bind (consensus-Follows _ _ _ _ _ _ _ _ _ id) λ made.
          Follows-bind (Follows-expect key refl)
            λ pair. Follows-try (start_collator _) _ (collator _ refl) refl
    start_as-Follows false config params relay key net id =
        Follows-try (start_full_node _) _ (full_node _ refl) refl

    finish-Follows :
        (config : O.Configuration) (id : ℕ) (bench : Option O.HwBench) (n : Prepared O S)
        → Follows
            (Step O (O.is_authority config))
            is_open
            networked
            open_network
            (finish O S config id bench n)
    unfolding finish
    finish-Follows config id bench n =
        let role = O.is_authority config in
        Follows-bind
          (offchain-Follows role config n.params.task_manager n.params.client n.network
            (O.offchain_worker_enabled config))
          λ _.
            Follows-bind
              (Follows-try (spawn_tasks (tasks_of O S config n)) _ (tasks (tasks_of O S config n))
                refl)
              λ _.
                Follows-bind (hwbench-Follows role n.params.task_manager n.params.telemetry bench)
                  λ _.
                    Follows-bind
                      (start_as-Follows role config n.params n.relay_chain_interface n.collator_key
                        n.network id)
                      λ _.
                        Follows-call (start_network n.network_starter) _ (opens n.network_starter)

    -- Whatever the libraries answer, the calls of a node's start are a path of the state machine from a
    -- bare node, in the role that its prepared configuration gives it, and its network is open at the end
    -- exactly if the start succeeds.
    pub start_node_impl-Trace :
        (config polkadot : O.Configuration) (options : CollatorOptions O) (id : ℕ)
        (bench : Option O.HwBench)
        → (phase : Phase) × Trace
            (Step O (O.is_authority (O.prepare_node_config config)))
            bare
            (start_node_impl O S config polkadot options id bench).1
            phase
          × (is_open phase ≡ is_done (start_node_impl O S config polkadot options id bench).0)
    unfolding start_node_impl
    start_node_impl-Trace config polkadot options id bench =
        let prepared = O.prepare_node_config config in
        let way =
          Follows-bind
            (prepare-Follows (O.is_authority prepared) prepared polkadot options id bench)
            λ n. finish-Follows prepared id bench n in
        (way.at, way.path, Follows-final way refl)
