-- ===== src/Node/Service/Identity.antt =====
-- node/src/service.rs: the parachain that the calls of a start name.
use evm_parachain.Base.{ℕ, Bool, true, false, ◌≡◌, refl, Option, none, some, arith}
use evm_parachain.Base.Action.{try_call}
use evm_parachain.Base.Runs.{Only, Only-bind}
use evm_parachain.Node.Service.Interface.{Outside}
use evm_parachain.Node.Service.Calls.{
  Starters, PartialComponents, Call, CollatorOptions, build_network, spawn_tasks, start_collator,
  start_full_node,
}
use evm_parachain.Node.Service.Partial.{new_partial}
use evm_parachain.Node.Service.Consensus
use evm_parachain.Node.Service.Start.{
  build_relay_chain_interface, start_as, prepare, Prepared, finish, start_node_impl, tasks_of,
  network_of, offchain_workers, report_hwbench,
}

module _ (O : Outside) (id : ℕ) where
  -- A call that starts a collator or a full node starts it for the parachain.
  abbrev pub Serves : Call O → Type 0
  Serves (start_collator p) = p.para_id ≡ id
  Serves (start_full_node p) = p.para_id ≡ id
  Serves _ = Unit

  partial-Serves : (config : O.Configuration) → Only Serves (new_partial O config)
  unfolding new_partial
  partial-Serves config = ground arith

  interface-Serves :
      (polkadot config : O.Configuration) (handle : Option O.TelemetryWorkerHandle)
      (tasks : O.TaskManager) (url : Option O.Url) (bench : Option O.HwBench)
      → Only Serves (build_relay_chain_interface O polkadot config handle tasks url bench)
  unfolding build_relay_chain_interface
  interface-Serves polkadot config handle tasks url bench = ground arith

  module _ (S : Starters O) where
    start_as-Serves :
        (role : Bool) (config : O.Configuration) (parts : PartialComponents O) (relay : O.Relay)
        (key : Option O.CollatorPair) (network : O.Network)
        → Only Serves (start_as O S role config parts relay key network id)
    unfolding start_as Consensus.build_consensus
    start_as-Serves true config parts relay none network = ground arith
    start_as-Serves true config parts relay (some key) network = ground arith
    start_as-Serves false config parts relay key network = (refl, tt)

    prepare-Serves :
        (config polkadot : O.Configuration) (options : CollatorOptions O) (bench : Option O.HwBench)
        → Only Serves (prepare O S config polkadot options id bench)
    unfolding prepare
    prepare-Serves config polkadot options bench =
        Only-bind Serves (new_partial O config) _ (partial-Serves config) λ p _.
          Only-bind Serves
            (build_relay_chain_interface O polkadot config p.telemetry_worker_handle p.task_manager
              options.relay_chain_rpc_url bench)
            _
            (interface-Serves polkadot config p.telemetry_worker_handle p.task_manager
              options.relay_chain_rpc_url bench)
            λ relay _.
              Only-bind Serves
                (try_call (build_network (network_of O config p relay.0 id))
                  (O.build_network config p.client p.transaction_pool p.import_queue relay.0 id))
                _ (tt, tt) λ _ _. tt

    finish-Serves :
        (config : O.Configuration) (bench : Option O.HwBench) (n : Prepared O S)
        → Only Serves (finish O S config id bench n)
    unfolding finish
    finish-Serves config bench n =
        Only-bind Serves
          (offchain_workers O config n.params.task_manager n.params.client n.network
            (O.offchain_worker_enabled config))
          _ (ground arith)
          λ _ _.
            Only-bind Serves
              (try_call (spawn_tasks (tasks_of O S config n))
                (S.spawn_tasks (tasks_of O S config n)))
              _ (tt, tt)
              λ _ _.
                Only-bind Serves (report_hwbench O n.params.task_manager n.params.telemetry bench) _
                  (ground arith)
                  λ _ _.
                    Only-bind Serves
                      (start_as O S (O.is_authority config) config n.params n.relay_chain_interface
                        n.collator_key n.network id)
                      _
                      (start_as-Serves (O.is_authority config) config n.params
                        n.relay_chain_interface n.collator_key n.network)
                      λ _ _. (tt, tt)

    -- A start that is given a parachain id starts collators and full nodes for no other.
    pub start_node_impl-Serves :
        (config polkadot : O.Configuration) (options : CollatorOptions O) (bench : Option O.HwBench)
        → Only Serves (start_node_impl O S config polkadot options id bench)
    unfolding start_node_impl
    start_node_impl-Serves config polkadot options bench =
        let prepared_config = O.prepare_node_config config in
        Only-bind Serves (prepare O S prepared_config polkadot options id bench) _
          (prepare-Serves prepared_config polkadot options bench)
          λ n _. finish-Serves prepared_config bench n
