-- ===== src/Node/Service/Panics.antt =====
-- node/src/service.rs: where the start of a node does not panic.
use evm_parachain.Base.{ℕ, Bool, true, false, ◌≡◌, ◌≢◌, refl, Option, none, some, arith, ok}
use evm_parachain.Base.Action.{done, try_call}
use evm_parachain.Base.Runs.{Calm, Calm-bind, >>=-eq-done}
use evm_parachain.Node.Service.Interface.{Outside}
use evm_parachain.Node.Service.Calls.{Starters, CollatorOptions, PartialComponents, spawn_tasks}
use evm_parachain.Node.Service.Partial.{new_partial}
use evm_parachain.Node.Service.Start.{
  build_relay_chain_interface, offchain_workers, report_hwbench, start_as, start_node_impl,
  Prepared, prepare, tasks_of, finish,
}
use evm_parachain.Node.Service.Components.{build_relay_chain_interface_lem}

module _ (O : Outside) where
  -- The interface that is built comes with a collator's key.
  abbrev pub GivesKey : O.Configuration → O.Configuration → Option O.Url → Type 0
  GivesKey polkadot config (some url) =
      (r : O.Relay) → O.build_minimal_relay_chain_node polkadot url ≢ ok (r, none)
  GivesKey polkadot config none =
      (h : Option O.TelemetryWorkerHandle) (b : Option O.HwBench) (r : O.Relay)
      → O.build_inprocess_relay_chain polkadot config h b ≢ ok (r, none)

module _ (O : Outside) (S : Starters O) where
  start_as-Calm :
      (role : Bool) (config : O.Configuration) (params : PartialComponents O) (relay : O.Relay)
      (key : Option O.CollatorPair) (net : O.Network) (id : ℕ)
      → (role ≡ true → key ≢ none)
      → Calm (start_as O S role config params relay key net id)
  unfolding start_as
  start_as-Calm true config params relay key net id h panics = ground (arith, h refl)
  start_as-Calm false config params relay key net id h panics = ground arith

  finish-Calm :
      (config : O.Configuration) (id : ℕ) (bench : Option O.HwBench) (n : Prepared O S)
      → (O.is_authority config ≡ true → n.collator_key ≢ none)
      → Calm (finish O S config id bench n)
  unfolding finish
  finish-Calm config id bench n h =
      Calm-bind
        (offchain_workers O config n.params.task_manager n.params.client n.network
          (O.offchain_worker_enabled config))
        _ (λ q. ground arith)
        λ _ _.
          Calm-bind
            (try_call (spawn_tasks (tasks_of O S config n)) (S.spawn_tasks (tasks_of O S config n)))
            _ (λ q. ground arith)
            λ _ _.
              Calm-bind (report_hwbench O n.params.task_manager n.params.telemetry bench) _
                (λ q. ground arith)
                λ _ _.
                  Calm-bind
                    (start_as O S (O.is_authority config) config n.params n.relay_chain_interface
                      n.collator_key n.network id)
                    _
                    (start_as-Calm (O.is_authority config) config n.params n.relay_chain_interface
                      n.collator_key n.network id h)
                    λ _ _ q. ground arith

  new_partial-Calm : (config : O.Configuration) → Calm (new_partial O config)
  unfolding new_partial
  new_partial-Calm config panics = ground arith

  interface_key :
      (polkadot config : O.Configuration) (handle : Option O.TelemetryWorkerHandle)
      (tasks : O.TaskManager) (url : Option O.Url) (bench : Option O.HwBench) (r : O.Relay)
      (key : Option O.CollatorPair)
      → GivesKey O polkadot config url
      → (build_relay_chain_interface O polkadot config handle tasks url bench).0 ≡ done (r, key)
      → key ≢ none
  unfolding build_relay_chain_interface
  interface_key polkadot config handle tasks (some u) bench r key g h e = ground (arith, g r)
  interface_key polkadot config handle tasks none bench r key g h e =
      ground (arith, g handle bench r)

  pub prepare-key :
      (config polkadot : O.Configuration) (options : CollatorOptions O) (id : ℕ)
      (bench : Option O.HwBench) (n : Prepared O S)
      → GivesKey O polkadot config options.relay_chain_rpc_url
      → (prepare O S config polkadot options id bench).0 ≡ done n
      → n.collator_key ≢ none
  unfolding prepare
  prepare-key config polkadot options id bench n g h =
      let (params, _, h') = >>=-eq-done (new_partial O config) _ h in
      let ((relay, key), made, h'') =
        >>=-eq-done
          (build_relay_chain_interface O polkadot config params.telemetry_worker_handle
            params.task_manager options.relay_chain_rpc_url bench)
          _ h' in
      let known =
        interface_key polkadot config params.telemetry_worker_handle params.task_manager
          options.relay_chain_rpc_url bench relay key g made in
      ground (arith, known)

  prepare-Calm :
      (config polkadot : O.Configuration) (options : CollatorOptions O) (id : ℕ)
      (bench : Option O.HwBench)
      → Calm (prepare O S config polkadot options id bench)
  unfolding prepare
  prepare-Calm config polkadot options id bench =
      Calm-bind (new_partial O config) _ (new_partial-Calm config) λ params _.
        Calm-bind
          (build_relay_chain_interface O polkadot config params.telemetry_worker_handle
            params.task_manager options.relay_chain_rpc_url bench)
          _
          ((build_relay_chain_interface_lem O polkadot config params.telemetry_worker_handle
            params.task_manager options.relay_chain_rpc_url bench).2)
          λ a _ q. ground arith

  -- If the prepared configuration makes the node an authority only where the relay chain interface comes
  -- with a collator's key, then the start of the node does not panic: never that of a full node, and
  -- that of a collator only without its key.
  pub start_node_impl-Calm :
      (config polkadot : O.Configuration) (options : CollatorOptions O) (id : ℕ)
      (bench : Option O.HwBench)
      → (O.is_authority (O.prepare_node_config config) ≡ true
          → GivesKey O polkadot (O.prepare_node_config config) options.relay_chain_rpc_url)
      → Calm (start_node_impl O S config polkadot options id bench)
  unfolding start_node_impl
  start_node_impl-Calm config polkadot options id bench keyed =
      let prepared = O.prepare_node_config config in
      Calm-bind (prepare O S prepared polkadot options id bench) _
        (prepare-Calm prepared polkadot options id bench)
        λ n made.
          finish-Calm prepared id bench n
            λ authority. prepare-key prepared polkadot options id bench n (keyed authority) made
