-- ===== src/Node/Service/Shared.antt =====
-- node/src/service.rs: which parts of a node the calls of its start share.
use evm_parachain.Base.{ℕ, ◌≡◌, Option}
use evm_parachain.Node.Service.Interface.{Outside}
use evm_parachain.Node.Service.Calls.{
  PartialComponents, Call, spawn, new_full_pool, import_queue, build_minimal_relay_chain_node,
  build_inprocess_relay_chain, build_network, build_offchain_workers, spawn_tasks, build_consensus,
  start_collator, start_full_node,
}
use evm_parachain.Node.Service.Consensus

module _ (O : Outside) (parts : PartialComponents O) (id : ℕ) where
  -- The client, the task manager, the import queue, the keystore, the backend and the pool that a call
  -- is given are the ones of the partial node, and the parachain it names is the given one.
  abbrev pub Uses : Call O → Type 0
  Uses (spawn tasks name) = tasks ≡ parts.task_manager
  Uses (new_full_pool tasks client) = (tasks ≡ parts.task_manager) × (client ≡ parts.client)
  Uses (import_queue tasks client slots registry handle) =
      (tasks ≡ parts.task_manager) × (client ≡ parts.client)
  Uses (build_minimal_relay_chain_node config tasks url) = tasks ≡ parts.task_manager
  Uses (build_inprocess_relay_chain polkadot config tasks) = tasks ≡ parts.task_manager
  Uses (build_network p) =
      (p.client ≡ parts.client)
      × (p.transaction_pool ≡ parts.transaction_pool)
      × (p.spawn_handle ≡ parts.task_manager)
      × (p.import_queue ≡ parts.import_queue)
      × (p.block_announce_validator.1 ≡ id)
  Uses (build_offchain_workers config tasks client network) =
      (tasks ≡ parts.task_manager) × (client ≡ parts.client)
  Uses (spawn_tasks p) =
      (p.task_manager ≡ parts.task_manager)
      × (p.client ≡ parts.client)
      × (p.transaction_pool ≡ parts.transaction_pool)
      × (p.keystore ≡ parts.keystore_container)
      × (p.backend ≡ parts.backend)
  Uses (build_consensus p) =
      (p.para_client ≡ parts.client)
      × (p.block_import ≡ parts.client)
      × (p.keystore ≡ parts.keystore_container)
      × ((registry : Option O.Registry) × (handle : Option O.TelemetryHandle) × (p.proposer_factory
            ≡ O.proposer_factory parts.task_manager parts.client parts.transaction_pool registry
                handle))
      × ((relay : O.Relay) × (p.create_inherent_data_providers
            ≡ Consensus.create_inherent_data_providers O p.slot_duration relay id))
  Uses (start_collator p) =
      (p.task_manager ≡ parts.task_manager)
      × (p.client ≡ parts.client)
      × (p.block_status ≡ parts.client)
      × (p.import_queue ≡ parts.import_queue)
      × (p.para_id ≡ id)
  Uses (start_full_node p) =
      (p.task_manager ≡ parts.task_manager)
      × (p.client ≡ parts.client)
      × (p.import_queue ≡ parts.import_queue)
      × (p.para_id ≡ id)
  Uses _ = Unit
