-- ===== src/Node/Service/Consensus.antt =====
-- node/src/service.rs: `build_consensus`, the Aura consensus of a collator.
use evm_parachain.Base.{
  ℕ, Bool, Option, none, some, ◌≡◌, ◌↔◌, Result, ok, err, map_ok, ok_or, String, arith,
}
use evm_parachain.Base.Action.{◌>>=◌, call, lift}
use evm_parachain.Node.Service.Interface.{Outside}
use evm_parachain.Node.Service.Calls.{
  BuildAuraConsensusParams, Starters, ServiceAction, build_consensus as build,
}

abbrev pub no_inherent : String
no_inherent = "Failed to create parachain inherent"

module _ (O : Outside) where
  abbrev with_slot :
      O.SlotDuration
      → O.Timestamp
      → O.ParachainInherent
      → O.Slot × O.Timestamp × O.ParachainInherent
  with_slot slot_duration timestamp inherent =
      (O.slot_from_timestamp timestamp slot_duration, timestamp, inherent)

  -- The closure that gives the inherent data of a block: the system's time is an argument.
  unfoldable pub create_inherent_data_providers :
      O.SlotDuration
      → O.Relay
      → ℕ
      → O.Timestamp
      → O.RelayParent
      → O.ValidationData
      → Result String (O.Slot × O.Timestamp × O.ParachainInherent)
  create_inherent_data_providers slot_duration relay id timestamp relay_parent validation_data =
      map_ok (with_slot slot_duration timestamp)
        (ok_or (O.create_at relay_parent relay validation_data id) no_inherent)

  unfoldable pub build_consensus :
      Starters O
      → O.Client
      → Option O.Registry
      → Option O.TelemetryHandle
      → O.TaskManager
      → O.Relay
      → O.Pool
      → O.Network
      → O.Keystore
      → Bool
      → ℕ
      → ServiceAction O O.Consensus
  build_consensus S client registry telemetry task_manager relay pool sync_oracle keystore
        force_authoring id =
      do
        slot_duration ← lift (O.aura_slot_duration client)
        let params : BuildAuraConsensusParams O = record {
          proposer_factory = O.proposer_factory task_manager client pool registry telemetry;
          create_inherent_data_providers = create_inherent_data_providers slot_duration relay id;
          block_import = client;
          para_client = client;
          sync_oracle = sync_oracle;
          keystore = keystore;
          force_authoring = force_authoring;
          slot_duration = slot_duration;
          block_proposal_slot_portion = O.slot_proportion 1 24;
          max_block_proposal_slot_portion = some (O.slot_proportion 1 16);
          telemetry = telemetry;
        }
        call (build params) (S.build_consensus params)

  -- A block can be authored on a relay parent exactly when the parachain inherent can be made for
  -- this parachain id there. Its slot is then that of the system's time at the chain's slot duration,
  -- and without the inherent the provider fails with its message.
  pub create_inherent_data_providers-ok :
      (slot_duration : O.SlotDuration) (relay : O.Relay) (id : ℕ) (now : O.Timestamp)
      (parent : O.RelayParent) (validation : O.ValidationData)
      → ((inherent : O.ParachainInherent)
          → (create_inherent_data_providers slot_duration relay id now parent validation
              ≡ ok (O.slot_from_timestamp now slot_duration, now, inherent))
            ↔ (O.create_at parent relay validation id ≡ some inherent))
        × ((create_inherent_data_providers slot_duration relay id now parent validation
              ≡ err no_inherent)
            ↔ (O.create_at parent relay validation id ≡ none))
  unfolding create_inherent_data_providers
  create_inherent_data_providers-ok slot_duration relay id now parent validation =
      (λ inherent. (λ h. ground arith, λ h. ground arith), (λ h. ground arith, λ h. ground arith))
