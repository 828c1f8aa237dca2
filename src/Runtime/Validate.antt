-- ===== src/Runtime/Validate.antt =====
-- runtime/src/lib.rs: what `register_validate_block` hands to the function by which a relay chain
-- validator accepts a block of this chain. That function, and the executors of blocks, are outside code.
mod Tests
use evm_parachain.Base.{ℕ, ◌+◌, ◌*◌, ◌≤◌, ◌≡◌, Bool, true, Option, none, some, List, arith}
use evm_parachain.Runtime.Pallets.{Pallet, all_pallets_with_system}
use evm_parachain.Runtime.Inherents.{InherentLib, check_inherents, check_inherents-some}

module _ (I : InherentLib) where
  open I use {Block, RelayStateProof, Slot, InherentData, CheckInherentsResult}

  pub record ExecutorLib : Type 1 where
    pub Executor : Type 0
    -- `frame_executive::Executive` of the runtime, over its pallets.
    pub frame_executive : List Pallet → Executor
    -- `cumulus_pallet_aura_ext::BlockExecutor`, around another executor.
    pub aura_block_executor : Executor → Executor

  module _ (E : ExecutorLib) where
    -- The arguments of `register_validate_block`.
    pub record Validation : Type 0 where
      pub block_executor : E.Executor
      pub check_inherents : Block → RelayStateProof → Option CheckInherentsResult

    unfoldable pub executive : E.Executor
    executive = E.frame_executive all_pallets_with_system

    unfoldable pub validation : Validation
    validation = record {
      block_executor = E.aura_block_executor executive;
      check_inherents = check_inherents I;
    }

    -- What the libraries document. A validator accepts a block only if checking its inherents gives a
    -- result without errors and the executor takes it; the executor of Aura takes a block only if its
    -- seal is by an authority and the executor inside takes it. The inherent data of a slot hold its
    -- time, and a timestamp passes the check if it is at most thirty seconds ahead of that.
    pub record Documented (validate_block : Validation → Block → RelayStateProof → Bool)
        : Type 0 where
      pub number : Slot → ℕ
      pub milliseconds : InherentData → ℕ
      pub timestamp : Block → ℕ
      pub is_fine : CheckInherentsResult → Bool
      pub takes : E.Executor → Block → Bool
      pub is_sealed : Block → Bool
      pub validates :
          (v : Validation) (b : Block) (proof : RelayStateProof)
          → validate_block v b proof ≡ true
          → (r : CheckInherentsResult) × (v.check_inherents b proof ≡ some r)
            × (is_fine r ≡ true)
            × (takes v.block_executor b ≡ true)
      pub seals :
          (e : E.Executor) (b : Block)
          → takes (E.aura_block_executor e) b ≡ true
          → (is_sealed b ≡ true) × (takes e b ≡ true)
      pub data_time :
          (slot : Slot) (seconds : ℕ) (d : InherentData)
          → I.create_inherent_data (I.from_relay_chain_slot_and_duration slot seconds) ≡ some d
          → milliseconds d ≡ number slot * seconds * 1000
      pub drift :
          (d : InherentData) (b : Block)
          → is_fine (I.check_extrinsics d b) ≡ true
          → timestamp b ≤ milliseconds d + 30000

    -- If the libraries behave as documented, a validator accepts only blocks that are sealed, that the
    -- executive of all pallets takes, and whose timestamp is at most thirty seconds ahead of the relay
    -- chain's, which is six seconds for each slot up to the one that the proof shows.
    pub validation-timestamp :
        (validate_block : Validation → Block → RelayStateProof → Bool)
        (D : Documented validate_block) (b : Block) (proof : RelayStateProof)
        → validate_block validation b proof ≡ true
        → (D.is_sealed b ≡ true)
          × (D.takes executive b ≡ true)
          × ((slot : Slot) × (I.read_slot proof ≡ some slot)
              × (D.timestamp b ≤ 6000 * D.number slot + 30000))
    unfolding validation
    validation-timestamp validate_block D b proof accepted =
        let (r, checked, fine, taken) = D.validates validation b proof accepted in
        let (sealed, inside) = D.seals executive b taken in
        let (slot, inherents, shown, made, result) = (check_inherents-some I b proof r).0 checked in
        let time = D.data_time slot 6 inherents made in
        let near = D.drift inherents b (rw result fine) in
        (sealed, inside, (slot, shown, omega (arith, time, near)))
