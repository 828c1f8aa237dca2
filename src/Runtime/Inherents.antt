-- ===== src/Runtime/Inherents.antt =====
-- runtime/src/lib.rs: `CheckInherents`, by which a relay chain validator checks the timestamp of a
-- block. Reading the proof, and the inherent data, are outside code.
use evm_parachain.Base.{ℕ, ◌≡◌, ◌↔◌, Option, none, some, arith}

pub record InherentLib : Type 1 where
  pub Block : Type 0
  pub RelayStateProof : Type 0
  pub Slot : Type 0
  pub Provider : Type 0
  pub InherentData : Type 0
  pub CheckInherentsResult : Type 0
  -- `none` for the errors at which the source panics.
  pub read_slot : RelayStateProof → Option Slot
  pub from_relay_chain_slot_and_duration : Slot → ℕ → Provider
  pub create_inherent_data : Provider → Option InherentData
  pub check_extrinsics : InherentData → Block → CheckInherentsResult

-- Seconds of a relay chain slot.
abbrev pub relay_chain_slot_duration : ℕ
relay_chain_slot_duration = 6

module _ (I : InherentLib) where
  open I use {
    Block, RelayStateProof, Slot, InherentData, CheckInherentsResult, read_slot,
    from_relay_chain_slot_and_duration, create_inherent_data, check_extrinsics,
  }

  abbrev check_data : Block → Option InherentData → Option CheckInherentsResult
  check_data block none = none
  check_data block (some inherents) = some (check_extrinsics inherents block)

  abbrev check_slot : Block → Option Slot → Option CheckInherentsResult
  check_slot block none = none
  check_slot block (some slot) =
      check_data block
        (create_inherent_data (from_relay_chain_slot_and_duration slot relay_chain_slot_duration))

  -- `none` is a panic in one of the two `expect` calls.
  unfoldable pub check_inherents : Block → RelayStateProof → Option CheckInherentsResult
  check_inherents block proof = check_slot block (read_slot proof)

  -- The check gives a result r exactly when the proof shows a slot, inherent data can be made of it
  -- at six seconds a slot, and r is what checking the block against that data gives. In all other
  -- cases it panics.
  pub check_inherents-some :
      (block : Block) (proof : RelayStateProof) (r : CheckInherentsResult)
      → (check_inherents block proof ≡ some r) ↔ (
          (slot : Slot) × (inherents : InherentData) × (read_slot proof ≡ some slot)
          × (create_inherent_data (from_relay_chain_slot_and_duration slot 6) ≡ some inherents)
          × (check_extrinsics inherents block ≡ r))
  unfolding check_inherents
  check_inherents-some block proof r = (λ h. ground arith, λ h. ground arith)
