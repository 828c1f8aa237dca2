-- ===== src/Runtime/Extra.antt =====
-- runtime/src/lib.rs: `SignedExtra`, the checks that a signed transaction passes before it is dispatched.
-- The checks, and the tuple that they are in, belong to libraries.
pub mod Unpaid
mod Tests
use evm_parachain.Base.{List, [], ◌∷◌, Result}

pub data Check : Type 0 where
  check_non_zero_sender check_spec_version check_tx_version check_genesis : Check
  check_era check_nonce check_weight charge_transaction_payment : Check

abbrev pub signed_extra : List Check
signed_extra =
    check_non_zero_sender ∷ check_spec_version ∷ check_tx_version ∷ check_genesis ∷ check_era
    ∷ check_nonce ∷ check_weight ∷ charge_transaction_payment ∷ []

-- `SignedExtension::pre_dispatch` of each check and of a tuple, with the state that it leaves.
pub record ExtensionLib : Type 1 where
  pub State : Type 0
  pub Refusal : Type 0
  pub pre_dispatch : Check → State → Result Refusal (Unit {0}) × State
  pub tuple : List Check → State → Result Refusal (Unit {0}) × State
