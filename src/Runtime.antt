-- ===== src/Runtime.antt =====
-- runtime/src/lib.rs: the constants of the runtime, its pallets and the code that it runs itself.
-- `Perbill` and the builder of block weights are outside code.
pub mod Generic
pub mod Pallets
pub mod Fees
pub mod Blocks
pub mod Apis
pub mod Inherents
pub mod Validate
pub mod Extra
pub mod Config
pub mod Optional
pub mod Tests
use evm_parachain.Base.{ℕ, ◌*◌, ◌/◌, ◌%◌, List, [], ◌∷◌, Bool, false}
use evm_parachain.Weights.{WeightLib, extrinsic_base_weight}

-- `MILLISECS_PER_BLOCK`, `SLOT_DURATION`, and the times counted in blocks.
abbrev pub millisecs_per_block : ℕ
millisecs_per_block = 12000

abbrev pub slot_duration : ℕ
slot_duration = millisecs_per_block

abbrev pub minutes : ℕ
minutes = 60000 / millisecs_per_block

abbrev pub hours : ℕ
hours = minutes * 60

abbrev pub days : ℕ
days = hours * 24

-- `MinimumPeriod`, `Period`, `SessionLength` and `KickThreshold`.
abbrev pub minimum_period : ℕ
minimum_period = slot_duration / 2

abbrev pub period : ℕ
period = 6 * hours

abbrev pub offset : ℕ
offset = 0

abbrev pub session_length : ℕ
session_length = 6 * hours

abbrev pub kick_threshold : ℕ
kick_threshold = period

-- Balances.
abbrev pub unit : ℕ
unit = 1000000000000

abbrev pub milliunit : ℕ
milliunit = 1000000000

abbrev pub microunit : ℕ
microunit = 1000000

abbrev pub existential_deposit : ℕ
existential_deposit = milliunit

abbrev pub transaction_byte_fee : ℕ
transaction_byte_fee = 10 * microunit

-- `sp_runtime::Perbill`, a number of billionths.
pub record PerbillLib : Type 1 where
  pub Perbill : Type 0
  pub parts : Perbill → ℕ
  pub from_percent : ℕ → Perbill
  pub from_rational : ℕ → ℕ → Perbill

-- `WeightToFeeCoefficient`, the struct that the source fills.
pub record WeightToFeeCoefficient (P : PerbillLib) : Type 0 where
  pub degree : ℕ
  pub negative : Bool
  pub coeff_frac : P.Perbill
  pub coeff_integer : ℕ

-- `WeightToFee::polynomial`
unfoldable pub polynomial : (W : WeightLib) (P : PerbillLib) → List (WeightToFeeCoefficient P)
polynomial W P =
    let p = milliunit / 10 in
    let q = 100 * W.ref_time (extrinsic_base_weight W) in
    record {
      degree = 1;
      negative = false;
      coeff_frac = P.from_rational (p % q) q;
      coeff_integer = p / q;
    }
    ∷ []
