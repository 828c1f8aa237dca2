-- ===== src/Xcm.antt =====
-- runtime/src/xcm_config.rs: which XCM messages are let in. The enums of the xcm crate have the
-- constructors that the source names, and one more for all others; the fields that it skips by
-- `..` are one opaque field.
pub mod Reserve
pub mod Barrier
pub mod Origins
pub mod Accounts
pub mod Router
pub mod Capacity
pub mod Entry
pub mod Config
mod Tests
pub mod Examples
use evm_parachain.Base.{
  ℕ, ◌^◌, ◌-◌, Bool, true, false, ◌&&◌, Option, some, List, [], ◌∷◌, ◌++◌, String, any, ◌==◌,
  if◌then◌else◌, Result, ok, err,
}

-- The parts of the xcm types that the source does not look at.
pub record Opaque : Type 1 where
  pub AccountId : Type 0
  pub OtherNetwork : Type 0
  pub OtherBody : Type 0
  pub BodyPart : Type 0
  pub OtherJunction : Type 0
  pub OtherInterior : Type 0
  pub Fields : Type 0
  pub OtherInstruction : Type 0

pub data BodyId (O : Opaque) : Type 0 where
  executive : BodyId O
  other_body : O.OtherBody → BodyId O

pub data NetworkId (O : Opaque) : Type 0 where
  any_network : NetworkId O
  other_network : O.OtherNetwork → NetworkId O

pub data Junction (O : Opaque) : Type 0 where
  parachain : ℕ → Junction O
  account_id32 : NetworkId O → O.AccountId → Junction O
  plurality : BodyId O → O.BodyPart → Junction O
  other_junction : O.OtherJunction → Junction O

pub data Junctions (O : Opaque) : Type 0 where
  here : Junctions O
  x1 : Junction O → Junctions O
  other_interior : O.OtherInterior → Junctions O

pub record MultiLocation (O : Opaque) : Type 0 where
  pub parents : ℕ
  pub interior : Junctions O

pub data Instruction (O : Opaque) : Type 0 where
  initiate_reserve_withdraw : MultiLocation O → O.Fields → Instruction O
  deposit_reserve_asset : MultiLocation O → O.Fields → Instruction O
  transfer_reserve_asset : MultiLocation O → O.Fields → Instruction O
  reserve_asset_deposited : O.Fields → Instruction O
  other_instruction : O.OtherInstruction → Instruction O

-- `parameter_types!`: the cost of one operation, the longest message, and the fee of a transfer.
abbrev pub unit_weight_cost : ℕ
unit_weight_cost = 1000000000

abbrev pub max_instructions : ℕ
max_instructions = 100

abbrev pub base_xcm_weight : ℕ
base_xcm_weight = 100000000

abbrev pub max_assets_for_transfer : ℕ
max_assets_for_transfer = 2

unfoldable pub parachain_min_fee : {O : Opaque} → MultiLocation O → Option ℕ
parachain_min_fee location = some (2 ^ 128 - 1)

-- `MultiLocation::parent()` and `MultiLocation::here()`.
abbrev pub relay_location : {O : Opaque} → MultiLocation O
relay_location = record { parents = 1; interior = here }

abbrev pub self_location : {O : Opaque} → MultiLocation O
self_location = record { parents = 0; interior = here }

-- What a filter may change by its `&mut` arguments.
pub record Pending (O : Opaque) : Type 0 where
  pub message : List (Instruction O)
  pub weight_credit : ℕ

pub record Checked (O : Opaque) : Type 0 where
  pub verdict : Result (Unit {0}) (Unit {0})
  pub pending : Pending O
  pub warnings : List String

-- `ShouldExecute::should_execute`, over the origin and the largest weight.
abbrev pub ShouldExecute : Opaque → Type 0
ShouldExecute O = MultiLocation O → ℕ → Pending O → Checked O

abbrev pub unexpected_deposit : String
unexpected_deposit = "Unexpected ReserveAssetDeposited from the Relay Chain"

module _ {O : Opaque} where
  -- The patterns of `match_types!` and of the `matches!` tests.
  abbrev is_here : Junctions O → Bool
  is_here here = true
  is_here _ = false

  abbrev is_executive : BodyId O → Bool
  is_executive executive = true
  is_executive _ = false

  abbrev is_executive_plurality : Junction O → Bool
  is_executive_plurality (plurality id part) = is_executive id
  is_executive_plurality _ = false

  abbrev is_here_or_executive : Junctions O → Bool
  is_here_or_executive here = true
  is_here_or_executive (x1 junction) = is_executive_plurality junction
  is_here_or_executive _ = false

  unfoldable pub is_parent_or_executive_plurality : MultiLocation O → Bool
  is_parent_or_executive_plurality location =
      location.parents == 1 && is_here_or_executive location.interior

  unfoldable pub is_relay : MultiLocation O → Bool
  is_relay location = location.parents == 1 && is_here location.interior

  -- The three instructions that `DenyReserveTransferToRelayChain` looks for.
  unfoldable pub is_reserve_transfer_to_relay : Instruction O → Bool
  unfolding is_relay
  is_reserve_transfer_to_relay (initiate_reserve_withdraw reserve fields) = is_relay reserve
  is_reserve_transfer_to_relay (deposit_reserve_asset dest fields) = is_relay dest
  is_reserve_transfer_to_relay (transfer_reserve_asset dest fields) = is_relay dest
  is_reserve_transfer_to_relay (reserve_asset_deposited fields) = false
  is_reserve_transfer_to_relay (other_instruction other) = false

  unfoldable pub is_reserve_asset_deposited : Instruction O → Bool
  is_reserve_asset_deposited (reserve_asset_deposited fields) = true
  is_reserve_asset_deposited _ = false

  unfoldable pub deny_reserve_transfer_to_relay_chain : ShouldExecute O
  unfolding is_relay is_reserve_transfer_to_relay is_reserve_asset_deposited
  deny_reserve_transfer_to_relay_chain origin max_weight p =
      if any is_reserve_transfer_to_relay p.message
      then record { verdict = err tt; pending = p; warnings = [] }
      else record {
        verdict = ok tt;
        pending = p;
        warnings =
            if is_relay origin && any is_reserve_asset_deposited p.message
            then unexpected_deposit ∷ []
            else [];
      }

  -- The rest of `DenyThenTry` after `Deny::should_execute(..)?`.
  abbrev then_try :
      ShouldExecute O → MultiLocation O → ℕ → Checked O → Result (Unit {0}) (Unit {0}) → Checked O
  then_try allow origin max_weight denied (err e) = denied
  then_try allow origin max_weight denied (ok _) =
      let tried = allow origin max_weight denied.pending in
      record tried { warnings = denied.warnings ++ tried.warnings }

  unfoldable pub deny_then_try : ShouldExecute O → ShouldExecute O → ShouldExecute O
  deny_then_try deny allow origin max_weight p =
      let denied = deny origin max_weight p in
      then_try allow origin max_weight denied denied.verdict

-- The filters of xcm_builder that the barrier is made of, and the filter that a tuple of three is.
pub record Allows (O : Opaque) : Type 0 where
  pub take_weight_credit : ShouldExecute O
  pub allow_top_level_paid_execution_from : (MultiLocation O → Bool) → ShouldExecute O
  pub allow_unpaid_execution_from : (MultiLocation O → Bool) → ShouldExecute O
  pub tuple : ShouldExecute O → ShouldExecute O → ShouldExecute O → ShouldExecute O

module _ {O : Opaque} (A : Allows O) where
  abbrev pub everything : MultiLocation O → Bool
  everything location = true

  -- The second argument of `Barrier`.
  unfoldable pub allows : ShouldExecute O
  unfolding is_parent_or_executive_plurality
  allows =
      A.tuple A.take_weight_credit (A.allow_top_level_paid_execution_from everything)
        (A.allow_unpaid_execution_from is_parent_or_executive_plurality)

  unfoldable pub barrier : ShouldExecute O
  unfolding deny_then_try
  barrier = deny_then_try deny_reserve_transfer_to_relay_chain allows
