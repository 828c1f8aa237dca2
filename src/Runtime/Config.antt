-- ===== src/Runtime/Config.antt =====
-- runtime/src/lib.rs: the `Config` impls of the pallets, each as a record of what it chooses. A
-- constant is a number, a pallet of this runtime a `Pallet`, `()` is no item, and an item of a library
-- goes by its name. The associated types that only name a type of data are left out.
pub mod Sessions
pub mod Weighted
use evm_parachain.Base.{ℕ, Option, none, some, List, [], ◌∷◌}
use evm_parachain.Weights.{WeightLib, RuntimeDbWeight, rocks_db_weight}
use evm_parachain.Runtime.{
  PerbillLib, WeightToFeeCoefficient, polynomial, minimum_period, period, offset, kick_threshold,
  existential_deposit, transaction_byte_fee,
}
use evm_parachain.Runtime.Blocks.{
  Limits, runtime_block_weights, runtime_block_length, reserved_dmp_weight, reserved_xcmp_weight,
}
use evm_parachain.Runtime.Pallets.{
  Pallet, system, parachain_system, parachain_info, balances, collator_selection, session, aura,
  xcmp_queue, dmp_queue,
}

-- The items that the impls take from libraries.
pub data Item : Type 0 where
  account_id_lookup blake_two_256 everything parachain_set_code : Item
  find_account_from_author_index currency_adapter slow_adjusting_fee_update : Item
  relay_number_strictly_increases xcm_executor ensure_root xcm_origin_to_transact : Item
  identity_collator polkadot_block_hash_count : Item

abbrev pub ss58_prefix : ℕ
ss58_prefix = 42

abbrev pub max_consumers : ℕ
max_consumers = 16

abbrev pub uncle_generations : ℕ
uncle_generations = 0

abbrev pub max_locks : ℕ
max_locks = 50

abbrev pub max_reserves : ℕ
max_reserves = 50

abbrev pub operational_fee_multiplier : ℕ
operational_fee_multiplier = 5

abbrev pub max_authorities : ℕ
max_authorities = 100000

abbrev pub max_candidates : ℕ
max_candidates = 1000

abbrev pub min_candidates : ℕ
min_candidates = 5

abbrev pub max_invulnerables : ℕ
max_invulnerables = 100

-- `PeriodicSessions<Period, Offset>`
pub record PeriodicSessions : Type 0 where
  pub length : ℕ
  pub start : ℕ

pub record TimestampConfig : Type 0 where
  pub on_timestamp_set : Pallet
  pub minimum_period : ℕ

abbrev pub timestamp_config : TimestampConfig
timestamp_config = record { on_timestamp_set = aura; minimum_period = minimum_period }

-- `FindAccountFromAuthorIndex<Self, Aura>` finds with the pallet beside it.
pub record AuthorshipConfig : Type 0 where
  pub find_author : Item × Pallet
  pub uncle_generations : ℕ
  pub filter_uncle : Option Item
  pub event_handler : List Pallet

abbrev pub authorship_config : AuthorshipConfig
authorship_config = record {
  find_author = (find_account_from_author_index, aura);
  uncle_generations = uncle_generations;
  filter_uncle = none;
  event_handler = collator_selection ∷ [];
}

pub record BalancesConfig : Type 0 where
  pub max_locks : ℕ
  pub dust_removal : Option Item
  pub existential_deposit : ℕ
  pub account_store : Pallet
  pub max_reserves : ℕ

abbrev pub balances_config : BalancesConfig
balances_config = record {
  max_locks = max_locks;
  dust_removal = none;
  existential_deposit = existential_deposit;
  account_store = system;
  max_reserves = max_reserves;
}

-- The pallets whose keys `SessionKeys` holds.
abbrev pub session_keys : List Pallet
session_keys = aura ∷ []

pub record SessionConfig : Type 0 where
  pub validator_id_of : Item
  pub should_end_session : PeriodicSessions
  pub next_session_rotation : PeriodicSessions
  pub session_manager : Pallet
  pub session_handler : List Pallet

abbrev pub session_config : SessionConfig
session_config = record {
  validator_id_of = identity_collator;
  should_end_session = record { length = period; start = offset };
  next_session_rotation = record { length = period; start = offset };
  session_manager = collator_selection;
  session_handler = session_keys;
}

pub record AuraConfig : Type 0 where
  pub disabled_validators : Option Item
  pub max_authorities : ℕ

abbrev pub aura_config : AuraConfig
aura_config = record { disabled_validators = none; max_authorities = max_authorities }

pub record CollatorSelectionConfig : Type 0 where
  pub currency : Pallet
  pub update_origin : Item
  pub max_candidates : ℕ
  pub min_candidates : ℕ
  pub max_invulnerables : ℕ
  pub kick_threshold : ℕ
  pub validator_id_of : Item
  pub validator_registration : Pallet

abbrev pub collator_selection_config : CollatorSelectionConfig
collator_selection_config = record {
  currency = balances;
  update_origin = ensure_root;
  max_candidates = max_candidates;
  min_candidates = min_candidates;
  max_invulnerables = max_invulnerables;
  kick_threshold = kick_threshold;
  validator_id_of = identity_collator;
  validator_registration = session;
}

pub record XcmpQueueConfig : Type 0 where
  pub xcm_executor : Item
  pub channel_info : Pallet
  pub version_wrapper : Option Item
  pub execute_overweight_origin : Item
  pub controller_origin : Item
  pub controller_origin_converter : Item

abbrev pub xcmp_queue_config : XcmpQueueConfig
xcmp_queue_config = record {
  xcm_executor = xcm_executor;
  channel_info = parachain_system;
  version_wrapper = none;
  execute_overweight_origin = ensure_root;
  controller_origin = ensure_root;
  controller_origin_converter = xcm_origin_to_transact;
}

pub record DmpQueueConfig : Type 0 where
  pub xcm_executor : Item
  pub execute_overweight_origin : Item

abbrev pub dmp_queue_config : DmpQueueConfig
dmp_queue_config = record { xcm_executor = xcm_executor; execute_overweight_origin = ensure_root }
