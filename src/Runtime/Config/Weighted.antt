-- ===== src/Runtime/Config/Weighted.antt =====
-- runtime/src/lib.rs: the `Config` impls that choose weights, block limits and fees.
use evm_parachain.Base.{ℕ, Option, none, List}
use evm_parachain.Weights.{WeightLib, RuntimeDbWeight, rocks_db_weight}
use evm_parachain.Runtime.{PerbillLib, WeightToFeeCoefficient, polynomial, transaction_byte_fee}
use evm_parachain.Runtime.Blocks.{
  Limits, runtime_block_weights, runtime_block_length, reserved_dmp_weight, reserved_xcmp_weight,
}
use evm_parachain.Runtime.Pallets.{Pallet, parachain_info, balances, xcmp_queue, dmp_queue}
use evm_parachain.Runtime.Config.{
  Item, account_id_lookup, blake_two_256, everything, parachain_set_code, currency_adapter,
  slow_adjusting_fee_update, relay_number_strictly_increases, polkadot_block_hash_count,
  ss58_prefix, max_consumers, operational_fee_multiplier,
}

module _ (W : WeightLib) (P : PerbillLib) (L : Limits W P) where
  pub record SystemConfig : Type 0 where
    pub lookup : Item
    pub hashing : Item
    pub block_hash_count : Item
    pub on_new_account : Option Item
    pub on_killed_account : Option Item
    pub db_weight : RuntimeDbWeight
    pub base_call_filter : Item
    pub block_weights : Option L.BlockWeights
    pub block_length : L.BlockLength
    pub ss58_prefix : ℕ
    pub on_set_code : Item
    pub max_consumers : ℕ

  unfoldable pub system_config : SystemConfig
  system_config = record {
    lookup = account_id_lookup;
    hashing = blake_two_256;
    block_hash_count = polkadot_block_hash_count;
    on_new_account = none;
    on_killed_account = none;
    db_weight = rocks_db_weight W;
    base_call_filter = everything;
    block_weights = runtime_block_weights W P L;
    block_length = runtime_block_length W P L;
    ss58_prefix = ss58_prefix;
    on_set_code = parachain_set_code;
    max_consumers = max_consumers;
  }

  -- `CurrencyAdapter<Balances, ()>` charges the pallet beside it; `ConstantMultiplier` is its factor.
  pub record TransactionPaymentConfig : Type 0 where
    pub on_charge_transaction : Item × Pallet
    pub weight_to_fee : List (WeightToFeeCoefficient P)
    pub length_to_fee : ℕ
    pub fee_multiplier_update : Item
    pub operational_fee_multiplier : ℕ

  unfoldable pub transaction_payment_config : TransactionPaymentConfig
  transaction_payment_config = record {
    on_charge_transaction = (currency_adapter, balances);
    weight_to_fee = polynomial W P;
    length_to_fee = transaction_byte_fee;
    fee_multiplier_update = slow_adjusting_fee_update;
    operational_fee_multiplier = operational_fee_multiplier;
  }

  pub record ParachainSystemConfig : Type 0 where
    pub on_system_event : Option Item
    pub self_para_id : Pallet
    pub outbound_xcmp_message_source : Pallet
    pub dmp_message_handler : Pallet
    pub reserved_dmp_weight : W.Weight
    pub xcmp_message_handler : Pallet
    pub reserved_xcmp_weight : W.Weight
    pub check_associated_relay_number : Item

  unfoldable pub parachain_system_config : ParachainSystemConfig
  parachain_system_config = record {
    on_system_event = none;
    self_para_id = parachain_info;
    outbound_xcmp_message_source = xcmp_queue;
    dmp_message_handler = dmp_queue;
    reserved_dmp_weight = reserved_dmp_weight W P L;
    xcmp_message_handler = xcmp_queue;
    reserved_xcmp_weight = reserved_xcmp_weight W P L;
    check_associated_relay_number = relay_number_strictly_increases;
  }
