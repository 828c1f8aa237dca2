-- ===== src/Runtime/Apis.antt =====
-- runtime/src/lib.rs: the runtime APIs that the node calls. What the pallets, `Executive` and the
-- generated session keys do is a parameter; the functions here choose which of it answers a call.
use evm_parachain.Base.{ℕ, ◌*◌, ◌≡◌, Option, List, String, ap}
use evm_parachain.Runtime.{minimum_period, millisecs_per_block}

-- `RuntimeVersion`, with the table of API versions that the macro generates.
pub record RuntimeVersion (ApiVersions : Type 0) : Type 0 where
  pub spec_name : String
  pub impl_name : String
  pub authoring_version : ℕ
  pub spec_version : ℕ
  pub impl_version : ℕ
  pub apis : ApiVersions
  pub transaction_version : ℕ
  pub state_version : ℕ

unfoldable pub version : {V : Type 0} → V → RuntimeVersion V
version runtime_api_versions = record {
  spec_name = "template-parachain";
  impl_name = "template-parachain";
  authoring_version = 1;
  spec_version = 1;
  impl_version = 0;
  apis = runtime_api_versions;
  transaction_version = 1;
  state_version = 1;
}

-- `NativeVersion` with its default authoring set.
pub record NativeVersion (V A : Type 0) : Type 0 where
  pub runtime_version : RuntimeVersion V
  pub can_author_with : A

unfoldable pub native_version : {V A : Type 0} → V → A → NativeVersion V A
unfolding version
native_version runtime_api_versions nobody = record {
  runtime_version = version runtime_api_versions;
  can_author_with = nobody;
}

-- The types of the blocks and answers.
pub record Types : Type 1 where
  pub State : Type 0
  pub Block : Type 0
  pub Header : Type 0
  pub Extrinsic : Type 0
  pub Hash : Type 0
  pub AuraId : Type 0
  pub AccountId : Type 0
  pub RuntimeCall : Type 0
  pub ApiVersions : Type 0
  pub SlotDuration : Type 0
  pub Metadata : Type 0
  pub ApplyExtrinsicResult : Type 0
  pub InherentData : Type 0
  pub CheckInherentsResult : Type 0
  pub TransactionSource : Type 0
  pub TransactionValidity : Type 0
  pub KeyTypeId : Type 0
  pub RuntimeDispatchInfo : Type 0
  pub FeeDetails : Type 0
  pub CollationInfo : Type 0

-- An API call reads and writes the state of the chain.
abbrev pub Call : Types → Type 0 → Type 0
Call T A = T.State → A × T.State

-- The pallets and libraries that the APIs hand their calls to.
pub record Components (T : Types) : Type 0 where
  pub from_millis : ℕ → T.SlotDuration
  -- `pallet_aura::Pallet::slot_duration`, over the minimum period of pallet_timestamp.
  pub aura_slot_duration : ℕ → ℕ
  pub aura_authorities : Call T (List T.AuraId)
  pub runtime_api_versions : T.ApiVersions
  pub executive_execute_block : T.Block → Call T (Unit {0})
  pub executive_initialize_block : T.Header → Call T (Unit {0})
  pub opaque_metadata : T.Metadata
  pub executive_apply_extrinsic : T.Extrinsic → Call T T.ApplyExtrinsicResult
  pub executive_finalize_block : Call T T.Header
  pub create_extrinsics : T.InherentData → Call T (List T.Extrinsic)
  pub check_extrinsics : T.InherentData → T.Block → Call T T.CheckInherentsResult
  pub executive_validate_transaction :
      T.TransactionSource → T.Extrinsic → T.Hash → Call T T.TransactionValidity
  pub executive_offchain_worker : T.Header → Call T (Unit {0})
  pub session_keys_generate : Option (List ℕ) → List ℕ
  pub decode_into_raw_public_keys : List ℕ → Option (List (List ℕ × T.KeyTypeId))
  pub system_account_nonce : T.AccountId → Call T ℕ
  pub query_info : T.Extrinsic → ℕ → Call T T.RuntimeDispatchInfo
  pub query_fee_details : T.Extrinsic → ℕ → Call T T.FeeDetails
  pub query_call_info : T.RuntimeCall → ℕ → Call T T.RuntimeDispatchInfo
  pub query_call_fee_details : T.RuntimeCall → ℕ → Call T T.FeeDetails
  pub collect_collation_info : T.Header → Call T T.CollationInfo

-- The methods of `impl_runtime_apis!` that every build has.
module _ {T : Types} (C : Components T) where
  unfoldable pub slot_duration : T.SlotDuration
  slot_duration = C.from_millis (C.aura_slot_duration minimum_period)

  unfoldable pub authorities : Call T (List T.AuraId)
  authorities = C.aura_authorities

  unfoldable pub api_version : RuntimeVersion T.ApiVersions
  unfolding version
  api_version = version C.runtime_api_versions

  unfoldable pub execute_block : T.Block → Call T (Unit {0})
  execute_block block = C.executive_execute_block block

  unfoldable pub initialize_block : T.Header → Call T (Unit {0})
  initialize_block header = C.executive_initialize_block header

  unfoldable pub metadata : T.Metadata
  metadata = C.opaque_metadata

  unfoldable pub apply_extrinsic : T.Extrinsic → Call T T.ApplyExtrinsicResult
  apply_extrinsic extrinsic = C.executive_apply_extrinsic extrinsic

  unfoldable pub finalize_block : Call T T.Header
  finalize_block = C.executive_finalize_block

  unfoldable pub inherent_extrinsics : T.InherentData → Call T (List T.Extrinsic)
  inherent_extrinsics inherents = C.create_extrinsics inherents

  unfoldable pub check_inherents : T.Block → T.InherentData → Call T T.CheckInherentsResult
  check_inherents block inherents = C.check_extrinsics inherents block

  unfoldable pub validate_transaction :
      T.TransactionSource → T.Extrinsic → T.Hash → Call T T.TransactionValidity
  validate_transaction source tx block_hash = C.executive_validate_transaction source tx block_hash

  unfoldable pub offchain_worker : T.Header → Call T (Unit {0})
  offchain_worker header = C.executive_offchain_worker header

  unfoldable pub generate_session_keys : Option (List ℕ) → List ℕ
  generate_session_keys seed = C.session_keys_generate seed

  unfoldable pub decode_session_keys : List ℕ → Option (List (List ℕ × T.KeyTypeId))
  decode_session_keys encoded = C.decode_into_raw_public_keys encoded

  unfoldable pub account_nonce : T.AccountId → Call T ℕ
  account_nonce account = C.system_account_nonce account

  unfoldable pub query_info : T.Extrinsic → ℕ → Call T T.RuntimeDispatchInfo
  query_info uxt len = C.query_info uxt len

  unfoldable pub query_fee_details : T.Extrinsic → ℕ → Call T T.FeeDetails
  query_fee_details uxt len = C.query_fee_details uxt len

  unfoldable pub query_call_info : T.RuntimeCall → ℕ → Call T T.RuntimeDispatchInfo
  query_call_info call len = C.query_call_info call len

  unfoldable pub query_call_fee_details : T.RuntimeCall → ℕ → Call T T.FeeDetails
  query_call_fee_details call len = C.query_call_fee_details call len

  unfoldable pub collect_collation_info : T.Header → Call T T.CollationInfo
  collect_collation_info header = C.collect_collation_info header

  -- What pallet_aura documents: a slot lasts twice the minimum period of pallet_timestamp.
  abbrev pub DoublesPeriod : Type 0
  DoublesPeriod = (least : ℕ) → C.aura_slot_duration least ≡ 2 * least

  -- Provided that pallet_aura's slot lasts twice the minimum period, the slot duration that the node is
  -- told is the block time of the chain, although it is computed from half of it.
  pub slot_duration-millisecs_per_block :
      DoublesPeriod → slot_duration ≡ C.from_millis millisecs_per_block
  unfolding slot_duration
  slot_duration-millisecs_per_block doubles = ap C.from_millis (doubles minimum_period)
