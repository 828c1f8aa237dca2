-- ===== src/Runtime/Tests.antt =====
-- The theorems about the runtime over numbers: weights are picoseconds, a Perbill is its billionths,
-- and every type that the runtime does not look into is ℕ.
use evm_parachain.Base.{
  ℕ, ◌++◌, Bool, String, ok, err, ◌+◌, ◌-◌, ◌*◌, ◌/◌, ◌≡◌, refl, Option, none, some, [], ◌∷◌, arith,
  ◌%◌, ◌&&◌, leb, ◌==◌, ap, ltb, if◌then◌else◌,
}
use evm_parachain.Weights.Picoseconds.{picoseconds}
use evm_parachain.Runtime.{PerbillLib, millisecs_per_block, hours, days, period, session_length}
use evm_parachain.Runtime.Fees.{IsRational}
use evm_parachain.Runtime.Blocks.{Limits, WeightsPerClass, IsPercentage}
use evm_parachain.Runtime.Apis.{Types, Components}
use evm_parachain.Runtime.Config.{PeriodicSessions}
use evm_parachain.Runtime.Optional.{Location, OptionalLib, dispatch_benchmark}
use evm_parachain.Runtime.Inherents.{InherentLib}
use text.Mathlib.Text.{◌==◌ as str_eq}

abbrev pub billionths : PerbillLib
billionths = record {
  Perbill = ℕ;
  parts = λ p. p;
  from_percent = λ p. p * 10000000;
  from_rational = λ p q. p * 1000000000 / q;
}

pub billionths-IsRational : IsRational billionths
billionths-IsRational = record { parts-from_rational = λ p q h k. refl }

abbrev pub limits : Limits picoseconds billionths
limits = record {
  mul_ratio = λ p w. p * w / 1000000000;
  max_pov_size = 5242880;
  BlockLength = ℕ;
  max_with_normal_ratio = λ n p. n;
  Builder = ℕ;
  BlockWeights = ℕ;
  builder = 0;
  base_block = λ w b. b;
  for_class = λ classes f b. b;
  avg_block_initialization = λ p b. b;
  build_or_panic = λ b. some b;
}

pub limits-IsPercentage : IsPercentage picoseconds billionths limits
limits-IsPercentage percent k w e = omega (arith, ap (λ (t : ℕ). t * 10000000) e)

six_hours : (period ≡ 1800) × (session_length ≡ 6 * hours) × (days * millisecs_per_block ≡ 86400000)
six_hours = (refl, refl, refl)

abbrev pub unset : WeightsPerClass picoseconds
unset = record { base_extrinsic = 0; max_total = none; reserved = none }

abbrev pub plain : Types
plain = record {
  State = ℕ;
  Block = ℕ;
  Header = ℕ;
  Extrinsic = ℕ;
  Hash = ℕ;
  AuraId = ℕ;
  AccountId = ℕ;
  RuntimeCall = ℕ;
  ApiVersions = ℕ;
  SlotDuration = ℕ;
  Metadata = ℕ;
  ApplyExtrinsicResult = ℕ;
  InherentData = ℕ;
  CheckInherentsResult = ℕ;
  TransactionSource = ℕ;
  TransactionValidity = ℕ;
  KeyTypeId = ℕ;
  RuntimeDispatchInfo = ℕ;
  FeeDetails = ℕ;
  CollationInfo = ℕ;
}

abbrev pub components : Components plain
components = record {
  from_millis = λ n. n;
  aura_slot_duration = λ n. 2 * n;
  aura_authorities = λ s. ([], s);
  runtime_api_versions = 0;
  executive_execute_block = λ b s. (tt, s + b);
  executive_initialize_block = λ h s. (tt, s + h);
  opaque_metadata = 0;
  executive_apply_extrinsic = λ e s. (0, s + e);
  executive_finalize_block = λ s. (s, s);
  create_extrinsics = λ d s. (d ∷ [], s);
  check_extrinsics = λ d b s. (d, s);
  executive_validate_transaction = λ source tx hash s. (tx, s);
  executive_offchain_worker = λ h s. (tt, s);
  session_keys_generate = λ seed. [];
  decode_into_raw_public_keys = λ bytes. none;
  system_account_nonce = λ account s. (account, s);
  query_info = λ uxt len s. (len, s);
  query_fee_details = λ uxt len s. (len, s);
  query_call_info = λ call len s. (len, s);
  query_call_fee_details = λ call len s. (len, s);
  collect_collation_info = λ h s. (h, s);
}

-- A proof is its slot; a block is its timestamp in seconds, valid from the start of the slot on.
abbrev slots : InherentLib
slots = record {
  Block = ℕ;
  RelayStateProof = Option ℕ;
  Slot = ℕ;
  Provider = ℕ;
  InherentData = ℕ;
  CheckInherentsResult = Option ℕ;
  read_slot = λ proof. proof;
  from_relay_chain_slot_and_duration = λ slot seconds. slot * seconds;
  create_inherent_data = λ start. some start;
  check_extrinsics = λ start block. if ltb block start then none else some (block - start);
}

-- The batches are the names of pallets; a benchmark counts in the state.
abbrev optional : OptionalLib picoseconds billionths limits plain
optional = record {
  TryStateSelect = Bool;
  max_block = λ b. 500000000000;
  try_runtime_upgrade = λ s. (if ltb s 10 then some 7 else none, s + 1);
  try_execute_block = λ block check select s. (some block, s + block);
  BenchmarkConfig = String;
  BenchmarkBatch = Location;
  BenchmarkList = String;
  StorageInfo = ℕ;
  storage_info = [];
  list_benchmark = λ extra b list. b.name ∷ list;
  add_benchmark = λ params b batches s.
      if str_eq params.0 b.name then (ok (batches ++ b.location ∷ []), s + 1) else (ok batches, s);
}

dispatch_benchmark_test :
    dispatch_benchmark optional "pallet_template" 4
    ≡ (err "Benchmark not found for this pallet.", 4)
unfolding dispatch_benchmark
dispatch_benchmark_test = refl

abbrev ends : PeriodicSessions → ℕ → Bool
ends p now = leb p.start now && ((now - p.start) % p.length == 0)
