-- ===== src/Runtime/Optional.antt =====
-- runtime/src/lib.rs: the runtime APIs of the builds with try-runtime and with runtime-benchmarks.
-- `Executive`, the benchmarks of the pallets and what `add_benchmark!` does with one of them are
-- parameters.
pub mod Dispatch
use text.Mathlib.Text.{◌==◌ as str_eq}
use text.Mathlib.TextEquality.{eq_iff}
use evm_parachain.Base.{
  Bool, true, false, ◌≡◌, ◌↔◌, refl, Option, none, some, List, [], ◌∷◌, ◌++◌, String, Result, ok,
  err, map_ok, map_some, arith, if◌then◌else◌, Bool-cases, Result-cases, inl, inr, ◌⊎◌,
}
use evm_parachain.Weights.{WeightLib}
use evm_parachain.Runtime.{PerbillLib}
use evm_parachain.Runtime.Blocks.{Limits, runtime_block_weights}
use evm_parachain.Runtime.Apis.{Types, Call}

-- The paths of the benchmarks that the source lists.
pub data Location : Type 0 where
  system_bench balances session_bench timestamp collator_selection xcmp_queue : Location

-- A pair `[name, path]` of `define_benchmarks!`.
pub record Benchmarked : Type 0 where
  pub name : String
  pub location : Location

abbrev pub benches : List Benchmarked
benches =
    record { name = "frame_system"; location = system_bench }
    ∷ record { name = "pallet_balances"; location = balances }
    ∷ record { name = "pallet_session"; location = session_bench }
    ∷ record { name = "pallet_timestamp"; location = timestamp }
    ∷ record { name = "pallet_collator_selection"; location = collator_selection }
    ∷ record { name = "cumulus_pallet_xcmp_queue"; location = xcmp_queue }
    ∷ []

-- `TrackedStorageKey`, by the hexadecimal digits of its bytes.
abbrev pub whitelist : List String
whitelist =
    "26aa394eea5630e07c48ae0c9558cef702a5c1b19ab7a04f536c519aca4983ac"
    ∷ "c2261276cc9d1f8598ea4b6a74b15c2f57c875e4cff74148e4628f264b974c80"
    ∷ "26aa394eea5630e07c48ae0c9558cef7ff553b5a9862a516939d82b3d3d8661a"
    ∷ "26aa394eea5630e07c48ae0c9558cef70a98fdbe9ce6c55837576c60c7af3850"
    ∷ "26aa394eea5630e07c48ae0c9558cef780d41e5e16056765bc8461851072c9d7" ∷ []

pub record OptionalLib (W : WeightLib) (P : PerbillLib) (L : Limits W P) (T : Types) : Type 1 where
  pub TryStateSelect : Type 0
  pub max_block : L.BlockWeights → W.Weight
  -- `none` for the errors at which the source panics.
  pub try_runtime_upgrade : Call T (Option W.Weight)
  pub try_execute_block : T.Block → Bool → TryStateSelect → Call T (Option W.Weight)
  pub BenchmarkConfig : Type 0
  pub BenchmarkBatch : Type 0
  pub BenchmarkList : Type 0
  pub StorageInfo : Type 0
  pub storage_info : List StorageInfo
  pub list_benchmark : Bool → Benchmarked → List BenchmarkList → List BenchmarkList
  pub add_benchmark :
      BenchmarkConfig × List String
      → Benchmarked
      → List BenchmarkBatch
      → Call T (Result String (List BenchmarkBatch))

module _ {W : WeightLib} {P : PerbillLib} {L : Limits W P} {T : Types}
    (O : OptionalLib W P L T) where
  open O use {
    TryStateSelect, BenchmarkConfig, BenchmarkBatch, BenchmarkList, StorageInfo, list_benchmark,
    add_benchmark,
  }

  -- A call that may panic, by which it leaves no state.
  abbrev pub Fallible : Type 0 → Type 0
  Fallible A = T.State → Option (A × T.State)

  -- `unwrap` and `expect` of an error.
  abbrev pub unwrap : {A : Type 0} → Option A × T.State → Option (A × T.State)
  unwrap (none, t) = none
  unwrap (some a, t) = some (a, t)

  abbrev pub with_limit :
      Option (W.Weight × T.State) → Option L.BlockWeights → Option ((W.Weight × W.Weight) × T.State)
  with_limit none limits = none
  with_limit (some (weight, t)) limits = map_some (λ l. ((weight, O.max_block l), t)) limits

  unfoldable pub on_runtime_upgrade : Fallible (W.Weight × W.Weight)
  on_runtime_upgrade s = with_limit (unwrap (O.try_runtime_upgrade s)) (runtime_block_weights W P L)

  unfoldable pub try_execute_block : T.Block → Bool → TryStateSelect → Fallible W.Weight
  try_execute_block block state_root_check select s =
      unwrap (O.try_execute_block block state_root_check select s)

  -- `list_benchmarks!`
  abbrev list_benchmarks : Bool → List Benchmarked → List BenchmarkList → List BenchmarkList
  list_benchmarks extra [] list = list
  list_benchmarks extra (b ∷ bs) list = list_benchmarks extra bs (list_benchmark extra b list)

  unfoldable pub benchmark_metadata : Bool → List BenchmarkList × List StorageInfo
  benchmark_metadata extra = (list_benchmarks extra benches [], O.storage_info)

  abbrev and_then :
      Result String (List BenchmarkBatch) × T.State
      → (List BenchmarkBatch → Call T (Result String (List BenchmarkBatch)))
      → Result String (List BenchmarkBatch) × T.State
  and_then (ok more, t) f = f more t
  and_then (err e, t) f = (err e, t)

  -- `add_benchmarks!`, whose first error returns from the caller.
  abbrev pub add_benchmarks :
      BenchmarkConfig × List String
      → List Benchmarked
      → List BenchmarkBatch
      → Call T (Result String (List BenchmarkBatch))
  add_benchmarks params [] batches s = (ok batches, s)
  add_benchmarks params (b ∷ bs) batches s =
      and_then (add_benchmark params b batches s) (λ more t. add_benchmarks params bs more t)

  abbrev pub found : Result String (List BenchmarkBatch) → Result String (List BenchmarkBatch)
  found (ok []) = err "Benchmark not found for this pallet."
  found (ok (b ∷ bs)) = ok (b ∷ bs)
  found (err e) = err e

  unfoldable pub dispatch_benchmark : BenchmarkConfig → Call T (Result String (List BenchmarkBatch))
  dispatch_benchmark config s =
      let (batches, t) = add_benchmarks (config, whitelist) benches [] s in (found batches, t)
