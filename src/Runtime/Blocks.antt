-- ===== src/Runtime/Blocks.antt =====
-- runtime/src/lib.rs: the limits on the weight of a block, and how they fit together.
use evm_parachain.Base.{ℕ, ◌+◌, ◌*◌, ◌≤◌, ◌≡◌, Option, some, List, [], ◌∷◌, arith}
use evm_parachain.Weights.{WeightLib, IsDocumented, block_execution_weight, extrinsic_base_weight}
use evm_parachain.Runtime.{PerbillLib}
use evm_parachain.Xcm.{unit_weight_cost, max_instructions}

-- The fields of `WeightsPerClass` that the closures of the source write.
pub record WeightsPerClass (W : WeightLib) : Type 0 where
  pub base_extrinsic : W.Weight
  pub max_total : Option W.Weight
  pub reserved : Option W.Weight

pub data DispatchClass : Type 0 where
  normal operational mandatory : DispatchClass

-- The builder of `frame_system::limits`, `Perbill * Weight`, the largest proof size of a block, and
-- `BlockLength::max_with_normal_ratio`.
pub record Limits (W : WeightLib) (P : PerbillLib) : Type 1 where
  pub mul_ratio : P.Perbill → W.Weight → W.Weight
  pub max_pov_size : ℕ
  pub BlockLength : Type 0
  pub max_with_normal_ratio : ℕ → P.Perbill → BlockLength
  pub Builder : Type 0
  pub BlockWeights : Type 0
  pub builder : Builder
  pub base_block : W.Weight → Builder → Builder
  pub for_class : List DispatchClass → (WeightsPerClass W → WeightsPerClass W) → Builder → Builder
  pub avg_block_initialization : P.Perbill → Builder → Builder
  pub build_or_panic : Builder → Option BlockWeights

module _ (W : WeightLib) (P : PerbillLib) (L : Limits W P) where
  unfoldable pub maximum_block_weight : W.Weight
  maximum_block_weight = W.set_proof_size (W.saturating_div W.weight_per_second 2) L.max_pov_size

  abbrev average_on_initialize_ratio : P.Perbill
  average_on_initialize_ratio = P.from_percent 5

  abbrev normal_dispatch_ratio : P.Perbill
  normal_dispatch_ratio = P.from_percent 75

  unfoldable pub runtime_block_length : L.BlockLength
  runtime_block_length = L.max_with_normal_ratio (5 * 1024 * 1024) normal_dispatch_ratio

  -- The closures that the builder is given.
  unfoldable pub for_all : WeightsPerClass W → WeightsPerClass W
  for_all weights = record weights { base_extrinsic = extrinsic_base_weight W }

  unfoldable pub for_normal : WeightsPerClass W → WeightsPerClass W
  for_normal weights = record weights {
    max_total = some (L.mul_ratio normal_dispatch_ratio maximum_block_weight);
  }

  unfoldable pub for_operational : WeightsPerClass W → WeightsPerClass W
  for_operational weights = record weights {
    max_total = some maximum_block_weight;
    reserved =
        some (W.sub maximum_block_weight (L.mul_ratio normal_dispatch_ratio maximum_block_weight));
  }

  -- `none` is the panic of `build_or_panic`.
  unfoldable pub runtime_block_weights : Option L.BlockWeights
  unfolding for_all for_normal for_operational
  runtime_block_weights = L.build_or_panic (
      L.avg_block_initialization average_on_initialize_ratio (
        L.for_class (operational ∷ []) for_operational (
          L.for_class (normal ∷ []) for_normal (
            L.for_class (normal ∷ operational ∷ mandatory ∷ []) for_all
              (L.base_block (block_execution_weight W) L.builder)))))

  -- What the queues of the relay chain and of the siblings may use at least.
  unfoldable pub reserved_xcmp_weight : W.Weight
  reserved_xcmp_weight = W.saturating_div maximum_block_weight 4

  unfoldable pub reserved_dmp_weight : W.Weight
  reserved_dmp_weight = W.saturating_div maximum_block_weight 4

  -- `Perbill * Weight` is exact in time where a hundredth of the product is whole.
  abbrev pub IsPercentage : Type 0
  IsPercentage =
      (percent k : ℕ) (w : W.Weight)
      → W.ref_time w * percent ≡ 100 * k
      → W.ref_time (L.mul_ratio (P.from_percent percent) w) ≡ k

module _ (W : WeightLib) (D : IsDocumented W) (P : PerbillLib) (L : Limits W P)
    (I : IsPercentage W P L) where
  pub ref_time-maximum_block_weight : W.ref_time (maximum_block_weight W P L) ≡ 500000000000
  unfolding maximum_block_weight
  ref_time-maximum_block_weight =
      let half = D.ref_time-saturating_div W.weight_per_second 2 (omega arith) in
      let whole =
        D.ref_time-set_proof_size (W.saturating_div W.weight_per_second 2) L.max_pov_size in
      omega (arith, half, whole, D.second)

  normal_limit : W.Weight
  normal_limit = L.mul_ratio (normal_dispatch_ratio W P L) (maximum_block_weight W P L)

  -- With weights that count picoseconds as documented, a message of at most `MaxInstructions`
  -- operations, at the unit cost of each, fits into what a block reserves for the messages of the
  -- relay chain, and into what it reserves for those of the siblings; the two reserves together
  -- take half of a block.
  pub messages_fit :
      (n : ℕ)
      → n ≤ max_instructions
      → (n * unit_weight_cost ≤ W.ref_time (reserved_dmp_weight W P L))
        × (n * unit_weight_cost ≤ W.ref_time (reserved_xcmp_weight W P L))
        × (2 * (W.ref_time (reserved_dmp_weight W P L) + W.ref_time (reserved_xcmp_weight W P L))
            ≡ W.ref_time (maximum_block_weight W P L))
  unfolding reserved_dmp_weight reserved_xcmp_weight
  messages_fit n h =
      let part = D.ref_time-saturating_div (maximum_block_weight W P L) 4 (omega arith) in
      let whole = ref_time-maximum_block_weight in omega (arith, part, whole)
