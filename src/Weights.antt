-- ===== src/Weights.antt =====
-- runtime/src/weights/: the weights of a block, of an extrinsic and of database operations.
-- `Weight` and its operations belong to frame_support, and are the parameter `WeightLib`.
use evm_parachain.Base.{ℕ, ◌*◌, ◌%◌, ◌^◌, ◌+◌, ◌<◌, ◌≤◌, ◌/◌, ◌≡◌, min, ◌-◌}
pub mod Sane
pub mod Picoseconds
mod Tests

abbrev pub u64_mod : ℕ
u64_mod = 2 ^ 64

-- The struct literal of the two database modules.
pub record RuntimeDbWeight : Type 0 where
  pub read : ℕ
  pub write : ℕ

-- What the runtime uses of `frame_support::weights`.
pub record WeightLib : Type 1 where
  pub Weight : Type 0
  pub ref_time : Weight → ℕ
  pub from_ref_time : ℕ → Weight
  pub add : Weight → Weight → Weight
  pub sub : Weight → Weight → Weight
  pub saturating_mul : Weight → ℕ → Weight
  pub saturating_div : Weight → ℕ → Weight
  pub set_proof_size : Weight → ℕ → Weight
  pub reads : RuntimeDbWeight → ℕ → Weight
  pub writes : RuntimeDbWeight → ℕ → Weight
  pub reads_writes : RuntimeDbWeight → ℕ → ℕ → Weight
  pub weight_per_second : Weight
  pub weight_per_millis : Weight
  pub weight_per_micros : Weight
  pub weight_per_nanos : Weight

-- A weight's time is counted in picoseconds; the operations saturate at the largest u64.
pub record IsDocumented (W : WeightLib) : Type 0 where
  pub ref_time-from_ref_time : (n : ℕ) → n < u64_mod → W.ref_time (W.from_ref_time n) ≡ n
  pub ref_time-add :
      (v w : W.Weight)
      → W.ref_time v + W.ref_time w < u64_mod
      → W.ref_time (W.add v w) ≡ W.ref_time v + W.ref_time w
  pub ref_time-sub :
      (v w : W.Weight)
      → W.ref_time w ≤ W.ref_time v
      → W.ref_time (W.sub v w) ≡ W.ref_time v - W.ref_time w
  pub ref_time-saturating_div :
      (w : W.Weight) (k : ℕ) → 0 < k → W.ref_time (W.saturating_div w k) ≡ W.ref_time w / k
  pub ref_time-set_proof_size :
      (w : W.Weight) (n : ℕ) → W.ref_time (W.set_proof_size w n) ≡ W.ref_time w
  pub ref_time-saturating_mul :
      (w : W.Weight) (k : ℕ)
      → W.ref_time (W.saturating_mul w k) ≡ min (W.ref_time w * k) (u64_mod - 1)
  pub ref_time-reads :
      (d : RuntimeDbWeight) (k : ℕ) → W.ref_time (W.reads d k) ≡ min (d.read * k) (u64_mod - 1)
  pub ref_time-writes :
      (d : RuntimeDbWeight) (k : ℕ) → W.ref_time (W.writes d k) ≡ min (d.write * k) (u64_mod - 1)
  pub ref_time-reads_writes :
      (d : RuntimeDbWeight) (r w : ℕ)
      → d.read * r + d.write * w < u64_mod
      → W.ref_time (W.reads_writes d r w) ≡ d.read * r + d.write * w
  pub nanos : W.ref_time W.weight_per_nanos ≡ 1000
  pub micros : W.ref_time W.weight_per_micros ≡ 1000000
  pub millis : W.ref_time W.weight_per_millis ≡ 1000000000
  pub second : W.ref_time W.weight_per_second ≡ 1000000000000

-- A product of u64 values.
abbrev mul_u64 : ℕ → ℕ → ℕ
mul_u64 a b = (a * b) % u64_mod

module _ (W : WeightLib) where
  unfoldable pub block_execution_weight : W.Weight
  block_execution_weight = W.saturating_mul W.weight_per_nanos 5000000

  unfoldable pub extrinsic_base_weight : W.Weight
  extrinsic_base_weight = W.saturating_mul W.weight_per_nanos 125000

  unfoldable pub rocks_db_weight : RuntimeDbWeight
  rocks_db_weight = record {
    read = mul_u64 25000 (W.ref_time W.weight_per_nanos);
    write = mul_u64 100000 (W.ref_time W.weight_per_nanos);
  }

  unfoldable pub parity_db_weight : RuntimeDbWeight
  parity_db_weight = record {
    read = mul_u64 8000 (W.ref_time W.weight_per_nanos);
    write = mul_u64 50000 (W.ref_time W.weight_per_nanos);
  }
