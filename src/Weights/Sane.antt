-- ===== src/Weights/Sane.antt =====
-- The bounds that the `sane` tests of runtime/src/weights/ ask for.
use evm_parachain.Base.{◌*◌, ◌≤◌, ◌≡◌, arith}
use evm_parachain.Weights.{
  WeightLib, IsDocumented, RuntimeDbWeight, block_execution_weight, extrinsic_base_weight,
  rocks_db_weight, parity_db_weight,
}

module _ (W : WeightLib) (D : IsDocumented W) where
  open W use {ref_time, reads, writes, weight_per_micros, weight_per_millis}

  pub ref_time-block_execution_weight : ref_time (block_execution_weight W) ≡ 5000000000
  unfolding block_execution_weight
  ref_time-block_execution_weight =
      omega (arith, D.ref_time-saturating_mul W.weight_per_nanos 5000000, D.nanos)

  pub ref_time-extrinsic_base_weight : ref_time (extrinsic_base_weight W) ≡ 125000000
  unfolding extrinsic_base_weight
  ref_time-extrinsic_base_weight =
      omega (arith, D.ref_time-saturating_mul W.weight_per_nanos 125000, D.nanos)

  pub read-rocks_db_weight : (rocks_db_weight W).read ≡ 25000000
  unfolding rocks_db_weight
  read-rocks_db_weight = omega (arith, D.nanos)

  pub write-rocks_db_weight : (rocks_db_weight W).write ≡ 100000000
  unfolding rocks_db_weight
  write-rocks_db_weight = omega (arith, D.nanos)

  pub read-parity_db_weight : (parity_db_weight W).read ≡ 8000000
  unfolding parity_db_weight
  read-parity_db_weight = omega (arith, D.nanos)

  pub write-parity_db_weight : (parity_db_weight W).write ≡ 50000000
  unfolding parity_db_weight
  write-parity_db_weight = omega (arith, D.nanos)

  -- One read and one write of a database each take between 1 µs and 1 ms.
  abbrev pub IsSaneDb : RuntimeDbWeight → Type 0
  IsSaneDb d =
      (ref_time weight_per_micros ≤ ref_time (reads d 1))
      × (ref_time weight_per_micros ≤ ref_time (writes d 1))
      × (ref_time (reads d 1) ≤ ref_time weight_per_millis)
      × (ref_time (writes d 1) ≤ ref_time weight_per_millis)

  abbrev pub IsSaneRocksDb : Type 0
  IsSaneRocksDb = IsSaneDb (rocks_db_weight W)

  abbrev pub IsSaneParityDb : Type 0
  IsSaneParityDb = IsSaneDb (parity_db_weight W)

  -- The one-time cost of a block (100 µs to 50 ms), and that of an extrinsic (10 µs to 1 ms).
  abbrev pub IsSaneBlock : Type 0
  IsSaneBlock =
      (100 * ref_time weight_per_micros ≤ ref_time (block_execution_weight W))
      × (ref_time (block_execution_weight W) ≤ 50 * ref_time weight_per_millis)

  abbrev pub IsSaneExtrinsic : Type 0
  IsSaneExtrinsic =
      (10 * ref_time weight_per_micros ≤ ref_time (extrinsic_base_weight W))
      × (ref_time (extrinsic_base_weight W) ≤ ref_time weight_per_millis)

  -- All four `sane` tests of the weight files hold, for every weight library that counts time in
  -- picoseconds and saturates as documented.
  pub weights-IsSane : IsSaneBlock × IsSaneExtrinsic × IsSaneRocksDb × IsSaneParityDb
  weights-IsSane = omega (
    arith,
    ref_time-block_execution_weight,
    ref_time-extrinsic_base_weight,
    read-rocks_db_weight,
    write-rocks_db_weight,
    read-parity_db_weight,
    write-parity_db_weight,
    D.ref_time-reads (rocks_db_weight W) 1,
    D.ref_time-writes (rocks_db_weight W) 1,
    D.ref_time-reads (parity_db_weight W) 1,
    D.ref_time-writes (parity_db_weight W) 1,
    D.micros,
    D.millis,
  )
