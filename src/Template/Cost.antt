-- ===== src/Template/Cost.antt =====
-- The weights of the calls, over the database weights of the runtime.
use evm_parachain.Base.{ℕ, ◌+◌, ◌≤◌, ◌≡◌, arith}
use evm_parachain.Weights.{WeightLib, IsDocumented, RuntimeDbWeight, rocks_db_weight}
use evm_parachain.Weights.Sane.{read-rocks_db_weight, write-rocks_db_weight}
use evm_parachain.Template.{Call, do_something, cause_error, call_weight}

module _ (W : WeightLib) (D : IsDocumented W) where
  abbrev db : RuntimeDbWeight
  db = rocks_db_weight W

  ref_time-do_something :
      (value : ℕ) → W.ref_time (call_weight W db (do_something value)) ≡ 100010000
  unfolding call_weight
  ref_time-do_something value =
      let base = D.ref_time-from_ref_time 10000 (omega arith) in
      let access = D.ref_time-writes db 1 in
      let size = write-rocks_db_weight W D in
      omega (
        arith,
        base,
        access,
        size,
        D.ref_time-add (W.from_ref_time 10000) (W.writes db 1) (omega arith),
      )

  ref_time-cause_error : W.ref_time (call_weight W db cause_error) ≡ 125010000
  unfolding call_weight
  ref_time-cause_error =
      let base = D.ref_time-from_ref_time 10000 (omega arith) in
      let size = write-rocks_db_weight W D in
      let size_read = read-rocks_db_weight W D in
      let access = D.ref_time-reads_writes db 1 1 (omega arith) in
      omega (
        arith,
        base,
        access,
        size,
        D.ref_time-add (W.from_ref_time 10000) (W.reads_writes db 1 1) (omega arith),
      )

  -- Over RocksDB, with a weight library that behaves as documented, `cause_error` costs exactly one
  -- database read more than `do_something`, whatever the argument, and no call costs more than 1 ms.
  pub call_weight-rocks_db :
      (value : ℕ) (c : Call)
      → (W.ref_time (call_weight W db cause_error)
          ≡ W.ref_time (call_weight W db (do_something value)) + db.read)
        × (W.ref_time (call_weight W db c) ≤ W.ref_time W.weight_per_millis)
  call_weight-rocks_db value (do_something other) = omega (
    arith,
    ref_time-do_something value,
    ref_time-do_something other,
    ref_time-cause_error,
    read-rocks_db_weight W D,
    D.millis,
  )
  call_weight-rocks_db value cause_error =
      omega (
        arith,
        ref_time-do_something value,
        ref_time-cause_error,
        read-rocks_db_weight W D,
        D.millis,
      )
