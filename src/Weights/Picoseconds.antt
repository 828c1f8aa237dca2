-- ===== src/Weights/Picoseconds.antt =====
-- A weight library that counts plain picoseconds, which meets what is documented of frame_support's.
use evm_parachain.Base.{ℕ, ◌+◌, ◌*◌, ◌-◌, ◌/◌, refl, min}
use evm_parachain.Weights.{WeightLib, IsDocumented, u64_mod}

abbrev pub picoseconds : WeightLib
picoseconds = record {
  Weight = ℕ;
  ref_time = λ w. w;
  from_ref_time = λ n. n;
  add = λ v w. v + w;
  sub = λ v w. v - w;
  saturating_mul = λ w k. min (w * k) (u64_mod - 1);
  saturating_div = λ w k. w / k;
  set_proof_size = λ w n. w;
  reads = λ d k. min (d.read * k) (u64_mod - 1);
  writes = λ d k. min (d.write * k) (u64_mod - 1);
  reads_writes = λ d r w. d.read * r + d.write * w;
  weight_per_second = 1000000000000;
  weight_per_millis = 1000000000;
  weight_per_micros = 1000000;
  weight_per_nanos = 1000;
}

pub picoseconds-IsDocumented : IsDocumented picoseconds
picoseconds-IsDocumented = record {
  ref_time-from_ref_time = λ n h. refl;
  ref_time-add = λ v w h. refl;
  ref_time-sub = λ v w h. refl;
  ref_time-saturating_div = λ w k h. refl;
  ref_time-set_proof_size = λ w n. refl;
  ref_time-saturating_mul = λ w k. refl;
  ref_time-reads = λ d k. refl;
  ref_time-writes = λ d k. refl;
  ref_time-reads_writes = λ d r w h. refl;
  nanos = refl;
  micros = refl;
  millis = refl;
  second = refl;
}
