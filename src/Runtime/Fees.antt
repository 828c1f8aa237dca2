-- ===== src/Runtime/Fees.antt =====
-- runtime/src/lib.rs: what `WeightToFee` charges for a weight.
pub mod Inclusion
pub mod Tests
use native.Mathlib.Nat.{pow-zero, pow-suc}
use evm_parachain.Base.{ℕ, ◌+◌, ◌*◌, ◌/◌, ◌^◌, ◌<◌, ◌≤◌, ◌≡◌, List, [], ◌∷◌, arith}
use evm_parachain.Weights.{WeightLib, IsDocumented, extrinsic_base_weight}
use evm_parachain.Weights.Sane.{ref_time-extrinsic_base_weight}
use evm_parachain.Runtime.{PerbillLib, WeightToFeeCoefficient, polynomial, milliunit, microunit}

-- `Perbill::from_rational` gives a proper fraction in billionths, rounded down.
pub record IsRational (P : PerbillLib) : Type 0 where
  pub parts-from_rational :
      (p q : ℕ) → p ≤ q → 0 < q → P.parts (P.from_rational p q) ≡ p * 1000000000 / q

-- The value of the polynomial at a weight, in billionths of the smallest unit of balance. No
-- coefficient of the source is negative.
abbrev pub charge : {P : PerbillLib} → List (WeightToFeeCoefficient P) → ℕ → ℕ
charge [] w = 0
charge {P} (c ∷ cs) w =
    (c.coeff_integer * 1000000000 + P.parts c.coeff_frac) * w ^ c.degree + charge cs w

pow-one : (n : ℕ) → n ^ 1 ≡ n
pow-one n =
    let once : n ^ 1 ≡ n ^ 0 * n = pow-suc n 0 in
    let never : n ^ 0 ≡ 1 = pow-zero n in rw (once, never) (omega arith)

module _ (W : WeightLib) (D : IsDocumented W) (P : PerbillLib) (R : IsRational P) where
  -- With weights that count picoseconds as documented, and a Perbill that rounds quotients down to
  -- billionths, the fee of a weight w is exactly 8/1000 of w. The base weight of an extrinsic is
  -- charged one thousandth of a MILLIUNIT, which is one MICROUNIT.
  pub charge-polynomial :
      (w : ℕ)
      → (charge (polynomial W P) w ≡ 8 * 1000000 * w)
        × (charge (polynomial W P) (W.ref_time (extrinsic_base_weight W)) * 1000
            ≡ milliunit * 1000000000)
        × (charge (polynomial W P) (W.ref_time (extrinsic_base_weight W)) ≡ microunit * 1000000000)
  unfolding polynomial
  charge-polynomial w =
      rw
        (
          ref_time-extrinsic_base_weight W D,
          R.parts-from_rational 100000000 12500000000 (omega arith) (omega arith),
          pow-one,
        )
        (omega arith)
