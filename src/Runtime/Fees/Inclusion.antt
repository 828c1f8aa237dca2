-- ===== src/Runtime/Fees/Inclusion.antt =====
-- runtime/src/lib.rs: what an extrinsic pays under `pallet_transaction_payment::Config`. The pallet's own
-- sum is outside code.
use evm_parachain.Base.{ℕ, ◌+◌, ◌*◌, ◌^◌, ◌<◌, ◌≤◌, ◌≡◌, List, [], ◌∷◌, All, length, arith}
use evm_parachain.Weights.{WeightLib, IsDocumented, extrinsic_base_weight}
use evm_parachain.Runtime.{PerbillLib, microunit}
use evm_parachain.Runtime.Fees.{IsRational, charge, charge-polynomial}
use evm_parachain.Runtime.Blocks.{
  Limits, WeightsPerClass, IsPercentage, maximum_block_weight, ref_time-maximum_block_weight,
  for_all,
}
use evm_parachain.Runtime.Config.Weighted.{TransactionPaymentConfig, transaction_payment_config}

-- An extrinsic by its length in bytes and the time of its weight.
pub record Sized : Type 0 where
  pub bytes : ℕ
  pub time : ℕ

module _ (W : WeightLib) (P : PerbillLib) (L : Limits W P) where
  -- The fee from the configuration, the base weight of the class and the extrinsic.
  abbrev pub InclusionFee : Type 0
  InclusionFee = TransactionPaymentConfig W P L → W.Weight → Sized → ℕ

  -- The three parts of a fee in billionths: for the base weight, for the weight, and for the length.
  abbrev pub exact : TransactionPaymentConfig W P L → W.Weight → Sized → ℕ
  exact c base x =
      charge c.weight_to_fee (W.ref_time base)
      + charge c.weight_to_fee x.time
      + x.bytes * c.length_to_fee * 1000000000

  -- At the fee multiplier that a chain starts with, which is one, and without a tip, the pallet adds up
  -- the parts, of which two are rounded, each by less than one.
  pub record AddsParts (fee : InclusionFee) : Type 0 where
    pub above :
        (c : TransactionPaymentConfig W P L) (base : W.Weight) (x : Sized)
        → x.time ≤ W.ref_time (maximum_block_weight W P L)
        → x.bytes < 2 ^ 32
        → exact c base x ≤ (fee c base x + 2) * 1000000000
    pub below :
        (c : TransactionPaymentConfig W P L) (base : W.Weight) (x : Sized)
        → x.time ≤ W.ref_time (maximum_block_weight W P L)
        → x.bytes < 2 ^ 32
        → fee c base x * 1000000000 ≤ exact c base x + 2 * 1000000000

  -- What `RuntimeBlockLength` and `MAXIMUM_BLOCK_WEIGHT` leave to one extrinsic.
  abbrev pub FitsBlock : Sized → Type 0
  FitsBlock x = (x.bytes ≤ 5 * 1024 * 1024) × (x.time ≤ W.ref_time (maximum_block_weight W P L))

  module _ (fee : InclusionFee) where
    -- The fee of an extrinsic in a class.
    abbrev pub fee_of : WeightsPerClass W → Sized → ℕ
    fee_of w x = fee (transaction_payment_config W P L) (for_all W P L w).base_extrinsic x

    abbrev pub total_fee : WeightsPerClass W → List Sized → ℕ
    total_fee w [] = 0
    total_fee w (x ∷ xs) = fee_of w x + total_fee w xs

    module _ (D : IsDocumented W) (R : IsRational P) (F : AddsParts fee) where
      exact-source :
          (w : WeightsPerClass W) (x : Sized)
          → exact (transaction_payment_config W P L) (for_all W P L w).base_extrinsic x
            ≡ 1000000000 * (microunit + x.bytes * (10 * microunit)) + 8000000 * x.time
      unfolding transaction_payment_config for_all
      exact-source w x =
          let base = charge-polynomial W D P R (W.ref_time (extrinsic_base_weight W)) in
          let part = charge-polynomial W D P R x.time in omega (arith, base.2, part.0)

      -- With weights that count picoseconds, a Perbill that rounds quotients down, and a pallet that adds
      -- up the parts of a fee as it does at a multiplier of one and without a tip, an extrinsic that fits
      -- into a block pays one MICROUNIT, ten for each byte, and eight thousandths of the picoseconds of
      -- its weight, up to two of the smallest units of balance.
      pub fee_of-bounds :
          (w : WeightsPerClass W) (x : Sized)
          → FitsBlock x
          → (1000 * (microunit + x.bytes * (10 * microunit)) + 8 * x.time ≤ 1000 * (fee_of w x + 2))
            × (1000 * fee_of w x
                ≤ 1000 * (microunit + x.bytes * (10 * microunit)) + 8 * x.time + 2000)
      fee_of-bounds w x h =
          let low =
            F.above (transaction_payment_config W P L) (for_all W P L w).base_extrinsic x h.1
              (omega arith) in
          let high =
            F.below (transaction_payment_config W P L) (for_all W P L w).base_extrinsic x h.1
              (omega arith) in
          let parts = exact-source w x in (omega (arith, low, parts), omega (arith, high, parts))

      module _ (I : IsPercentage W P L) where
        fee_of-FitsBlock :
            (w : WeightsPerClass W) (x : Sized) → FitsBlock x → fee_of w x ≤ 52432801000002
        fee_of-FitsBlock w x h =
            let bounds = fee_of-bounds w x h in
            let whole = ref_time-maximum_block_weight W D P L I in
            omega (arith, bounds.1, h.0, h.1, whole)

        -- With exact percentages besides, extrinsics that fit into a block pay together at most
        -- 52432801000002 of the smallest units of balance each.
        pub total_fee-FitsBlock :
            (w : WeightsPerClass W) (xs : List Sized)
            → All FitsBlock xs
            → total_fee w xs ≤ length xs * 52432801000002
        total_fee-FitsBlock w [] h = omega arith
        total_fee-FitsBlock w (x ∷ xs) (h, hs) =
            let one = fee_of-FitsBlock w x h in
            let rest = total_fee-FitsBlock w xs hs in omega (arith, one, rest)
