-- ===== src/Runtime/Fees/Tests.antt =====
-- The theorems about the fees of extrinsics, with a pallet that adds up the parts and drops the rest
-- below one.
use evm_parachain.Base.{◌+◌, ◌*◌, ◌/◌, ◌≤◌, arith}
use evm_parachain.Weights.Picoseconds.{picoseconds, picoseconds-IsDocumented}
use evm_parachain.Runtime.{microunit}
use evm_parachain.Runtime.Fees.Inclusion.{
  Sized, InclusionFee, exact, AddsParts, FitsBlock, fee_of, fee_of-bounds,
}
use evm_parachain.Runtime.Blocks.{maximum_block_weight}
use evm_parachain.Runtime.Tests.{billionths, billionths-IsRational, limits, unset}

abbrev pub rounded_down : InclusionFee picoseconds billionths limits
rounded_down c base x = exact picoseconds billionths limits c base x / 1000000000

pub rounded_down-AddsParts : AddsParts picoseconds billionths limits rounded_down
rounded_down-AddsParts = record {
  above = λ c base x h k. omega arith;
  below = λ c base x h k. omega arith;
}

abbrev pub transfer : Sized
transfer = record { bytes = 142; time = 200000000 }

pub transfer-FitsBlock : FitsBlock picoseconds billionths limits transfer
unfolding maximum_block_weight
transfer-FitsBlock = (omega arith, omega arith)

fee_of-bounds_example :
    (1000 * (microunit + 142 * (10 * microunit)) + 8 * 200000000
      ≤ 1000 * (fee_of picoseconds billionths limits rounded_down unset transfer + 2))
    × (1000 * fee_of picoseconds billionths limits rounded_down unset transfer
        ≤ 1000 * (microunit + 142 * (10 * microunit)) + 8 * 200000000 + 2000)
fee_of-bounds_example =
    fee_of-bounds picoseconds billionths limits rounded_down picoseconds-IsDocumented
      billionths-IsRational rounded_down-AddsParts unset transfer transfer-FitsBlock
