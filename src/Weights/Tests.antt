-- ===== src/Weights/Tests.antt =====
-- The theorems about the weight files over plain picoseconds.
use evm_parachain.Base.{◌≡◌, refl}
use evm_parachain.Weights.{rocks_db_weight}
use evm_parachain.Weights.Picoseconds.{picoseconds, picoseconds-IsDocumented}
use evm_parachain.Weights.Sane.{
  IsSaneBlock, IsSaneExtrinsic, IsSaneRocksDb, IsSaneParityDb, weights-IsSane,
}

rocks_db_weight_test : rocks_db_weight picoseconds ≡ record { read = 25000000; write = 100000000 }
unfolding rocks_db_weight
rocks_db_weight_test = refl

picoseconds-sane :
    IsSaneBlock picoseconds picoseconds-IsDocumented
    × IsSaneExtrinsic picoseconds picoseconds-IsDocumented
    × IsSaneRocksDb picoseconds picoseconds-IsDocumented
    × IsSaneParityDb picoseconds picoseconds-IsDocumented
picoseconds-sane = weights-IsSane picoseconds picoseconds-IsDocumented
