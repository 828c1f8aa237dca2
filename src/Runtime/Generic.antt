-- ===== src/Runtime/Generic.antt =====
-- runtime/src/lib.rs: the types of accounts, extrinsics, headers and blocks, and those of the module
-- `opaque`. The generic types of sp_runtime are outside code.
use evm_parachain.Base.{ℕ}

-- `sp_runtime::generic` and the types that it is used with.
pub record GenericLib : Type 1 where
  pub Hasher : Type 0
  pub blake_two256 : Hasher
  pub H256 : Type 0
  pub MultiSignature : Type 0
  -- The account of the signer that verifies a signature.
  pub AccountOf : Type 0 → Type 0
  pub MultiAddress : Type 0 → Type 0 → Type 0
  pub Header : Type 0 → Hasher → Type 0
  pub Block : Type 0 → Type 0 → Type 0
  pub SignedBlock : Type 0 → Type 0
  pub BlockId : Type 0 → Type 0
  pub UncheckedExtrinsic : Type 0 → Type 0 → Type 0 → Type 0 → Type 0
  pub CheckedExtrinsic : Type 0 → Type 0 → Type 0 → Type 0
  pub OpaqueExtrinsic : Type 0
  -- What `construct_runtime!` makes, and the tuple of signed extensions.
  pub RuntimeCall : Type 0
  pub SignedExtra : Type 0

-- `u128`, `u32` and `u32`.
abbrev pub Balance : Type 0
Balance = ℕ

abbrev pub Index : Type 0
Index = ℕ

abbrev pub BlockNumber : Type 0
BlockNumber = ℕ

module _ (G : GenericLib) where
  abbrev pub Signature : Type 0
  Signature = G.MultiSignature

  abbrev pub AccountId : Type 0
  AccountId = G.AccountOf Signature

  abbrev pub Hash : Type 0
  Hash = G.H256

  abbrev pub Address : Type 0
  Address = G.MultiAddress AccountId (Unit {0})

  abbrev pub Header : Type 0
  Header = G.Header BlockNumber G.blake_two256

  abbrev pub UncheckedExtrinsic : Type 0
  UncheckedExtrinsic = G.UncheckedExtrinsic Address G.RuntimeCall Signature G.SignedExtra

  abbrev pub CheckedExtrinsic : Type 0
  CheckedExtrinsic = G.CheckedExtrinsic AccountId G.RuntimeCall G.SignedExtra

  abbrev pub Block : Type 0
  Block = G.Block Header UncheckedExtrinsic

  abbrev pub SignedBlock : Type 0
  SignedBlock = G.SignedBlock Block

  abbrev pub BlockId : Type 0
  BlockId = G.BlockId Block

  -- The module `opaque`, for code that does not look into extrinsics.
  abbrev pub OpaqueHeader : Type 0
  OpaqueHeader = G.Header BlockNumber G.blake_two256

  abbrev pub OpaqueBlock : Type 0
  OpaqueBlock = G.Block OpaqueHeader G.OpaqueExtrinsic

  abbrev pub OpaqueBlockId : Type 0
  OpaqueBlockId = G.BlockId OpaqueBlock
