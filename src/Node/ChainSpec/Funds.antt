-- ===== src/Node/ChainSpec/Funds.antt =====
-- node/src/chain_spec.rs and runtime/src/lib.rs: what a genesis endows against what extrinsics cost.
use evm_parachain.Base.{ℕ, ◌+◌, ◌*◌, ◌^◌, ◌≤◌, ◌≡◌, some, List, [], ◌∷◌, map, All, length, arith}
use evm_parachain.Base.Panic.{>>=-eq-some}
use evm_parachain.Weights.{WeightLib, IsDocumented}
use evm_parachain.Runtime.{PerbillLib, existential_deposit}
use evm_parachain.Runtime.Fees.{IsRational}
use evm_parachain.Runtime.Fees.Inclusion.{
  Sized, InclusionFee, AddsParts, FitsBlock, total_fee, total_fee-FitsBlock,
}
use evm_parachain.Runtime.Blocks.{Limits, WeightsPerClass, IsPercentage}
use evm_parachain.Node.ChainSpec.{Outside, AuraId, GenesisConfig, endow, testnet_genesis}
use evm_parachain.Node.ChainSpec.Accounts.{balances-testnet_genesis}

module _ (O : Outside) where
  open O use {AccountId}

  -- Each account can spend an amount and keep what the runtime keeps an account for.
  abbrev pub Affords : ℕ → List (AccountId × ℕ) → Type 0
  Affords cost = All (λ (_, b). cost + existential_deposit ≤ b)

  Affords-endow :
      (cost : ℕ) (accounts : List AccountId)
      → cost + existential_deposit ≤ 2 ^ 60
      → Affords cost (map (endow O) accounts)
  Affords-endow cost [] h = tt
  Affords-endow cost (a ∷ rest) h = (h, Affords-endow cost rest h)

  bond-testnet_genesis :
      (invulnerables : List (AccountId × AuraId O)) (accounts : List AccountId) (id : ℕ)
      (g : GenesisConfig O)
      → testnet_genesis O invulnerables accounts id ≡ some g
      → g.candidacy_bond ≡ existential_deposit * 16
  unfolding testnet_genesis
  bond-testnet_genesis invulnerables accounts id g h =
      let (code, e, made) = >>=-eq-some O.wasm_binary _ h in ground arith

  module _ (W : WeightLib) (P : PerbillLib) (L : Limits W P) (fee : InclusionFee W P L)
      (D : IsDocumented W) (R : IsRational P) (I : IsPercentage W P L)
      (F : AddsParts W P L fee) where
    -- With weights that count picoseconds, a Perbill that rounds quotients down, exact percentages where
    -- they are whole, and a pallet that adds up the parts of a fee as it does at a multiplier of one and
    -- without a tip, every account that a genesis endows can pay for 20000 extrinsics, each of any length
    -- and weight that fit into a block, with the candidacy bond of a collator besides, and keep the
    -- existential deposit.
    pub testnet_genesis-total_fee :
        (invulnerables : List (AccountId × AuraId O)) (accounts : List AccountId) (id : ℕ)
        (g : GenesisConfig O) (w : WeightsPerClass W) (xs : List Sized)
        → testnet_genesis O invulnerables accounts id ≡ some g
        → All (FitsBlock W P L) xs
        → length xs ≤ 20000
        → Affords (total_fee W P L fee w xs + g.candidacy_bond) g.balances
    testnet_genesis-total_fee invulnerables accounts id g w xs made fits few =
        let total = total_fee-FitsBlock W P L fee D R F I w xs fits in
        let (endowed, _, _) = balances-testnet_genesis O invulnerables accounts id g made in
        let bond = bond-testnet_genesis invulnerables accounts id g made in
        rw (endowed, bond)
          (Affords-endow (total_fee W P L fee w xs + existential_deposit * 16) accounts
            (omega (arith, total, few)))
