-- ===== src/Xcm/Capacity.antt =====
-- runtime/src/xcm_config.rs and runtime/src/lib.rs: how many instructions a block keeps room for.
use evm_parachain.Base.{ℕ, ◌+◌, ◌*◌, ◌≤◌, ◌≡◌, ◌↔◌, refl, some, List, [], ◌∷◌, All, length, arith}
use evm_parachain.Weights.{WeightLib, IsDocumented}
use evm_parachain.Runtime.{PerbillLib}
use evm_parachain.Runtime.Blocks.{
  Limits, IsPercentage, maximum_block_weight, reserved_dmp_weight, reserved_xcmp_weight,
  ref_time-maximum_block_weight,
}
use evm_parachain.Xcm.{Opaque, unit_weight_cost}
use evm_parachain.Xcm.Router.{Xcm, Routers, weigher, IsPlain, CountsPlain, plain_length}

abbrev pub total : List ℕ → ℕ
total [] = 0
total (w ∷ ws) = w + total ws

module _ (O : Opaque) (R : Routers O) where
  -- Each message is weighed, with the weight at its place.
  abbrev pub Weighed : List (Xcm O) → List ℕ → Type 0
  Weighed [] [] = Unit
  Weighed (m ∷ ms) (w ∷ ws) = (weigher O R m ≡ some w) × Weighed ms ws
  Weighed _ _ = ⊥

  -- The top-level instructions of a queue of messages.
  abbrev pub instructions : List (Xcm O) → ℕ
  instructions [] = 0
  instructions (m ∷ ms) = length m + instructions ms

  total-Weighed :
      (IsOpaque : O.OtherInstruction → Type 0) (ms : List (Xcm O)) (ws : List ℕ)
      → CountsPlain O R IsOpaque
      → All (All (IsPlain O R IsOpaque)) ms
      → Weighed ms ws
      → total ws ≡ instructions ms * unit_weight_cost
  total-Weighed IsOpaque [] [] counts plain h = refl
  total-Weighed IsOpaque [] (w ∷ ws) counts plain h = absurd h
  total-Weighed IsOpaque (m ∷ ms) [] counts plain h = absurd h
  total-Weighed IsOpaque (m ∷ ms) (w ∷ ws) counts (p, plain) (h, hs) =
      let one = (plain_length O R IsOpaque m w counts p h).1 in
      let rest = total-Weighed IsOpaque ms ws counts plain hs in omega (arith, one, rest)

  module _ (W : WeightLib) (D : IsDocumented W) (P : PerbillLib) (L : Limits W P)
      (I : IsPercentage W P L) where
    reserved :
        (W.ref_time (reserved_dmp_weight W P L) ≡ 125000000000)
        × (W.ref_time (reserved_xcmp_weight W P L) ≡ 125000000000)
    unfolding reserved_dmp_weight reserved_xcmp_weight
    reserved =
        let part = D.ref_time-saturating_div (maximum_block_weight W P L) 4 (omega arith) in
        let whole = ref_time-maximum_block_weight W D P L I in
        (omega (arith, part, whole), omega (arith, part, whole))

    -- With weights that count picoseconds, exact percentages of them, and a weigher that counts plain
    -- instructions: weighed messages of plain instructions fit together into what a block reserves for
    -- the messages of the relay chain exactly if they have at most 125 instructions in all, and so for
    -- what it reserves for those of the siblings.
    pub weigher-capacity :
        (IsOpaque : O.OtherInstruction → Type 0) (ms : List (Xcm O)) (ws : List ℕ)
        → CountsPlain O R IsOpaque
        → All (All (IsPlain O R IsOpaque)) ms
        → Weighed ms ws
        → ((total ws ≤ W.ref_time (reserved_dmp_weight W P L)) ↔ (instructions ms ≤ 125))
          × ((total ws ≤ W.ref_time (reserved_xcmp_weight W P L)) ↔ (instructions ms ≤ 125))
    weigher-capacity IsOpaque ms ws counts plain weighed =
        let sum = total-Weighed IsOpaque ms ws counts plain weighed in
        let (down, across) = reserved in
        (
          (λ h. omega (arith, sum, down, h), λ h. omega (arith, sum, down, h)),
          (λ h. omega (arith, sum, across, h), λ h. omega (arith, sum, across, h)),
        )
