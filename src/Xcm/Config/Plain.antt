-- ===== src/Xcm/Config/Plain.antt =====
-- runtime/src/xcm_config.rs: exactly which messages of plain instructions run with `XcmConfig`, and what
-- their weight costs. The executor and the trader are outside code.
mod Tests
use evm_parachain.Base.{
  ℕ, ◌*◌, ◌≤◌, ◌<◌, ◌≡◌, ◌↔◌, Bool, true, some, List, All, length, leb, subst, arith, ◌∙◌,
  if◌then◌else◌, ap,
}
use evm_parachain.Weights.{WeightLib, IsDocumented}
use evm_parachain.Runtime.{
  PerbillLib, WeightToFeeCoefficient, existential_deposit, microunit, polynomial,
}
use evm_parachain.Runtime.Fees.{IsRational, charge, charge-polynomial}
use evm_parachain.Runtime.Pallets.{Pallet, balances}
use evm_parachain.Xcm.{
  Opaque, MultiLocation, Allows, max_instructions, unit_weight_cost, relay_location,
}
use evm_parachain.Xcm.Reserve.{Reaches}
use evm_parachain.Xcm.Origins.{Converters}
use evm_parachain.Xcm.Router.{
  Xcm, Routers, weigher, IsPlain, CountsPlain, plain-weight, plain_length,
}
use evm_parachain.Xcm.Entry.{Passes, DocumentedAllows, MayExecute, barrier-MayExecute}
use evm_parachain.Xcm.Config.{Handlers, XcmConfig, xcm_config}
use evm_parachain.Xcm.Config.Executor.{Execute, IsGuarded, pending, execute-ran}

module _ {O : Opaque} {C : Converters O} {P : PerbillLib} (H : Handlers O C P) (R : Routers O)
    {Outcome State : Type 0} (execute : Execute H R Outcome State) (A : Allows O)
    (D : DocumentedAllows A) (G : IsGuarded H R execute A) where
  -- An executor runs every message that is weighed, within the limit, and let in by the barrier.
  abbrev pub Admits : Type 0
  Admits =
      (c : XcmConfig H R) (l : MultiLocation O) (m : Xcm O) (limit credit w : ℕ) (s : State)
      → c.weigher m ≡ some w
      → w ≤ limit
      → Passes A c.barrier l w (pending H R execute m credit)
      → G.ran (execute c l m limit credit s).0 ≡ true

  module _ (W : WeightLib) (parachain_id : ℕ) where
    -- If the executor runs exactly what is weighed, within the limit and let in, the filters behave as
    -- documented, and the weigher counts plain instructions, then a message of plain instructions is run
    -- under the configuration of this chain exactly if it has at most `MaxInstructions` of them, the unit
    -- cost for each is within its limit, it moves no reserve to the relay chain at its top level, and its
    -- credit covers that cost, or it pays at its top level, or it comes from the relay chain or a part of
    -- its executive body.
    pub execute-plain :
        (IsOpaque : O.OtherInstruction → Type 0) (l : MultiLocation O) (m : Xcm O)
        (limit credit : ℕ) (s : State)
        → Admits
        → CountsPlain O R IsOpaque
        → All (IsPlain O R IsOpaque) m
        → (G.ran (execute (xcm_config H W R A parachain_id) l m limit credit s).0 ≡ true) ↔ (
            (length m ≤ max_instructions)
            × (length m * unit_weight_cost ≤ limit)
            × (¬ Reaches m)
            × MayExecute A D l (length m * unit_weight_cost) (pending H R execute m credit))
    unfolding xcm_config
    execute-plain IsOpaque l m limit credit s admits counts plain = (
      λ run.
          let (w, weighed, low, clean, may) =
            execute-ran H R execute W A D G parachain_id l m limit credit s run in
          let (few, cost) = plain_length O R IsOpaque m w counts plain weighed in
          (
            few,
            subst (λ v. v ≤ limit) cost low,
            clean,
            subst (λ v. MayExecute A D l v (pending H R execute m credit)) cost may,
          ),
      λ (few, low, clean, may).
          admits (xcm_config H W R A parachain_id) l m limit credit (length m * unit_weight_cost) s
            (plain-weight O R IsOpaque m counts plain few) low
            ((barrier-MayExecute A D l (length m * unit_weight_cost)
                (pending H R execute m credit)).1
              (clean, may)),
    )

-- What a trader takes for a weight: the value of its polynomial, where that is whole.
pub record IsPriced {O : Opaque} {C : Converters O} {P : PerbillLib} (H : Handlers O C P)
    : Type 0 where
  pub price : H.Trader → ℕ → ℕ
  pub whole :
      (cs : List (WeightToFeeCoefficient P)) (l : MultiLocation O) (p : Pallet) (w k : ℕ)
      → charge cs w ≡ k * 1000000000
      → price (H.using_components cs l p) w ≡ k

module _ {O : Opaque} {C : Converters O} {P : PerbillLib} (H : Handlers O C P) (R : Routers O)
    (A : Allows O) (W : WeightLib) (D : IsDocumented W) (Q : IsRational P) (T : IsPriced H)
    (parachain_id : ℕ) where
  -- With weights that count picoseconds, a Perbill that rounds quotients down, a weigher that counts plain
  -- instructions, and a trader that takes the value of its polynomial where that is whole, the weight of
  -- a message of plain instructions costs eight MICROUNIT for each, and less than the existential deposit
  -- in all.
  pub xcm_config-price :
      (IsOpaque : O.OtherInstruction → Type 0) (m : Xcm O) (w : ℕ)
      → CountsPlain O R IsOpaque
      → All (IsPlain O R IsOpaque) m
      → (xcm_config H W R A parachain_id).weigher m ≡ some w
      → (T.price (xcm_config H W R A parachain_id).trader w ≡ length m * (8 * microunit))
        × (T.price (xcm_config H W R A parachain_id).trader w < existential_deposit)
  unfolding xcm_config
  xcm_config-price IsOpaque m w counts plain weighed =
      let (few, cost) = plain_length O R IsOpaque m w counts plain weighed in
      let charged = (charge-polynomial W D P Q w).0 in
      let paid =
        T.whole (polynomial W P) relay_location balances w (length m * (8 * microunit))
          (omega (arith, charged, cost)) in
      (paid, omega (arith, paid, few))
