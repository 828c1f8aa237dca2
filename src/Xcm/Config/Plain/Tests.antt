-- ===== src/Xcm/Config/Plain/Tests.antt =====
-- The theorems about messages of plain instructions, over an executor that counts the messages that it
-- runs and a trader that takes the value of its polynomial.
use evm_parachain.Base.{
  ℕ, ◌*◌, ◌/◌, ◌≤◌, ◌<◌, ◌≡◌, ◌↔◌, refl, true, Result, ok, err, some, List, length, arith,
}
use evm_parachain.Weights.Picoseconds.{picoseconds, picoseconds-IsDocumented}
use evm_parachain.Runtime.{existential_deposit, microunit}
use evm_parachain.Runtime.Fees.{charge}
use evm_parachain.Runtime.Tests.{billionths-IsRational}
use evm_parachain.Xcm.{
  MultiLocation, Instruction, relay_location, max_instructions, unit_weight_cost,
}
use evm_parachain.Xcm.Tests.{numbers}
use evm_parachain.Xcm.Reserve.{Reaches}
use evm_parachain.Xcm.Examples.{routers, plain_message, IsNote}
use evm_parachain.Xcm.Router.{weigher}
use evm_parachain.Xcm.Entry.{Passes, MayExecute}
use evm_parachain.Xcm.Entry.Tests.{documented, documented-Documented}
use evm_parachain.Xcm.Config.{XcmConfig, xcm_config}
use evm_parachain.Xcm.Config.Executor.{pending}
use evm_parachain.Xcm.Config.Tests.{handlers, execute, guarded, run_let_in, run_weighed}
use evm_parachain.Xcm.Config.Plain.{Admits, execute-plain, IsPriced, xcm_config-price}

run_let_in-ok : (v : Result (Unit {0}) (Unit {0})) (s : ℕ) → v ≡ ok tt → (run_let_in v s).0 ≡ true
run_let_in-ok (ok u) s h = refl
run_let_in-ok (err u) s h = cc

run_weighed-some :
    (c : XcmConfig handlers routers) (l : MultiLocation numbers) (m : List (Instruction numbers))
    (limit credit s w : ℕ)
    → w ≤ limit
    → Passes documented c.barrier l w (pending handlers routers execute m credit)
    → (run_weighed c l m limit credit s (some w)).0 ≡ true
run_weighed-some c l m limit credit s w low passed =
    let let_in =
      run_let_in-ok (c.barrier l w (pending handlers routers execute m credit)).verdict s passed in
    ground (arith, let_in)

admits : Admits handlers routers execute documented documented-Documented guarded
admits c l m limit credit w s weighed low passed =
    rw weighed (run_weighed-some c l m limit credit s w low passed)

execute-plain_example :
    ((execute
        (xcm_config handlers picoseconds routers documented 2000)
        relay_location
        plain_message
        3000000000
        0
        4).0
      ≡ true)
    ↔ ((length plain_message ≤ max_instructions)
        × (length plain_message * unit_weight_cost ≤ 3000000000)
        × (¬ Reaches plain_message)
        × MayExecute documented documented-Documented relay_location
            (length plain_message * unit_weight_cost)
            (pending handlers routers execute plain_message 0))
execute-plain_example =
    execute-plain handlers routers execute documented documented-Documented guarded picoseconds 2000
      IsNote relay_location plain_message 3000000000 0 4 admits (λ cost most m plain. refl)
      (tt, (tt, tt))

whole_lem : (n k : ℕ) → n ≡ k * 1000000000 → n / 1000000000 ≡ k
whole_lem n k h = omega (arith, h)

abbrev priced : IsPriced handlers
priced = record { price = λ t w. t w; whole = λ cs l p w k h. whole_lem (charge cs w) k h }

two_weigh :
    (xcm_config handlers picoseconds routers documented 2000).weigher plain_message
    ≡ some 2000000000
unfolding xcm_config weigher
two_weigh = refl

xcm_config-price_example :
    (priced.price (xcm_config handlers picoseconds routers documented 2000).trader 2000000000
      ≡ length plain_message * (8 * microunit))
    × (priced.price (xcm_config handlers picoseconds routers documented 2000).trader 2000000000
        < existential_deposit)
xcm_config-price_example =
    xcm_config-price handlers routers documented picoseconds picoseconds-IsDocumented
      billionths-IsRational priced 2000 IsNote plain_message 2000000000 (λ cost most m plain. refl)
      (tt, (tt, tt)) two_weigh
