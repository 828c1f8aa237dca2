-- ===== src/Xcm/Config/Tests.antt =====
-- The theorems about `XcmConfig` over an executor that counts the messages that it runs.
use evm_parachain.Base.{
  ℕ, ◌+◌, ◌/◌, ◌≤◌, ◌≡◌, refl, Bool, true, false, Option, none, some, List, leb, arith, Result, ok,
  err, if◌then◌else◌,
}
use evm_parachain.Weights.Picoseconds.{picoseconds}
use evm_parachain.Runtime.Tests.{billionths}
use evm_parachain.Runtime.Fees.{charge}
use evm_parachain.Xcm.{
  NetworkId, account_id32, x1, MultiLocation, Instruction, relay_location, barrier,
  deny_reserve_transfer_to_relay_chain, allows,
}
use evm_parachain.Xcm.Tests.{numbers}
use evm_parachain.Xcm.Reserve.{Reaches}
use evm_parachain.Xcm.Router.{weigher}
use evm_parachain.Xcm.Examples.{Origin, signed, converters, routers, plain_message}
use evm_parachain.Xcm.Entry.Tests.{documented, documented-Documented}
use evm_parachain.Xcm.Config.{Handlers, XcmConfig, xcm_config}
use evm_parachain.Xcm.Config.Executor.{Execute, IsGuarded, pending, execute-ran}
use evm_parachain.Xcm.Entry.{Passes, MayExecute}

abbrev location_of : NetworkId numbers → Origin → Option (MultiLocation numbers)
location_of network (signed a) =
    some (record { parents = 0; interior = x1 (account_id32 network a) })
location_of network _ = none

-- What is chosen is kept by name: assets and the rest are locations, a trader is the price of a weight.
abbrev pub handlers : Handlers numbers converters billionths
handlers = record {
  AssetTransactor = MultiLocation numbers;
  currency_adapter = λ p l c. l;
  AssetFilter = Unit {0};
  native_asset = tt;
  LocationInverter = MultiLocation numbers;
  location_inverter = λ l. l;
  Trader = ℕ → ℕ;
  using_components = λ fees l p w. charge fees w / 1000000000;
  LocalOrigin = Origin → Option (MultiLocation numbers);
  signed_to_account_id32 = λ network origin. location_of network origin;
  ensure_xcm_origin = λ f. f;
  XcmVersion = ℕ;
  current_xcm_version = 2;
  ReserveProvider = Unit {0};
  absolute_reserve_provider = tt;
}

abbrev pub run_let_in : Result (Unit {0}) (Unit {0}) → ℕ → Bool × ℕ
run_let_in (ok u) s = (true, s + 1)
run_let_in (err u) s = (false, s)

abbrev pub run_weighed :
    XcmConfig handlers routers
    → MultiLocation numbers
    → List (Instruction numbers)
    → ℕ
    → ℕ
    → ℕ
    → Option ℕ
    → Bool × ℕ
run_weighed c l m limit credit s none = (false, s)
run_weighed c l m limit credit s (some w) =
    if leb w limit
    then run_let_in (c.barrier l w (record { message = m; weight_credit = credit })).verdict s
    else (false, s)

abbrev pub execute : Execute handlers routers Bool ℕ
execute c l m limit credit s = run_weighed c l m limit credit s (c.weigher m)

run_let_in-ran : (v : Result (Unit {0}) (Unit {0})) (s : ℕ) → (run_let_in v s).0 ≡ true → v ≡ ok tt
run_let_in-ran (ok u) s h = refl
run_let_in-ran (err u) s h = cc

pub run_weighed-ran :
    (c : XcmConfig handlers routers) (l : MultiLocation numbers) (m : List (Instruction numbers))
    (limit credit s : ℕ) (o : Option ℕ)
    → (run_weighed c l m limit credit s o).0 ≡ true
    → (w : ℕ) × (o ≡ some w)
      × (w ≤ limit)
      × Passes documented c.barrier l w (pending handlers routers execute m credit)
run_weighed-ran c l m limit credit s none h = cc
run_weighed-ran c l m limit credit s (some w) h =
    (w, refl, ground arith, run_let_in-ran _ s (ground arith))

abbrev pub guarded : IsGuarded handlers routers execute documented
guarded = record {
  ran = λ r. r;
  guards = λ c l m limit credit s h. run_weighed-ran c l m limit credit s (c.weigher m) h;
}

free :
    (execute
      (xcm_config handlers picoseconds routers documented 2000)
      relay_location
      plain_message
      3000000000
      0
      4).0
    ≡ true
unfolding xcm_config weigher barrier deny_reserve_transfer_to_relay_chain allows
free = refl

execute-ran_example :
    (w : ℕ) × (weigher numbers routers plain_message ≡ some w)
    × (w ≤ 3000000000)
    × (¬ Reaches plain_message)
    × MayExecute documented documented-Documented relay_location w
        (pending handlers routers execute plain_message 0)
execute-ran_example =
    execute-ran handlers routers execute picoseconds documented documented-Documented guarded 2000
      relay_location plain_message 3000000000 0 4 free
