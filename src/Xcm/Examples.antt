-- ===== src/Xcm/Examples.antt =====
-- The libraries of the XCM configuration as they are documented, over numbers: the parent's account is
-- 0, and a sibling's or a local account is told from it by its range. The theorems over them.
use evm_parachain.Base.{
  ℕ, ◌+◌, ◌*◌, ◌≤◌, ◌≡◌, ◌↔◌, refl, Bool, true, false, Option, none, some, List, [], ◌∷◌, length,
  leb, ltb, arith, Result, ok, err, if◌then◌else◌, map_some, or_some,
}
use evm_parachain.Weights.Picoseconds.{picoseconds, picoseconds-IsDocumented}
use evm_parachain.Runtime.Tests.{billionths, limits, limits-IsPercentage}
use evm_parachain.Runtime.Blocks.{reserved_dmp_weight, reserved_xcmp_weight}
use evm_parachain.Xcm.{
  MultiLocation, Instruction, other_instruction, reserve_asset_deposited, is_relay,
}
use evm_parachain.Xcm.Tests.{numbers}
use evm_parachain.Xcm.Origins.{
  Convert, ConvertOrigin, Converters, IsDocumented, sibling, sibling_of, account_of, for_kind,
  is_native, is_sovereign, is_xcm, location_to_account_id, native, sovereign_account, superuser,
  xcm, xcm_origin_to_transact_dispatch_origin,
}
use evm_parachain.Xcm.Accounts.{Owns, location_to_account_id-Owns, transact_origins}
use evm_parachain.Xcm.Capacity.{total, instructions, weigher-capacity}
use evm_parachain.Xcm.Router.{
  Routers, DocumentedRouters, to_sibling, try_next, xcm_router, xcm_router-routes, weigher,
}

-- Origins of the runtime.
pub data Origin : Type 0 where
  relay : Origin
  sibling_parachain : ℕ → Origin
  signed : ℕ → Origin
  xcm_origin : MultiLocation numbers → Origin

abbrev sibling_account : ℕ → ℕ
sibling_account id = 1000 + id

abbrev first_convert : List (Convert numbers) → Convert numbers
first_convert [] l = none
first_convert (c ∷ cs) l = or_some (c l) (first_convert cs l)

abbrev first_origin : List (ConvertOrigin numbers Origin) → ConvertOrigin numbers Origin
first_origin [] l k = none
first_origin (c ∷ cs) l k = or_some (c l k) (first_origin cs l k)

abbrev pub converters : Converters numbers
converters = record {
  RuntimeOrigin = Origin;
  relay = relay;
  sibling_parachain = sibling_parachain;
  parent_is_preset = λ l. if is_relay l then some 0 else none;
  sibling_parachain_converts_via = λ l. map_some sibling_account (sibling_of numbers l);
  account_id32_aliases = λ network l. account_of numbers l;
  sovereign_signed_via_location =
      λ c l k. for_kind numbers (is_sovereign numbers) k (map_some signed (c l));
  relay_chain_as_native =
      λ o l k. for_kind numbers (is_native numbers) k (if is_relay l then some o else none);
  sibling_parachain_as_native =
      λ f l k. for_kind numbers (is_native numbers) k (map_some f (sibling_of numbers l));
  signed_account_id32_as_native = λ network l k.
      for_kind numbers (is_native numbers) k (map_some signed (account_of numbers l));
  xcm_passthrough = λ l k. for_kind numbers (is_xcm numbers) k (some (xcm_origin l));
  tuple = first_convert;
  tuple_of_origins = first_origin;
}

converters-IsDocumented : IsDocumented numbers converters
converters-IsDocumented = record {
  parent_account = 0;
  sibling_account = sibling_account;
  signed = signed;
  xcm_origin = xcm_origin;
  parent = λ l. refl;
  siblings = λ l. refl;
  aliases = λ l. refl;
  tuple-nil = λ l. refl;
  tuple-cons = λ c cs l. refl;
  sovereign = λ c l k. refl;
  relay_native = λ o l k. refl;
  sibling_native = λ f l k. refl;
  signed_native = λ l k. refl;
  passthrough = λ l k. refl;
  origins-nil = λ l k. refl;
  origins-cons = λ c cs l k. refl;
}

location_to_account_id-Owns_example :
    (location_to_account_id numbers converters (sibling numbers 2000) ≡ some 3000)
    ↔ Owns converters converters-IsDocumented (sibling numbers 2000) 3000
location_to_account_id-Owns_example =
    location_to_account_id-Owns converters converters-IsDocumented (sibling numbers 2000) 3000

-- A queue tells where a message went; a channel to a sibling below 2000 is closed.
pub data Queue : Type 0 where
  up : Queue
  across : ℕ → Queue

pub data SendError : Type 0 where
  cannot_reach closed : SendError

abbrev is_cannot_reach : SendError → Bool
is_cannot_reach cannot_reach = true
is_cannot_reach closed = false

abbrev across_to : ℕ → Result SendError Queue
across_to id = if ltb id 2000 then err closed else ok (across id)

abbrev next : Result SendError Queue → Result SendError Queue → Result SendError Queue
next (ok sent) later = ok sent
next (err e) later = if is_cannot_reach e then later else err e

abbrev Route : Type 0
Route = MultiLocation numbers → List (Instruction numbers) → Result SendError Queue

abbrev first_route : List Route → Route
first_route [] l m = err cannot_reach
first_route (r ∷ rs) l m = next (r l m) (first_route rs l m)

abbrev across_if : Option ℕ → Result SendError Queue
across_if none = err cannot_reach
across_if (some id) = across_to id

-- The weigher counts all instructions: no instruction of these messages holds a program.
abbrev pub routers : Routers numbers
routers = record {
  Sent = Queue;
  SendError = SendError;
  parent_as_ump = λ l m. if is_relay l then ok up else err cannot_reach;
  xcmp_queue = λ l m. across_if (sibling_of numbers l);
  tuple = first_route;
  fixed_weight_bounds = λ cost most m. if leb (length m) most then some (length m * cost) else none;
}

next_lem :
    (a later : Result SendError Queue)
    → next a later ≡ try_next numbers routers is_cannot_reach a later
next_lem (ok sent) later = refl
next_lem (err e) later = refl

across_lem :
    (o : Option ℕ) → across_if o ≡ to_sibling numbers routers across_to (err cannot_reach) o
across_lem none = refl
across_lem (some id) = refl

across-reaches : (id : ℕ) (e : SendError) → across_to id ≡ err e → is_cannot_reach e ≡ false
across-reaches id cannot_reach h = ground arith
across-reaches id closed h = refl

routers-Documented : DocumentedRouters numbers routers
routers-Documented = record {
  cannot_reach = λ l m. cannot_reach;
  is_cannot_reach = is_cannot_reach;
  upward = λ m. ok up;
  sideways = λ m id. across_to id;
  ump = λ l m. refl;
  xcmp = λ l m. across_lem (sibling_of numbers l);
  cannot = λ l m. refl;
  up_reaches = λ m e h. cc;
  side_reaches = λ m id e h. across-reaches id e h;
  tuple-nil = λ l m. refl;
  tuple-cons = λ r rs l m. next_lem (r l m) (first_route rs l m);
}

abbrev pub plain_message : List (Instruction numbers)
plain_message = reserve_asset_deposited 1 ∷ other_instruction 2 ∷ []

xcm_router-routes_example : xcm_router numbers routers (sibling numbers 3000) plain_message ≡ (
    if is_relay (sibling numbers 3000)
    then routers-Documented.upward plain_message
    else to_sibling numbers routers
        (routers-Documented.sideways plain_message)
        (err (routers-Documented.cannot_reach (sibling numbers 3000) plain_message))
        (sibling_of numbers (sibling numbers 3000)))
xcm_router-routes_example =
    xcm_router-routes numbers routers routers-Documented (sibling numbers 3000) plain_message

abbrev pub IsNote : ℕ → Type 0
IsNote other = Unit

two_costs : weigher numbers routers plain_message ≡ some 2000000000
unfolding weigher
two_costs = refl

weigher-capacity_example :
    ((total (2000000000 ∷ 2000000000 ∷ [])
        ≤ picoseconds.ref_time (reserved_dmp_weight picoseconds billionths limits))
      ↔ (instructions numbers routers (plain_message ∷ plain_message ∷ []) ≤ 125))
    × ((total (2000000000 ∷ 2000000000 ∷ [])
          ≤ picoseconds.ref_time (reserved_xcmp_weight picoseconds billionths limits))
        ↔ (instructions numbers routers (plain_message ∷ plain_message ∷ []) ≤ 125))
weigher-capacity_example =
    weigher-capacity numbers routers picoseconds picoseconds-IsDocumented billionths limits
      limits-IsPercentage IsNote (plain_message ∷ plain_message ∷ []) (2000000000 ∷ 2000000000 ∷ [])
      (λ cost most m plain. refl) ((tt, (tt, tt)), ((tt, (tt, tt)), tt))
      (two_costs, (two_costs, tt))

transact_origins_example :
    (xcm_origin_to_transact_dispatch_origin numbers converters (sibling numbers 2000) superuser
      ≡ none)
    × (xcm_origin_to_transact_dispatch_origin numbers converters
          (sibling numbers 2000)
          sovereign_account
        ≡ map_some converters-IsDocumented.signed
            (location_to_account_id numbers converters (sibling numbers 2000)))
    × (xcm_origin_to_transact_dispatch_origin numbers converters (sibling numbers 2000) xcm
        ≡ some (converters-IsDocumented.xcm_origin (sibling numbers 2000)))
    × (xcm_origin_to_transact_dispatch_origin numbers converters (sibling numbers 2000) native
        ≡ some (sibling_parachain 2000))
unfolding is_relay
transact_origins_example =
    transact_origins converters converters-IsDocumented (sibling numbers 2000)
