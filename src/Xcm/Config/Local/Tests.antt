-- ===== src/Xcm/Config/Local/Tests.antt =====
-- The theorem about the calls of pallet_xcm, over a pallet whose state counts the calls that succeed.
use evm_parachain.Base.{
  ℕ, ◌+◌, ◌≡◌, refl, ap, Bool, true, false, Option, none, some, List, ◌∷◌, Result, ok, err, is_ok,
  map_some, if◌then◌else◌, arith,
}
use evm_parachain.Weights.Picoseconds.{picoseconds}
use evm_parachain.Xcm.{MultiLocation, Instruction, other_instruction, relay_location}
use evm_parachain.Xcm.Origins.{relay_network}
use evm_parachain.Xcm.Router.{xcm_router}
use evm_parachain.Xcm.Tests.{numbers}
use evm_parachain.Xcm.Examples.{signed, relay, routers, plain_message}
use evm_parachain.Xcm.Entry.Tests.{documented}
use evm_parachain.Xcm.Config.{PalletXcmConfig, pallet_xcm_config}
use evm_parachain.Xcm.Config.Tests.{handlers}
use evm_parachain.Xcm.Config.Local.{
  PalletXcm, ObeysFilters, account_location, pallet_xcm_config-local,
}

-- A call counts if its origin has a location that passes a test.
abbrev passing :
    Option (MultiLocation numbers)
    → (MultiLocation numbers → Bool)
    → ℕ
    → Result (Unit {0}) (Unit {0}) × ℕ
passing none p s = (err tt, s)
passing (some l) p s = if p l then (ok tt, s + 1) else (err tt, s)

passing-ok :
    (o : Option (MultiLocation numbers)) (p : MultiLocation numbers → Bool) (s : ℕ)
    → (passing o p s).0 ≡ ok tt
    → (l : MultiLocation numbers) × (o ≡ some l) × (p l ≡ true)
passing-ok none p s h = cc
passing-ok (some l) p s h = (l, refl, ground arith)

passing-err :
    (o : Option (MultiLocation numbers)) (p : MultiLocation numbers → Bool) (s : ℕ) (e : Unit {0})
    → (passing o p s).0 ≡ err e
    → (passing o p s).1 ≡ s
passing-err none p s e h = refl
passing-err (some l) p s e h = ground arith

abbrev under : MultiLocation numbers → List (Instruction numbers) → List (Instruction numbers)
under l m = other_instruction l.parents ∷ m

abbrev counting : PalletXcm handlers routers
counting = record {
  State = ℕ;
  Error = Unit {0};
  execute = λ c o m s. passing (c.execute_xcm_origin o) (λ l. c.xcm_execute_filter (l, m)) s;
  reserve_transfer_assets = λ c o dest assets s.
      passing (c.execute_xcm_origin o) (λ l. c.xcm_reserve_transfer_filter (l, assets)) s;
  send = λ c o dest m. map_some (λ l. c.xcm_router dest (under l m)) (c.send_xcm_origin o);
}

abbrev obedient : ObeysFilters handlers routers counting
obedient = record {
  location = λ check o. check o;
  descend = λ l m. under l m;
  signed = λ a. signed a;
  ensures = λ f o l h. h;
  signs = λ network a. refl;
  executes =
      λ c o m s h. passing-ok (c.execute_xcm_origin o) (λ l. c.xcm_execute_filter (l, m)) s h;
  execute_fails =
      λ c o m s e h. passing-err (c.execute_xcm_origin o) (λ l. c.xcm_execute_filter (l, m)) s e h;
  reserves = λ c o dest assets s h.
      let (l, _, lets) =
        passing-ok (c.execute_xcm_origin o) (λ l. c.xcm_reserve_transfer_filter (l, assets)) s h in
      (l, lets);
  reserve_fails = λ c o dest assets s e h.
      passing-err (c.execute_xcm_origin o) (λ l. c.xcm_reserve_transfer_filter (l, assets)) s e h;
  sends = λ c o l dest m h inside. ap (map_some (λ t. c.xcm_router dest (under t m))) h;
}

abbrev configured : PalletXcmConfig handlers routers
configured = pallet_xcm_config handlers picoseconds routers documented 2000

pallet_xcm_config-local_example :
    ((is_ok (counting.execute configured relay plain_message 4).0 ≡ false)
      × ((counting.execute configured relay plain_message 4).1 ≡ 4))
    × ((is_ok (counting.reserve_transfer_assets configured relay relay_location 5 4).0 ≡ false)
        × ((counting.reserve_transfer_assets configured relay relay_location 5 4).1 ≡ 4))
    × (counting.send configured (signed 7) relay_location plain_message
        ≡ some (
            xcm_router numbers routers relay_location
              (under (account_location handlers routers (relay_network numbers) 7) plain_message)))
pallet_xcm_config-local_example =
    pallet_xcm_config-local handlers routers counting obedient picoseconds documented 2000 relay
      plain_message relay_location 5 7 4
