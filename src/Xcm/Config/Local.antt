-- ===== src/Xcm/Config/Local.antt =====
-- runtime/src/xcm_config.rs: what accounts of this chain can do with pallet_xcm. The pallet's calls are
-- outside code.
mod Tests
use evm_parachain.Base.{
  ℕ, ◌≡◌, ◌≢◌, ◌∙◌, refl, Bool, true, false, Option, some, Result, ok, err, is_ok, Result-cases,
  inl, inr,
}
use evm_parachain.Weights.{WeightLib}
use evm_parachain.Runtime.{PerbillLib}
use evm_parachain.Xcm.{Opaque, MultiLocation, Allows, NetworkId, account_id32, x1}
use evm_parachain.Xcm.Origins.{Converters, relay_network}
use evm_parachain.Xcm.Router.{Xcm, Routers, xcm_router}
use evm_parachain.Xcm.Config.{Handlers, PalletXcmConfig, pallet_xcm_config}

module _ {O : Opaque} {C : Converters O} {P : PerbillLib} (H : Handlers O C P) (R : Routers O) where
  -- Calls of pallet_xcm that its configuration decides on, over the state of the chain. The answer to
  -- `send` is the router's, or none where the origin may not send.
  pub record PalletXcm : Type 1 where
    pub State : Type 0
    pub Error : Type 0
    pub execute :
        PalletXcmConfig H R → C.RuntimeOrigin → Xcm O → State → Result Error (Unit {0}) × State
    pub reserve_transfer_assets :
        PalletXcmConfig H R
        → C.RuntimeOrigin
        → MultiLocation O
        → O.Fields
        → State
        → Result Error (Unit {0}) × State
    pub send :
        PalletXcmConfig H R
        → C.RuntimeOrigin
        → MultiLocation O
        → Xcm O
        → Option (Result R.SendError R.Sent)

  -- The location of an account of this chain.
  abbrev pub account_location : NetworkId O → O.AccountId → MultiLocation O
  account_location network a = record { parents = 0; interior = x1 (account_id32 network a) }

  -- The origin of a call must have a location, and what it does with assets or a program must pass the
  -- filter for that; a call that fails changes nothing. `EnsureXcmOrigin` takes the location that an
  -- origin is converted to; what it makes of an origin that is not converted, such as the root, is left
  -- open. A signed origin is converted to its account's location, and what is sent from a location inside
  -- this chain goes to the router with that location before it.
  pub record ObeysFilters (X : PalletXcm) : Type 0 where
    pub location : H.LocalOrigin → C.RuntimeOrigin → Option (MultiLocation O)
    pub descend : MultiLocation O → Xcm O → Xcm O
    pub signed : O.AccountId → C.RuntimeOrigin
    pub ensures :
        (f : C.RuntimeOrigin → Option (MultiLocation O)) (o : C.RuntimeOrigin) (l : MultiLocation O)
        → f o ≡ some l
        → location (H.ensure_xcm_origin f) o ≡ some l
    pub signs :
        (network : NetworkId O) (a : O.AccountId)
        → H.signed_to_account_id32 network (signed a) ≡ some (account_location network a)
    pub executes :
        (c : PalletXcmConfig H R) (o : C.RuntimeOrigin) (m : Xcm O) (s : X.State)
        → (X.execute c o m s).0 ≡ ok tt
        → (l : MultiLocation O) × (location c.execute_xcm_origin o ≡ some l)
          × (c.xcm_execute_filter (l, m) ≡ true)
    pub execute_fails :
        (c : PalletXcmConfig H R) (o : C.RuntimeOrigin) (m : Xcm O) (s : X.State) (e : X.Error)
        → (X.execute c o m s).0 ≡ err e
        → (X.execute c o m s).1 ≡ s
    pub reserves :
        (c : PalletXcmConfig H R) (o : C.RuntimeOrigin) (dest : MultiLocation O) (assets : O.Fields)
        (s : X.State)
        → (X.reserve_transfer_assets c o dest assets s).0 ≡ ok tt
        → (l : MultiLocation O) × (c.xcm_reserve_transfer_filter (l, assets) ≡ true)
    pub reserve_fails :
        (c : PalletXcmConfig H R) (o : C.RuntimeOrigin) (dest : MultiLocation O) (assets : O.Fields)
        (s : X.State) (e : X.Error)
        → (X.reserve_transfer_assets c o dest assets s).0 ≡ err e
        → (X.reserve_transfer_assets c o dest assets s).1 ≡ s
    pub sends :
        (c : PalletXcmConfig H R) (o : C.RuntimeOrigin) (l dest : MultiLocation O) (m : Xcm O)
        → location c.send_xcm_origin o ≡ some l
        → l.parents ≡ 0
        → X.send c o dest m ≡ some (c.xcm_router dest (descend l m))

  -- A call that cannot have succeeded has failed, and left the state as it was.
  refused :
      {E S : Type 0} (r : Result E (Unit {0}) × S) (s : S)
      → r.0 ≢ ok tt
      → ((e : E) → r.0 ≡ err e → r.1 ≡ s)
      → (is_ok r.0 ≡ false) × (r.1 ≡ s)
  refused (ok u, t) s never fails = absurd (never refl)
  refused (err e, t) s never fails = (refl, fails e refl)

  module _ (X : PalletXcm) (F : ObeysFilters X) (W : WeightLib) (A : Allows O)
      (parachain_id : ℕ) where
    -- If pallet_xcm obeys the filters of its configuration, then on this chain nobody can execute a
    -- message or make a reserve transfer through its calls, which leave the state as it was; but every
    -- account can send any message anywhere that the router reaches, under its own location.
    pub pallet_xcm_config-local :
        (o : C.RuntimeOrigin) (m : Xcm O) (dest : MultiLocation O) (assets : O.Fields)
        (a : O.AccountId) (s : X.State)
        → ((is_ok (X.execute (pallet_xcm_config H W R A parachain_id) o m s).0 ≡ false)
            × ((X.execute (pallet_xcm_config H W R A parachain_id) o m s).1 ≡ s))
          × ((is_ok
                  (X.reserve_transfer_assets
                    (pallet_xcm_config H W R A parachain_id)
                    o
                    dest
                    assets
                    s).0
                ≡ false)
              × ((X.reserve_transfer_assets
                    (pallet_xcm_config H W R A parachain_id)
                    o
                    dest
                    assets
                    s).1
                  ≡ s))
          × (X.send (pallet_xcm_config H W R A parachain_id) (F.signed a) dest m
              ≡ some (xcm_router O R dest (F.descend (account_location (relay_network O) a) m)))
    unfolding pallet_xcm_config
    pallet_xcm_config-local o m dest assets a s =
        let c = pallet_xcm_config H W R A parachain_id in
        (
          refused (X.execute c o m s) s (λ h. let (l, _, lets) = F.executes c o m s h in cc)
              (F.execute_fails c o m s),
          refused (X.reserve_transfer_assets c o dest assets s) s
              (λ h. let (l, lets) = F.reserves c o dest assets s h in cc)
              (F.reserve_fails c o dest assets s),
          F.sends c (F.signed a) (account_location (relay_network O) a) dest m
              (F.ensures _ (F.signed a) (account_location (relay_network O) a)
                (F.signs (relay_network O) a))
              refl,
        )
