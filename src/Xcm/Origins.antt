-- ===== src/Xcm/Origins.antt =====
-- runtime/src/xcm_config.rs: which accounts and which origins of this chain a location is converted to.
-- The converters belong to xcm_builder.
use evm_parachain.Base.{
  ℕ, Bool, true, false, ◌≡◌, Option, none, some, List, [], ◌∷◌, map_some, or_some, ◌==◌,
  if◌then◌else◌,
}
use evm_parachain.Xcm.{
  Opaque, NetworkId, any_network, parachain, account_id32, Junctions, x1, MultiLocation, is_relay,
}

pub data OriginKind : Type 0 where
  native sovereign_account superuser xcm : OriginKind

module _ (O : Opaque) where
  -- `Convert<MultiLocation, AccountId>` and `ConvertOrigin<RuntimeOrigin>`; `none` gives the location back.
  abbrev pub Convert : Type 0
  Convert = MultiLocation O → Option O.AccountId

  abbrev pub ConvertOrigin : Type 0 → Type 0
  ConvertOrigin RuntimeOrigin = MultiLocation O → OriginKind → Option RuntimeOrigin

  pub record Converters : Type 1 where
    pub RuntimeOrigin : Type 0
    -- `cumulus_pallet_xcm::Origin`, as an origin of the runtime.
    pub relay : RuntimeOrigin
    pub sibling_parachain : ℕ → RuntimeOrigin
    pub parent_is_preset : Convert
    pub sibling_parachain_converts_via : Convert
    pub account_id32_aliases : NetworkId O → Convert
    pub sovereign_signed_via_location : Convert → ConvertOrigin RuntimeOrigin
    pub relay_chain_as_native : RuntimeOrigin → ConvertOrigin RuntimeOrigin
    pub sibling_parachain_as_native : (ℕ → RuntimeOrigin) → ConvertOrigin RuntimeOrigin
    pub signed_account_id32_as_native : NetworkId O → ConvertOrigin RuntimeOrigin
    pub xcm_passthrough : ConvertOrigin RuntimeOrigin
    -- The converters that tuples of converters are.
    pub tuple : List Convert → Convert
    pub tuple_of_origins : List (ConvertOrigin RuntimeOrigin) → ConvertOrigin RuntimeOrigin

  abbrev pub relay_network : NetworkId O
  relay_network = any_network

  -- The location that the chain has in its relay chain, over `ParachainInfo::parachain_id()`.
  unfoldable pub ancestry : ℕ → MultiLocation O
  ancestry parachain_id = record { parents = 0; interior = x1 (parachain parachain_id) }

  module _ (C : Converters) where
    abbrev pub relay_chain_origin : C.RuntimeOrigin
    relay_chain_origin = C.relay

    unfoldable pub location_to_account_id : Convert
    location_to_account_id = C.tuple (
        C.parent_is_preset
        ∷ C.sibling_parachain_converts_via
        ∷ C.account_id32_aliases relay_network
        ∷ [])

    unfoldable pub xcm_origin_to_transact_dispatch_origin : ConvertOrigin C.RuntimeOrigin
    unfolding location_to_account_id
    xcm_origin_to_transact_dispatch_origin = C.tuple_of_origins (
        C.sovereign_signed_via_location location_to_account_id
        ∷ C.relay_chain_as_native relay_chain_origin
        ∷ C.sibling_parachain_as_native C.sibling_parachain
        ∷ C.signed_account_id32_as_native relay_network
        ∷ C.xcm_passthrough
        ∷ [])

  -- The locations of the siblings, and of the accounts of this chain on any network.
  abbrev pub sibling : ℕ → MultiLocation O
  sibling id = record { parents = 1; interior = x1 (parachain id) }

  abbrev pub local_account : O.AccountId → MultiLocation O
  local_account a = record { parents = 0; interior = x1 (account_id32 any_network a) }

  abbrev parachain_in : Junctions O → Option ℕ
  parachain_in (x1 (parachain id)) = some id
  parachain_in _ = none

  abbrev account_in : Junctions O → Option O.AccountId
  account_in (x1 (account_id32 any_network a)) = some a
  account_in _ = none

  abbrev pub sibling_of : MultiLocation O → Option ℕ
  sibling_of l = if l.parents == 1 then parachain_in l.interior else none

  abbrev pub account_of : MultiLocation O → Option O.AccountId
  account_of l = if l.parents == 0 then account_in l.interior else none

  abbrev pub for_kind : {A : Type 0} → (OriginKind → Bool) → OriginKind → Option A → Option A
  for_kind p kind a = if p kind then a else none

  abbrev pub is_native : OriginKind → Bool
  is_native native = true
  is_native _ = false

  abbrev pub is_sovereign : OriginKind → Bool
  is_sovereign sovereign_account = true
  is_sovereign _ = false

  abbrev pub is_xcm : OriginKind → Bool
  is_xcm xcm = true
  is_xcm _ = false

  -- What xcm_builder documents: the parent has a preset account, each sibling one of its own, and a
  -- converter answers only for its own kind of origin. A tuple takes the first answer.
  pub record IsDocumented (C : Converters) : Type 0 where
    pub parent_account : O.AccountId
    pub sibling_account : ℕ → O.AccountId
    pub signed : O.AccountId → C.RuntimeOrigin
    pub xcm_origin : MultiLocation O → C.RuntimeOrigin
    pub parent :
        (l : MultiLocation O)
        → C.parent_is_preset l ≡ (if is_relay l then some parent_account else none)
    pub siblings :
        (l : MultiLocation O)
        → C.sibling_parachain_converts_via l ≡ map_some sibling_account (sibling_of l)
    pub aliases : (l : MultiLocation O) → C.account_id32_aliases any_network l ≡ account_of l
    pub tuple-nil : (l : MultiLocation O) → C.tuple [] l ≡ none
    pub tuple-cons :
        (c : Convert) (cs : List Convert) (l : MultiLocation O)
        → C.tuple (c ∷ cs) l ≡ or_some (c l) (C.tuple cs l)
    pub sovereign :
        (c : Convert) (l : MultiLocation O) (k : OriginKind)
        → C.sovereign_signed_via_location c l k ≡ for_kind is_sovereign k (map_some signed (c l))
    pub relay_native :
        (o : C.RuntimeOrigin) (l : MultiLocation O) (k : OriginKind)
        → C.relay_chain_as_native o l k ≡ for_kind is_native k (if is_relay l then some o else none)
    pub sibling_native :
        (f : ℕ → C.RuntimeOrigin) (l : MultiLocation O) (k : OriginKind)
        → C.sibling_parachain_as_native f l k ≡ for_kind is_native k (map_some f (sibling_of l))
    pub signed_native :
        (l : MultiLocation O) (k : OriginKind)
        → C.signed_account_id32_as_native any_network l k
          ≡ for_kind is_native k (map_some signed (account_of l))
    pub passthrough :
        (l : MultiLocation O) (k : OriginKind)
        → C.xcm_passthrough l k ≡ for_kind is_xcm k (some (xcm_origin l))
    pub origins-nil : (l : MultiLocation O) (k : OriginKind) → C.tuple_of_origins [] l k ≡ none
    pub origins-cons :
        (c : ConvertOrigin C.RuntimeOrigin) (cs : List (ConvertOrigin C.RuntimeOrigin))
        (l : MultiLocation O) (k : OriginKind)
        → C.tuple_of_origins (c ∷ cs) l k ≡ or_some (c l k) (C.tuple_of_origins cs l k)
