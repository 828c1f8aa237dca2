-- ===== src/Xcm/Config.antt =====
-- runtime/src/xcm_config.rs: `XcmConfig` and the `Config` impls of the XCM pallets, as records of what
-- they choose. What the libraries make of a choice is a parameter.
pub mod Executor
pub mod Plain
pub mod Local
pub mod Tests
use evm_parachain.Base.{ℕ, Bool, true, false, Option, none, some, List}
use evm_parachain.Weights.{WeightLib}
use evm_parachain.Runtime.{PerbillLib, WeightToFeeCoefficient, polynomial}
use evm_parachain.Runtime.Pallets.{Pallet, balances, polkadot_xcm}
use evm_parachain.Xcm.{
  Opaque, NetworkId, MultiLocation, ShouldExecute, Allows, barrier, relay_location, self_location,
  base_xcm_weight, max_assets_for_transfer, parachain_min_fee,
}
use evm_parachain.Xcm.Origins.{
  Convert, ConvertOrigin, Converters, relay_network, ancestry, location_to_account_id,
  xcm_origin_to_transact_dispatch_origin,
}
use evm_parachain.Xcm.Router.{Xcm, SendXcm, Routers, xcm_router, weigher}

-- The libraries of asset transactors, traders and inverters, over the coefficients of fees.
pub record Handlers (O : Opaque) (C : Converters O) (P : PerbillLib) : Type 1 where
  pub AssetTransactor : Type 0
  -- `CurrencyAdapter` over `IsConcrete` of a location, tracking no teleports.
  pub currency_adapter : Pallet → MultiLocation O → Convert O → AssetTransactor
  pub AssetFilter : Type 0
  pub native_asset : AssetFilter
  pub LocationInverter : Type 0
  pub location_inverter : MultiLocation O → LocationInverter
  pub Trader : Type 0
  -- `UsingComponents`, which gives the fees to the author of the block.
  pub using_components : List (WeightToFeeCoefficient P) → MultiLocation O → Pallet → Trader
  pub LocalOrigin : Type 0
  pub signed_to_account_id32 : NetworkId O → C.RuntimeOrigin → Option (MultiLocation O)
  pub ensure_xcm_origin : (C.RuntimeOrigin → Option (MultiLocation O)) → LocalOrigin
  pub XcmVersion : Type 0
  pub current_xcm_version : XcmVersion
  pub ReserveProvider : Type 0
  pub absolute_reserve_provider : ReserveProvider

module _ {O : Opaque} {C : Converters O} {P : PerbillLib} (H : Handlers O C P) where
  open H use {
    AssetTransactor, AssetFilter, LocationInverter, Trader, LocalOrigin, XcmVersion,
    ReserveProvider,
  }

  pub record XcmConfig (R : Routers O) : Type 0 where
    pub xcm_sender : SendXcm O R.Sent R.SendError
    pub asset_transactor : AssetTransactor
    pub origin_converter : ConvertOrigin O C.RuntimeOrigin
    pub is_reserve : AssetFilter
    pub is_teleporter : Option AssetFilter
    pub location_inverter : LocationInverter
    pub barrier : ShouldExecute O
    pub weigher : Xcm O → Option ℕ
    pub trader : Trader
    pub response_handler : Pallet
    pub asset_trap : Pallet
    pub asset_claims : Pallet
    pub subscription_service : Pallet

  -- A filter is a test; one of pallet_xcm that lets in everything or nothing does not look at its
  -- argument.
  pub record PalletXcmConfig (R : Routers O) : Type 0 where
    pub send_xcm_origin : LocalOrigin
    pub xcm_router : SendXcm O R.Sent R.SendError
    pub execute_xcm_origin : LocalOrigin
    pub xcm_execute_filter : MultiLocation O × Xcm O → Bool
    pub xcm_executor : XcmConfig R
    pub xcm_teleport_filter : MultiLocation O × O.Fields → Bool
    pub xcm_reserve_transfer_filter : MultiLocation O × O.Fields → Bool
    pub weigher : Xcm O → Option ℕ
    pub location_inverter : LocationInverter
    pub version_discovery_queue_size : ℕ
    pub advertised_xcm_version : XcmVersion

  pub record XTokensConfig (R : Routers O) : Type 0 where
    pub xcm_executor : XcmConfig R
    pub self_location : MultiLocation O
    pub weigher : Xcm O → Option ℕ
    pub base_xcm_weight : ℕ
    pub location_inverter : LocationInverter
    pub max_assets_for_transfer : ℕ
    pub min_xcm_fee : MultiLocation O → Option ℕ
    pub multi_locations_filter : MultiLocation O → Bool
    pub reserve_provider : ReserveProvider

  pub record CumulusXcmConfig (R : Routers O) : Type 0 where
    pub xcm_executor : XcmConfig R

  abbrev pub local_asset_transactor : AssetTransactor
  unfolding location_to_account_id
  local_asset_transactor = H.currency_adapter balances relay_location (location_to_account_id O C)

  abbrev pub local_origin_to_location : C.RuntimeOrigin → Option (MultiLocation O)
  local_origin_to_location = H.signed_to_account_id32 (relay_network O)

  module _ (W : WeightLib) (R : Routers O) (A : Allows O) (parachain_id : ℕ) where
    unfoldable pub xcm_config : XcmConfig R
    unfolding xcm_router weigher barrier xcm_origin_to_transact_dispatch_origin ancestry
        local_asset_transactor
    xcm_config = record {
      xcm_sender = xcm_router O R;
      asset_transactor = local_asset_transactor;
      origin_converter = xcm_origin_to_transact_dispatch_origin O C;
      is_reserve = H.native_asset;
      is_teleporter = none;
      location_inverter = H.location_inverter (ancestry O parachain_id);
      barrier = barrier A;
      weigher = weigher O R;
      trader = H.using_components (polynomial W P) relay_location balances;
      response_handler = polkadot_xcm;
      asset_trap = polkadot_xcm;
      asset_claims = polkadot_xcm;
      subscription_service = polkadot_xcm;
    }

    unfoldable pub pallet_xcm_config : PalletXcmConfig R
    unfolding xcm_router weigher xcm_config ancestry
    pallet_xcm_config = record {
      send_xcm_origin = H.ensure_xcm_origin local_origin_to_location;
      xcm_router = xcm_router O R;
      execute_xcm_origin = H.ensure_xcm_origin local_origin_to_location;
      xcm_execute_filter = λ m. false;
      xcm_executor = xcm_config;
      xcm_teleport_filter = λ m. true;
      xcm_reserve_transfer_filter = λ m. false;
      weigher = weigher O R;
      location_inverter = H.location_inverter (ancestry O parachain_id);
      version_discovery_queue_size = 100;
      advertised_xcm_version = H.current_xcm_version;
    }

    unfoldable pub x_tokens_config : XTokensConfig R
    unfolding weigher xcm_config ancestry parachain_min_fee
    x_tokens_config = record {
      xcm_executor = xcm_config;
      self_location = self_location;
      weigher = weigher O R;
      base_xcm_weight = base_xcm_weight;
      location_inverter = H.location_inverter (ancestry O parachain_id);
      max_assets_for_transfer = max_assets_for_transfer;
      min_xcm_fee = parachain_min_fee;
      multi_locations_filter = λ l. true;
      reserve_provider = H.absolute_reserve_provider;
    }

    unfoldable pub cumulus_pallet_xcm_config : CumulusXcmConfig R
    unfolding xcm_config
    cumulus_pallet_xcm_config = record { xcm_executor = xcm_config }
