-- ===== src/Node/Command/Substrate.antt =====
-- node/src/command.rs: `SubstrateCli` for the two command lines.
use evm_parachain.Base.{ℕ, [], ◌∷◌, String, ◌<>◌, Result}
use evm_parachain.Runtime.Apis.{RuntimeVersion, version}
use evm_parachain.Node.Service.{Outside}
use evm_parachain.Node.Cli.{CliLib}
use evm_parachain.Node.Command.{load_spec}
use evm_parachain.Node.Command.Calls.{Tools}

module _ {O : Outside} {L : CliLib O.Configuration} (T : Tools O L) where
  -- The methods of the trait that the source implements.
  pub record SubstrateCli : Type 0 where
    pub impl_name : String
    pub impl_version : String
    pub description : String
    pub author : String
    pub support_url : String
    pub copyright_start_year : ℕ
    pub load_spec : String → Result String L.ChainSpec
    pub native_runtime_version : L.ChainSpec → RuntimeVersion T.ApiVersions

  -- The `format!` of both descriptions.
  abbrev collator_description : String
  collator_description =
      "Parachain Collator Template\n\nThe command-line arguments provided first will be passed to the parachain node, while the arguments provided after -- will be passed to the relay chain node.\n\n"
      <> T.executable_name <> " <parachain-args> -- <relay-chain-args>"

  unfoldable pub cli_methods : SubstrateCli
  unfolding load_spec version
  cli_methods = record {
    impl_name = "Parachain Collator Template";
    impl_version = T.substrate_cli_impl_version;
    description = collator_description;
    author = T.cargo_pkg_authors;
    support_url = "https://github.com/paritytech/cumulus/issues/new";
    copyright_start_year = 2020;
    load_spec = load_spec T.genesis T.from_genesis T.from_json_file;
    native_runtime_version = λ spec. version T.runtime_api_versions;
  }

  unfoldable pub relay_cli_methods : SubstrateCli
  relay_cli_methods = record {
    impl_name = "Parachain Collator Template";
    impl_version = T.substrate_cli_impl_version;
    description = collator_description;
    author = T.cargo_pkg_authors;
    support_url = "https://github.com/paritytech/cumulus/issues/new";
    copyright_start_year = 2020;
    load_spec = T.polkadot_load_spec (T.executable_name ∷ []);
    native_runtime_version = T.polkadot_native_runtime_version;
  }
