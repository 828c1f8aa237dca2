-- ===== src/Node/Command/Builtin.antt =====
-- node/src/command.rs, cli.rs and chain_spec.rs together: what a node on a built-in specification joins.
use evm_parachain.Base.{Bool, ◌≡◌, refl, sym, ◌∙◌, ap, some, List, String, Result, ok}
use evm_parachain.Node.ChainSpec.{
  Extensions, GenesisSpec, ChainType, development, local, development_config, local_testnet_config,
}
use evm_parachain.Node.ChainSpec.Accounts.{builtin}
use evm_parachain.Node.Service.{Outside}
use evm_parachain.Node.Cli.{CliLib, new, chain_id, try_get, map_some}
use evm_parachain.Node.Cli.Settings.{chain_id-extension}
use evm_parachain.Node.Command.Calls.{Tools}
use evm_parachain.Node.Command.Substrate.{cli_methods}
use evm_parachain.Node.Command.Specs.{Names, load_spec-builtin}

ok_injective : {E A : Type 0} (a b : A) → ◌≡◌ {A = Result E A} (ok a) (ok b) → a ≡ b
ok_injective a b h = cc

module _ {O : Outside} {L : CliLib O.Configuration} (T : Tools O L) where
  -- The extensions that a specification is made with are found in it again.
  abbrev pub KeepsExtensions : Type 0
  KeepsExtensions =
      (s : GenesisSpec T.genesis) → L.get_extension (T.from_genesis s) ≡ some s.extensions

  builtin-extensions :
      (t : ChainType)
      → (builtin T.genesis t).extensions ≡ record { relay_chain = "rococo-local"; para_id = 1000 }
  unfolding development_config local_testnet_config
  builtin-extensions development = refl
  builtin-extensions local = refl

  pub found :
      (t : ChainType) (id : String) (config : O.Configuration)
      → KeepsExtensions
      → Names t id
      → (cli_methods T).load_spec id ≡ ok (L.chain_spec config)
      → L.get_extension (L.chain_spec config)
        ≡ some (record { relay_chain = "rococo-local"; para_id = 1000 })
  unfolding cli_methods
  found t id config keeps named loaded =
      let made = load_spec-builtin T.genesis T.from_genesis t id T.from_json_file named in
      let same = ok_injective _ _ (sym loaded ∙ made) in
      ap L.get_extension same ∙ keeps (builtin T.genesis t) ∙ ap some (builtin-extensions t)

  -- A node whose configuration has the specification that a built-in name loads is parachain 1000, and,
  -- where the relay chain's command line names no chain, its relay chain node joins `rococo-local`;
  -- provided that a specification keeps the extensions that it is made with.
  pub builtin_joins :
      (t : ChainType) (id : String) (config : O.Configuration) (args : List String) (is_dev : Bool)
      → KeepsExtensions
      → Names t id
      → (cli_methods T).load_spec id ≡ ok (L.chain_spec config)
      → L.chain_id (L.parse_from args) is_dev ≡ ok ""
      → (map_some (λ e. e.para_id) (try_get L (L.chain_spec config)) ≡ some 1000)
        × (chain_id L (new L config args) is_dev ≡ ok "rococo-local")
  unfolding try_get
  builtin_joins t id config args is_dev keeps named loaded silent =
      let extensions = found t id config keeps named loaded in
      (
        ap (map_some (λ (e : Extensions). e.para_id)) extensions,
        chain_id-extension L config args is_dev
            (record { relay_chain = "rococo-local"; para_id = 1000 }) silent extensions,
      )
