-- ===== src/Node/Cli/Settings.antt =====
-- node/src/command.rs: which base path and which chain the relay chain node gets.
use text.Mathlib.TextEquality.{eq_iff}
use evm_parachain.Base.{Bool, ◌≡◌, ◌≢◌, ◌↔◌, Option, none, some, List, String, ok, arith}
use evm_parachain.Node.ChainSpec.{Extensions}
use evm_parachain.Node.Cli.{CliLib, new, base_path, chain_id}

module _ {Configuration : Type 0} (L : CliLib Configuration) (config : Configuration)
    (args : List String) where
  -- A chain named on the relay chain's command line is the one that is used.
  pub chain_id-given :
      (is_dev : Bool) (given : String)
      → L.chain_id (L.parse_from args) is_dev ≡ ok given
      → given ≢ ""
      → chain_id L (new L config args) is_dev ≡ ok given
  unfolding chain_id new
  chain_id-given is_dev given h ne = ground (arith, eq_iff given "")

  -- Without a chain on the relay chain's command line, the relay chain is the one that the extensions
  -- of the parachain's specification name.
  pub chain_id-extension :
      (is_dev : Bool) (e : Extensions)
      → L.chain_id (L.parse_from args) is_dev ≡ ok ""
      → L.get_extension (L.chain_spec config) ≡ some e
      → chain_id L (new L config args) is_dev ≡ ok e.relay_chain
  unfolding chain_id new
  chain_id-extension is_dev e h found = ground arith

  -- Where the relay chain's command line gives a base path or none, the relay chain node has no base
  -- path exactly if neither that command line nor the parachain's configuration has one.
  pub base_path-none :
      (given : Option L.BasePath)
      → L.shared_base_path (L.shared_params (L.parse_from args)) ≡ ok given
      → (base_path L (new L config args) ≡ ok none) ↔ ((given ≡ none) × (L.base_path config ≡ none))
  unfolding base_path new
  base_path-none given h = (λ e. ground arith, λ e. ground arith)

  -- Without a base path on its command line, the relay chain node keeps its data in the folder
  -- `polkadot` of the parachain's base path.
  pub base_path-joined :
      (p : L.BasePath)
      → L.shared_base_path (L.shared_params (L.parse_from args)) ≡ ok none
      → L.base_path config ≡ some p
      → base_path L (new L config args)
        ≡ ok (some (L.into_base_path (L.join (L.path p) "polkadot")))
  unfolding base_path new
  base_path-joined p h e = ground arith
