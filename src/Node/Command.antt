-- ===== src/Node/Command.antt =====
-- node/src/command.rs: loading a chain specification, and running a subcommand or the node. The
-- runner, the subcommands of the libraries and the hardware benchmark are outside code.
pub mod Calls
pub mod Substrate
pub mod Run
pub mod Specs
pub mod Features
pub mod Start
pub mod Live
pub mod Joins
pub mod Once
pub mod Builtin
mod Texts
mod Tests
use text.Mathlib.Text.{◌==◌ as str_eq}
use evm_parachain.Base.{◌||◌, String, Result, ok, if◌then◌else◌}
use evm_parachain.Node.ChainSpec.{Outside, GenesisSpec, development_config, local_testnet_config}

module _ (G : Outside) {Spec : Type 0} (from_genesis : GenesisSpec G → Spec) where
  -- `load_spec`, over the reader of JSON files.
  unfoldable pub load_spec : (String → Result String Spec) → String → Result String Spec
  load_spec from_json_file id =
      if str_eq id "dev"
      then ok (from_genesis (development_config G))
      else if str_eq id "template-rococo"
      then ok (from_genesis (local_testnet_config G))
      else if str_eq id "" || str_eq id "local"
      then ok (from_genesis (local_testnet_config G))
      else from_json_file id
