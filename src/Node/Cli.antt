-- ===== src/Node/Cli.antt =====
-- node/src/cli.rs and the RelayChainCli part of node/src/command.rs: the relay chain's command line,
-- made from the parachain's configuration. clap, polkadot_cli and sc_cli are outside code.
pub mod Settings
pub mod Delegated
pub mod Tests
use text.Mathlib.Text.{◌==◌ as str_eq}
pub use evm_parachain.Base.{map_some, or_some}
use evm_parachain.Base.{
  ℕ, Bool, Option, none, some, List, [], ◌∷◌, String, Result, ok, err, ◌>>=◌, map_ok, if◌then◌else◌,
  Bool, true, false,
}
use evm_parachain.Node.ChainSpec.{Extensions}

-- `Configuration` is `sc_service::Configuration`.
pub record CliLib (Configuration : Type 0) : Type 1 where
  pub Error : Type 0
  pub ChainSpec : Type 0
  pub PathBuf : Type 0
  pub BasePath : Type 0
  pub chain_spec : Configuration → ChainSpec
  pub base_path : Configuration → Option BasePath
  -- `sc_chain_spec::get_extension`
  pub get_extension : ChainSpec → Option Extensions
  pub path : BasePath → PathBuf
  pub join : PathBuf → String → PathBuf
  pub into_base_path : PathBuf → BasePath
  -- `polkadot_cli::RunCmd`, its parser, and the getters of its base.
  pub RunCmd : Type 0
  pub parse_from : List String → RunCmd
  pub SharedParams : Type 0
  pub ImportParams : Type 0
  pub NetworkParams : Type 0
  pub KeystoreParams : Type 0
  pub SocketAddr : Type 0
  pub PrometheusConfig : Type 0
  pub Role : Type 0
  pub TransactionPoolOptions : Type 0
  pub RpcMethods : Type 0
  pub TelemetryEndpoints : Type 0
  pub shared_params : RunCmd → SharedParams
  pub shared_base_path : SharedParams → Result Error (Option BasePath)
  pub import_params : RunCmd → Option ImportParams
  pub network_params : RunCmd → Option NetworkParams
  pub keystore_params : RunCmd → Option KeystoreParams
  pub rpc_http : RunCmd → ℕ → Result Error (Option SocketAddr)
  pub rpc_ipc : RunCmd → Result Error (Option String)
  pub rpc_ws : RunCmd → ℕ → Result Error (Option SocketAddr)
  pub prometheus_config : RunCmd → ℕ → ChainSpec → Result Error (Option PrometheusConfig)
  pub chain_id : RunCmd → Bool → Result Error String
  pub role : RunCmd → Bool → Result Error Role
  pub transaction_pool : RunCmd → Bool → Result Error TransactionPoolOptions
  pub trie_cache_maximum_size : RunCmd → Result Error (Option ℕ)
  pub rpc_methods : RunCmd → Result Error RpcMethods
  pub rpc_ws_max_connections : RunCmd → Result Error (Option ℕ)
  pub rpc_cors : RunCmd → Bool → Result Error (Option (List String))
  pub default_heap_pages : RunCmd → Result Error (Option ℕ)
  pub force_authoring : RunCmd → Result Error Bool
  pub disable_grandpa : RunCmd → Result Error Bool
  pub max_runtime_instances : RunCmd → Result Error (Option ℕ)
  pub announce_block : RunCmd → Result Error Bool
  pub telemetry_endpoints : RunCmd → ChainSpec → Result Error (Option TelemetryEndpoints)
  pub node_name : RunCmd → Result Error String

-- `DefaultConfigurationValues`
abbrev pub p2p_listen_port : ℕ
p2p_listen_port = 30334

abbrev pub rpc_ws_listen_port : ℕ
rpc_ws_listen_port = 9945

abbrev pub rpc_http_listen_port : ℕ
rpc_http_listen_port = 9934

abbrev pub prometheus_listen_port : ℕ
prometheus_listen_port = 9616

-- `Option::unwrap_or_default`
abbrev pub text_or_default : Option String → String
text_or_default none = ""
text_or_default (some s) = s

module _ {Configuration : Type 0} (L : CliLib Configuration) where
  pub record RelayChainCli : Type 0 where
    pub base : L.RunCmd
    pub chain_id : Option String
    pub base_path : Option L.PathBuf

  -- `Extensions::try_get`
  unfoldable pub try_get : L.ChainSpec → Option Extensions
  try_get spec = L.get_extension spec

  -- `RelayChainCli::new`
  unfoldable pub new : Configuration → List String → RelayChainCli
  unfolding try_get
  new para_config relay_chain_args =
      let extension = try_get (L.chain_spec para_config) in
      record {
        base = L.parse_from relay_chain_args;
        chain_id = map_some (λ e. e.relay_chain) extension;
        base_path = map_some (λ x. L.join (L.path x) "polkadot") (L.base_path para_config);
      }

  -- `CliConfiguration for RelayChainCli`
  unfoldable pub base_path : RelayChainCli → Result L.Error (Option L.BasePath)
  base_path c = do
    given ← L.shared_base_path (L.shared_params c.base)
    ok (or_some given (map_some L.into_base_path c.base_path))

  unfoldable pub chain_id : RelayChainCli → Bool → Result L.Error String
  chain_id c is_dev = do
    given ← L.chain_id c.base is_dev
    ok (if str_eq given "" then text_or_default c.chain_id else given)
