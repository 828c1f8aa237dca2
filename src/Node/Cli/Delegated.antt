-- ===== src/Node/Cli/Delegated.antt =====
-- node/src/command.rs: the settings that RelayChainCli takes as they are from the relay chain's own
-- command line.
use evm_parachain.Base.{ℕ, Bool, ◌≡◌, refl, Option, none, List, String, Result}
use evm_parachain.Node.Cli.{CliLib, RelayChainCli, new}

module _ {Configuration : Type 0} (L : CliLib Configuration) where
  unfoldable pub shared_params : RelayChainCli L → L.SharedParams
  shared_params c = L.shared_params c.base

  unfoldable pub import_params : RelayChainCli L → Option L.ImportParams
  import_params c = L.import_params c.base

  unfoldable pub network_params : RelayChainCli L → Option L.NetworkParams
  network_params c = L.network_params c.base

  unfoldable pub keystore_params : RelayChainCli L → Option L.KeystoreParams
  keystore_params c = L.keystore_params c.base

  unfoldable pub rpc_http : RelayChainCli L → ℕ → Result L.Error (Option L.SocketAddr)
  rpc_http c default_listen_port = L.rpc_http c.base default_listen_port

  unfoldable pub rpc_ipc : RelayChainCli L → Result L.Error (Option String)
  rpc_ipc c = L.rpc_ipc c.base

  unfoldable pub rpc_ws : RelayChainCli L → ℕ → Result L.Error (Option L.SocketAddr)
  rpc_ws c default_listen_port = L.rpc_ws c.base default_listen_port

  unfoldable pub prometheus_config :
      RelayChainCli L → ℕ → L.ChainSpec → Result L.Error (Option L.PrometheusConfig)
  prometheus_config c default_listen_port chain_spec =
      L.prometheus_config c.base default_listen_port chain_spec

  unfoldable pub role : RelayChainCli L → Bool → Result L.Error L.Role
  role c is_dev = L.role c.base is_dev

  unfoldable pub transaction_pool : RelayChainCli L → Bool → Result L.Error L.TransactionPoolOptions
  transaction_pool c is_dev = L.transaction_pool c.base is_dev

  unfoldable pub trie_cache_maximum_size : RelayChainCli L → Result L.Error (Option ℕ)
  trie_cache_maximum_size c = L.trie_cache_maximum_size c.base

  unfoldable pub rpc_methods : RelayChainCli L → Result L.Error L.RpcMethods
  rpc_methods c = L.rpc_methods c.base

  unfoldable pub rpc_ws_max_connections : RelayChainCli L → Result L.Error (Option ℕ)
  rpc_ws_max_connections c = L.rpc_ws_max_connections c.base

  unfoldable pub rpc_cors : RelayChainCli L → Bool → Result L.Error (Option (List String))
  rpc_cors c is_dev = L.rpc_cors c.base is_dev

  unfoldable pub default_heap_pages : RelayChainCli L → Result L.Error (Option ℕ)
  default_heap_pages c = L.default_heap_pages c.base

  unfoldable pub force_authoring : RelayChainCli L → Result L.Error Bool
  force_authoring c = L.force_authoring c.base

  unfoldable pub disable_grandpa : RelayChainCli L → Result L.Error Bool
  disable_grandpa c = L.disable_grandpa c.base

  unfoldable pub max_runtime_instances : RelayChainCli L → Result L.Error (Option ℕ)
  max_runtime_instances c = L.max_runtime_instances c.base

  unfoldable pub announce_block : RelayChainCli L → Result L.Error Bool
  announce_block c = L.announce_block c.base

  unfoldable pub telemetry_endpoints :
      RelayChainCli L → L.ChainSpec → Result L.Error (Option L.TelemetryEndpoints)
  telemetry_endpoints c chain_spec = L.telemetry_endpoints c.base chain_spec

  unfoldable pub node_name : RelayChainCli L → Result L.Error String
  node_name c = L.node_name c.base

  -- `init` is marked unreachable: `none` is its panic.
  unfoldable pub init : RelayChainCli L → Option (Unit {0})
  init c = none

  -- All settings but the chain and the base path.
  pub record Settings : Type 0 where
    pub shared_params : L.SharedParams
    pub import_params : Option L.ImportParams
    pub network_params : Option L.NetworkParams
    pub keystore_params : Option L.KeystoreParams
    pub rpc_http : Result L.Error (Option L.SocketAddr)
    pub rpc_ipc : Result L.Error (Option String)
    pub rpc_ws : Result L.Error (Option L.SocketAddr)
    pub prometheus_config : Result L.Error (Option L.PrometheusConfig)
    pub role : Result L.Error L.Role
    pub transaction_pool : Result L.Error L.TransactionPoolOptions
    pub trie_cache_maximum_size : Result L.Error (Option ℕ)
    pub rpc_methods : Result L.Error L.RpcMethods
    pub rpc_ws_max_connections : Result L.Error (Option ℕ)
    pub rpc_cors : Result L.Error (Option (List String))
    pub default_heap_pages : Result L.Error (Option ℕ)
    pub force_authoring : Result L.Error Bool
    pub disable_grandpa : Result L.Error Bool
    pub max_runtime_instances : Result L.Error (Option ℕ)
    pub announce_block : Result L.Error Bool
    pub telemetry_endpoints : Result L.Error (Option L.TelemetryEndpoints)
    pub node_name : Result L.Error String

  unfoldable pub settings : RelayChainCli L → ℕ → Bool → L.ChainSpec → Settings
  unfolding shared_params import_params network_params keystore_params rpc_http rpc_ipc rpc_ws
      prometheus_config role transaction_pool trie_cache_maximum_size rpc_methods
      rpc_ws_max_connections rpc_cors default_heap_pages force_authoring disable_grandpa
      max_runtime_instances announce_block telemetry_endpoints node_name
  settings c port is_dev spec = record {
    shared_params = shared_params c;
    import_params = import_params c;
    network_params = network_params c;
    keystore_params = keystore_params c;
    rpc_http = rpc_http c port;
    rpc_ipc = rpc_ipc c;
    rpc_ws = rpc_ws c port;
    prometheus_config = prometheus_config c port spec;
    role = role c is_dev;
    transaction_pool = transaction_pool c is_dev;
    trie_cache_maximum_size = trie_cache_maximum_size c;
    rpc_methods = rpc_methods c;
    rpc_ws_max_connections = rpc_ws_max_connections c;
    rpc_cors = rpc_cors c is_dev;
    default_heap_pages = default_heap_pages c;
    force_authoring = force_authoring c;
    disable_grandpa = disable_grandpa c;
    max_runtime_instances = max_runtime_instances c;
    announce_block = announce_block c;
    telemetry_endpoints = telemetry_endpoints c spec;
    node_name = node_name c;
  }

  -- Two parachain nodes with the same relay chain command line run their relay chain nodes with the same
  -- settings, whatever their own configurations are, but for the chain and the base path.
  pub settings_shared :
      (config other : Configuration) (args : List String) (port : ℕ) (is_dev : Bool)
      (spec : L.ChainSpec)
      → settings (new L config args) port is_dev spec ≡ settings (new L other args) port is_dev spec
  unfolding settings new
  settings_shared config other args port is_dev spec = refl
