-- ===== src/Node/Cli/Tests.antt =====
-- The relay chain's command line over texts: a run command is the list of its arguments, a chain is
-- its second argument and a base path its third.
use evm_parachain.Base.{ℕ, Bool, true, false, Option, none, some, List, ◌∷◌, String, ◌<>◌, ok}
use evm_parachain.Node.ChainSpec.{Extensions}
use evm_parachain.Node.Cli.{CliLib}

abbrev second : List String → String
second (a ∷ b ∷ rest) = b
second _ = ""

abbrev third : List String → Option String
third (a ∷ b ∷ c ∷ rest) = some c
third _ = none

abbrev pub lists_with : {C : Type 0} → (C → Option Extensions) → (C → Option String) → CliLib C
lists_with spec_of base_path_of = record {
  Error = ℕ;
  ChainSpec = Option Extensions;
  PathBuf = String;
  BasePath = String;
  chain_spec = spec_of;
  base_path = base_path_of;
  get_extension = λ spec. spec;
  path = λ p. p;
  join = λ p name. p <> "/" <> name;
  into_base_path = λ p. p;
  RunCmd = List String;
  parse_from = λ args. args;
  SharedParams = List String;
  ImportParams = ℕ;
  NetworkParams = ℕ;
  KeystoreParams = ℕ;
  SocketAddr = ℕ;
  PrometheusConfig = ℕ;
  Role = Bool;
  TransactionPoolOptions = ℕ;
  RpcMethods = ℕ;
  TelemetryEndpoints = ℕ;
  shared_params = λ c. c;
  shared_base_path = λ c. ok (third c);
  import_params = λ c. none;
  network_params = λ c. none;
  keystore_params = λ c. none;
  rpc_http = λ c port. ok (some port);
  rpc_ipc = λ c. ok none;
  rpc_ws = λ c port. ok (some port);
  prometheus_config = λ c port spec. ok (some port);
  chain_id = λ c is_dev. ok (second c);
  role = λ c is_dev. ok is_dev;
  transaction_pool = λ c is_dev. ok 0;
  trie_cache_maximum_size = λ c. ok none;
  rpc_methods = λ c. ok 0;
  rpc_ws_max_connections = λ c. ok none;
  rpc_cors = λ c is_dev. ok none;
  default_heap_pages = λ c. ok none;
  force_authoring = λ c. ok false;
  disable_grandpa = λ c. ok false;
  max_runtime_instances = λ c. ok none;
  announce_block = λ c. ok true;
  telemetry_endpoints = λ c spec. ok none;
  node_name = λ c. ok "node";
}

abbrev pub extensions : Extensions
extensions = record { relay_chain = "rococo-local"; para_id = 1000 }
