-- ===== src/Node/ChainSpec.antt =====
-- node/src/chain_spec.rs: the two built-in chain specifications and their genesis state. Key pairs,
-- the runtime's code and default values, and JSON properties are outside code.
pub mod Genesis
pub mod Distinct
pub mod Accounts
pub mod Fits
pub mod Funds
pub mod Authors
pub mod Tests
use evm_parachain.Base.{ℕ, ◌*◌, ◌^◌, Option, none, some, List, [], ◌∷◌, map, String, ◌<>◌}
use evm_parachain.Base.Panic.{◌>>=◌, each}
use evm_parachain.Runtime.{existential_deposit}

-- A kind of key: `TPublic::Pair::from_string`, of which the source only expects success, and `public`.
pub record KeyKind : Type 1 where
  pub Pair : Type 0
  pub Public : Type 0
  pub from_string : String → Option String → Option Pair
  pub public : Pair → Public

-- The values that go into the properties of a specification.
pub data Json : Type 0 where
  text : String → Json
  number : ℕ → Json

pub record Outside : Type 1 where
  pub sr25519 : KeyKind
  pub aura : KeyKind
  pub AccountId : Type 0
  -- `AccountPublic::from(..).into_account()`
  pub into_account : sr25519.Public → AccountId
  pub Code : Type 0
  pub wasm_binary : Option Code
  -- `..Default::default()` in the collator selection, and three whole parts of the genesis.
  pub CollatorDefaults : Type 0
  pub collator_defaults : CollatorDefaults
  pub Defaults : Type 0
  pub aura_default : Defaults
  pub aura_ext_default : Defaults
  pub parachain_system_default : Defaults
  pub xcm_version : ℕ
  pub Properties : Type 0
  pub no_properties : Properties
  pub insert : String → Json → Properties → Properties

pub record Extensions : Type 0 where
  pub relay_chain : String
  pub para_id : ℕ

pub data ChainType : Type 0 where
  development local : ChainType

-- `none` is the panic of `expect`.
unfoldable pub get_from_seed : (K : KeyKind) → String → Option K.Public
get_from_seed K seed = do pair ← K.from_string ("//" <> seed) none; some (K.public pair)

-- The seeds of the initial collators and of the endowed accounts, the same in both specifications.
abbrev pub initial_collators : List String
initial_collators = "Alice" ∷ "Bob" ∷ []

abbrev pub endowed : List String
endowed =
    "Alice" ∷ "Bob" ∷ "Charlie" ∷ "Dave" ∷ "Eve" ∷ "Ferdie" ∷ "Alice//stash" ∷ "Bob//stash"
    ∷ "Charlie//stash" ∷ "Dave//stash" ∷ "Eve//stash" ∷ "Ferdie//stash" ∷ []

abbrev pub endowment : ℕ
endowment = 2 ^ 60

module _ (O : Outside) where
  open O use {AccountId, into_account, Code, wasm_binary, Properties, insert}

  abbrev pub AuraId : Type 0
  AuraId = O.aura.Public

  pub record SessionKeys : Type 0 where
    pub aura : AuraId

  -- `RuntimeGenesisConfig` and the parts that the source fills.
  pub record SessionEntry : Type 0 where
    pub account : AccountId
    pub validator : AccountId
    pub keys : SessionKeys

  pub record GenesisConfig : Type 0 where
    pub code : Code
    pub balances : List (AccountId × ℕ)
    pub parachain_id : ℕ
    pub invulnerables : List AccountId
    pub candidacy_bond : ℕ
    pub collator_selection_rest : O.CollatorDefaults
    pub session : List SessionEntry
    pub aura : O.Defaults
    pub aura_ext : O.Defaults
    pub parachain_system : O.Defaults
    pub safe_xcm_version : Option ℕ

  -- The arguments of `ChainSpec::from_genesis`. The genesis is a closure.
  pub record GenesisSpec : Type 0 where
    pub name : String
    pub id : String
    pub chain_type : ChainType
    pub genesis : Unit {0} → Option GenesisConfig
    pub boot_nodes : List String
    pub telemetry_endpoints : Option (List String)
    pub protocol_id : Option String
    pub fork_id : Option String
    pub properties : Option Properties
    pub extensions : Extensions

  unfoldable pub get_collator_keys_from_seed : String → Option AuraId
  unfolding get_from_seed
  get_collator_keys_from_seed seed = get_from_seed O.aura seed

  unfoldable pub get_account_id_from_seed : String → Option AccountId
  unfolding get_from_seed
  get_account_id_from_seed seed = do key ← get_from_seed O.sr25519 seed; some (into_account key)

  unfoldable pub template_session_keys : AuraId → SessionKeys
  template_session_keys keys = record { aura = keys }

  abbrev pub endow : AccountId → AccountId × ℕ
  endow k = (k, endowment)

  abbrev pub session_entry : AccountId × AuraId → SessionEntry
  unfolding template_session_keys
  session_entry (acc, aura) = record {
    account = acc;
    validator = acc;
    keys = template_session_keys aura;
  }

  abbrev pub account_of : AccountId × AuraId → AccountId
  account_of (acc, _) = acc

  -- The struct that `testnet_genesis` builds around the code.
  unfoldable pub genesis_with :
      Code → List (AccountId × AuraId) → List AccountId → ℕ → GenesisConfig
  unfolding template_session_keys
  genesis_with code invulnerables endowed_accounts id = record {
    code = code;
    balances = map endow endowed_accounts;
    parachain_id = id;
    invulnerables = map account_of invulnerables;
    candidacy_bond = existential_deposit * 16;
    collator_selection_rest = O.collator_defaults;
    session = map session_entry invulnerables;
    aura = O.aura_default;
    aura_ext = O.aura_ext_default;
    parachain_system = O.parachain_system_default;
    safe_xcm_version = some O.xcm_version;
  }

  unfoldable pub testnet_genesis :
      List (AccountId × AuraId) → List AccountId → ℕ → Option GenesisConfig
  unfolding genesis_with
  testnet_genesis invulnerables endowed_accounts id = do
    code ← wasm_binary
    some (genesis_with code invulnerables endowed_accounts id)

  -- One of the initial collators.
  unfoldable pub collator : String → Option (AccountId × AuraId)
  collator seed = do
    acc ← get_account_id_from_seed seed
    keys ← get_collator_keys_from_seed seed
    some (acc, keys)

  -- The closure that both specifications pass, at the seeds that each lists.
  unfoldable pub genesis_of : List String → List String → ℕ → Unit {0} → Option GenesisConfig
  genesis_of collators accounts id _ = do
    invulnerables ← each collator collators
    endowed_accounts ← each get_account_id_from_seed accounts
    testnet_genesis invulnerables endowed_accounts id

  -- The map that both functions build.
  abbrev pub unit_properties : Properties
  unit_properties =
      insert "ss58Format" (number 42)
        (insert "tokenDecimals" (number 12) (insert "tokenSymbol" (text "UNIT") O.no_properties))

  unfoldable pub development_config : GenesisSpec
  development_config =
      let properties = unit_properties in
      record {
        name = "Development";
        id = "dev";
        chain_type = development;
        genesis = genesis_of initial_collators endowed 1000;
        boot_nodes = [];
        telemetry_endpoints = none;
        protocol_id = none;
        fork_id = none;
        properties = none;
        extensions = record { relay_chain = "rococo-local"; para_id = 1000 };
      }

  unfoldable pub local_testnet_config : GenesisSpec
  local_testnet_config =
      let properties = unit_properties in
      record {
        name = "Local Testnet";
        id = "local_testnet";
        chain_type = local;
        genesis = genesis_of initial_collators endowed 1000;
        boot_nodes = [];
        telemetry_endpoints = none;
        protocol_id = some "template-local";
        fork_id = none;
        properties = some properties;
        extensions = record { relay_chain = "rococo-local"; para_id = 1000 };
      }
