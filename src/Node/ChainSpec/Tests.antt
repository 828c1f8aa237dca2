-- ===== src/Node/ChainSpec/Tests.antt =====
-- The theorems about the built-in specifications, over keys that are texts: a pair is its secret
-- string, and is its own public key and account.
use text.Mathlib.TextLemmas.{append_cancel_left}
use mathlib.Core.Option.{some-injective}
use evm_parachain.Base.{
  ◌+◌, ◌≤◌, ◌<◌, ◌%◌, ◌/◌, ap, get_elem?, arith, map, ℕ, ◌*◌, ◌^◌, ◌≡◌, refl, sym, ◌∙◌, Option,
  some, List, [], ◌∷◌, ◌++◌, String, length,
}
use evm_parachain.Node.ChainSpec.{
  account_of, KeyKind, Json, Outside, local, GenesisConfig, testnet_genesis, genesis_with,
  local_testnet_config, genesis_of, collator, get_account_id_from_seed, get_collator_keys_from_seed,
}
use evm_parachain.Node.ChainSpec.Distinct.{Distinct}
use evm_parachain.Node.ChainSpec.Genesis.{
  key_of, given_key, issuance, Keyed, Covers, testnet_genesis-some,
}
use evm_parachain.Node.ChainSpec.Fits.{Exist, validators, builtin_genesis-fits}
use evm_parachain.Node.ChainSpec.Accounts.{DerivesApart, holders, builtin}
use evm_parachain.Weights.Picoseconds.{picoseconds, picoseconds-IsDocumented}
use evm_parachain.Runtime.Tests.{
  components, billionths, billionths-IsRational, limits, limits-IsPercentage, unset,
}
use evm_parachain.Runtime.Fees.Inclusion.{total_fee}
use evm_parachain.Runtime.Fees.Tests.{
  rounded_down, rounded_down-AddsParts, transfer, transfer-FitsBlock,
}
use evm_parachain.Node.ChainSpec.Authors.{AuraLib, TakesTurns, Alternates, builtin-Alternates}
use evm_parachain.Node.ChainSpec.Funds.{Affords, testnet_genesis-total_fee}

abbrev texts : KeyKind
texts = record {
  Pair = String;
  Public = String;
  from_string = λ s password. some s;
  public = λ pair. pair;
}

abbrev pub over_texts : Option ℕ → Outside
over_texts code = record {
  sr25519 = texts;
  aura = texts;
  AccountId = String;
  into_account = λ key. key;
  Code = ℕ;
  wasm_binary = code;
  CollatorDefaults = ℕ;
  collator_defaults = 0;
  Defaults = ℕ;
  aura_default = 1;
  aura_ext_default = 2;
  parachain_system_default = 3;
  xcm_version = 2;
  Properties = List (String × Json);
  no_properties = [];
  insert = λ key value properties. (key, value) ∷ properties;
}

over_texts-DerivesApart : DerivesApart (over_texts (some 7))
over_texts-DerivesApart s t p q ps pt ep eq same =
    append_cancel_left "//" s t (some-injective _ _ ep ∙ same ∙ sym (some-injective _ _ eq))

abbrev invulnerables : List (String × String)
invulnerables = ("alice", "a") ∷ ("bob", "b") ∷ []

abbrev accounts : List String
accounts = "alice" ∷ "bob" ∷ "charlie" ∷ []

abbrev genesis : GenesisConfig (over_texts (some 7))
unfolding genesis_with
genesis = genesis_with (over_texts (some 7)) 7 invulnerables accounts 1000

made : testnet_genesis (over_texts (some 7)) invulnerables accounts 1000 ≡ some genesis
unfolding testnet_genesis
made = refl

testnet_genesis-some_example :
    (genesis.invulnerables ≡ map (account_of (over_texts (some 7))) invulnerables)
    × (map (key_of (over_texts (some 7))) genesis.session
        ≡ map (given_key (over_texts (some 7))) invulnerables)
    × Keyed (over_texts (some 7)) genesis.invulnerables genesis.session
    × (genesis.balances ≡ map (λ a. (a, 2 ^ 60)) accounts)
    × (issuance genesis.balances ≡ length accounts * 2 ^ 60)
    × Covers (over_texts (some 7)) genesis.candidacy_bond genesis.balances
    × (genesis.parachain_id ≡ 1000)
testnet_genesis-some_example =
    testnet_genesis-some (over_texts (some 7)) invulnerables accounts 1000 genesis made

abbrev alice_and_bob : List (String × String)
alice_and_bob = ("//Alice", "//Alice") ∷ ("//Bob", "//Bob") ∷ []

abbrev development_accounts : List String
development_accounts =
    "//Alice" ∷ "//Bob" ∷ "//Charlie" ∷ "//Dave" ∷ "//Eve" ∷ "//Ferdie" ∷ "//Alice//stash"
    ∷ "//Bob//stash" ∷ "//Charlie//stash" ∷ "//Dave//stash" ∷ "//Eve//stash" ∷ "//Ferdie//stash"
    ∷ []

abbrev local_genesis : GenesisConfig (over_texts (some 7))
unfolding genesis_with
local_genesis = genesis_with (over_texts (some 7)) 7 alice_and_bob development_accounts 1000

local_made : (builtin (over_texts (some 7)) local).genesis tt ≡ some local_genesis
unfolding local_testnet_config genesis_of collator get_account_id_from_seed
    get_collator_keys_from_seed testnet_genesis
local_made = refl

builtin_genesis-fits_example :
    Distinct local_genesis.invulnerables
    × (length local_genesis.invulnerables ≤ 100)
    × (length (local_genesis.invulnerables ++ "//Charlie" ∷ []) ≤ 100000)
    × Distinct (holders (over_texts (some 7)) local_genesis.balances)
    × Exist (over_texts (some 7)) local_genesis.balances
    × (issuance local_genesis.balances < 2 ^ 128)
    × ((rest : List String) × (holders (over_texts (some 7)) local_genesis.balances
          ≡ validators (over_texts (some 7)) local_genesis.session ++ rest))
builtin_genesis-fits_example =
    builtin_genesis-fits (over_texts (some 7)) over_texts-DerivesApart local local_genesis
      ("//Charlie" ∷ []) local_made (omega arith)

abbrev code : ℕ
code = 7

testnet_genesis-total_fee_example :
    Affords
      (over_texts (some 7))
      (total_fee picoseconds billionths limits rounded_down unset (transfer ∷ transfer ∷ [])
        + genesis.candidacy_bond)
      genesis.balances
testnet_genesis-total_fee_example =
    testnet_genesis-total_fee (over_texts (some 7)) picoseconds billionths limits rounded_down
      picoseconds-IsDocumented billionths-IsRational limits-IsPercentage rounded_down-AddsParts
      invulnerables accounts 1000 genesis unset (transfer ∷ transfer ∷ []) made
      (transfer-FitsBlock, (transfer-FitsBlock, tt)) (omega arith)

abbrev round_robin : AuraLib (over_texts (some 7)) components
round_robin = record {
  genesis_authorities = λ g. map (key_of (over_texts (some 7))) g.session;
  slot_at = λ duration time. time / duration;
  slot_author = λ ks slot. get_elem? ks (slot % length ks);
}

round_robin-TakesTurns : TakesTurns (over_texts (some 7)) components round_robin
round_robin-TakesTurns = record {
  keys = λ g keyed. refl;
  slots = λ duration time h. refl;
  turns = λ ks slot i h e. ap (get_elem? ks) e;
}

builtin-Alternates_example :
    Alternates (over_texts (some 7)) components round_robin round_robin-TakesTurns local_genesis
builtin-Alternates_example =
    builtin-Alternates (over_texts (some 7)) components round_robin round_robin-TakesTurns
      (λ least. refl) local local_genesis local_made
