-- ===== src/Template/Mock.antt =====
-- pallets/template/src/mock.rs and benchmarking.rs: a runtime with the system pallet and this one,
-- where accounts are numbers, and the benchmark of `do_something`.
use evm_parachain.Base.{
  ℕ, ◌≡◌, refl, Bool, Option, none, some, List, [], ◌∷◌, arith, ok, err, ok_or, ◌==◌, if◌then◌else◌,
}
use evm_parachain.Template.{Config, Event, something_stored, Store, do_something_call, Outcome}

-- The parameters of the mock system.
abbrev pub block_hash_count : ℕ
block_hash_count = 250

abbrev pub ss58_prefix : ℕ
ss58_prefix = 42

abbrev pub max_consumers : ℕ
max_consumers = 16

-- The pallets of `Test`, in their order.
pub data Pallet : Type 0 where
  system template_module : Pallet

abbrev pub pallets : List Pallet
pallets = system ∷ template_module ∷ []

-- The items that the mock system takes from libraries.
pub data Item : Type 0 where
  everything blake_two_256 identity_lookup : Item

-- `system::Config`, but for the associated types that only name a type of data; `none` for `()`.
pub record SystemConfig : Type 0 where
  pub base_call_filter : Item
  pub block_weights : Option Item
  pub block_length : Option Item
  pub db_weight : Option Item
  pub hashing : Item
  pub lookup : Item
  pub block_hash_count : ℕ
  pub version : Option Item
  pub on_new_account : Option Item
  pub on_killed_account : Option Item
  pub system_weight_info : Option Item
  pub ss58_prefix : ℕ
  pub on_set_code : Option Item
  pub max_consumers : ℕ

abbrev pub system_config : SystemConfig
system_config = record {
  base_call_filter = everything;
  block_weights = none;
  block_length = none;
  db_weight = none;
  hashing = blake_two_256;
  lookup = identity_lookup;
  block_hash_count = block_hash_count;
  version = none;
  on_new_account = none;
  on_killed_account = none;
  system_weight_info = none;
  ss58_prefix = ss58_prefix;
  on_set_code = none;
  max_consumers = max_consumers;
}

-- The number of a block and its events, latest first. frame_system drops what is deposited in block 0.
abbrev pub BlockEvents : Type 0
BlockEvents = ℕ × List (Event ℕ)

abbrev pub deposit : Event ℕ → BlockEvents → BlockEvents
deposit e (number, seen) = if number == 0 then (number, seen) else (number, e ∷ seen)

-- `Test`: an origin is signed by an account or is not.
abbrev pub test : Config
test = record {
  RuntimeOrigin = Option ℕ;
  AccountId = ℕ;
  BadOrigin = Unit {0};
  Events = BlockEvents;
  ensure_signed = λ origin. ok_or origin tt;
  deposit_event = deposit;
}

-- `new_test_ext`, in block 0
abbrev pub new_test_ext : Store test
new_test_ext = record { something = none; events = (0, []) }

module _ (T : Config) (signed : T.AccountId → T.RuntimeOrigin)
    (whitelisted_caller : T.AccountId) where
  -- `assert_eq!(Something::<T>::get(), Some(s))`
  abbrev holds : ℕ → Option ℕ → Bool
  holds s none = Bool.false
  holds s (some v) = v == s

  abbrev verify : ℕ → Outcome T → Option (Store T)
  verify s (err e, st) = none
  verify s (ok done, st) = if holds s st.something then some st else none

  -- One run of the benchmark with the component s; `none` for a failed call or assertion.
  unfoldable pub do_something_benchmark : ℕ → Store T → Option (Store T)
  do_something_benchmark s st = verify s (do_something_call T (signed whitelisted_caller) s st)

  -- If the benchmark's caller can sign, then for every value of the component, and whatever the
  -- storage holds, the call of the benchmark succeeds and its assertion holds.
  pub do_something_benchmark-some :
      (s : ℕ) (st : Store T)
      → T.ensure_signed (signed whitelisted_caller) ≡ ok whitelisted_caller
      → (after : Store T) × (do_something_benchmark s st ≡ some after) × (after.something ≡ some s)
  unfolding do_something_benchmark do_something_call
  do_something_benchmark-some s st h = (
    record st {
      something = some s;
      events = T.deposit_event (something_stored s whitelisted_caller) st.events;
    },
    ground arith,
    refl,
  )
