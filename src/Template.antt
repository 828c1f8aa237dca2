-- ===== src/Template.antt =====
-- pallets/template/src/lib.rs: a stored number, set and incremented by signed calls.
pub mod Atomic
pub mod Counter
pub mod Orders
pub mod Cost
pub mod Mock
mod Tests
use evm_parachain.Base.{ℕ, ◌+◌, ◌^◌, ◌*◌, Bool, Option, none, some, List, [], ◌∷◌, ltb}
use evm_parachain.Base.{if◌then◌else◌, Result, ok, err, ◌>>=◌, map_err, ok_or}
use evm_parachain.Weights.{WeightLib, RuntimeDbWeight}

pub data Event (AccountId : Type 0) : Type 0 where
  something_stored : ℕ → AccountId → Event AccountId

pub data Error : Type 0 where
  none_value storage_overflow : Error

-- What the pallet takes from frame_system and from the runtime: origins, accounts, and where
-- deposited events go.
pub record Config : Type 1 where
  pub RuntimeOrigin : Type 0
  pub AccountId : Type 0
  pub BadOrigin : Type 0
  pub Events : Type 0
  pub ensure_signed : RuntimeOrigin → Result BadOrigin AccountId
  pub deposit_event : Event AccountId → Events → Events

-- A failed call reports the origin check's error or one of the pallet's.
pub data DispatchError (BadOrigin : Type 0) : Type 0 where
  bad_origin : BadOrigin → DispatchError BadOrigin
  module_error : Error → DispatchError BadOrigin

abbrev pub u32_max : ℕ
u32_max = 4294967295

-- `u32::checked_add`
abbrev pub checked_add : ℕ → ℕ → Option ℕ
checked_add a b = if ltb u32_max (a + b) then none else some (a + b)

-- The two dispatchables as values.
pub data Call : Type 0 where
  do_something : ℕ → Call
  cause_error : Call

module _ (T : Config) where
  open T use {RuntimeOrigin, AccountId, BadOrigin, Events, ensure_signed, deposit_event}

  -- The storage item `Something` and the events of the block.
  pub record Store : Type 0 where
    pub something : Option ℕ
    pub events : Events

  abbrev pub DispatchResult : Type 0
  DispatchResult = Result (DispatchError BadOrigin) (Unit {0})

  -- A call returns its result and the store that it leaves.
  abbrev pub Outcome : Type 0
  Outcome = DispatchResult × Store

  -- The rest of a call after `ensure_signed(origin)?`.
  abbrev signed : (AccountId → Store → Outcome) → Result BadOrigin AccountId → Store → Outcome
  signed body (ok who) s = body who s
  signed body (err e) s = (err (bad_origin e), s)

  abbrev store_and_report : ℕ → AccountId → Store → Outcome
  store_and_report value who s = (
    ok tt,
    record s {
      something = some value;
      events = deposit_event (something_stored value who) s.events;
    },
  )

  unfoldable pub do_something_call : RuntimeOrigin → ℕ → Store → Outcome
  do_something_call origin value s = signed (store_and_report value) (ensure_signed origin) s

  -- `old.checked_add(1).ok_or(StorageOverflow)?`, and the `put` that follows.
  abbrev put_checked : Option ℕ → Store → Outcome
  put_checked none s = (err (module_error storage_overflow), s)
  put_checked (some new) s = (ok tt, record s { something = some new })

  abbrev increment : Option ℕ → Store → Outcome
  increment none s = (err (module_error none_value), s)
  increment (some old) s = put_checked (checked_add old 1) s

  unfoldable pub cause_error_call : RuntimeOrigin → Store → Outcome
  cause_error_call origin s = signed (λ _ t. increment t.something t) (ensure_signed origin) s

  unfoldable pub dispatch : Call → RuntimeOrigin → Store → Outcome
  unfolding do_something_call cause_error_call
  dispatch (do_something value) origin s = do_something_call origin value s
  dispatch cause_error origin s = cause_error_call origin s

  -- The store after a sequence of calls, failed ones included.
  unfoldable pub run : List (Call × RuntimeOrigin) → Store → Store
  run [] s = s
  run ((c, origin) ∷ rest) s = run rest (dispatch c origin s).1

-- The weights in the `#[pallet::weight]` attributes.
unfoldable pub call_weight : (W : WeightLib) → RuntimeDbWeight → Call → W.Weight
call_weight W db (do_something value) = W.add (W.from_ref_time 10000) (W.writes db 1)
call_weight W db cause_error = W.add (W.from_ref_time 10000) (W.reads_writes db 1 1)
