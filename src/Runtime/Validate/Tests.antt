-- ===== src/Runtime/Validate/Tests.antt =====
-- The theorem about accepted blocks, where a block is its timestamp, an executor is a test of it, and an
-- even block is sealed.
use mathlib.Core.Option.{some-injective}
use evm_parachain.Base.{
  ℕ, ◌+◌, ◌*◌, ◌%◌, ◌≤◌, ◌≡◌, refl, sym, Bool, true, false, ◌&&◌, Option, none, some, leb, ◌==◌,
  arith,
}
use evm_parachain.Runtime.Inherents.{InherentLib, check_inherents}
use evm_parachain.Runtime.Validate.{
  ExecutorLib, Validation, executive, validation, Documented, validation-timestamp,
}

-- A proof is its slot, and inherent data are their time.
abbrev times : InherentLib
times = record {
  Block = ℕ;
  RelayStateProof = Option ℕ;
  Slot = ℕ;
  Provider = ℕ;
  InherentData = ℕ;
  CheckInherentsResult = Bool;
  read_slot = λ proof. proof;
  from_relay_chain_slot_and_duration = λ slot seconds. slot * seconds * 1000;
  create_inherent_data = λ start. some start;
  check_extrinsics = λ start block. leb block (start + 30000);
}

abbrev executors : ExecutorLib times
executors = record {
  Executor = ℕ → Bool;
  frame_executive = λ pallets b. true;
  aura_block_executor = λ e b. b % 2 == 0 && e b;
}

abbrev accept : Option Bool → Bool → Bool
accept none taken = false
accept (some fine) taken = fine && taken

abbrev validate_block : Validation times executors → ℕ → Option ℕ → Bool
validate_block v b proof = accept (v.check_inherents b proof) (v.block_executor b)

accept-true :
    (o : Option Bool) (taken : Bool)
    → accept o taken ≡ true
    → (r : Bool) × (o ≡ some r) × (r ≡ true) × (taken ≡ true)
accept-true none taken h = cc
accept-true (some fine) taken h = (fine, refl, ground arith, ground arith)

both : (a b : Bool) → a && b ≡ true → (a ≡ true) × (b ≡ true)
both true b h = (refl, h)
both false b h = cc

within : (n m : ℕ) → leb n m ≡ true → n ≤ m
within n m h = ground arith

abbrev documented : Documented times executors validate_block
documented = record {
  number = λ slot. slot;
  milliseconds = λ d. d;
  timestamp = λ b. b;
  is_fine = λ r. r;
  takes = λ e b. e b;
  is_sealed = λ b. b % 2 == 0;
  validates = λ v b proof h. accept-true (v.check_inherents b proof) (v.block_executor b) h;
  seals = λ e b h. both (b % 2 == 0) (e b) h;
  data_time = λ slot seconds d h. sym (some-injective _ _ h);
  drift = λ d b h. within b (d + 30000) h;
}

accepted : validate_block (validation times executors) 90000 (some 10) ≡ true
unfolding validation check_inherents executive
accepted = refl

validation-timestamp_example :
    (◌≡◌ {A = Bool} true true)
    × (executive times executors 90000 ≡ true)
    × ((slot : ℕ) × (some 10 ≡ some slot) × (90000 ≤ 6000 * slot + 30000))
validation-timestamp_example =
    validation-timestamp times executors validate_block documented 90000 (some 10) accepted
