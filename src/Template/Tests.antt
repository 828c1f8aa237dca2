-- ===== src/Template/Tests.antt =====
-- The pallet's tests over its mock runtime (pallets/template/src/tests.rs and mock.rs): accounts
-- are numbers, an origin is signed or not. The theorems at concrete calls.
use evm_parachain.Base.{ℕ, ◌≡◌, refl, Option, none, some, List, [], ◌∷◌, arith, err}
use evm_parachain.Template.{
  Call, do_something, cause_error, Store, module_error, none_value, dispatch, run, something_stored,
}
use evm_parachain.Template.Mock.{test, new_test_ext}
use evm_parachain.Template.Orders.{successes, run-successes}
use evm_parachain.Template.Counter.{counted, reported, run-counted}

it_works_for_default_value :
    (dispatch test (do_something 42) (some 1) new_test_ext).1.something ≡ some 42
unfolding dispatch
it_works_for_default_value = refl

correct_error_for_none_value :
    dispatch test cause_error (some 1) new_test_ext ≡ (err (module_error none_value), new_test_ext)
unfolding dispatch
correct_error_for_none_value = refl

abbrev calls : List (Call × Option ℕ)
calls =
    (cause_error, some 1)
    ∷ (do_something 4294967294, some 2)
    ∷ (do_something 5, none)
    ∷ (cause_error, some 3)
    ∷ (cause_error, some 3)
    ∷ []

-- A store with nothing in it, in block 1.
abbrev block_one : Store test
block_one = record { something = none; events = (1, []) }

no_events_in_block_zero : (run test calls new_test_ext).events ≡ (0, [])
unfolding run dispatch
no_events_in_block_zero = refl

run-test :
    run test calls block_one
    ≡ record { something = some 4294967295; events = (1, something_stored 4294967294 2 ∷ []) }
unfolding run dispatch
run-test = refl

run-counted_example :
    ((run test calls block_one).something ≡ counted test calls none)
    × ((run test calls block_one).events ≡ reported test calls (1, []))
run-counted_example = run-counted test calls block_one (omega arith) tt

two_count :
    successes test calls block_one ≡ (do_something 4294967294, some 2) ∷ (cause_error, some 3) ∷ []
unfolding dispatch
two_count = refl

run-successes_example :
    (run test (successes test calls block_one) block_one ≡ run test calls block_one)
    × (successes test (successes test calls block_one) block_one ≡ successes test calls block_one)
run-successes_example = run-successes test calls block_one
