-- ===== src/Base/Runs.antt =====
-- What can be said of the calls of an action and of how it ends, and how that passes through `◌>>=◌`.
use evm_parachain.Base.Lists.{any, All}
use evm_parachain.Base.Action.{Ending, done, failed, panicked, Action, ◌>>=◌, ending}
use evm_parachain.Base.Outcome.{Result, ok, err, is_ok}
use mathlib.Core.Path.{◌≡◌, refl}
use mathlib.Core.Logic.{◌≢◌}
use mathlib.Core.Bool.{Bool, true, false, ◌||◌}
use mathlib.Core.List.{List, [], ◌∷◌, ◌++◌}
use native.Mathlib.Omega.{arith}

abbrev pub is_done : {E A : Type 0} → Ending E A → Bool
is_done (done a) = true
is_done _ = false

pub any-append :
    {C : Type 0} (p : C → Bool) (xs ys : List C) → any p (xs ++ ys) ≡ (any p xs || any p ys)
any-append p [] ys = refl
any-append p (x ∷ xs) ys = ground (arith, any-append p xs ys)

pub All-append :
    {C : Type 0} (P : C → Type 0) (xs ys : List C) → All P xs → All P ys → All P (xs ++ ys)
All-append P [] ys h k = k
All-append P (x ∷ xs) ys (h, hs) k = (h, All-append P xs ys hs k)

-- A call, or a result with `?`, succeeds where its answer is not an error.
pub ending-done : {E A : Type 0} (r : Result E A) → is_ok r ≡ true → is_done (ending r) ≡ true
ending-done (ok a) h = refl
ending-done (err e) h = cc

module _ {C E : Type 0} where
  -- The action does not panic.
  abbrev pub Calm : {A : Type 0} → Action C E A → Type 0
  Calm m = m.0 ≢ panicked

  pub Calm-bind :
      {A B : Type 0} (m : Action C E A) (f : A → Action C E B)
      → Calm m
      → ((a : A) → m.0 ≡ done a → Calm (f a))
      → Calm (m >>= f)
  Calm-bind (done a, calls) f h k = k a refl
  Calm-bind (failed e, calls) f h k = λ q. cc
  Calm-bind (panicked, calls) f h k = absurd (h refl)

  -- The action ends with a value.
  abbrev pub Succeeds : {A : Type 0} → Action C E A → Type 0
  Succeeds m = is_done m.0 ≡ true

  pub Succeeds-bind :
      {A B : Type 0} (m : Action C E A) (f : A → Action C E B)
      → Succeeds m
      → ((a : A) → m.0 ≡ done a → Succeeds (f a))
      → Succeeds (m >>= f)
  Succeeds-bind (done a, calls) f h k = k a refl
  Succeeds-bind (failed e, calls) f h k = cc
  Succeeds-bind (panicked, calls) f h k = cc

  pub >>=-eq-done :
      {A B : Type 0} (m : Action C E A) (f : A → Action C E B) {b : B}
      → (m >>= f).0 ≡ done b
      → (a : A) × (m.0 ≡ done a) × ((f a).0 ≡ done b)
  >>=-eq-done (done a, calls) f h = (a, refl, h)
  >>=-eq-done (failed e, calls) f h = cc
  >>=-eq-done (panicked, calls) f h = cc

module _ {C E : Type 0} (p : C → Bool) where
  -- No call of the kind was made.
  abbrev pub Quiet : {A : Type 0} → Action C E A → Type 0
  Quiet m = any p m.1 ≡ false

  pub Quiet-bind :
      {A B : Type 0} (m : Action C E A) (f : A → Action C E B)
      → Quiet m
      → ((a : A) → Quiet (f a))
      → Quiet (m >>= f)
  Quiet-bind (done a, calls) f h k = ground (arith, any-append p calls (f a).1, k a)
  Quiet-bind (failed e, calls) f h k = h
  Quiet-bind (panicked, calls) f h k = h

module _ {C E : Type 0} (P : C → Type 0) where
  -- Every call that was made satisfies a predicate.
  abbrev pub Only : {A : Type 0} → Action C E A → Type 0
  Only m = All P m.1

  pub Only-bind :
      {A B : Type 0} (m : Action C E A) (f : A → Action C E B)
      → Only m
      → ((a : A) → m.0 ≡ done a → Only (f a))
      → Only (m >>= f)
  Only-bind (done a, calls) f h k = All-append P calls (f a).1 h (k a refl)
  Only-bind (failed e, calls) f h k = h
  Only-bind (panicked, calls) f h k = h
