-- ===== src/Base/Action.antt =====
-- Code that calls outside components in order. An action returns how it ended and the calls that
-- it made, oldest first; what a call answers is a parameter of the code.
use mathlib.Core.Option.{Option, none, some}
use mathlib.Core.List.{List, [], ◌∷◌, ◌++◌}
use evm_parachain.Base.Outcome.{Result, ok, err}

-- A value, an error, or a panic with its message.
pub data Ending (E A : Type 0) : Type 0 where
  done : A → Ending E A
  failed : E → Ending E A
  panicked : Ending E A

abbrev pub Action : Type 0 → Type 0 → Type 0 → Type 0
Action C E A = Ending E A × List C

abbrev pub ending : {E A : Type 0} → Result E A → Ending E A
ending (ok a) = done a
ending (err e) = failed e

module _ {C E : Type 0} where
  abbrev pub pure : {A : Type 0} → A → Action C E A
  pure a = (done a, [])

  abbrev pub fail : {A : Type 0} → E → Action C E A
  fail e = (failed e, [])

  abbrev pub panic : {A : Type 0} → Action C E A
  panic = (panicked, [])

  abbrev pub after : {A : Type 0} → List C → Action C E A → Action C E A
  after calls m = (m.0, calls ++ m.1)

  abbrev pub bind_ending : {A B : Type 0} → Ending E A → List C → (A → Action C E B) → Action C E B
  bind_ending (done a) calls f = after calls (f a)
  bind_ending (failed e) calls f = (failed e, calls)
  bind_ending panicked calls f = (panicked, calls)

  infixl 5 ◌>>=◌ ◌>>◌
  abbrev pub ◌>>=◌ : {A B : Type 0} → Action C E A → (A → Action C E B) → Action C E B
  m >>= f = bind_ending m.0 m.1 f

  abbrev pub ◌>>◌ : {B : Type 0} → Action C E (Unit {0}) → Action C E B → Action C E B
  m >> k = m >>= λ _. k

  -- A call that cannot fail, and one that may.
  abbrev pub call : {A : Type 0} → C → A → Action C E A
  call c a = (done a, c ∷ [])

  abbrev pub try_call : {A : Type 0} → C → Result E A → Action C E A
  try_call c r = (ending r, c ∷ [])

  -- `?` on a result, and `expect` on an option.
  abbrev pub lift : {A : Type 0} → Result E A → Action C E A
  lift r = (ending r, [])

  abbrev pub expect : {A : Type 0} → Option A → Action C E A
  expect none = panic
  expect (some a) = pure a
