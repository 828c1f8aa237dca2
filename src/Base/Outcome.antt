-- ===== src/Base/Outcome.antt =====
-- `Result<T, E>` of Rust.
use mathlib.Core.Path.{◌≡◌, refl}
use mathlib.Core.Logic.{◌⊎◌, inl, inr}
use native.Mathlib.Omega.{arith}
use mathlib.Core.Bool.{Bool, true, false}
use mathlib.Core.Option.{Option, none, some}

pub data Result (E A : Type 0) : Type 0 where
  ok : A → Result E A
  err : E → Result E A

module _ {E : Type 0} where
  -- The `?` operator.
  infixl 5 ◌>>=◌
  abbrev pub ◌>>=◌ : {A B : Type 0} → Result E A → (A → Result E B) → Result E B
  ok a >>= f = f a
  err e >>= f = err e

  abbrev pub map_ok : {A B : Type 0} → (A → B) → Result E A → Result E B
  map_ok f (ok a) = ok (f a)
  map_ok f (err e) = err e

  abbrev pub map_err : {A D : Type 0} → (D → E) → Result D A → Result E A
  map_err f (ok a) = ok a
  map_err f (err d) = err (f d)

  -- `Option::ok_or`
  abbrev pub ok_or : {A : Type 0} → Option A → E → Result E A
  ok_or none e = err e
  ok_or (some a) e = ok a

  abbrev pub is_ok : {A : Type 0} → Result E A → Bool
  is_ok (ok a) = true
  is_ok (err e) = false

pub Result-cases :
    {E A : Type 0} (r : Result E A) → ((a : A) × (r ≡ ok a)) ⊎ ((e : E) × (r ≡ err e))
Result-cases (ok a) = inl (a, refl)
Result-cases (err e) = inr (e, refl)

-- `Option::map` and `Option::or`.
abbrev pub map_some : {A B : Type 0} → (A → B) → Option A → Option B
map_some f none = none
map_some f (some a) = some (f a)

abbrev pub or_some : {A : Type 0} → Option A → Option A → Option A
or_some none other = other
or_some (some a) other = some a

pub or_some-none : {A : Type 0} (o : Option A) → or_some o none ≡ o
or_some-none none = refl
or_some-none (some a) = refl

pub is_ok-map_err : {E D A : Type 0} (f : D → E) (r : Result D A) → is_ok (map_err f r) ≡ is_ok r
is_ok-map_err f (ok a) = refl
is_ok-map_err f (err d) = refl

pub map_err-ok :
    {E D A : Type 0} (f : D → E) (r : Result D A) (a : A) → map_err f r ≡ ok a → r ≡ ok a
map_err-ok f (ok b) a h = ground arith
map_err-ok f (err d) a h = cc
