-- ===== src/Base/Panic.antt =====
-- Code that may panic: `none` is a panic, and ends all that comes after it.
use mathlib.Core.Path.{◌≡◌, refl}
use mathlib.Core.Logic.{inl, inr}
use mathlib.Core.Option.{Option, none, some, none-ne-some}
use native.Mathlib.Omega.{arith}
use evm_parachain.Base.Tests.{Option-cases}
use mathlib.Core.List.{List, [], ◌∷◌}

infixl 5 ◌>>=◌
abbrev pub ◌>>=◌ : {A B : Type 0} → Option A → (A → Option B) → Option B
none >>= f = none
some a >>= f = f a

-- The elements of a `vec!`, computed from left to right.
abbrev pub each : {A B : Type 0} → (A → Option B) → List A → Option (List B)
each f [] = some []
each f (x ∷ xs) = do y ← f x; ys ← each f xs; some (y ∷ ys)

-- What a successful list was made of.
pub each-cons :
    {A B : Type 0} (f : A → Option B) (x : A) (xs : List A) (bs : List B)
    → each f (x ∷ xs) ≡ some bs
    → (b : B) × (rest : List B) × (f x ≡ some b) × (each f xs ≡ some rest) × (bs ≡ b ∷ rest)
each-cons f x xs bs h = elim (Option-cases (f x)) [
  | inl missing ↦ absurd (none-ne-some bs (rw missing at h))
  | inr (b, e) ↦ elim (Option-cases (each f xs)) [
    | inl missing ↦ absurd (none-ne-some bs (rw (e, missing) at h))
    | inr (rest, r) ↦ (b, rest, e, r, ground arith)
  ]
]

pub >>=-eq-some :
    {A B : Type 0} (m : Option A) (f : A → Option B) {b : B}
    → (m >>= f) ≡ some b
    → (a : A) × (m ≡ some a) × (f a ≡ some b)
>>=-eq-some none f h = cc
>>=-eq-some (some a) f h = (a, refl, h)
