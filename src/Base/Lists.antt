-- ===== src/Base/Lists.antt =====
-- Lists over the native numbers, and predicates on lists by recursion.
use Prim.Native.Nat.{ℕ, zero, suc}
use mathlib.Core.Option.{Option, none, some}
use mathlib.Core.Bool.{Bool, true, false, ◌||◌}
use mathlib.Core.Path.{◌≡◌, refl, ap}
use native.Mathlib.Omega.{arith}
use mathlib.Core.List.{List, [], ◌∷◌, ◌++◌}

module _ {ℓ} {A : Type ℓ} where
  abbrev pub length : List A → ℕ
  length [] = 0
  length (x ∷ xs) = suc (length xs)

  -- `Iterator::any`
  abbrev pub any : (A → Bool) → List A → Bool
  any p [] = false
  any p (x ∷ xs) = p x || any p xs

  abbrev pub All {κ} : (A → Type κ) → List A → Type κ
  All P [] = Unit
  All P (x ∷ xs) = P x × All P xs

  -- `slice::get`
  abbrev pub get_elem? : List A → ℕ → Option A
  get_elem? [] i = none
  get_elem? (x ∷ xs) zero = some x
  get_elem? (x ∷ xs) (suc i) = get_elem? xs i

abbrev pub is_empty : {A : Type 0} → List A → Bool
is_empty [] = true
is_empty (x ∷ xs) = false

pub is_empty-true : {A : Type 0} (xs : List A) → is_empty xs ≡ true → xs ≡ []
is_empty-true [] h = refl
is_empty-true (x ∷ xs) h = cc

-- A list that ends with the only element of a kind has been gone through exactly if one of the kind has
-- been met.
pub closing :
    {A : Type 0} (p : A → Bool) (xs : List A) (x : A) (met left : List A)
    → any p xs ≡ false
    → p x ≡ true
    → xs ++ x ∷ [] ≡ met ++ left
    → any p met ≡ is_empty left
closing p [] x [] left none_yet hit all = ap is_empty all
closing p [] x (m ∷ []) left none_yet hit all = ground (arith, hit)
closing p [] x (m ∷ n ∷ met) left none_yet hit all = cc
closing p (y ∷ xs) x [] left none_yet hit all = ap is_empty all
closing p (y ∷ xs) x (m ∷ met) left none_yet hit all =
    let tails : xs ++ x ∷ [] ≡ met ++ left = cc in
    let others : any p xs ≡ false = ground (arith, none_yet) in
    let rest = closing p xs x met left others hit tails in
    let heads : y ≡ m = cc in ground (arith, rest, heads, none_yet)
