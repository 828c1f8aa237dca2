-- ===== src/Node/ChainSpec/Distinct.antt =====
-- Lists without repetition, for the accounts of node/src/chain_spec.rs, and the derivation paths of
-- their seeds.
use mathlib.Core.Option.{some-injective}
use mathlib.Core.Bool.{not, ◌&&◌}
use Prim.Native.Char.{code}
use text.Mathlib.Text.{◌==◌ as str_eq}
use text.Mathlib.TextEquality.{eq_iff}
use evm_parachain.Base.{
  ℕ, ◌+◌, ◌≡◌, ◌≢◌, Option, some, List, [], ◌∷◌, arith, All, String, Bool, true, ltb, leb,
  if◌then◌else◌,
}
use evm_parachain.Base.Panic.{each, each-cons}

-- No element stands twice in the list.
abbrev pub Distinct : {A : Type 0} → List A → Type 0
Distinct [] = Unit
Distinct (x ∷ xs) = All (λ y. x ≢ y) xs × Distinct xs

-- The same as a test on texts.
abbrev apart : String → List String → Bool
apart s [] = true
apart s (t ∷ ts) = not (str_eq s t) && apart s ts

abbrev pub distinct : List String → Bool
distinct [] = true
distinct (s ∷ ss) = apart s ss && distinct ss

All-apart : (s : String) (ts : List String) → apart s ts ≡ true → All (λ t. s ≢ t) ts
All-apart s [] h = tt
All-apart s (t ∷ ts) h = (ground (arith, eq_iff s t), All-apart s ts (ground arith))

pub Distinct-of : (ss : List String) → distinct ss ≡ true → Distinct ss
Distinct-of [] h = tt
Distinct-of (s ∷ ss) h = (All-apart s ss (ground arith), Distinct-of ss (ground arith))

-- The code points of a text.
abbrev codes : String → List ℕ
codes String.[] = []
codes (String.◌∷◌ c s) = code c ∷ codes s

abbrev is_digit : ℕ → Bool
is_digit c = leb 48 c && leb c 57

abbrev is_slash : ℕ → Bool
is_slash c = leb 47 c && leb c 47

-- No digit, and never three slashes in a row, where so many stand before the text.
abbrev plain_from : ℕ → List ℕ → Bool
plain_from slashes [] = true
plain_from slashes (c ∷ cs) =
    let more = plain_from (1 + slashes) cs in
    let other = plain_from 0 cs in
    if is_slash c then ltb slashes 2 && more else not (is_digit c) && other

-- A seed whose derivation path `//seed` has neither a numeric junction nor a password.
abbrev pub IsPlain : String → Type 0
IsPlain s = plain_from 2 (codes s) ≡ true

abbrev pub all_plain : List String → Bool
all_plain [] = true
all_plain (s ∷ ss) = plain_from 2 (codes s) && all_plain ss

pub All-IsPlain : (ss : List String) → all_plain ss ≡ true → All IsPlain ss
All-IsPlain [] h = tt
All-IsPlain (s ∷ ss) h = (ground arith, All-IsPlain ss (ground arith))

-- On the arguments that have a property, a function that may panic takes different ones to
-- different results.
abbrev pub IsInjectiveOn : {A B : Type 0} → (A → Type 0) → (A → Option B) → Type 0
IsInjectiveOn {A} {B} P f = (x y : A) (b : B) → P x → P y → f x ≡ some b → f y ≡ some b → x ≡ y

module _ {A B : Type 0} (P : A → Type 0) (f : A → Option B) (injective : IsInjectiveOn P f) where
  each-apart :
      (x : A) (b : B) (xs : List A) (bs : List B)
      → P x
      → All P xs
      → f x ≡ some b
      → All (λ y. x ≢ y) xs
      → each f xs ≡ some bs
      → All (λ c. b ≢ c) bs
  each-apart x b [] bs px ps e a h = rw (← some-injective [] bs h) tt
  each-apart x b (y ∷ ys) bs px ps e a h =
      let (c, rest, ec, er, eq) = each-cons f y ys bs h in
      rw eq (
        (λ same. a.0 (injective x y b px ps.0 e (rw (← same) at ec))),
        each-apart x b ys rest px ps.1 e a.1 er,
      )

  pub each-Distinct :
      (xs : List A) (bs : List B) → All P xs → Distinct xs → each f xs ≡ some bs → Distinct bs
  each-Distinct [] bs ps d h = rw (← some-injective [] bs h) tt
  each-Distinct (x ∷ xs) bs ps d h =
      let (b, rest, e, r, eq) = each-cons f x xs bs h in
      rw eq (each-apart x b xs rest ps.0 ps.1 e d.0 r, each-Distinct xs rest ps.1 d.1 r)
