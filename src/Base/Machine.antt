-- ===== src/Base/Machine.antt =====
-- The calls of an action as a path through a state machine, and how that passes through `◌>>=◌`.
use mathlib.Core.Path.{◌≡◌, refl, subst, sym, ap, ◌∙◌}
use mathlib.Core.Logic.{inl, inr}
use evm_parachain.Base.Tests.{Bool-cases}
use mathlib.Core.Bool.{Bool, true, false}
use mathlib.Core.List.{List, [], ◌∷◌, ◌++◌}
use evm_parachain.Base.Outcome.{Result}
use evm_parachain.Base.Action.{
  done, failed, panicked, Action, ◌>>=◌, pure, call, try_call, lift, expect,
}
use evm_parachain.Base.Runs.{is_done}
use mathlib.Core.Option.{Option, none, some}

-- What a step relation reaches by the calls of a list.
pub data Trace {S C : Type 0} (Step : S → C → S → Type 0) : S → List C → S → Type 0 where
  stay : {s : S} → Trace Step s [] s
  go : {s t u : S} {c : C} {cs : List C} → Step s c t → Trace Step t cs u → Trace Step s (c ∷ cs) u

module _ {S C : Type 0} {Step : S → C → S → Type 0} where
  pub Trace-append :
      {s t u : S} {xs ys : List C}
      → Trace Step s xs t
      → Trace Step t ys u
      → Trace Step s (xs ++ ys) u
  Trace-append stay q = q
  Trace-append (go x p) q = go x (Trace-append p q)

module _ {S C E : Type 0} (Step : S → C → S → Type 0) (final : S → Bool) where
  -- The calls are a path from one state to another where the action ends with a value; otherwise they
  -- are a path to some state that is not final.
  pub record Follows {A : Type 0} (from to : S) (m : Action C E A) : Type 0 where
    pub at : S
    pub path : Trace Step from m.1 at
    pub ends : is_done m.0 ≡ true → at ≡ to
    pub breaks : is_done m.0 ≡ false → final at ≡ false

module _ {S C E : Type 0} {Step : S → C → S → Type 0} {final : S → Bool} where
  pub Follows-bind :
      {A B : Type 0} {s t u : S} {m : Action C E A} {f : A → Action C E B}
      → Follows Step final s t m
      → ((a : A) → Follows Step final t u (f a))
      → Follows Step final s u (m >>= f)
  Follows-bind {m = (done a, calls)} h k = record {
    at = (k a).at;
    path = Trace-append (subst (λ v. Trace Step _ calls v) (h.ends refl) h.path) (k a).path;
    ends = (k a).ends;
    breaks = (k a).breaks;
  }
  Follows-bind {m = (failed e, calls)} h k = record {
    at = h.at;
    path = h.path;
    ends = λ good. cc;
    breaks = λ bad. h.breaks refl;
  }
  Follows-bind {m = (panicked, calls)} h k = record {
    at = h.at;
    path = h.path;
    ends = λ good. cc;
    breaks = λ bad. h.breaks refl;
  }

  -- A call that cannot fail, and what comes after it.
  pub Follows-go :
      {A : Type 0} {s t u : S} {c : C} (m : Action C E A)
      → Step s c t
      → Follows Step final t u m
      → Follows Step final s u (m.0, c ∷ m.1)
  Follows-go m x h = record { at = h.at; path = go x h.path; ends = h.ends; breaks = h.breaks }

  pub Follows-pure : {A : Type 0} {s : S} (a : A) → Follows {E = E} Step final s s (pure a)
  Follows-pure {s = s} a = record { at = s; path = stay; ends = λ h. refl; breaks = λ h. cc }

  pub Follows-call :
      {A : Type 0} {s t : S} (c : C) (a : A)
      → Step s c t
      → Follows {E = E} Step final s t (call c a)
  Follows-call {t = t} c a x = record {
    at = t;
    path = go x stay;
    ends = λ h. refl;
    breaks = λ h. cc;
  }

  pub Follows-try :
      {A : Type 0} {s t : S} (c : C) (r : Result E A)
      → Step s c t
      → final t ≡ false
      → Follows {E = E} Step final s t (try_call c r)
  Follows-try {t = t} c r x open_end = record {
    at = t;
    path = go x stay;
    ends = λ h. refl;
    breaks = λ h. open_end;
  }

  pub Follows-lift :
      {A : Type 0} {s : S} (r : Result E A)
      → final s ≡ false
      → Follows {E = E} Step final s s (lift r)
  Follows-lift {s = s} r open_end = record {
    at = s;
    path = stay;
    ends = λ h. refl;
    breaks = λ h. open_end;
  }

  pub Follows-expect :
      {A : Type 0} {s : S} (o : Option A)
      → final s ≡ false
      → Follows {E = E} Step final s s (expect o)
  Follows-expect {s = s} none open_end = record {
    at = s;
    path = stay;
    ends = λ h. refl;
    breaks = λ h. open_end;
  }
  Follows-expect {s = s} (some a) open_end = record {
    at = s;
    path = stay;
    ends = λ h. refl;
    breaks = λ h. open_end;
  }

  -- The end of the path is final exactly where the action ends with a value.
  pub Follows-final :
      {A : Type 0} {s t : S} {m : Action C E A} (h : Follows Step final s t m)
      → final t ≡ true
      → final h.at ≡ is_done m.0
  Follows-final {m = m} h top = elim (Bool-cases (is_done m.0)) [
    | inl good ↦ ap final (h.ends good) ∙ top ∙ sym good
    | inr bad ↦ h.breaks bad ∙ sym bad
  ]
