-- ===== src/Template/Orders.antt =====
-- pallets/template/src/lib.rs: sequences of calls, and those of the calls that count.
use evm_parachain.Base.{
  ◌≡◌, refl, ap, ◌∙◌, List, [], ◌∷◌, inl, inr, sym, ok, err, Result-cases, is_ok, if◌then◌else◌,
}
use evm_parachain.Template.Atomic.{dispatch-err}
use evm_parachain.Template.{Config, Call, DispatchError, Store, dispatch, run}

module _ (T : Config) where
  open T use {RuntimeOrigin}

  -- The calls of a sequence that succeed, each where the calls before it have left the store.
  abbrev pub successes : List (Call × RuntimeOrigin) → Store T → List (Call × RuntimeOrigin)
  successes [] s = []
  successes ((c, origin) ∷ rest) s =
      let others = successes rest (dispatch T c origin s).1 in
      if is_ok (dispatch T c origin s).0 then (c, origin) ∷ others else others

  successes-ok :
      (c : Call) (origin : RuntimeOrigin) (rest : List (Call × RuntimeOrigin)) (s : Store T)
      (u : Unit {0})
      → (dispatch T c origin s).0 ≡ ok u
      → successes ((c, origin) ∷ rest) s ≡ (c, origin) ∷ successes rest (dispatch T c origin s).1
  successes-ok c origin rest s u good = rw good refl

  successes-err :
      (c : Call) (origin : RuntimeOrigin) (rest : List (Call × RuntimeOrigin)) (s : Store T)
      (e : DispatchError T.BadOrigin)
      → (dispatch T c origin s).0 ≡ err e
      → successes ((c, origin) ∷ rest) s ≡ successes rest s
  successes-err c origin rest s e bad =
      let skipped : successes ((c, origin) ∷ rest) s ≡ successes rest (dispatch T c origin s).1 =
        rw bad refl in
      skipped ∙ ap (successes rest) (dispatch-err T c origin s e bad)

  -- A sequence of calls leaves the store that its successful calls leave on their own, and on their own
  -- all of them succeed.
  pub run-successes :
      (calls : List (Call × RuntimeOrigin)) (s : Store T)
      → (run T (successes calls s) s ≡ run T calls s)
        × (successes (successes calls s) s ≡ successes calls s)
  unfolding run
  run-successes [] s = (refl, refl)
  run-successes ((c, origin) ∷ rest) s = elim (Result-cases (dispatch T c origin s).0) [
    | inl (u, good) ↦
        let t = (dispatch T c origin s).1 in
        let (same, again) = run-successes rest t in
        let kept = successes-ok c origin rest s u good in
        let kept_again = successes-ok c origin (successes rest t) s u good in
        (
          ap (λ l. run T l s) kept ∙ same,
          ap (λ l. successes l s) kept ∙ kept_again ∙ ap (λ l. (c, origin) ∷ l) again ∙ sym kept,
        )
    | inr (e, bad) ↦
        let (same, again) = run-successes rest s in
        let dropped = successes-err c origin rest s e bad in
        let still = dispatch-err T c origin s e bad in
        (
          ap (λ l. run T l s) dropped ∙ same ∙ ap (run T rest) (sym still),
          ap (λ l. successes l s) dropped ∙ again ∙ sym dropped,
        )
  ]
