-- ===== src/Xcm/Entry.antt =====
-- runtime/src/xcm_config.rs: which messages the barrier lets in, with the filters of xcm_builder as
-- they are documented.
pub mod Tests
use evm_parachain.Base.{
  ℕ, ◌≤◌, ◌<◌, ◌≡◌, ◌↔◌, ◌⊎◌, inl, inr, Bool, true, false, List, any, arith, ok, err, Result,
  Result-cases, refl, ap, ◌∙◌, Bool-cases, sym, subst,
}
use evm_parachain.Xcm.{
  Opaque, MultiLocation, Pending, Checked, ShouldExecute, Allows, barrier, allows, everything,
  is_parent_or_executive_plurality, relay_location, x1, plurality, executive,
}
use evm_parachain.Xcm.Reserve.{Reaches, parent_or_executive_lem}
use evm_parachain.Xcm.Barrier.{barrier-Reaches, barrier-allows}

not_err : ¬ (◌≡◌ {A = Result (Unit {0}) (Unit {0})} (ok tt) (err tt))
not_err h = cc

module _ {O : Opaque} (A : Allows O) where
  abbrev pub Passes : ShouldExecute O → MultiLocation O → ℕ → Pending O → Type 0
  Passes f l w p = (f l w p).verdict ≡ ok tt

  -- `TakeWeightCredit` passes what the credit pays for, and else leaves all as it was; unpaid execution
  -- is for the locations that are named; and a tuple passes a message where one of its filters does, on
  -- what the earlier ones left of it.
  pub record DocumentedAllows : Type 0 where
    pub credit :
        (l : MultiLocation O) (w : ℕ) (p : Pending O)
        → Passes A.take_weight_credit l w p ↔ (w ≤ p.weight_credit)
    pub credit_refused :
        (l : MultiLocation O) (w : ℕ) (p : Pending O)
        → (A.take_weight_credit l w p).verdict ≡ err tt
        → (A.take_weight_credit l w p).pending ≡ p
    pub unpaid :
        (from : MultiLocation O → Bool) (l : MultiLocation O) (w : ℕ) (p : Pending O)
        → Passes (A.allow_unpaid_execution_from from) l w p ↔ (from l ≡ true)
    pub tuple :
        (a b c : ShouldExecute O) (l : MultiLocation O) (w : ℕ) (p : Pending O)
        → Passes (A.tuple a b c) l w p ↔ (
            Passes a l w p
            ⊎ Passes b l w (a l w p).pending
            ⊎ Passes c l w (b l w (a l w p).pending).pending)

  module _ (D : DocumentedAllows) where
    -- Who may execute a message, but for the deny filter.
    abbrev pub MayExecute : MultiLocation O → ℕ → Pending O → Type 0
    MayExecute l w p =
        (w ≤ p.weight_credit)
        ⊎ Passes (A.allow_top_level_paid_execution_from (everything A)) l w p
        ⊎ (l ≡ relay_location)
        ⊎ ((part : O.BodyPart) × (l
              ≡ record { parents = 1; interior = x1 (plurality executive part) }))

    refused_or_paid :
        (l : MultiLocation O) (w : ℕ) (p : Pending O)
        → (w ≤ p.weight_credit) ⊎ ((A.take_weight_credit l w p).pending ≡ p)
    refused_or_paid l w p = elim (Result-cases (A.take_weight_credit l w p).verdict) [
      | inl (u, good) ↦ inl ((D.credit l w p).0 good)
      | inr (e, bad) ↦ inr (D.credit_refused l w p bad)
    ]

    paid : ShouldExecute O
    paid = A.allow_top_level_paid_execution_from (everything A)

    allows-tuple :
        (l : MultiLocation O) (w : ℕ) (p : Pending O)
        → Passes (allows A) l w p ↔ (
            Passes A.take_weight_credit l w p
            ⊎ Passes paid l w (A.take_weight_credit l w p).pending
            ⊎ Passes
                (A.allow_unpaid_execution_from is_parent_or_executive_plurality)
                l
                w
                (paid l w (A.take_weight_credit l w p).pending).pending)
    unfolding allows paid
    allows-tuple l w p =
        D.tuple A.take_weight_credit (A.allow_top_level_paid_execution_from (everything A))
          (A.allow_unpaid_execution_from is_parent_or_executive_plurality) l w p

    allows-MayExecute :
        (l : MultiLocation O) (w : ℕ) (p : Pending O) → Passes (allows A) l w p → MayExecute l w p
    unfolding paid
    allows-MayExecute l w p h = elim ((allows-tuple l w p).0 h) [
      | inl good ↦ inl ((D.credit l w p).0 good)
      | inr (inl good) ↦ elim (refused_or_paid l w p) [
        | inl low ↦ inl low
        | inr same ↦ inr (inl (subst (λ q. Passes paid l w q) same good))
      ]
      | inr (inr good) ↦ inr (
          inr (
            (parent_or_executive_lem l).0
              ((D.unpaid is_parent_or_executive_plurality l w _).0 good)))
    ]

    MayExecute-allows :
        (l : MultiLocation O) (w : ℕ) (p : Pending O) → MayExecute l w p → Passes (allows A) l w p
    unfolding paid
    MayExecute-allows l w p (inl low) = (allows-tuple l w p).1 (inl ((D.credit l w p).1 low))
    MayExecute-allows l w p (inr (inl good)) = elim (refused_or_paid l w p) [
      | inl low ↦ (allows-tuple l w p).1 (inl ((D.credit l w p).1 low))
      | inr same ↦
          (allows-tuple l w p).1 (inr (inl (subst (λ q. Passes paid l w q) (sym same) good)))
    ]
    MayExecute-allows l w p (inr (inr named)) = (allows-tuple l w p).1 (
        inr (
          inr (
            (D.unpaid is_parent_or_executive_plurality l w _).1
              ((parent_or_executive_lem l).1 named))))

    -- With filters that behave as documented, the barrier lets a message in exactly if no instruction at
    -- its top level moves a reserve to the relay chain, and either its credit covers its weight, or it
    -- pays for its execution at the top level, or it comes from the relay chain or a part of the relay
    -- chain's executive body.
    pub barrier-MayExecute :
        (l : MultiLocation O) (w : ℕ) (p : Pending O)
        → Passes (barrier A) l w p ↔ ((¬ Reaches p.message) × MayExecute l w p)
    barrier-MayExecute l w p = (
      λ h.
          let clean : ¬ Reaches p.message =
            λ r. not_err (sym h ∙ ap (λ (c : Checked O). c.verdict) (barrier-Reaches A l w p r)) in
          (
            clean,
            allows-MayExecute l w p
                (sym (ap (λ (c : Checked O). c.verdict) (barrier-allows A l w p clean)) ∙ h),
          ),
      λ (clean, may).
          ap (λ (c : Checked O). c.verdict) (barrier-allows A l w p clean)
          ∙ MayExecute-allows l w p may,
    )
