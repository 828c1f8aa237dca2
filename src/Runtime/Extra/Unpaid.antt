-- ===== src/Runtime/Extra/Unpaid.antt =====
-- runtime/src/lib.rs: when a transaction is charged, among the checks of `SignedExtra`.
use evm_parachain.Base.{
  ℕ, ◌≡◌, ◌⊎◌, inl, inr, ◌∙◌, refl, subst, sym, ap, List, [], ◌∷◌, ◌++◌, All, Result, ok, err,
}
use evm_parachain.Base.Machine.{Trace, stay, go}
use evm_parachain.Runtime.Extra.{
  Check, check_non_zero_sender, check_spec_version, check_tx_version, check_genesis, check_era,
  check_nonce, check_weight, charge_transaction_payment, signed_extra, ExtensionLib,
}

-- The checks that withdraw no fee.
abbrev pub IsFree : Check → Type 0
IsFree charge_transaction_payment = ⊥
IsFree _ = Unit

module _ (X : ExtensionLib) where
  open X use {State, Refusal, pre_dispatch, tuple}

  abbrev pub Outcome : Type 0
  Outcome = Result Refusal (Unit {0}) × State

  abbrev pub and_then : Outcome → (State → Outcome) → Outcome
  and_then (ok u, s) f = f s
  and_then (err e, s) f = (err e, s)

  -- A tuple checks in order, up to the first refusal; the fee is withdrawn by
  -- `ChargeTransactionPayment`, and not where that refuses.
  pub record PaysOnce : Type 0 where
    pub balance : State → ℕ
    pub tuple-nil : (s : State) → tuple [] s ≡ (ok tt, s)
    pub tuple-cons :
        (c : Check) (cs : List Check) (s : State)
        → tuple (c ∷ cs) s ≡ and_then (pre_dispatch c s) (tuple cs)
    pub free : (c : Check) (s : State) → IsFree c → balance (pre_dispatch c s).1 ≡ balance s
    pub refused :
        (s : State) (e : Refusal)
        → (pre_dispatch charge_transaction_payment s).0 ≡ err e
        → balance (pre_dispatch charge_transaction_payment s).1 ≡ balance s

  module _ (P : PaysOnce) where
    -- A check that passes, and the state that it leaves.
    abbrev pub Passes : State → Check → State → Type 0
    Passes s c t = pre_dispatch c s ≡ (ok tt, t)

    -- The checks before the payment refuse, or pass one after the other and leave a state to charge in;
    -- unpaid in either case.
    Ends : List Check → State → Outcome → Type 0
    Ends cs s o =
        ((e : Refusal) × (t : State) × (o ≡ (err e, t)) × (P.balance t ≡ P.balance s))
        ⊎ ((u : State) × Trace Passes s cs u
            × (P.balance u ≡ P.balance s)
            × (o ≡ pre_dispatch charge_transaction_payment u))

    and_then-nil : (o : Outcome) → and_then o (tuple []) ≡ o
    and_then-nil (ok u, s) = P.tuple-nil s
    and_then-nil (err e, s) = refl

    and_then-Ends :
        (c : Check) (cs : List Check) (s : State) (o : Outcome) (rest : State → Outcome)
        → pre_dispatch c s ≡ o
        → P.balance o.1 ≡ P.balance s
        → ((t : State) → Ends cs t (rest t))
        → Ends (c ∷ cs) s (and_then o rest)
    unfolding Ends
    and_then-Ends c cs s (ok v, t) rest passed same ends = elim (ends t) [
      | inl (e, u, o, unpaid) ↦ inl (e, u, o, unpaid ∙ same)
      | inr (u, path, unpaid, o) ↦ inr (u, go passed path, unpaid ∙ same, o)
    ]
    and_then-Ends c cs s (err e, t) rest passed same ends = inl (e, t, refl, same)

    tuple-Ends :
        (cs : List Check) (s : State)
        → All IsFree cs
        → Ends cs s (tuple (cs ++ charge_transaction_payment ∷ []) s)
    unfolding Ends
    tuple-Ends [] s free = inr (
      s,
      stay,
      refl,
      P.tuple-cons charge_transaction_payment [] s
          ∙ and_then-nil (pre_dispatch charge_transaction_payment s),
    )
    tuple-Ends (c ∷ cs) s (none_paid, free) =
        subst (Ends (c ∷ cs) s) (sym (P.tuple-cons c (cs ++ charge_transaction_payment ∷ []) s)) (
          and_then-Ends c cs s (pre_dispatch c s) _ refl (P.free c s none_paid)
            (λ t. tuple-Ends cs t free))

    -- The checks that stand before the payment.
    abbrev pub free_checks : List Check
    free_checks =
        check_non_zero_sender ∷ check_spec_version ∷ check_tx_version ∷ check_genesis ∷ check_era
        ∷ check_nonce ∷ check_weight ∷ []

    signed_extra-Ends : (s : State) → Ends free_checks s (tuple signed_extra s)
    signed_extra-Ends s = tuple-Ends free_checks s (tt, (tt, (tt, (tt, (tt, (tt, (tt, tt)))))))

    -- If the checks of a tuple run in order up to the first refusal, only the payment withdraws a fee, and
    -- it withdraws none where it refuses, then a transaction that `SignedExtra` refuses, by whichever
    -- check, is not charged; and one that it accepts has passed the checks of the sender, the spec and the
    -- transaction version, the genesis, the era, the nonce and the weight, one after the other, and is
    -- then charged as `ChargeTransactionPayment` charges in the state that they leave, from which no fee
    -- was taken before.
    pub signed_extra-unpaid :
        (s : State)
        → ((e : Refusal)
            → (tuple signed_extra s).0 ≡ err e
            → P.balance (tuple signed_extra s).1 ≡ P.balance s)
          × ((tuple signed_extra s).0 ≡ ok tt
              → (u : State) × Trace Passes s free_checks u
                × (P.balance u ≡ P.balance s)
                × (tuple signed_extra s ≡ pre_dispatch charge_transaction_payment u))
    unfolding Ends
    signed_extra-unpaid s = elim (signed_extra-Ends s) [
      | inl (e, t, o, unpaid) ↦ (
        λ d h. ap (λ (p : Outcome). P.balance p.1) o ∙ unpaid,
        λ h. let first = ap (λ (p : Outcome). p.0) o in cc,
      )
      | inr (u, path, unpaid, o) ↦ (
        λ d h.
            ap (λ (p : Outcome). P.balance p.1) o
            ∙ P.refused u d (ap (λ (p : Outcome). p.0) (sym o) ∙ h)
            ∙ unpaid,
        λ h. (u, path, unpaid, o),
      )
    ]
