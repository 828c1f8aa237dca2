-- ===== src/Xcm/Entry/Tests.antt =====
-- The theorem about the barrier over filters that behave as documented, with numbers for what the filters
-- do not look at.
use evm_parachain.Base.{
  ℕ, ◌≤◌, ◌≡◌, ◌↔◌, ◌⊎◌, inl, inr, refl, Bool, true, false, [], arith, Result, ok, err,
}
use evm_parachain.Xcm.{
  MultiLocation, Pending, Checked, ShouldExecute, Allows, self_location, barrier,
}
use evm_parachain.Xcm.Tests.{numbers, deposit, spend}
use evm_parachain.Xcm.Reserve.{Reaches}
use evm_parachain.Xcm.Entry.{Passes, DocumentedAllows, MayExecute, barrier-MayExecute}

-- Filters that spend credit, let in no paid message, and know whom to let in for free.
abbrev verdict_of : Bool → Pending numbers → Checked numbers
verdict_of true p = record { verdict = ok tt; pending = p; warnings = [] }
verdict_of false p = record { verdict = err tt; pending = p; warnings = [] }

abbrev or_else :
    Checked numbers
    → (Pending numbers → Checked numbers)
    → Result (Unit {0}) (Unit {0})
    → Checked numbers
or_else a next_filter (ok u) = a
or_else a next_filter (err u) = next_filter a.pending

abbrev pub documented : Allows numbers
documented = record {
  take_weight_credit = spend;
  allow_top_level_paid_execution_from = λ from l w p. verdict_of false p;
  allow_unpaid_execution_from = λ from l w p. verdict_of (from l) p;
  tuple = λ a b c l w p.
      let first = a l w p in
      or_else first (λ q. let second = b l w q in or_else second (λ r. c l w r) second.verdict)
        first.verdict;
}

verdict-ok : (b : Bool) (p : Pending numbers) → ((verdict_of b p).verdict ≡ ok tt) ↔ (b ≡ true)
verdict-ok true p = (λ h. refl, λ h. refl)
verdict-ok false p = (λ h. cc, λ h. cc)

or_else-ok :
    (x : Checked numbers) (f : Pending numbers → Checked numbers) (v : Result (Unit {0}) (Unit {0}))
    → x.verdict ≡ v
    → ((or_else x f v).verdict ≡ ok tt) ↔ ((x.verdict ≡ ok tt) ⊎ ((f x.pending).verdict ≡ ok tt))
or_else-ok x f (ok u) e = (λ h. inl h, λ h. e)
or_else-ok x f (err u) e = (λ h. inr h, λ h. ground arith)

spend-ok :
    (l : MultiLocation numbers) (w : ℕ) (p : Pending numbers)
    → ((spend l w p).verdict ≡ ok tt) ↔ (w ≤ p.weight_credit)
spend-ok l w p = (λ h. ground arith, λ h. ground arith)

spend-err :
    (l : MultiLocation numbers) (w : ℕ) (p : Pending numbers)
    → (spend l w p).verdict ≡ err tt
    → (spend l w p).pending ≡ p
spend-err l w p h = ground arith

tuple-ok :
    (a b c : ShouldExecute numbers) (l : MultiLocation numbers) (w : ℕ) (p : Pending numbers)
    → Passes documented (documented.tuple a b c) l w p ↔ (
        Passes documented a l w p
        ⊎ Passes documented b l w (a l w p).pending
        ⊎ Passes documented c l w (b l w (a l w p).pending).pending)
tuple-ok a b c l w p =
    let first = a l w p in
    let second = λ (q : Pending numbers). or_else (b l w q) (λ r. c l w r) (b l w q).verdict in
    let outer = or_else-ok first second first.verdict refl in
    let inner =
      or_else-ok (b l w first.pending) (λ r. c l w r) (b l w first.pending).verdict refl in
    (
      λ h. elim (outer.0 h) [ inl good ↦ inl good | inr later ↦ inr (inner.0 later) ],
      λ h. elim h [ inl good ↦ outer.1 (inl good) | inr later ↦ outer.1 (inr (inner.1 later)) ],
    )

pub documented-Documented : DocumentedAllows documented
documented-Documented = record {
  credit = spend-ok;
  credit_refused = spend-err;
  unpaid = λ from l w p. verdict-ok (from l) p;
  tuple = tuple-ok;
}

barrier-MayExecute_example : Passes documented (barrier documented) self_location 3 deposit ↔ (
    (¬ Reaches deposit.message)
    × MayExecute documented documented-Documented self_location 3 deposit)
barrier-MayExecute_example =
    barrier-MayExecute documented documented-Documented self_location 3 deposit
