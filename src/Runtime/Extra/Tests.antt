-- ===== src/Runtime/Extra/Tests.antt =====
-- The theorem about `SignedExtra` over an account's balance and nonce: a transaction of nonce 7 pays 10.
use evm_parachain.Base.{
  ℕ, ◌-◌, ◌≡◌, refl, List, [], ◌∷◌, String, Result, ok, err, if◌then◌else◌, ◌==◌, ltb, arith,
}
use evm_parachain.Base.Machine.{Trace}
use evm_parachain.Runtime.Extra.{
  Check, check_nonce, charge_transaction_payment, signed_extra, ExtensionLib,
}
use evm_parachain.Runtime.Extra.Unpaid.{
  Passes, free_checks, and_then, IsFree, PaysOnce, signed_extra-unpaid,
}

abbrev Account : Type 0
Account = ℕ × ℕ

abbrev check_one : Check → Account → Result String (Unit {0}) × Account
check_one check_nonce (balance, nonce) =
    if nonce == 7 then (ok tt, (balance, 8)) else (err "Stale", (balance, nonce))
check_one charge_transaction_payment (balance, nonce) =
    if ltb balance 10 then (err "Payment", (balance, nonce)) else (ok tt, (balance - 10, nonce))
check_one _ account = (ok tt, account)

abbrev go_on :
    Result String (Unit {0}) × Account
    → (Account → Result String (Unit {0}) × Account)
    → Result String (Unit {0}) × Account
go_on (ok u, account) f = f account
go_on (err e, account) f = (err e, account)

abbrev check_all : List Check → Account → Result String (Unit {0}) × Account
check_all [] account = (ok tt, account)
check_all (c ∷ cs) account = go_on (check_one c account) (λ next. check_all cs next)

abbrev accounts : ExtensionLib
accounts = record { State = Account; Refusal = String; pre_dispatch = check_one; tuple = check_all }

free : (c : Check) (a : Account) → IsFree c → (check_one c a).1.0 ≡ a.0
free check_nonce (balance, nonce) h = ground arith
free charge_transaction_payment a h = elim h [ ]
free _ a h = refl

refused :
    (a : Account) (e : String)
    → (check_one charge_transaction_payment a).0 ≡ err e
    → (check_one charge_transaction_payment a).1.0 ≡ a.0
refused (balance, nonce) e h = ground arith

go_on-and_then :
    (o : Result String (Unit {0}) × Account) (f : Account → Result String (Unit {0}) × Account)
    → go_on o f ≡ and_then accounts o f
go_on-and_then (ok u, a) f = refl
go_on-and_then (err e, a) f = refl

abbrev accounts-PaysOnce : PaysOnce accounts
accounts-PaysOnce = record {
  balance = λ a. a.0;
  tuple-nil = λ a. refl;
  tuple-cons = λ c cs a. go_on-and_then (check_one c a) (check_all cs);
  free = free;
  refused = refused;
}

pays : check_all signed_extra (100, 7) ≡ (ok tt, (90, 8))
pays = refl

stale : check_all signed_extra (100, 8) ≡ (err "Stale", (100, 8))
stale = refl

signed_extra-unpaid_example :
    ((e : String)
      → (check_all signed_extra (100, 7)).0 ≡ err e
      → (check_all signed_extra (100, 7)).1.0 ≡ 100)
    × ((check_all signed_extra (100, 7)).0 ≡ ok tt
        → (u : Account) × Trace
            (Passes accounts accounts-PaysOnce)
            (100, 7)
            (free_checks accounts accounts-PaysOnce)
            u
          × (u.0 ≡ 100)
          × (check_all signed_extra (100, 7) ≡ check_one charge_transaction_payment u))
signed_extra-unpaid_example = signed_extra-unpaid accounts accounts-PaysOnce (100, 7)
