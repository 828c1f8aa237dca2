-- ===== src/Template/Atomic.antt =====
-- pallets/template/src/lib.rs: what a failed call leaves, when a call succeeds, and the range of
-- the stored number.
use evm_parachain.Base.{ℕ, ◌≤◌, ◌<◌, ◌≡◌, ◌↔◌, Option, none, some, arith, ok, err}
use evm_parachain.Template.{
  Config, Call, do_something, cause_error, Store, DispatchError, bad_origin, module_error,
  none_value, storage_overflow, u32_max, dispatch,
}

module _ (T : Config) where
  open T use {RuntimeOrigin, AccountId, BadOrigin, ensure_signed}

  -- A call that returns an error, for whatever reason, leaves the stored number and the events as
  -- they were.
  pub dispatch-err :
      (c : Call) (origin : RuntimeOrigin) (s : Store T) (e : DispatchError BadOrigin)
      → (dispatch T c origin s).0 ≡ err e
      → (dispatch T c origin s).1 ≡ s
  unfolding dispatch
  dispatch-err (do_something value) origin s e h = ground arith
  dispatch-err cause_error origin s e h = ground arith

  -- `cause_error` succeeds exactly when the origin is signed and the stored number is there and
  -- lies below the largest u32.
  pub cause_error-ok :
      (origin : RuntimeOrigin) (s : Store T)
      → ((dispatch T cause_error origin s).0 ≡ ok tt) ↔ (
          ((who : AccountId) × (ensure_signed origin ≡ ok who))
          × ((old : ℕ) × (s.something ≡ some old) × (old < u32_max)))
  unfolding dispatch
  cause_error-ok origin s = (λ h. (ground arith, ground arith), λ h. ground arith)

  -- What `cause_error` reports on each failing branch.
  pub cause_error-failures :
      (origin : RuntimeOrigin) (s : Store T)
      → ((e : BadOrigin)
          → ensure_signed origin ≡ err e
          → (dispatch T cause_error origin s).0 ≡ err (bad_origin e))
        × ((who : AccountId)
            → ensure_signed origin ≡ ok who
            → s.something ≡ none
            → (dispatch T cause_error origin s).0 ≡ err (module_error none_value))
        × ((who : AccountId) (old : ℕ)
            → ensure_signed origin ≡ ok who
            → s.something ≡ some old
            → u32_max ≤ old
            → (dispatch T cause_error origin s).0 ≡ err (module_error storage_overflow))
  unfolding dispatch
  cause_error-failures origin s =
      (λ e h. ground arith, λ who h n. ground arith, λ who old h k l. ground arith)

  abbrev Fits : Option ℕ → Type 0
  Fits none = Unit
  Fits (some v) = v ≤ u32_max

  -- The stored number is a u32; the argument of a call is one.
  abbrev pub IsBounded : Store T → Type 0
  IsBounded s = Fits s.something

  abbrev pub IsU32 : Call → Type 0
  IsU32 (do_something value) = value ≤ u32_max
  IsU32 cause_error = Unit

  pub dispatch-IsBounded :
      (c : Call) (origin : RuntimeOrigin) (s : Store T)
      → IsU32 c
      → IsBounded s
      → IsBounded (dispatch T c origin s).1
  unfolding dispatch
  dispatch-IsBounded (do_something value) origin s h b = ground arith
  dispatch-IsBounded cause_error origin s h b = ground arith
