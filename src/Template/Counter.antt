-- ===== src/Template/Counter.antt =====
-- pallets/template/src/lib.rs against a plain counter that stops at the largest u32.
use evm_parachain.Base.{
  ℕ, zero, suc, ◌+◌, ◌≤◌, ◌≡◌, Option, none, some, List, [], ◌∷◌, arith, All, Result, ok, err, min,
  refl,
}
use evm_parachain.Template.{
  Config, Call, do_something, cause_error, Store, u32_max, dispatch, run, something_stored,
}
use evm_parachain.Template.Atomic.{IsBounded, IsU32, dispatch-IsBounded}

-- What a signed call does to the stored number.
abbrev pub counter : Call → Option ℕ → Option ℕ
counter (do_something value) stored = some value
counter cause_error none = none
counter cause_error (some old) = some (min (old + 1) u32_max)

module _ (T : Config) where
  open T use {RuntimeOrigin, AccountId, BadOrigin, Events, ensure_signed, deposit_event}

  abbrev counter_if : Result BadOrigin AccountId → Call → Option ℕ → Option ℕ
  counter_if (ok who) c stored = counter c stored
  counter_if (err e) c stored = stored

  abbrev report_if : Result BadOrigin AccountId → Call → Events → Events
  report_if (ok who) (do_something value) seen = deposit_event (something_stored value who) seen
  report_if (ok who) cause_error seen = seen
  report_if (err e) c seen = seen

  -- The counter after a sequence of calls, where only the signed ones count.
  abbrev pub counted : List (Call × RuntimeOrigin) → Option ℕ → Option ℕ
  counted [] stored = stored
  counted ((c, origin) ∷ rest) stored = counted rest (counter_if (ensure_signed origin) c stored)

  -- The events that the signed `do_something` calls deposit, in order.
  abbrev pub reported : List (Call × RuntimeOrigin) → Events → Events
  reported [] seen = seen
  reported ((c, origin) ∷ rest) seen = reported rest (report_if (ensure_signed origin) c seen)

  dispatch-counter :
      (c : Call) (origin : RuntimeOrigin) (s : Store T)
      → IsBounded T s
      → ((dispatch T c origin s).1.something ≡ counter_if (ensure_signed origin) c s.something)
        × ((dispatch T c origin s).1.events ≡ report_if (ensure_signed origin) c s.events)
  unfolding dispatch
  dispatch-counter (do_something value) origin s b = ground arith
  dispatch-counter cause_error origin s b = ground arith

  -- From a store that holds a u32 or nothing, any sequence of calls with u32 arguments leaves the
  -- number of the plain counter, and deposits one event for each signed `do_something`, in order.
  pub run-counted :
      (calls : List (Call × RuntimeOrigin)) (s : Store T)
      → All (λ c. IsU32 T c.0) calls
      → IsBounded T s
      → ((run T calls s).something ≡ counted calls s.something)
        × ((run T calls s).events ≡ reported calls s.events)
  unfolding run
  run-counted [] s h b = (refl, refl)
  run-counted ((c, origin) ∷ rest) s (h, hs) b =
      let step = dispatch-counter c origin s b in
      rw (← step.0, ← step.1) (run-counted rest _ hs (dispatch-IsBounded T c origin s h b))

  -- `cause_error`, called n times by signed origins.
  abbrev pub repeated : ℕ → RuntimeOrigin → List (Call × RuntimeOrigin)
  repeated zero origin = []
  repeated (suc n) origin = (cause_error, origin) ∷ repeated n origin

  -- After a number v was stored, n signed calls of `cause_error` leave v + n, or the largest u32
  -- where v + n is beyond it, and deposit no event.
  pub run-repeated :
      (n : ℕ) (origin : RuntimeOrigin) (who : AccountId) (s : Store T) (v : ℕ)
      → ensure_signed origin ≡ ok who
      → s.something ≡ some v
      → v ≤ u32_max
      → ((run T (repeated n origin) s).something ≡ some (min (v + n) u32_max))
        × ((run T (repeated n origin) s).events ≡ s.events)
  unfolding run
  run-repeated zero origin who s v h e b = ground arith
  run-repeated (suc n) origin who s v h e b =
      let t = (dispatch T cause_error origin s).1 in
      let step = dispatch-counter cause_error origin s (ground arith) in
      let rest = run-repeated n origin who t (min (v + 1) u32_max) h (ground arith) (omega arith) in
      ground (arith, step, rest)
