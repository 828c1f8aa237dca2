-- ===== src/Runtime/Config/Sessions.antt =====
-- runtime/src/lib.rs: when sessions end under the configuration of pallet_session, and how they lie to
-- the time after which a collator that authors no block is kicked.
use evm_parachain.Base.{ℕ, ◌-◌, ◌*◌, ◌/◌, ◌%◌, ◌<◌, ◌≡◌, ◌↔◌, Bool, true, ◌&&◌, leb, ◌==◌, arith}
use evm_parachain.Runtime.{millisecs_per_block}
use evm_parachain.Runtime.Config.{PeriodicSessions, session_config}

-- `ShouldEndSession` of `PeriodicSessions`, which documents that a session ends at the offset, and then
-- after each period.
abbrev pub EndsPeriodically : (PeriodicSessions → ℕ → Bool) → Type 0
EndsPeriodically ends =
    (p : PeriodicSessions) (now : ℕ)
    → 0 < p.length
    → ends p now ≡ leb p.start now && ((now - p.start) % p.length == 0)

module _ (ends : PeriodicSessions → ℕ → Bool) (E : EndsPeriodically ends) where
  ends-multiple : (now : ℕ) → (ends session_config.should_end_session now ≡ true) ↔ (now % 1800 ≡ 0)
  ends-multiple now =
      let law = E session_config.should_end_session now (omega arith) in
      (λ h. ground (arith, law), λ h. ground (arith, law))

  -- If periodic sessions end at their offset and after each period, then a session of this runtime
  -- ends at a block exactly if the time of that many blocks is a multiple of six hours, in
  -- milliseconds.
  pub sessions_end :
      (now : ℕ)
      → (ends session_config.should_end_session now ≡ true)
        ↔ ((k : ℕ) × (now * millisecs_per_block ≡ k * 21600000))
  sessions_end now = (
    λ h. let whole = (ends-multiple now).0 h in (now / 1800, omega arith),
    λ (k, h). (ends-multiple now).1 (omega arith),
  )
