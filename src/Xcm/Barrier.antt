-- ===== src/Xcm/Barrier.antt =====
-- runtime/src/xcm_config.rs: `DenyThenTry` and the barrier of this chain.
use evm_parachain.Base.{
  ℕ, ◌≡◌, ◌↔◌, inl, inr, true, false, List, [], ◌∷◌, ◌++◌, any, arith, ok, err, Bool-cases,
  if◌then◌else◌, ◌&&◌, String,
}
use evm_parachain.Xcm.{
  Opaque, MultiLocation, Pending, ShouldExecute, Allows, deny_then_try, barrier, allows,
  deny_reserve_transfer_to_relay_chain, is_reserve_transfer_to_relay, is_relay,
  is_reserve_asset_deposited, unexpected_deposit, Instruction,
}
use evm_parachain.Xcm.Reserve.{Reaches, any-Reaches, Reaches-any}

module _ {O : Opaque} where
  -- `DenyThenTry` lets a message in exactly when the deny filter passes it and the allow filter then
  -- lets in what the deny filter left of it.
  pub deny_then_try-ok :
      (deny allow : ShouldExecute O) (origin : MultiLocation O) (max_weight : ℕ) (p : Pending O)
      → let denied = deny origin max_weight p in
        ((deny_then_try deny allow origin max_weight p).verdict ≡ ok tt)
        ↔ ((denied.verdict ≡ ok tt) × ((allow origin max_weight denied.pending).verdict ≡ ok tt))
  unfolding deny_then_try
  deny_then_try-ok deny allow origin max_weight p = (λ h. ground arith, λ h. ground arith)

  -- The log lines of the deny filter for a message that it passes.
  abbrev pub deposit_warning : MultiLocation O → List (Instruction O) → List String
  deposit_warning origin message =
      if is_relay origin && any is_reserve_asset_deposited message
      then unexpected_deposit ∷ []
      else []

  deny_passes :
      (origin : MultiLocation O) (max_weight : ℕ) (p : Pending O)
      → any is_reserve_transfer_to_relay p.message ≡ false
      → deny_reserve_transfer_to_relay_chain origin max_weight p
        ≡ record { verdict = ok tt; pending = p; warnings = deposit_warning origin p.message }
  unfolding deny_reserve_transfer_to_relay_chain
  deny_passes origin max_weight p miss = rw miss

  deny_refuses :
      (origin : MultiLocation O) (max_weight : ℕ) (p : Pending O)
      → any is_reserve_transfer_to_relay p.message ≡ true
      → deny_reserve_transfer_to_relay_chain origin max_weight p
        ≡ record { verdict = err tt; pending = p; warnings = [] }
  unfolding deny_reserve_transfer_to_relay_chain
  deny_refuses origin max_weight p hit = rw hit

module _ {O : Opaque} (A : Allows O) where
  -- The barrier refuses a message with a top-level reserve transfer to the relay chain, without a change
  -- or a warning, whatever the other filters would say.
  pub barrier-Reaches :
      (origin : MultiLocation O) (max_weight : ℕ) (p : Pending O)
      → Reaches p.message
      → barrier A origin max_weight p ≡ record { verdict = err tt; pending = p; warnings = [] }
  unfolding barrier
  barrier-Reaches origin max_weight p r = rw (deny_refuses origin max_weight p (Reaches-any r))

  pub barrier-allows :
      (origin : MultiLocation O) (max_weight : ℕ) (p : Pending O)
      → ¬ Reaches p.message
      → let allowed = allows A origin max_weight p in
        barrier A origin max_weight p
        ≡ record allowed { warnings = deposit_warning origin p.message ++ allowed.warnings }
  unfolding deny_then_try barrier
  barrier-allows origin max_weight p none_reach =
      elim (Bool-cases (any is_reserve_transfer_to_relay p.message)) [
        | inl hit ↦ absurd (none_reach (any-Reaches p.message hit))
        | inr miss ↦ rw (deny_passes origin max_weight p miss)
      ]
