-- ===== src/Runtime/Optional/Dispatch.antt =====
-- runtime/src/lib.rs: what the runtime APIs of the optional builds answer.
use mathlib.Core.Option.{some-injective}
use evm_parachain.Base.{◌≡◌, ◌↔◌, refl, ap, Option, none, some, arith}
use evm_parachain.Weights.{WeightLib}
use evm_parachain.Runtime.{PerbillLib}
use evm_parachain.Runtime.Blocks.{Limits, runtime_block_weights}
use evm_parachain.Runtime.Apis.{Types}
use evm_parachain.Runtime.Optional.{OptionalLib, with_limit, unwrap, on_runtime_upgrade}

module _ {W : WeightLib} {P : PerbillLib} {L : Limits W P} {T : Types}
    (O : OptionalLib W P L T) where
  with_limit-some :
      (p : Option W.Weight × T.State) (b : Option L.BlockWeights) (t : T.State)
      (used limit : W.Weight)
      → (with_limit O (unwrap O p) b ≡ some ((used, limit), t)) ↔ (
          (◌≡◌ {A = Option W.Weight × T.State} p (some used, t))
          × ((l : L.BlockWeights) × (b ≡ some l) × (O.max_block l ≡ limit)))
  with_limit-some (none, u) b t used limit = (λ h. ground arith, λ h. ground arith)
  with_limit-some (some w, u) none t used limit = (λ h. ground arith, λ h. ground arith)
  with_limit-some (some w, u) (some l) t used limit = (
    λ h.
        let e = some-injective _ _ h in
        (ap (λ p. (some p.0.0, p.1)) e, (l, refl, ap (λ p. p.0.1) e)),
    λ h. ground arith,
  )

  -- `on_runtime_upgrade` gives weights exactly if the upgrade succeeds and the block weights of the
  -- runtime can be built, in which case it gives the weight of the upgrade and the limit of a block;
  -- in all other cases it panics.
  pub on_runtime_upgrade-some :
      (s t : T.State) (used limit : W.Weight)
      → (on_runtime_upgrade O s ≡ some ((used, limit), t)) ↔ (
          (◌≡◌ {A = Option W.Weight × T.State} (O.try_runtime_upgrade s) (some used, t))
          × ((l : L.BlockWeights) × (runtime_block_weights W P L ≡ some l)
              × (O.max_block l ≡ limit)))
  unfolding on_runtime_upgrade
  on_runtime_upgrade-some s t used limit =
      with_limit-some (O.try_runtime_upgrade s) (runtime_block_weights W P L) t used limit
