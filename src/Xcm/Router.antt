-- ===== src/Xcm/Router.antt =====
-- runtime/src/xcm_config.rs: `XcmRouter` and the weigher. The two routers, and what a weigher counts,
-- belong to libraries.
use evm_parachain.Base.{
  ℕ, ◌*◌, ◌≤◌, ◌<◌, ◌≡◌, ◌↔◌, ◌∙◌, ap, refl, Bool, true, false, Option, none, some, List, [], ◌∷◌,
  All, length, leb, arith, Result, ok, err, if◌then◌else◌,
}
use evm_parachain.Weights.{WeightLib, IsDocumented}
use evm_parachain.Runtime.{PerbillLib}
use evm_parachain.Runtime.Blocks.{
  Limits, IsPercentage, messages_fit, reserved_dmp_weight, reserved_xcmp_weight,
}
use evm_parachain.Xcm.{
  Opaque, MultiLocation, Instruction, other_instruction, is_relay, unit_weight_cost,
  max_instructions,
}
use evm_parachain.Xcm.Origins.{sibling_of}

module _ (O : Opaque) where
  abbrev pub Xcm : Type 0
  Xcm = List (Instruction O)

  -- `SendXcm`, with what a queue says of a message that it takes.
  abbrev pub SendXcm : Type 0 → Type 0 → Type 0
  SendXcm Sent E = MultiLocation O → Xcm → Result E Sent

  pub record Routers : Type 1 where
    pub Sent : Type 0
    pub SendError : Type 0
    pub parent_as_ump : SendXcm Sent SendError
    pub xcmp_queue : SendXcm Sent SendError
    pub tuple : List (SendXcm Sent SendError) → SendXcm Sent SendError
    -- `FixedWeightBounds`, by the cost of an instruction and the largest number of them.
    pub fixed_weight_bounds : ℕ → ℕ → Xcm → Option ℕ

  module _ (R : Routers) where
    unfoldable pub xcm_router : SendXcm R.Sent R.SendError
    xcm_router = R.tuple (R.parent_as_ump ∷ R.xcmp_queue ∷ [])

    unfoldable pub weigher : Xcm → Option ℕ
    weigher = R.fixed_weight_bounds unit_weight_cost max_instructions

    abbrev pub Answer : Type 0
    Answer = Result R.SendError R.Sent

    abbrev pub try_next : (R.SendError → Bool) → Answer → Answer → Answer
    try_next is_cannot_reach (ok sent) later = ok sent
    try_next is_cannot_reach (err e) later = if is_cannot_reach e then later else err e

    -- The answer of the sibling queue, where the location is a sibling.
    abbrev pub to_sibling : (ℕ → Answer) → Answer → Option ℕ → Answer
    to_sibling sideways cannot none = cannot
    to_sibling sideways cannot (some id) = sideways id

    -- The upward queue takes what goes to the parent, the sibling queue what goes to a sibling; either
    -- answers `CannotReachDestination` for all else, and only then. A tuple asks the next router
    -- exactly after that answer.
    pub record DocumentedRouters : Type 0 where
      pub cannot_reach : MultiLocation O → Xcm → R.SendError
      pub is_cannot_reach : R.SendError → Bool
      pub upward : Xcm → Answer
      pub sideways : Xcm → ℕ → Answer
      pub ump :
          (l : MultiLocation O) (m : Xcm)
          → R.parent_as_ump l m ≡ (if is_relay l then upward m else err (cannot_reach l m))
      pub xcmp :
          (l : MultiLocation O) (m : Xcm)
          → R.xcmp_queue l m ≡ to_sibling (sideways m) (err (cannot_reach l m)) (sibling_of O l)
      pub cannot : (l : MultiLocation O) (m : Xcm) → is_cannot_reach (cannot_reach l m) ≡ true
      pub up_reaches : (m : Xcm) (e : R.SendError) → upward m ≡ err e → is_cannot_reach e ≡ false
      pub side_reaches :
          (m : Xcm) (id : ℕ) (e : R.SendError) → sideways m id ≡ err e → is_cannot_reach e ≡ false
      pub tuple-nil : (l : MultiLocation O) (m : Xcm) → R.tuple [] l m ≡ err (cannot_reach l m)
      pub tuple-cons :
          (r : SendXcm R.Sent R.SendError) (rs : List (SendXcm R.Sent R.SendError))
          (l : MultiLocation O) (m : Xcm)
          → R.tuple (r ∷ rs) l m ≡ try_next is_cannot_reach (r l m) (R.tuple rs l m)

    reached :
        (is_cannot_reach : R.SendError → Bool) (a later : Answer)
        → ((e : R.SendError) → a ≡ err e → is_cannot_reach e ≡ false)
        → try_next is_cannot_reach a later ≡ a
    reached is_cannot_reach (ok sent) later h = refl
    reached is_cannot_reach (err e) later h = rw (h e refl)

    module _ (D : DocumentedRouters) where
      to_siblings :
          (l : MultiLocation O) (m : Xcm) (o : Option ℕ)
          → try_next D.is_cannot_reach
              (to_sibling (D.sideways m) (err (D.cannot_reach l m)) o)
              (err (D.cannot_reach l m))
            ≡ to_sibling (D.sideways m) (err (D.cannot_reach l m)) o
      to_siblings l m none = rw (D.cannot l m)
      to_siblings l m (some id) =
          reached D.is_cannot_reach (D.sideways m id) _ (D.side_reaches m id)

      routed :
          (l : MultiLocation O) (m : Xcm) (up : Bool)
          → try_next D.is_cannot_reach
              (if up then D.upward m else err (D.cannot_reach l m))
              (to_sibling (D.sideways m) (err (D.cannot_reach l m)) (sibling_of O l))
            ≡ (if up
                then D.upward m
                else to_sibling (D.sideways m) (err (D.cannot_reach l m)) (sibling_of O l))
      routed l m true = reached D.is_cannot_reach (D.upward m) _ (D.up_reaches m)
      routed l m false = rw (D.cannot l m)

      -- With routers that behave as documented, a message to the relay chain goes into the upward queue
      -- and one to a sibling into the queue to that sibling, with whatever that queue answers; and a
      -- message to any other place is refused as one that cannot reach its destination.
      pub xcm_router-routes :
          (l : MultiLocation O) (m : Xcm)
          → xcm_router l m ≡ (
              if is_relay l
              then D.upward m
              else to_sibling (D.sideways m) (err (D.cannot_reach l m)) (sibling_of O l))
      unfolding xcm_router
      xcm_router-routes l m =
          let asked : xcm_router l m
              ≡ try_next D.is_cannot_reach
                  (if is_relay l then D.upward m else err (D.cannot_reach l m))
                  (try_next D.is_cannot_reach
                    (to_sibling (D.sideways m) (err (D.cannot_reach l m)) (sibling_of O l))
                    (err (D.cannot_reach l m))) =
            simp (D.tuple-cons, D.tuple-nil, D.ump, D.xcmp) in
          asked
          ∙ ap
              (try_next D.is_cannot_reach
                (if is_relay l then D.upward m else err (D.cannot_reach l m)))
              (to_siblings l m (sibling_of O l))
          ∙ routed l m (is_relay l)

    -- The instructions that hold neither a program nor a call: `IsOpaque` says which of the others do not.
    abbrev pub IsPlain : (O.OtherInstruction → Type 0) → Instruction O → Type 0
    IsPlain IsOpaque (other_instruction other) = IsOpaque other
    IsPlain IsOpaque _ = Unit

    -- `FixedWeightBounds` counts one cost for each such instruction, up to its largest number.
    abbrev pub CountsPlain : (O.OtherInstruction → Type 0) → Type 0
    CountsPlain IsOpaque =
        (cost most : ℕ) (m : Xcm)
        → All (IsPlain IsOpaque) m
        → R.fixed_weight_bounds cost most m
          ≡ (if leb (length m) most then some (length m * cost) else none)

    pub weigher-plain :
        (IsOpaque : O.OtherInstruction → Type 0) (m : Xcm)
        → CountsPlain IsOpaque
        → All (IsPlain IsOpaque) m
        → weigher m
          ≡ (if leb (length m) max_instructions then some (length m * unit_weight_cost) else none)
    unfolding weigher
    weigher-plain IsOpaque m counts plain = counts unit_weight_cost max_instructions m plain

    pub plain-weight :
        (IsOpaque : O.OtherInstruction → Type 0) (m : Xcm)
        → CountsPlain IsOpaque
        → All (IsPlain IsOpaque) m
        → length m ≤ max_instructions
        → weigher m ≡ some (length m * unit_weight_cost)
    plain-weight IsOpaque m counts plain few =
        let known = weigher-plain IsOpaque m counts plain in ground (arith, known)

    pub plain_length :
        (IsOpaque : O.OtherInstruction → Type 0) (m : Xcm) (w : ℕ)
        → CountsPlain IsOpaque
        → All (IsPlain IsOpaque) m
        → weigher m ≡ some w
        → (length m ≤ max_instructions) × (w ≡ length m * unit_weight_cost)
    plain_length IsOpaque m w counts plain weighed =
        let known = weigher-plain IsOpaque m counts plain in (ground arith, ground arith)

    -- With a weigher that counts instructions as documented, a message of plain instructions cannot be
    -- weighed exactly if it has more than `MaxInstructions`.
    pub weigher-none :
        (IsOpaque : O.OtherInstruction → Type 0) (m : Xcm)
        → CountsPlain IsOpaque
        → All (IsPlain IsOpaque) m
        → (weigher m ≡ none) ↔ (max_instructions < length m)
    weigher-none IsOpaque m counts plain =
        let known = weigher-plain IsOpaque m counts plain in (λ h. ground arith, λ h. ground arith)

    module _ (W : WeightLib) (D : IsDocumented W) (P : PerbillLib) (L : Limits W P)
        (I : IsPercentage W P L) where
      -- With weights that count picoseconds and a weigher that counts instructions as documented: a
      -- message of plain instructions that is weighed has at most `MaxInstructions` of them, weighs the
      -- unit cost for each, and fits into what a block reserves for the relay chain's messages, and into
      -- what it reserves for the siblings'.
      pub weigher_fits :
          (IsOpaque : O.OtherInstruction → Type 0) (m : Xcm) (w : ℕ)
          → CountsPlain IsOpaque
          → All (IsPlain IsOpaque) m
          → weigher m ≡ some w
          → (length m ≤ max_instructions)
            × (w ≡ length m * unit_weight_cost)
            × (w ≤ W.ref_time (reserved_dmp_weight W P L))
            × (w ≤ W.ref_time (reserved_xcmp_weight W P L))
      weigher_fits IsOpaque m w counts plain weighed =
          let (few, cost) = plain_length IsOpaque m w counts plain weighed in
          let fit = messages_fit W D P L I (length m) few in
          (few, cost, rw cost fit.0, rw cost fit.1)
