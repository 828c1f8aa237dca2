-- ===== src/Xcm/Reserve.antt =====
-- runtime/src/xcm_config.rs: the filters against what they are to recognise.
use evm_parachain.Base.{
  ℕ, ◌≡◌, ◌↔◌, ◌⊎◌, inl, inr, true, List, [], ◌∷◌, any, arith, err, Bool-cases, refl,
}
use evm_parachain.Xcm.{
  Opaque, executive, parachain, account_id32, plurality, Junctions, here, x1, MultiLocation,
  Instruction, initiate_reserve_withdraw, deposit_reserve_asset, transfer_reserve_asset,
  reserve_asset_deposited, other_instruction, relay_location, Pending, is_relay,
  is_parent_or_executive_plurality, is_reserve_transfer_to_relay,
  deny_reserve_transfer_to_relay_chain, is_here_or_executive, other_junction, other_body,
  other_interior,
}

module _ {O : Opaque} where
  -- An instruction that moves a reserve to, or withdraws one from, the relay chain.
  pub data MovesToRelay : Instruction O → Type 0 where
    withdraws : (fields : O.Fields) → MovesToRelay (initiate_reserve_withdraw relay_location fields)
    deposits : (fields : O.Fields) → MovesToRelay (deposit_reserve_asset relay_location fields)
    transfers : (fields : O.Fields) → MovesToRelay (transfer_reserve_asset relay_location fields)

  -- A message with such an instruction at its top level.
  pub data Reaches : List (Instruction O) → Type 0 where
    first : {i : Instruction O} {rest : List (Instruction O)} → MovesToRelay i → Reaches (i ∷ rest)
    later : {i : Instruction O} {rest : List (Instruction O)} → Reaches rest → Reaches (i ∷ rest)

  is_relay-eq : (location : MultiLocation O) → is_relay location ≡ true → location ≡ relay_location
  unfolding is_relay
  is_relay-eq location h = ground arith

  is_reserve_transfer-Moves :
      (i : Instruction O) → is_reserve_transfer_to_relay i ≡ true → MovesToRelay i
  unfolding is_reserve_transfer_to_relay
  is_reserve_transfer-Moves (initiate_reserve_withdraw l f) h = rw (is_relay-eq l h) (withdraws f)
  is_reserve_transfer-Moves (deposit_reserve_asset l f) h = rw (is_relay-eq l h) (deposits f)
  is_reserve_transfer-Moves (transfer_reserve_asset l f) h = rw (is_relay-eq l h) (transfers f)
  is_reserve_transfer-Moves (reserve_asset_deposited f) h = cc
  is_reserve_transfer-Moves (other_instruction o) h = cc

  Moves-is_reserve_transfer :
      {i : Instruction O} → MovesToRelay i → is_reserve_transfer_to_relay i ≡ true
  unfolding is_reserve_transfer_to_relay
  Moves-is_reserve_transfer (withdraws f) = refl
  Moves-is_reserve_transfer (deposits f) = refl
  Moves-is_reserve_transfer (transfers f) = refl

  pub any-Reaches :
      (message : List (Instruction O))
      → any is_reserve_transfer_to_relay message ≡ true
      → Reaches message
  any-Reaches [] h = cc
  any-Reaches (i ∷ rest) h = elim (Bool-cases (is_reserve_transfer_to_relay i)) [
    | inl hit ↦ first (is_reserve_transfer-Moves i hit)
    | inr miss ↦ later (any-Reaches rest (rw miss at h))
  ]

  pub Reaches-any :
      {message : List (Instruction O)}
      → Reaches message
      → any is_reserve_transfer_to_relay message ≡ true
  Reaches-any (first m) = rw (Moves-is_reserve_transfer m)
  Reaches-any (later {i} r) = ground (arith, Reaches-any r)

  -- DenyReserveTransferToRelayChain refuses a message exactly when the message holds, at its top
  -- level, one of the three instructions with the relay chain for its reserve or destination,
  -- whatever the origin, the weight and the credit.
  pub deny-Reaches :
      (origin : MultiLocation O) (max_weight : ℕ) (p : Pending O)
      → ((deny_reserve_transfer_to_relay_chain origin max_weight p).verdict ≡ err tt)
        ↔ Reaches p.message
  unfolding deny_reserve_transfer_to_relay_chain
  deny-Reaches origin max_weight p =
      (λ h. any-Reaches p.message (ground arith), λ r. ground (arith, Reaches-any r))

  one_of :
      (interior : Junctions O)
      → is_here_or_executive interior ≡ true
      → (interior ≡ here) ⊎ ((part : O.BodyPart) × (interior ≡ x1 (plurality executive part)))
  one_of here h = inl refl
  one_of (x1 (plurality executive part)) h = inr (part, refl)
  one_of (x1 (plurality (other_body b) part)) h = cc
  one_of (x1 (parachain id)) h = cc
  one_of (x1 (account_id32 network id)) h = cc
  one_of (x1 (other_junction j)) h = cc
  one_of (other_interior i) h = cc

  -- ParentOrParentsExecutivePlurality, which names who gets free execution, holds of the relay chain and
  -- of any part of its executive body, and of nothing else.
  pub parent_or_executive_lem :
      (location : MultiLocation O)
      → (is_parent_or_executive_plurality location ≡ true) ↔ (
          (location ≡ relay_location)
          ⊎ ((part : O.BodyPart) × (location
                ≡ record { parents = 1; interior = x1 (plurality executive part) })))
  unfolding is_parent_or_executive_plurality
  parent_or_executive_lem location =
      (λ h. grind (arith, one_of location.interior (ground arith)), λ h. ground arith)
