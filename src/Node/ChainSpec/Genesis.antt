-- ===== src/Node/ChainSpec/Genesis.antt =====
-- node/src/chain_spec.rs: what the genesis state of a specification holds.
use mathlib.Core.Option.{none-ne-some}
use evm_parachain.Base.{
  ℕ, ◌+◌, ◌*◌, ◌^◌, ◌≤◌, ◌≡◌, refl, none, some, List, ap, [], ◌∷◌, map, arith, All, length, ◌↔◌,
  Option-cases, inl, inr,
}
use evm_parachain.Runtime.{existential_deposit}
use evm_parachain.Node.ChainSpec.{
  Outside, AuraId, SessionEntry, GenesisConfig, endowment, endow, session_entry, account_of,
  genesis_with, testnet_genesis,
}

-- The sum of the balances of a genesis.
abbrev pub issuance : {A : Type 0} → List (A × ℕ) → ℕ
issuance [] = 0
issuance ((_, b) ∷ rest) = b + issuance rest

module _ (O : Outside) where
  open O use {AccountId}

  -- The session has one entry for each invulnerable, in order, under its own account as validator.
  abbrev pub Keyed : List AccountId → List (SessionEntry O) → Type 0
  Keyed [] [] = Unit
  Keyed [] (e ∷ es) = ⊥
  Keyed (a ∷ rest) [] = ⊥
  Keyed (a ∷ rest) (e ∷ es) = (e.account ≡ a) × (e.validator ≡ a) × Keyed rest es

  Keyed-map :
      (invulnerables : List (AccountId × AuraId O))
      → Keyed (map (account_of O) invulnerables) (map (session_entry O) invulnerables)
  unfolding session_entry
  Keyed-map [] = tt
  Keyed-map (v ∷ vs) = (refl, refl, Keyed-map vs)

  abbrev pub key_of : SessionEntry O → AuraId O
  key_of e = e.keys.aura

  abbrev pub given_key : AccountId × AuraId O → AuraId O
  given_key v = v.1

  keys :
      (invulnerables : List (AccountId × AuraId O))
      → map key_of (map (session_entry O) invulnerables) ≡ map given_key invulnerables
  unfolding session_entry
  keys [] = refl
  keys (v ∷ vs) = ap (λ t. v.1 ∷ t) (keys vs)

  issuance-endow :
      (accounts : List AccountId) → issuance (map (endow O) accounts) ≡ length accounts * endowment
  issuance-endow [] = refl
  issuance-endow (a ∷ rest) = omega (arith, issuance-endow rest)

  -- Each balance covers the bond of a collator candidate and the existential deposit.
  abbrev pub Covers : ℕ → List (AccountId × ℕ) → Type 0
  Covers bond = All (λ (_, b). (bond ≤ b) × (existential_deposit ≤ b))

  Covers-endow :
      (accounts : List AccountId) → Covers (existential_deposit * 16) (map (endow O) accounts)
  Covers-endow [] = tt
  Covers-endow (a ∷ rest) = ((omega arith, omega arith), Covers-endow rest)

  -- `testnet_genesis` panics exactly when the runtime was built without its code.
  pub testnet_genesis-none :
      (invulnerables : List (AccountId × AuraId O)) (accounts : List AccountId) (id : ℕ)
      → (testnet_genesis O invulnerables accounts id ≡ none) ↔ (O.wasm_binary ≡ none)
  unfolding testnet_genesis
  testnet_genesis-none invulnerables accounts id = (λ h. ground arith, λ h. ground arith)

  -- The invulnerables of a genesis are the accounts that were given, in order. It has a session entry
  -- for each of them and no other, under its own account and with the key that was given for it. Its
  -- balances are 2^60 for each endowed account, in order, so that the issuance is 2^60 for each; every
  -- balance covers the candidacy bond, and the existential deposit; and it carries the parachain id that
  -- was given.
  pub testnet_genesis-some :
      (invulnerables : List (AccountId × AuraId O)) (accounts : List AccountId) (id : ℕ)
      (g : GenesisConfig O)
      → testnet_genesis O invulnerables accounts id ≡ some g
      → (g.invulnerables ≡ map (account_of O) invulnerables)
        × (map key_of g.session ≡ map given_key invulnerables)
        × Keyed g.invulnerables g.session
        × (g.balances ≡ map (λ a. (a, 2 ^ 60)) accounts)
        × (issuance g.balances ≡ length accounts * 2 ^ 60)
        × Covers g.candidacy_bond g.balances
        × (g.parachain_id ≡ id)
  unfolding testnet_genesis
  testnet_genesis-some invulnerables accounts id g h = elim (Option-cases O.wasm_binary) [
    | inl missing ↦ absurd (none-ne-some g (rw missing at h))
    | inr (code, e) ↦
        let made : genesis_with O code invulnerables accounts id ≡ g = ground arith in
        rw (← made) (
          refl,
          keys invulnerables,
          Keyed-map invulnerables,
          refl,
          issuance-endow accounts,
          Covers-endow accounts,
          refl,
        )
  ]
