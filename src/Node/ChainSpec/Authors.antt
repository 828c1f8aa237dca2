-- ===== src/Node/ChainSpec/Authors.antt =====
-- node/src/chain_spec.rs and runtime/src/lib.rs: who authors the blocks of a chain that starts from a
-- built-in specification. The session and Aura pallets are outside code.
use mathlib.Core.Option.{some-injective}
use evm_parachain.Base.{
  ℕ, ◌+◌, ◌*◌, ◌%◌, ◌/◌, ap, ◌<◌, ◌≡◌, refl, sym, ◌∙◌, Option, some, List, [], ◌∷◌, map, length,
  get_elem?, String, arith,
}
use evm_parachain.Base.Panic.{each, each-cons}
use evm_parachain.Node.ChainSpec.{
  Outside, AuraId, ChainType, development, local, GenesisConfig, initial_collators, endowed,
  get_collator_keys_from_seed, development_config, local_testnet_config, genesis_of, collator,
}
use evm_parachain.Node.ChainSpec.Genesis.{Keyed, key_of, given_key, testnet_genesis-some}
use evm_parachain.Node.ChainSpec.Accounts.{builtin, genesis_of-inversion}
use evm_parachain.Runtime.Apis.{
  Types, Components, DoublesPeriod, slot_duration, slot_duration-millisecs_per_block,
}

module _ (O : Outside) {B : Types} (C : Components B) where
  open O use {AccountId}

  -- The authorities that the genesis of the session and Aura pallets leaves, the slot that a time in
  -- milliseconds falls in, and the author that Aura expects for a slot.
  pub record AuraLib : Type 0 where
    pub genesis_authorities : GenesisConfig O → List (AuraId O)
    pub slot_at : B.SlotDuration → ℕ → ℕ
    pub slot_author : List (AuraId O) → ℕ → Option (AuraId O)

  -- Where each invulnerable has its session entry, the authorities are the keys of the entries, in order;
  -- slots of equal length follow each other; and the authorities take turns, one slot each.
  pub record TakesTurns (A : AuraLib) : Type 0 where
    pub keys :
        (g : GenesisConfig O)
        → Keyed O g.invulnerables g.session
        → A.genesis_authorities g ≡ map (key_of O) g.session
    pub slots :
        (duration time : ℕ)
        → 0 < duration
        → A.slot_at (C.from_millis duration) time ≡ time / duration
    pub turns :
        (ks : List (AuraId O)) (slot i : ℕ)
        → 0 < length ks
        → slot % length ks ≡ i
        → A.slot_author ks slot ≡ get_elem? ks i

  collator-key :
      (seed : String) (c : AccountId × AuraId O)
      → collator O seed ≡ some c
      → get_collator_keys_from_seed O seed ≡ some (given_key O c)
  unfolding collator
  collator-key seed c h = ground arith

  each-nil : {B D : Type 0} (f : B → Option D) (rest : List D) → each f [] ≡ some rest → rest ≡ []
  each-nil f rest h = sym (some-injective [] rest h)

  collator_keys :
      (id : ℕ) (g : GenesisConfig O)
      → genesis_of O initial_collators endowed id tt ≡ some g
      → (a b : AuraId O) × (get_collator_keys_from_seed O "Alice" ≡ some a)
        × (get_collator_keys_from_seed O "Bob" ≡ some b)
        × (map (key_of O) g.session ≡ a ∷ b ∷ [])
        × Keyed O g.invulnerables g.session
  collator_keys id g h =
      let (collators, accounts, ec, ea, made) =
        genesis_of-inversion O initial_collators endowed id g h in
      let (_, same, keyed, _, _, _, _) = testnet_genesis-some O collators accounts id g made in
      let (a, rest, ha, hrest, eas) = each-cons (collator O) "Alice" ("Bob" ∷ []) collators ec in
      let (b, last, hb, hlast, eb) = each-cons (collator O) "Bob" [] rest hrest in
      let listed : map (given_key O) collators ≡ given_key O a ∷ given_key O b ∷ [] =
        rw (eas, eb, each-nil (collator O) last hlast) refl in
      (
        given_key O a,
        given_key O b,
        collator-key "Alice" a ha,
        collator-key "Bob" b hb,
        same ∙ listed,
        keyed,
      )

  module _ (A : AuraLib) (T : TakesTurns A) where
    -- The author at a time, by the slot duration that the runtime tells.
    abbrev pub author_at : GenesisConfig O → ℕ → Option (AuraId O)
    author_at g time = A.slot_author (A.genesis_authorities g) (A.slot_at (slot_duration C) time)

    -- Each of the two initial collators has its turn for twelve seconds, and the other the next twelve.
    abbrev pub Alternates : GenesisConfig O → Type 0
    Alternates g =
        (a b : AuraId O) × (get_collator_keys_from_seed O "Alice" ≡ some a)
        × (get_collator_keys_from_seed O "Bob" ≡ some b)
        × (A.genesis_authorities g ≡ a ∷ b ∷ [])
        × ((k r : ℕ)
            → (author_at g (24000 * k + r % 12000) ≡ some a)
              × (author_at g (24000 * k + 12000 + r % 12000) ≡ some b))

    module _ (D : DoublesPeriod C) where
      slot_at-twelve : (time : ℕ) → A.slot_at (slot_duration C) time ≡ time / 12000
      slot_at-twelve time =
          ap (λ d. A.slot_at d time) (slot_duration-millisecs_per_block C D)
          ∙ T.slots 12000 time (omega arith)

      genesis_of-Alternates :
          (id : ℕ) (g : GenesisConfig O)
          → genesis_of O initial_collators endowed id tt ≡ some g
          → Alternates g
      genesis_of-Alternates id g h =
          let (a, b, ka, kb, listed, keyed) = collator_keys id g h in
          let two = T.keys g keyed ∙ listed in
          (
            a,
            b,
            ka,
            kb,
            two,
            λ k r.
                let first = slot_at-twelve (24000 * k + r % 12000) in
                let second = slot_at-twelve (24000 * k + 12000 + r % 12000) in
                (
                  ap (λ ks. A.slot_author ks (A.slot_at (slot_duration C) (24000 * k + r % 12000)))
                        two
                      ∙ T.turns (a ∷ b ∷ []) _ 0 (omega arith) (omega (arith, first)),
                  ap
                        (λ ks.
                          A.slot_author ks
                            (A.slot_at (slot_duration C) (24000 * k + 12000 + r % 12000)))
                        two
                      ∙ T.turns (a ∷ b ∷ []) _ 1 (omega arith) (omega (arith, second)),
                ),
          )

      -- If the authorities are the keys of the session's entries where each invulnerable has its entry,
      -- and take turns by slots of equal length, and pallet_aura's slot lasts twice the minimum period,
      -- then a chain that starts from either built-in specification has Alice's and Bob's keys as its
      -- authorities, and they take turns at authoring, twelve seconds each.
      pub builtin-Alternates :
          (t : ChainType) (g : GenesisConfig O) → (builtin O t).genesis tt ≡ some g → Alternates g
      unfolding development_config local_testnet_config
      builtin-Alternates development g h = genesis_of-Alternates 1000 g h
      builtin-Alternates local g h = genesis_of-Alternates 1000 g h
