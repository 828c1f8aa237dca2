-- ===== src/Node/ChainSpec/Accounts.antt =====
-- node/src/chain_spec.rs: the accounts of the two built-in specifications.
use mathlib.Core.Option.{some-injective, none-ne-some}
use evm_parachain.Base.{
  ℕ, ◌≡◌, refl, none, some, List, [], ◌∷◌, ◌++◌, map, arith, All, ap, Option-cases, inl, inr,
  String, ◌<>◌, ◌∙◌, sym, subst,
}
use evm_parachain.Base.Panic.{each, each-cons, >>=-eq-some}
use evm_parachain.Node.ChainSpec.Distinct.{
  Distinct, Distinct-of, IsPlain, All-IsPlain, IsInjectiveOn, each-Distinct,
}
use evm_parachain.Node.ChainSpec.{
  Outside, AuraId, account_of, ChainType, development, local, GenesisConfig, GenesisSpec,
  initial_collators, endowed, get_account_id_from_seed, development_config, local_testnet_config,
  testnet_genesis, genesis_of, collator, endow,
}

-- The endowed seeds behind the collators'.
abbrev other_accounts : List String
other_accounts =
    "Charlie" ∷ "Dave" ∷ "Eve" ∷ "Ferdie" ∷ "Alice//stash" ∷ "Bob//stash" ∷ "Charlie//stash"
    ∷ "Dave//stash" ∷ "Eve//stash" ∷ "Ferdie//stash" ∷ []

endowed-Distinct : Distinct endowed
endowed-Distinct = Distinct-of endowed refl

endowed-IsPlain : All IsPlain endowed
endowed-IsPlain = All-IsPlain endowed refl

module _ (O : Outside) where
  open O use {AccountId}

  -- The derivation paths of different plain seeds give different accounts. A path with a number
  -- in it is left out, since `//1` and `//01` are one path, and so is a path with a password.
  abbrev pub DerivesApart : Type 0
  DerivesApart =
      (s t : String) (p q : O.sr25519.Pair)
      → IsPlain s
      → IsPlain t
      → O.sr25519.from_string ("//" <> s) none ≡ some p
      → O.sr25519.from_string ("//" <> t) none ≡ some q
      → O.into_account (O.sr25519.public p) ≡ O.into_account (O.sr25519.public q)
      → s ≡ t

  account_inversion :
      (s : String) (a : AccountId)
      → get_account_id_from_seed O s ≡ some a
      → (p : O.sr25519.Pair) × (O.sr25519.from_string ("//" <> s) none ≡ some p)
        × (O.into_account (O.sr25519.public p) ≡ a)
  unfolding get_account_id_from_seed
  account_inversion s a h = elim (Option-cases (O.sr25519.from_string ("//" <> s) none)) [
    | inl missing ↦ absurd (none-ne-some a (rw missing at h))
    | inr (p, e) ↦ (p, e, ground arith)
  ]

  get_account_id-IsInjectiveOn : DerivesApart → IsInjectiveOn IsPlain (get_account_id_from_seed O)
  get_account_id-IsInjectiveOn derives s t a ps pt hs ht =
      let (p, ep, ap) = account_inversion s a hs in
      let (q, eq, aq) = account_inversion t a ht in derives s t p q ps pt ep eq (ap ∙ sym aq)

  -- The accounts that a genesis endows.
  abbrev pub holders : List (AccountId × ℕ) → List AccountId
  holders [] = []
  holders ((a, _) ∷ rest) = a ∷ holders rest

  holders-endow : (accounts : List AccountId) → holders (map (endow O) accounts) ≡ accounts
  holders-endow [] = refl
  holders-endow (a ∷ rest) = ap (λ t. a ∷ t) (holders-endow rest)

  collator-account :
      (seed : String) (c : AccountId × AuraId O)
      → collator O seed ≡ some c
      → get_account_id_from_seed O seed ≡ some (account_of O c)
  unfolding collator
  collator-account seed c h = ground arith

  -- The collators of some seeds are the first accounts of a list that begins with those seeds.
  collators-first :
      (seeds more : List String) (collators : List (AccountId × AuraId O))
      (accounts : List AccountId)
      → each (collator O) seeds ≡ some collators
      → each (get_account_id_from_seed O) (seeds ++ more) ≡ some accounts
      → (rest : List AccountId) × (accounts ≡ map (account_of O) collators ++ rest)
  collators-first [] more collators accounts hc ha =
      rw (← some-injective [] collators hc) (accounts, refl)
  collators-first (s ∷ seeds) more collators accounts hc ha =
      let (c, cs, ec, ecs, eqc) = each-cons (collator O) s seeds collators hc in
      let (a, others, ea, eas, eqa) =
        each-cons (get_account_id_from_seed O) s (seeds ++ more) accounts ha in
      let (rest, eq) = collators-first seeds more cs others ecs eas in
      let same : a ≡ account_of O c =
        some-injective a (account_of O c) (sym ea ∙ collator-account s c ec) in
      (rest, rw (eqa, eqc, same, eq))

  pub genesis_of-inversion :
      (seeds more : List String) (id : ℕ) (g : GenesisConfig O)
      → genesis_of O seeds more id tt ≡ some g
      → (collators : List (AccountId × AuraId O)) × (accounts : List AccountId) × (each
            (collator O)
            seeds
          ≡ some collators)
        × (each (get_account_id_from_seed O) more ≡ some accounts)
        × (testnet_genesis O collators accounts id ≡ some g)
  unfolding genesis_of
  genesis_of-inversion seeds more id g h =
      let (collators, ec, h') = >>=-eq-some (each (collator O) seeds) _ h in
      let (accounts, ea, h'') = >>=-eq-some (each (get_account_id_from_seed O) more) _ h' in
      (collators, accounts, ec, ea, h'')

  pub balances-testnet_genesis :
      (collators : List (AccountId × AuraId O)) (accounts : List AccountId) (id : ℕ)
      (g : GenesisConfig O)
      → testnet_genesis O collators accounts id ≡ some g
      → (g.balances ≡ map (endow O) accounts)
        × (g.invulnerables ≡ map (account_of O) collators)
        × (g.parachain_id ≡ id)
  unfolding testnet_genesis
  balances-testnet_genesis collators accounts id g h =
      let (code, e, made) = >>=-eq-some O.wasm_binary _ h in ground arith

  builtin_seeds :
      (id : ℕ) (g : GenesisConfig O)
      → DerivesApart
      → genesis_of O initial_collators endowed id tt ≡ some g
      → Distinct (holders g.balances)
        × ((rest : List AccountId) × (holders g.balances ≡ g.invulnerables ++ rest))
        × (g.parachain_id ≡ id)
  builtin_seeds id g derives h =
      let (collators, accounts, ec, ea, made) =
        genesis_of-inversion initial_collators endowed id g h in
      let (balances, invulnerables, same_id) =
        balances-testnet_genesis collators accounts id g made in
      let held : holders g.balances ≡ accounts = ap holders balances ∙ holders-endow accounts in
      let apart_accounts =
        each-Distinct IsPlain (get_account_id_from_seed O) (get_account_id-IsInjectiveOn derives)
          endowed accounts endowed-IsPlain endowed-Distinct ea in
      let (rest, eq) = collators-first initial_collators other_accounts collators accounts ec ea in
      (
        subst Distinct (sym held) apart_accounts,
        (rest, held ∙ eq ∙ ap (λ t. t ++ rest) (sym invulnerables)),
        same_id,
      )

  -- The two built-in specifications.
  abbrev pub builtin : ChainType → GenesisSpec O
  builtin development = development_config O
  builtin local = local_testnet_config O

  -- In the genesis of either built-in specification no account is endowed twice, provided that the
  -- derivation paths of different plain seeds give different accounts; the invulnerable collators
  -- are the first of the endowed accounts; and the parachain id is the one that the extensions of
  -- the specification name.
  pub builtin_genesis :
      DerivesApart
      → (t : ChainType) (g : GenesisConfig O) → (builtin t).genesis tt ≡ some g
      → Distinct (holders g.balances)
        × ((rest : List AccountId) × (holders g.balances ≡ g.invulnerables ++ rest))
        × (g.parachain_id ≡ (builtin t).extensions.para_id)
  unfolding development_config local_testnet_config
  builtin_genesis derives development g h = builtin_seeds 1000 g derives h
  builtin_genesis derives local g h = builtin_seeds 1000 g derives h
