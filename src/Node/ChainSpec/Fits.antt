-- ===== src/Node/ChainSpec/Fits.antt =====
-- node/src/chain_spec.rs against the `Config` impls of runtime/src/lib.rs: whether the genesis of a
-- built-in specification keeps the limits of the runtime that it is for.
use evm_parachain.Base.{
  ℕ, ◌+◌, ◌*◌, ◌^◌, ◌≤◌, ◌<◌, ◌≡◌, refl, ◌∙◌, ap, subst, Option, some, List, [], ◌∷◌, ◌++◌, map,
  arith, All, length,
}
use evm_parachain.Base.Panic.{each, each-cons}
use evm_parachain.Runtime.Config.{balances_config, collator_selection_config, aura_config}
use evm_parachain.Node.ChainSpec.{
  Outside, SessionEntry, account_of, ChainType, development, local, GenesisConfig,
  initial_collators, endowed, get_account_id_from_seed, development_config, local_testnet_config,
  collator, genesis_of,
}
use evm_parachain.Node.ChainSpec.Distinct.{Distinct}
use evm_parachain.Node.ChainSpec.Genesis.{issuance, Keyed, Covers, testnet_genesis-some}
use evm_parachain.Node.ChainSpec.Accounts.{
  DerivesApart, holders, builtin, builtin_genesis, genesis_of-inversion,
}

length-each :
    {A B : Type 0} (f : A → Option B) (xs : List A) (bs : List B)
    → each f xs ≡ some bs
    → length bs ≡ length xs
length-each f [] bs h = ground arith
length-each f (x ∷ xs) bs h =
    let (b, rest, e, es, eq) = each-cons f x xs bs h in
    let shorter = length-each f xs rest es in rw eq (omega (arith, shorter))

length-map : {A B : Type 0} (f : A → B) (xs : List A) → length (map f xs) ≡ length xs
length-map f [] = refl
length-map f (x ∷ xs) = omega (arith, length-map f xs)

length-++ : {A : Type 0} (xs ys : List A) → length (xs ++ ys) ≡ length xs + length ys
length-++ [] ys = omega arith
length-++ (x ∷ xs) ys = omega (arith, length-++ xs ys)

All-++ : {A : Type 0} (P : A → Type 0) (xs ys : List A) → All P (xs ++ ys) → All P xs
All-++ P [] ys h = tt
All-++ P (x ∷ xs) ys h = (h.0, All-++ P xs ys h.1)

Distinct-++ : {A : Type 0} (xs ys : List A) → Distinct (xs ++ ys) → Distinct xs
Distinct-++ [] ys h = tt
Distinct-++ (x ∷ xs) ys h = (All-++ _ xs ys h.0, Distinct-++ xs ys h.1)

module _ (O : Outside) where
  open O use {AccountId}

  -- The accounts that get session keys.
  abbrev pub validators : List (SessionEntry O) → List AccountId
  validators [] = []
  validators (e ∷ es) = e.account ∷ validators es

  validators-Keyed :
      (as_ : List AccountId) (es : List (SessionEntry O)) → Keyed O as_ es → validators es ≡ as_
  validators-Keyed [] [] k = refl
  validators-Keyed [] (e ∷ es) k = elim k [ ]
  validators-Keyed (a ∷ rest) [] k = elim k [ ]
  validators-Keyed (a ∷ rest) (e ∷ es) (same, _, k) = rw (same, validators-Keyed rest es k)

  -- Each balance is at least what the runtime keeps an account for.
  abbrev pub Exist : List (AccountId × ℕ) → Type 0
  Exist = All (λ (_, b). balances_config.existential_deposit ≤ b)

  Exist-Covers : (bond : ℕ) (bs : List (AccountId × ℕ)) → Covers O bond bs → Exist bs
  Exist-Covers bond [] h = tt
  Exist-Covers bond (b ∷ bs) h = (h.0.1, Exist-Covers bond bs h.1)

  genesis_of-sizes :
      (id : ℕ) (g : GenesisConfig O)
      → genesis_of O initial_collators endowed id tt ≡ some g
      → (length g.invulnerables ≡ 2)
        × (issuance g.balances ≡ 12 * 2 ^ 60)
        × Exist g.balances
        × (validators g.session ≡ g.invulnerables)
  genesis_of-sizes id g h =
      let (collators, accounts, ec, ea, made) =
        genesis_of-inversion O initial_collators endowed id g h in
      let (given, _, keyed, _, total, covers, _) =
        testnet_genesis-some O collators accounts id g made in
      let two = length-each (collator O) initial_collators collators ec in
      let twelve = length-each (get_account_id_from_seed O) endowed accounts ea in
      (
        ap length given ∙ length-map (account_of O) collators ∙ two,
        total ∙ ap (λ n. n * 2 ^ 60) twelve,
        Exist-Covers g.candidacy_bond g.balances covers,
        validators-Keyed g.invulnerables g.session keyed,
      )

  builtin-sizes :
      (t : ChainType) (g : GenesisConfig O)
      → (builtin O t).genesis tt ≡ some g
      → (length g.invulnerables ≡ 2)
        × (issuance g.balances ≡ 12 * 2 ^ 60)
        × Exist g.balances
        × (validators g.session ≡ g.invulnerables)
  unfolding development_config local_testnet_config
  builtin-sizes development g h = genesis_of-sizes 1000 g h
  builtin-sizes local g h = genesis_of-sizes 1000 g h

  -- Provided that the derivation paths of different plain seeds give different accounts, the genesis
  -- of either built-in specification keeps the limits in the configuration of the runtime's pallets.
  -- Its invulnerables are distinct and no more than `MaxInvulnerables`, and with any candidates up to
  -- `MaxCandidates` they are no more than the `MaxAuthorities` of Aura. Its balances are for distinct
  -- accounts, each at least the existential deposit, and their sum is a u128. The accounts that get
  -- session keys are the first of those that are endowed.
  pub builtin_genesis-fits :
      DerivesApart O
      → (t : ChainType) (g : GenesisConfig O) (candidates : List AccountId)
      → (builtin O t).genesis tt ≡ some g
      → length candidates ≤ collator_selection_config.max_candidates
      → Distinct g.invulnerables
        × (length g.invulnerables ≤ collator_selection_config.max_invulnerables)
        × (length (g.invulnerables ++ candidates) ≤ aura_config.max_authorities)
        × Distinct (holders O g.balances)
        × Exist g.balances
        × (issuance g.balances < 2 ^ 128)
        × ((rest : List AccountId) × (holders O g.balances ≡ validators g.session ++ rest))
  unfolding development_config local_testnet_config
  builtin_genesis-fits derives t g candidates h k =
      let (apart, (rest, first), _) = builtin_genesis O derives t g h in
      let (two, total, exist, keyed) = builtin-sizes t g h in
      let all = length-++ g.invulnerables candidates in
      (
        Distinct-++ g.invulnerables rest (subst Distinct first apart),
        omega arith,
        omega arith,
        apart,
        exist,
        omega arith,
        (rest, rw keyed first),
      )
