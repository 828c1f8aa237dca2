-- ===== src/Runtime/Pallets.antt =====
-- runtime/src/lib.rs: the pallets of `construct_runtime!` and their indices, by which calls, events
-- and errors are encoded.
use evm_parachain.Base.{
  ℕ, ◌≡◌, refl, ◌↔◌, Option, none, some, List, [], ◌∷◌, arith, ◌==◌, if◌then◌else◌,
}

pub data Pallet : Type 0 where
  system parachain_system timestamp parachain_info : Pallet
  balances transaction_payment : Pallet
  authorship collator_selection session aura aura_ext : Pallet
  xcmp_queue polkadot_xcm cumulus_xcm dmp_queue : Pallet
  x_tokens : Pallet

unfoldable pub index : Pallet → ℕ
index system = 0
index parachain_system = 1
index timestamp = 2
index parachain_info = 3
index balances = 10
index transaction_payment = 11
index authorship = 20
index collator_selection = 21
index session = 22
index aura = 23
index aura_ext = 24
index xcmp_queue = 30
index polkadot_xcm = 31
index cumulus_xcm = 32
index dmp_queue = 33
index x_tokens = 40

-- The order of declaration, in which the hooks run.
abbrev pub all_pallets_with_system : List Pallet
all_pallets_with_system =
    system ∷ parachain_system ∷ timestamp ∷ parachain_info ∷ balances ∷ transaction_payment
    ∷ authorship ∷ collator_selection ∷ session ∷ aura ∷ aura_ext ∷ xcmp_queue ∷ polkadot_xcm
    ∷ cumulus_xcm ∷ dmp_queue ∷ x_tokens ∷ []

-- The first pallet of a list with an index.
abbrev pub with_index : ℕ → List Pallet → Option Pallet
with_index n [] = none
with_index n (p ∷ ps) = if index p == n then some p else with_index n ps

with_index_sound : (n : ℕ) (ps : List Pallet) (p : Pallet) → with_index n ps ≡ some p → index p ≡ n
with_index_sound n [] p h = cc
with_index_sound n (q ∷ ps) p h = ground (arith, with_index_sound n ps p)

with_index-index : (p : Pallet) → with_index (index p) all_pallets_with_system ≡ some p
unfolding index
with_index-index system = refl
with_index-index _ = refl

-- An index stands for one pallet at most: to look it up among the declared pallets finds a pallet
-- exactly when it is that pallet's index.
pub index_unique :
    (n : ℕ) (p : Pallet) → (with_index n all_pallets_with_system ≡ some p) ↔ (index p ≡ n)
index_unique n p =
    (with_index_sound n all_pallets_with_system p, λ h. rw (← h) (with_index-index p))
