-- ===== src/Node/Service/Methods/Tests.antt =====
-- The theorem about the RPC methods, where a method is its number.
use evm_parachain.Base.{
  ℕ, ◌≡◌, ◌≢◌, ◌↔◌, refl, true, false, some, List, [], ◌∷◌, ◌++◌, ◌==◌, any, All, ok, Bool-cases,
  inl, inr, arith,
}
use evm_parachain.Node.Service.Start.{Prepared, tasks_of}
use evm_parachain.Node.Service.Numbers.{over_numbers, starters, validator, shares, merge_names}
use evm_parachain.Node.Service.Methods.{Apart, MergesNames, tasks_of-rpc_builder}

any-Apart : (x : ℕ) (ys : List ℕ) → any (λ y. x == y) ys ≡ false → All (λ y. x ≢ y) ys
any-Apart x [] h = tt
any-Apart x (y ∷ ys) h = (λ e. ground arith, any-Apart x ys (ground arith))

Apart-any : (x : ℕ) (ys : List ℕ) → All (λ y. x ≢ y) ys → any (λ y. x == y) ys ≡ false
Apart-any x [] h = refl
Apart-any x (y ∷ ys) (ne, h) = let rest = Apart-any x ys h in ground (arith, ne, rest)

shares-Apart : (xs ys : List ℕ) → shares xs ys ≡ false → Apart xs ys
shares-Apart [] ys h = tt
shares-Apart (x ∷ xs) ys h = (any-Apart x ys (ground arith), shares-Apart xs ys (ground arith))

Apart-shares : (xs ys : List ℕ) → Apart xs ys → shares xs ys ≡ false
Apart-shares [] ys h = refl
Apart-shares (x ∷ xs) ys (h, hs) =
    let first = Apart-any x ys h in let rest = Apart-shares xs ys hs in ground (arith, first, rest)

merged_numbers : (m x n : List ℕ) → merge_names m x ≡ ok n → Apart m x × (n ≡ m ++ x)
merged_numbers m x n h = elim (Bool-cases (shares m x)) [
  | inl taken ↦ ground (arith, taken)
  | inr free ↦ (shares-Apart m x free, ground (arith, free))
]

merges_numbers : (m x : List ℕ) → Apart m x → (n : List ℕ) × (merge_names m x ≡ ok n)
merges_numbers m x h = (m ++ x, rw (Apart-shares m x h) refl)

abbrev numbers : MergesNames over_numbers
numbers = record {
  Name = ℕ;
  registered = λ m. m;
  names = λ x. x;
  registered-empty = refl;
  merged = λ m x n h. merged_numbers m x n h;
  merges = λ m x h. merges_numbers m x h;
}

abbrev prepared : Prepared over_numbers starters
prepared = record {
  params = record {
    client = 1;
    backend = 2;
    import_queue = 6;
    keystore_container = 3;
    task_manager = 4;
    transaction_pool = 5;
    telemetry = some 18;
    telemetry_worker_handle = some 17;
  };
  relay_chain_interface = 9;
  collator_key = some 10;
  network = 11;
  system_rpc_tx = 12;
  tx_handler_controller = 13;
  network_starter = 14;
}

tasks_of-rpc_builder_example :
    ((m : List ℕ) × ((tasks_of over_numbers starters validator prepared).rpc_builder true ≡ ok m)
      × (m ≡ 1 ∷ 2 ∷ 4 ∷ []))
    ↔ Apart {A = ℕ} (1 ∷ 2 ∷ []) (4 ∷ [])
tasks_of-rpc_builder_example =
    tasks_of-rpc_builder over_numbers numbers starters validator prepared true
