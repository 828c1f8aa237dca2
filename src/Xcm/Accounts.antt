-- ===== src/Xcm/Accounts.antt =====
-- runtime/src/xcm_config.rs: the conversions against a table of who may act as what on this chain.
use evm_parachain.Base.{
  ℕ, ◌≡◌, ◌↔◌, ◌⊎◌, inl, inr, Option, none, some, map_some, or_some, or_some-none, arith,
  if◌then◌else◌, ap, ◌∙◌,
}
use evm_parachain.Xcm.{
  Opaque, any_network, other_network, parachain, account_id32, plurality, other_junction, Junctions,
  here, x1, other_interior, MultiLocation, relay_location, is_relay,
}
use evm_parachain.Xcm.Origins.{
  OriginKind, native, sovereign_account, superuser, xcm, Converters, location_to_account_id,
  xcm_origin_to_transact_dispatch_origin, sibling, local_account, sibling_of, account_of, for_kind,
  is_native, is_sovereign, is_xcm, IsDocumented,
}

module _ {O : Opaque} (C : Converters O) (D : IsDocumented O C) where
  -- The three kinds of location that have an account here, and the account of each.
  abbrev pub Owns : MultiLocation O → O.AccountId → Type 0
  Owns l a =
      ((l ≡ relay_location) × (a ≡ D.parent_account))
      ⊎ ((id : ℕ) × (l ≡ sibling O id) × (a ≡ D.sibling_account id))
      ⊎ (l ≡ local_account O a)

  abbrev table : MultiLocation O → Option O.AccountId
  table l =
      or_some (if is_relay l then some D.parent_account else none)
        (or_some (map_some D.sibling_account (sibling_of O l)) (or_some (account_of O l) none))

  location_to_account_id-table : (l : MultiLocation O) → location_to_account_id O C l ≡ table l
  unfolding location_to_account_id
  location_to_account_id-table l = simp (D.tuple-cons, D.tuple-nil, D.parent, D.siblings, D.aliases)

  at_interior :
      (n : ℕ) (i : Junctions O) (a : O.AccountId)
      → table (record { parents = n; interior = i }) ≡ some a
      → Owns (record { parents = n; interior = i }) a
  unfolding is_relay
  at_interior n here a h = inl (ground arith, ground arith)
  at_interior n (x1 (parachain id)) a h = inr (inl (id, ground arith, ground arith))
  at_interior n (x1 (account_id32 any_network b)) a h = inr (inr (ground arith))
  at_interior n (x1 (account_id32 (other_network m) b)) a h = ground arith
  at_interior n (x1 (plurality b p)) a h = ground arith
  at_interior n (x1 (other_junction j)) a h = ground arith
  at_interior n (other_interior i) a h = ground arith

  Owns-table : (l : MultiLocation O) (a : O.AccountId) → Owns l a → table l ≡ some a
  unfolding is_relay
  Owns-table l a (inl (e, f)) = rw (e, f)
  Owns-table l a (inr (inl (id, e, f))) = rw (e, f)
  Owns-table l a (inr (inr e)) = rw e

  -- With converters that behave as documented, a location is converted to an account of this chain
  -- exactly if it is the relay chain, and the account the one preset for it; or a sibling parachain, and
  -- the account that sibling's own; or an account of this chain on any network, and the account itself.
  pub location_to_account_id-Owns :
      (l : MultiLocation O) (a : O.AccountId) → (location_to_account_id O C l ≡ some a) ↔ Owns l a
  location_to_account_id-Owns l a = (
    λ h. at_interior l.parents l.interior a (rw (location_to_account_id-table l) at h),
    λ w. location_to_account_id-table l ∙ Owns-table l a w,
  )

  origins-table :
      (l : MultiLocation O) (k : OriginKind)
      → xcm_origin_to_transact_dispatch_origin O C l k
        ≡ or_some
            (for_kind O (is_sovereign O) k (map_some D.signed (location_to_account_id O C l)))
            (or_some (for_kind O (is_native O) k (if is_relay l then some C.relay else none)) (
              or_some (for_kind O (is_native O) k (map_some C.sibling_parachain (sibling_of O l))) (
                or_some
                  (for_kind O (is_native O) k (map_some D.signed (account_of O l)))
                  (or_some (for_kind O (is_xcm O) k (some (D.xcm_origin l))) none))))
  unfolding xcm_origin_to_transact_dispatch_origin
  origins-table l k = simp (
    D.origins-cons, D.origins-nil, D.sovereign, D.relay_native, D.sibling_native, D.signed_native,
    D.passthrough,
  )

  -- With converters that behave as documented: no location is converted to an origin as superuser; as
  -- a sovereign account, a location acts as its account; as an XCM origin, it acts as itself; and
  -- natively, the relay chain acts as the relay chain's origin, a sibling as that sibling's, an account
  -- of this chain as itself, and no other location has an origin.
  pub transact_origins :
      (l : MultiLocation O)
      → (xcm_origin_to_transact_dispatch_origin O C l superuser ≡ none)
        × (xcm_origin_to_transact_dispatch_origin O C l sovereign_account
            ≡ map_some D.signed (location_to_account_id O C l))
        × (xcm_origin_to_transact_dispatch_origin O C l xcm ≡ some (D.xcm_origin l))
        × (xcm_origin_to_transact_dispatch_origin O C l native
            ≡ or_some (if is_relay l then some C.relay else none) (
                or_some
                  (map_some C.sibling_parachain (sibling_of O l))
                  (map_some D.signed (account_of O l))))
  transact_origins l = (
    origins-table l superuser,
    origins-table l sovereign_account
        ∙ or_some-none (map_some D.signed (location_to_account_id O C l)),
    origins-table l xcm,
    origins-table l native
        ∙ ap
            (λ t.
              or_some (if is_relay l then some C.relay else none)
                (or_some (map_some C.sibling_parachain (sibling_of O l)) t))
            (or_some-none (map_some D.signed (account_of O l))),
  )
