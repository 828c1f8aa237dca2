-- ===== src/Node/Service/Methods.antt =====
-- node/src/rpc.rs and node/src/service.rs: the methods that a node serves over RPC. The modules of methods
-- and their merge are jsonrpsee's.
mod Tests
use evm_parachain.Base.{
  ◌≡◌, ◌≢◌, ◌↔◌, List, [], ◌++◌, All, ok, Result, map_err, map_err-ok, subst, sym, ap, ◌∙◌,
}
use evm_parachain.Node.Service.Interface.{Outside}
use evm_parachain.Node.Service.Calls.{Starters}
use evm_parachain.Node.Service.Rpc.{FullDeps, create_full, create_full-ok}
use evm_parachain.Node.Service.Start.{Prepared, tasks_of}

-- No element is in both lists.
abbrev pub Apart : {A : Type 0} → List A → List A → Type 0
Apart xs ys = All (λ x. All (λ y. x ≢ y) ys) xs

module _ (O : Outside) where
  -- Merging methods into a module works exactly if none of their names is taken, and adds them.
  pub record MergesNames : Type 1 where
    pub Name : Type 0
    pub registered : O.RpcModule → List Name
    pub names : O.Methods → List Name
    pub registered-empty : registered O.empty_module ≡ []
    pub merged :
        (m : O.RpcModule) (x : O.Methods) (n : O.RpcModule)
        → O.merge m x ≡ ok n
        → Apart (registered m) (names x) × (registered n ≡ registered m ++ names x)
    pub merges :
        (m : O.RpcModule) (x : O.Methods)
        → Apart (registered m) (names x)
        → (n : O.RpcModule) × (O.merge m x ≡ ok n)

  module _ (M : MergesNames) where
    first-names :
        (x : O.Methods) (n : O.RpcModule)
        → O.merge O.empty_module x ≡ ok n
        → M.registered n ≡ M.names x
    first-names x n made =
        (M.merged O.empty_module x n made).1 ∙ ap (λ r. r ++ M.names x) M.registered-empty

    create_full-names :
        (deps : FullDeps O)
        → ((m : O.RpcModule) × (create_full O deps ≡ ok m)
            × (M.registered m
                ≡ M.names (O.system_rpc deps.client deps.pool deps.deny_unsafe)
                  ++ M.names (O.transaction_payment_rpc deps.client)))
          ↔ Apart
              (M.names (O.system_rpc deps.client deps.pool deps.deny_unsafe))
              (M.names (O.transaction_payment_rpc deps.client))
    create_full-names deps =
        let system = O.system_rpc deps.client deps.pool deps.deny_unsafe in
        let payment = O.transaction_payment_rpc deps.client in
        (
          λ (m, made, _).
              let (with_system, first, second) = (create_full-ok O deps m).0 made in
              subst (λ r. Apart r (M.names payment)) (first-names system with_system first)
                (M.merged with_system payment m second).0,
          λ apart.
              let (with_system, first) =
                M.merges O.empty_module system
                  (subst (λ r. Apart r (M.names system)) (sym M.registered-empty) tt) in
              let own = first-names system with_system first in
              let (m, second) =
                M.merges with_system payment
                  (subst (λ r. Apart r (M.names payment)) (sym own) apart) in
              (
                m,
                (create_full-ok O deps m).1 (with_system, first, second),
                (M.merged with_system payment m second).1 ∙ ap (λ r. r ++ M.names payment) own,
              ),
        )

    -- Where merging adds methods exactly if none of their names is taken, the builder that a node spawns
    -- its tasks with makes a module that serves the system's methods, over the node's client and pool and
    -- with unsafe calls denied as it is told, and after them the payment's, over the same client; and it
    -- makes such a module exactly if no name is in both.
    pub tasks_of-rpc_builder :
        (S : Starters O) (config : O.Configuration) (n : Prepared O S) (deny : O.DenyUnsafe)
        → ((m : O.RpcModule) × ((tasks_of O S config n).rpc_builder deny ≡ ok m)
            × (M.registered m
                ≡ M.names (O.system_rpc n.params.client n.params.transaction_pool deny)
                  ++ M.names (O.transaction_payment_rpc n.params.client)))
          ↔ Apart
              (M.names (O.system_rpc n.params.client n.params.transaction_pool deny))
              (M.names (O.transaction_payment_rpc n.params.client))
    tasks_of-rpc_builder S config n deny =
        let deps : FullDeps O = record {
          client = n.params.client;
          pool = n.params.transaction_pool;
          deny_unsafe = deny;
        } in
        let (from_module, to_module) = create_full-names deps in
        (
          λ (m, made, all).
              from_module (m, map_err-ok O.rpc_error_into (create_full O deps) m made, all),
          λ apart.
              let (m, made, all) = to_module apart in (m, ap (map_err O.rpc_error_into) made, all),
        )
