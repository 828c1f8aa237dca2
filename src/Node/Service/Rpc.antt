-- ===== src/Node/Service/Rpc.antt =====
-- node/src/rpc.rs: the RPC extensions of the node.
use evm_parachain.Base.{Result, ok, ◌>>=◌, ◌≡◌, ◌↔◌, arith}
use evm_parachain.Node.Service.Interface.{Outside}

module _ (O : Outside) where
  pub record FullDeps : Type 0 where
    pub client : O.Client
    pub pool : O.Pool
    pub deny_unsafe : O.DenyUnsafe

  unfoldable pub create_full : FullDeps → Result O.RpcError O.RpcModule
  create_full deps = do
    with_system ← O.merge O.empty_module (O.system_rpc deps.client deps.pool deps.deny_unsafe)
    O.merge with_system (O.transaction_payment_rpc deps.client)

  -- The RPC module is made exactly when both extensions can be merged, the system's into an empty
  -- module and the payment's into what that gives, and it is the second merge's result.
  pub create_full-ok :
      (deps : FullDeps) (m : O.RpcModule)
      → (create_full deps ≡ ok m) ↔ (
          (with_system : O.RpcModule) × (O.merge O.empty_module
              (O.system_rpc deps.client deps.pool deps.deny_unsafe)
            ≡ ok with_system)
          × (O.merge with_system (O.transaction_payment_rpc deps.client) ≡ ok m))
  unfolding create_full
  create_full-ok deps m = (λ h. ground arith, λ h. ground arith)
