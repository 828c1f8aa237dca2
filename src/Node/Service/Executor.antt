-- ===== src/Node/Service/Executor.antt =====
-- node/src/service.rs: the native executor. The API of the runtime by the names of its methods is what a
-- macro generates.
use evm_parachain.Base.{ℕ, Option, List, String}

-- `parachain_template_runtime::api::dispatch`, over bytes, and the native version.
pub record NativeLib : Type 1 where
  pub NativeVersion : Type 0
  pub HostFunctions : Type 0
  pub benchmarking_host_functions : HostFunctions
  pub api_dispatch : String → List ℕ → Option (List ℕ)
  pub native_version : NativeVersion

-- `NativeExecutionDispatch`
pub record NativeExecutionDispatch (N : NativeLib) : Type 0 where
  pub extend_host_functions : N.HostFunctions
  pub dispatch : String → List ℕ → Option (List ℕ)
  pub native_version : N.NativeVersion

unfoldable pub parachain_native_executor : (N : NativeLib) → NativeExecutionDispatch N
parachain_native_executor N = record {
  extend_host_functions = N.benchmarking_host_functions;
  dispatch = λ method bytes. N.api_dispatch method bytes;
  native_version = N.native_version;
}
