-- ===== src/Xcm/Config/Executor.antt =====
-- runtime/src/xcm_config.rs: which messages an executor runs with `XcmConfig`. The executor is
-- xcm_executor's.
use evm_parachain.Base.{ℕ, ◌≤◌, ◌≡◌, Bool, true, some}
use evm_parachain.Weights.{WeightLib}
use evm_parachain.Runtime.{PerbillLib}
use evm_parachain.Xcm.{Opaque, MultiLocation, Pending, Allows}
use evm_parachain.Xcm.Reserve.{Reaches}
use evm_parachain.Xcm.Origins.{Converters}
use evm_parachain.Xcm.Router.{Xcm, Routers, weigher}
use evm_parachain.Xcm.Entry.{Passes, DocumentedAllows, MayExecute, barrier-MayExecute}
use evm_parachain.Xcm.Config.{Handlers, XcmConfig, xcm_config}

-- `XcmExecutor::execute_xcm_in_credit`: from an origin, a message, the limit of its weight and its credit,
-- to an outcome and the next state.
abbrev pub Execute :
    {O : Opaque} {C : Converters O} {P : PerbillLib}
    → Handlers O C P
    → Routers O
    → Type 0
    → Type 0
    → Type 0
Execute {O} H R Outcome State =
    XcmConfig H R → MultiLocation O → Xcm O → ℕ → ℕ → State → Outcome × State

module _ {O : Opaque} {C : Converters O} {P : PerbillLib} (H : Handlers O C P) (R : Routers O)
    {Outcome State : Type 0} (execute : Execute H R Outcome State) where
  abbrev pub pending : Xcm O → ℕ → Pending O
  pending m credit = record { message = m; weight_credit = credit }

  -- An executor runs a message only once it is weighed, within the limit, and let in by the barrier.
  pub record IsGuarded (A : Allows O) : Type 0 where
    pub ran : Outcome → Bool
    pub guards :
        (c : XcmConfig H R) (l : MultiLocation O) (m : Xcm O) (limit credit : ℕ) (s : State)
        → ran (execute c l m limit credit s).0 ≡ true
        → (w : ℕ) × (c.weigher m ≡ some w) × (w ≤ limit) × Passes A c.barrier l w (pending m credit)

  module _ (W : WeightLib) (A : Allows O) (D : DocumentedAllows A) (G : IsGuarded A)
      (parachain_id : ℕ) where
    -- If the executor runs only what is weighed, within the limit and let in, and the filters behave as
    -- documented, then a message that is run under the configuration of this chain has a weight of at
    -- most its limit, moves no reserve to the relay chain at its top level, and is paid for by its credit
    -- or at its top level, or comes from the relay chain or a part of its executive body.
    pub execute-ran :
        (l : MultiLocation O) (m : Xcm O) (limit credit : ℕ) (s : State)
        → G.ran (execute (xcm_config H W R A parachain_id) l m limit credit s).0 ≡ true
        → (w : ℕ) × (weigher O R m ≡ some w)
          × (w ≤ limit)
          × (¬ Reaches m)
          × MayExecute A D l w (pending m credit)
    unfolding xcm_config
    execute-ran l m limit credit s h =
        let (w, weighed, low, passed) =
          G.guards (xcm_config H W R A parachain_id) l m limit credit s h in
        let (clean, may) = (barrier-MayExecute A D l w (pending m credit)).0 passed in
        (w, weighed, low, clean, may)
