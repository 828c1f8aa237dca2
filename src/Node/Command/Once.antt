-- ===== src/Node/Command/Once.antt =====
-- node/src/command.rs: how often a subcommand does its work.
use mathlib.Core.List.{append-nil}
use evm_parachain.Base.{
  ℕ, ◌+◌, ◌≤◌, Bool, true, false, ◌≡◌, ◌⊎◌, inl, inr, refl, ◌∙◌, ap, some, List, [], ◌∷◌, ◌++◌, map,
  arith,
}
use evm_parachain.Base.Action.{Action, ◌>>=◌, try_call, lift, done, failed, panicked, pure}
use evm_parachain.Base.Runs.{is_done}
use evm_parachain.Node.Service.{Outside, PartialComponents, ServiceAction, Call, new_partial}
use evm_parachain.Node.Cli.{CliLib}
use evm_parachain.Node.Command.Calls.{
  Tools, Cli, RunCall, create_runner, execute, service, CommandAction, Runners, Features,
  Subcommand, BenchmarkCmd, build_spec, check_block, export_blocks, export_state, import_blocks,
  revert, purge_chain, export_genesis_state, export_genesis_wasm, benchmark, try_runtime, pallet,
  block, storage, machine, other_benchmark,
}
use evm_parachain.Node.Command.Run.{
  driven, embed, polkadot_config, with_components, run_subcommand, run_benchmark, run_try_runtime,
  spec_of,
}
use evm_parachain.Node.Command.Start.{DrivesOnce}

module _ {O : Outside} where
  abbrev one_if : RunCall O → ℕ
  one_if execute = 1
  one_if _ = 0

  -- How often a command's own code is run.
  abbrev pub executions : List (RunCall O) → ℕ
  executions [] = 0
  executions (c ∷ calls) = one_if c + executions calls

  executions-append :
      (xs ys : List (RunCall O)) → executions (xs ++ ys) ≡ executions xs + executions ys
  executions-append [] ys = omega arith
  executions-append (x ∷ xs) ys = omega (arith, executions-append xs ys)

  executions-services : (calls : List (Call O)) → executions (map service calls) ≡ 0
  executions-services [] = refl
  executions-services (c ∷ calls) = omega (arith, executions-services calls)

  -- The command's code is not run; and it is run at most once, and has been run or the action ends without
  -- a value.
  abbrev Never : {E A : Type 0} → Action (RunCall O) E A → Type 0
  Never m = executions m.1 ≡ 0

  abbrev pub Once : {E A : Type 0} → Action (RunCall O) E A → Type 0
  Once m = (executions m.1 ≤ 1) × ((is_done m.0 ≡ false) ⊎ (executions m.1 ≡ 1))

  Once-bind :
      {E A B : Type 0} (m : Action (RunCall O) E A) (f : A → Action (RunCall O) E B)
      → Never m
      → ((a : A) → Once (f a))
      → Once (m >>= f)
  Once-bind (done a, calls) f never h =
      let (most, once) = h a in
      let sum = executions-append calls (f a).1 in
      (
        omega (arith, sum, never, most),
        elim once [ inl bad ↦ inl bad | inr exactly ↦ inr (omega (arith, sum, never, exactly)) ],
      )
  Once-bind (failed e, calls) f never h = (omega (arith, never), inl refl)
  Once-bind (panicked, calls) f never h = (omega (arith, never), inl refl)

-- What is to be shown where the command's own code is run last, and where an error comes before it.
worked : {b : Bool} → (1 + 0 ≤ 1) × ((b ≡ false) ⊎ (1 + 0 ≡ 1))
worked = (omega arith, inr refl)

refused : (0 ≤ 1) × ((false ≡ false) ⊎ (◌≡◌ {A = ℕ} 0 1))
refused = (omega arith, inl refl)

module _ {O : Outside} {L : CliLib O.Configuration} (T : Tools O L) (R : Runners T) where
  -- A runner ends without a value where the closure that it drives does, or the future of that.
  pub record PassesErrors : Type 0 where
    pub sync :
        (r : T.Runner) (body : O.Configuration → CommandAction T (Unit {0}))
        → is_done (body (T.runner_config r)).0 ≡ false
        → is_done (R.sync_run r body).0 ≡ false
    pub async :
        (r : T.Runner)
        (body : O.Configuration → CommandAction T (CommandAction T (Unit {0}) × O.TaskManager))
        → is_done (driven T (body (T.runner_config r))).0 ≡ false
        → is_done (R.async_run r body).0 ≡ false

module _ {O : Outside} {L : CliLib O.Configuration} (T : Tools O L) (R : Runners T)
    (D : DrivesOnce T R) (E : PassesErrors T R) where
  embed-Never : {A : Type 0} (m : ServiceAction O A) → Never (embed T m)
  embed-Never (done a, calls) = executions-services calls
  embed-Never (failed e, calls) = executions-services calls
  embed-Never (panicked, calls) = executions-services calls

  -- A future that is made after other steps.
  future-Once :
      {A : Type 0} (m : CommandAction T A) (make : A → CommandAction T (Unit {0}) × O.TaskManager)
      → Never m
      → ((a : A) → Once (make a).0)
      → Once (driven T (m >>= λ a. pure (make a)))
  future-Once (done a, calls) make never h =
      rw (append-nil calls) (Once-bind (done a, calls) (λ b. (make b).0) never h)
  future-Once (failed e, calls) make never h = Once-bind (failed e, calls) (λ b. (make b).0) never h
  future-Once (panicked, calls) make never h = Once-bind (panicked, calls) (λ b. (make b).0) never h

  components-Once :
      (body : PartialComponents O → O.Configuration → T.Future) (config : O.Configuration)
      → Once (driven T (with_components T body config))
  components-Once body config =
      future-Once (embed T (new_partial O config)) _ (embed-Never (new_partial O config))
        λ parts. worked

  sync-Once :
      (runner : T.Runner) (body : O.Configuration → CommandAction T (Unit {0}))
      → ((config : O.Configuration) → Once (body config))
      → Once (R.sync_run runner body)
  sync-Once runner body h =
      let (most, once) = h (T.runner_config runner) in
      let driven = ap executions (D.sync runner body) in
      (
        omega (arith, driven, most),
        elim once [ inl bad ↦ inl (E.sync runner body bad) | inr exactly ↦ inr (driven ∙ exactly) ],
      )

  async-Once :
      (runner : T.Runner)
      (body : O.Configuration → CommandAction T (CommandAction T (Unit {0}) × O.TaskManager))
      → ((config : O.Configuration) → Once (driven T (body config)))
      → Once (R.async_run runner body)
  async-Once runner body h =
      let (most, once) = h (T.runner_config runner) in
      let calls = ap executions (D.async runner body) in
      (
        omega (arith, calls, most),
        elim once [ inl bad ↦ inl (E.async runner body bad) | inr exactly ↦ inr (calls ∙ exactly) ],
      )

  -- What is done with the runner that is made for a command.
  with_runner-Once :
      (sub : Subcommand T) (f : T.Runner → CommandAction T (Unit {0}))
      → ((runner : T.Runner) → Once (f runner))
      → Once (try_call create_runner (R.create (some sub)) >>= f)
  with_runner-Once sub f h = Once-bind (try_call create_runner (R.create (some sub))) f refl h

  with_components-Once :
      (sub : Subcommand T) (body : PartialComponents O → O.Configuration → T.Future)
      → Once (
          try_call create_runner (R.create (some sub)) >>= λ runner.
          R.async_run runner (with_components T body))
  with_components-Once sub body =
      with_runner-Once sub _
        λ runner. async-Once runner (with_components T body) (components-Once body)

  module _ (F : Features) (cli : Cli T) where
    benchmark-Once :
        (runner : T.Runner) (cmd : BenchmarkCmd T) (built : Bool)
        → Once (run_benchmark T R F runner cmd built)
    unfolding run_benchmark
    benchmark-Once runner (pallet cmd) true = sync-Once runner _ λ config. worked
    benchmark-Once runner (pallet cmd) false = refused
    benchmark-Once runner (block cmd) built = sync-Once runner _ λ config.
        Once-bind (embed T (new_partial O config)) _ (embed-Never (new_partial O config))
          λ parts. worked
    benchmark-Once runner (storage cmd) true = sync-Once runner _ λ config.
        Once-bind (embed T (new_partial O config)) _ (embed-Never (new_partial O config))
          λ parts. worked
    benchmark-Once runner (storage cmd) false = refused
    benchmark-Once runner (machine cmd) built = sync-Once runner _ λ config. worked
    benchmark-Once runner (other_benchmark cmd) built = refused

    try_runtime-Once :
        (cmd : T.TryRuntimeCmd) (built : Bool) → Once (run_try_runtime T R F cmd built)
    try_runtime-Once cmd true = with_runner-Once (try_runtime cmd) _ λ runner.
        Once-bind (lift (T.new_task_manager (T.runner_config runner))) _ refl
          λ tasks. async-Once runner _ λ config. worked
    try_runtime-Once cmd false = refused

    -- Where a runner drives its closure once, and passes its errors on, a subcommand runs its own code at
    -- most once, and has run it or ends without a value.
    pub run_subcommand-Once : (sub : Subcommand T) → Once (run_subcommand T R F cli sub)
    unfolding run_subcommand
    run_subcommand-Once (build_spec cmd) =
        with_runner-Once (build_spec cmd) _ λ runner. sync-Once runner _ λ config. worked
    run_subcommand-Once (check_block cmd) = with_components-Once (check_block cmd) _
    run_subcommand-Once (export_blocks cmd) = with_components-Once (export_blocks cmd) _
    run_subcommand-Once (export_state cmd) = with_components-Once (export_state cmd) _
    run_subcommand-Once (import_blocks cmd) = with_components-Once (import_blocks cmd) _
    run_subcommand-Once (revert cmd) = with_components-Once (revert cmd) _
    run_subcommand-Once (purge_chain cmd) = with_runner-Once (purge_chain cmd) _ λ runner.
        sync-Once runner _
          λ config. Once-bind (lift (polkadot_config T cli config)) _ refl λ polkadot. worked
    run_subcommand-Once (export_genesis_state cmd) =
        with_runner-Once (export_genesis_state cmd) _ λ runner.
          sync-Once runner _
            λ config. Once-bind (spec_of T R F (T.state_chain cmd)) _ refl λ spec. worked
    run_subcommand-Once (export_genesis_wasm cmd) =
        with_runner-Once (export_genesis_wasm cmd) _ λ runner.
          sync-Once runner _
            λ config. Once-bind (spec_of T R F (T.wasm_chain cmd)) _ refl λ spec. worked
    run_subcommand-Once (benchmark cmd) =
        with_runner-Once (benchmark cmd) _ λ runner. benchmark-Once runner cmd F.runtime_benchmarks
    run_subcommand-Once (try_runtime cmd) = try_runtime-Once cmd F.try_runtime
