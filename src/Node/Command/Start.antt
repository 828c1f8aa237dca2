-- ===== src/Node/Command/Start.antt =====
-- node/src/command.rs: which runs of the program start a node, and in which order.
use mathlib.Core.List.{append_assoc, append-nil}
use evm_parachain.Base.{
  is_empty, ℕ, Bool, true, false, not, ◌≡◌, refl, ◌∙◌, sym, ap, none, List, [], ◌∷◌, ◌++◌, map, any,
  arith, ok,
}
use evm_parachain.Base.Action.{Action, ◌>>=◌, pure, done, failed, panicked}
use evm_parachain.Base.Runs.{is_done}
use evm_parachain.Node.Service.{
  Outside, Starters, ServiceAction, Call, start_node_impl, start_parachain_node,
}
use evm_parachain.Node.Service.Stages.{Stage, stage, is_network, is_collator, is_full_node}
use evm_parachain.Node.Service.Phases.Milestones.{
  Milestone, order, milestones, start_node_impl-order,
}
use evm_parachain.Node.Service.Order.{order-completes, order-role}
use evm_parachain.Node.Cli.{CliLib}
use evm_parachain.Node.Command.Calls.{
  Tools, Cli, RunCall, service, CommandAction, Runners, Features,
}
use evm_parachain.Node.Command.Run.{driven, embed, node_setup, announce, run_node, run, run_cli}

module _ {O : Outside} where
  -- The calls of the services of a node that reach a stage.
  abbrev pub reaches : (Stage → Bool) → RunCall O → Bool
  reaches p (service c) = p (stage O c)
  reaches p _ = false

  -- The calls of the services of a node among those of a run.
  abbrev service_of : RunCall O → List (Call O)
  service_of (service c) = c ∷ []
  service_of _ = []

  abbrev pub services : List (RunCall O) → List (Call O)
  services [] = []
  services (c ∷ calls) = service_of c ++ services calls

  services-append : (xs ys : List (RunCall O)) → services (xs ++ ys) ≡ services xs ++ services ys
  services-append [] ys = refl
  services-append (x ∷ xs) ys =
      ap (λ t. service_of x ++ t) (services-append xs ys)
      ∙ sym (append_assoc (service_of x) (services xs) (services ys))

  services-map : (calls : List (Call O)) → services (map service calls) ≡ calls
  services-map [] = refl
  services-map (c ∷ calls) = ap (λ t. c ∷ t) (services-map calls)

  any-service :
      (p : Stage → Bool) (calls : List (RunCall O))
      → any (reaches p) calls ≡ any (λ c. p (stage O c)) (services calls)
  any-service p [] = refl
  any-service p (c ∷ calls) = ground (arith, any-service p calls)

  pub any-map :
      (p : Stage → Bool) (calls : List (Call O))
      → any (reaches p) (map service calls) ≡ any (λ c. p (stage O c)) calls
  any-map p calls =
      any-service p (map service calls) ∙ ap (any (λ c. p (stage O c))) (services-map calls)

  -- The services go through the milestones of a role in their one order, and get through all of them
  -- exactly if the action ends with a value.
  abbrev pub Ordered : {E A : Type 0} → Bool → Action (RunCall O) E A → Type 0
  Ordered role m =
      (left : List Milestone) × (order role ≡ milestones O (services m.1) ++ left)
      × (is_empty left ≡ is_done m.0)

  Ordered-bind :
      (role : Bool) {E A B : Type 0} (m : Action (RunCall O) E A) (f : A → Action (RunCall O) E B)
      → services m.1 ≡ []
      → ((a : A) → Ordered role (f a))
      → Ordered role (m >>= f)
  Ordered-bind role (done a, calls) f none_yet h =
      let (left, all, ends) = h a in (left, rw (services-append calls (f a).1, none_yet) all, ends)
  Ordered-bind role (failed e, calls) f none_yet h = (order role, rw none_yet refl, refl)
  Ordered-bind role (panicked, calls) f none_yet h = (order role, rw none_yet refl, refl)

  Ordered-pure :
      (role : Bool) {E A B : Type 0} (m : Action (RunCall O) E A) (g : A → B)
      → Ordered role m
      → Ordered role (m >>= λ a. pure (g a))
  Ordered-pure role (done a, calls) g (left, all, ends) = (left, rw (append-nil calls) all, ends)
  Ordered-pure role (failed e, calls) g h = h
  Ordered-pure role (panicked, calls) g h = h

module _ {O : Outside} {L : CliLib O.Configuration} (T : Tools O L) where
  embed-Ordered :
      (role : Bool) {A : Type 0} (m : ServiceAction O A) (left : List Milestone)
      → order role ≡ milestones O m.1 ++ left
      → is_empty left ≡ is_done m.0
      → Ordered role (embed T m)
  embed-Ordered role (done a, calls) left all ends = (left, rw (services-map calls) all, ends)
  embed-Ordered role (failed e, calls) left all ends = (left, rw (services-map calls) all, ends)
  embed-Ordered role (panicked, calls) left all ends = (left, rw (services-map calls) all, ends)

  node_setup-services :
      (cli : Cli T) (config : O.Configuration) → services (node_setup T cli config).1 ≡ []
  unfolding node_setup
  node_setup-services cli config = ground arith

  announce-services :
      (cli : Cli T) (config : O.Configuration) (id : ℕ) → services (announce T cli config id).1 ≡ []
  announce-services cli config id = ground arith

  run_node-Ordered :
      (S : Starters O) (cli : Cli T) (config : O.Configuration)
      → Ordered (O.is_authority (O.prepare_node_config config)) (run_node T S cli config)
  unfolding run_node start_parachain_node
  run_node-Ordered S cli config =
      let role = O.is_authority (O.prepare_node_config config) in
      Ordered-bind role (node_setup T cli config) _ (node_setup-services cli config) λ n.
        Ordered-bind role (announce T cli config n.para_id) _
          (announce-services cli config n.para_id)
          λ _.
            let start =
              start_node_impl O S config n.polkadot_config cli.collator_options n.para_id
                n.hwbench in
            let (left, all, ends) =
              start_node_impl-order O S config n.polkadot_config cli.collator_options n.para_id
                n.hwbench in
            Ordered-pure role (embed T start) (λ pair. pair.0)
              (embed-Ordered role start left all ends)

module _ {O : Outside} {L : CliLib O.Configuration} (T : Tools O L) (R : Runners T) where
  -- A runner drives the closure that it gets once, over its own configuration, and then once the future
  -- that the closure of `async_run` makes; and it makes no call of its own.
  pub record DrivesOnce : Type 0 where
    pub sync :
        (r : T.Runner) (body : O.Configuration → CommandAction T (Unit {0}))
        → (R.sync_run r body).1 ≡ (body (T.runner_config r)).1
    pub async :
        (r : T.Runner)
        (body : O.Configuration → CommandAction T (CommandAction T (Unit {0}) × O.TaskManager))
        → (R.async_run r body).1 ≡ (driven T (body (T.runner_config r))).1
    pub node :
        (r : T.Runner) (body : O.Configuration → CommandAction T O.TaskManager)
        → (R.run_node_until_exit r body).1 ≡ (body (T.runner_config r)).1

  module _ (F : Features) (D : DrivesOnce) (S : Starters O) (cli : Cli T) where
    cli_calls :
        (runner : T.Runner)
        → R.create none ≡ ok runner
        → services (run_cli T R F S cli none).1
          ≡ services (run_node T S cli (T.runner_config runner)).1
    unfolding run_cli
    cli_calls runner made = rw made (ap services (D.node runner (run_node T S cli)))

    node_calls :
        (runner : T.Runner)
        → cli.subcommand ≡ none
        → R.create none ≡ ok runner
        → services (run T R F S cli).1 ≡ services (run_node T S cli (T.runner_config runner)).1
    unfolding run
    node_calls runner plain made =
        ap (λ sub. services (run_cli T R F S cli sub).1) plain ∙ cli_calls runner made

    -- Where no subcommand is given, and the runner that is made drives its closure once, a run of the
    -- program starts a node: its calls of the services go through the milestones of the role that the
    -- prepared configuration gives, in their one order, and through all of them exactly if the closure
    -- ends well.
    pub run-order :
        (runner : T.Runner)
        → cli.subcommand ≡ none
        → R.create none ≡ ok runner
        → (left : List Milestone) × (order
              (O.is_authority (O.prepare_node_config (T.runner_config runner)))
            ≡ milestones O (services (run T R F S cli).1) ++ left)
          × (is_empty left ≡ is_done (run_node T S cli (T.runner_config runner)).0)
    run-order runner plain made =
        let (left, all, ends) = run_node-Ordered T S cli (T.runner_config runner) in
        (left, rw (node_calls runner plain made) all, ends)

    -- Where no subcommand is given, and the runner that is made drives its closure once, a run of the
    -- program starts a node's network exactly if the closure ends well.
    pub run-completes :
        (runner : T.Runner)
        → cli.subcommand ≡ none
        → R.create none ≡ ok runner
        → any (reaches is_network) (run T R F S cli).1
          ≡ is_done (run_node T S cli (T.runner_config runner)).0
    run-completes runner plain made =
        let (left, all, ends) = run-order runner plain made in
        any-service is_network (run T R F S cli).1
        ∙ order-completes O _ (services (run T R F S cli).1) left all
        ∙ ends

    -- Where no subcommand is given, the runner that is made drives its closure once, and the closure ends
    -- well, a run of the program starts a collator exactly if the prepared configuration of the runner
    -- makes the node an authority, and a full node exactly if not.
    pub run-role :
        (runner : T.Runner)
        → cli.subcommand ≡ none
        → R.create none ≡ ok runner
        → is_done (run_node T S cli (T.runner_config runner)).0 ≡ true
        → (any (reaches is_collator) (run T R F S cli).1
            ≡ O.is_authority (O.prepare_node_config (T.runner_config runner)))
          × (any (reaches is_full_node) (run T R F S cli).1
              ≡ not (O.is_authority (O.prepare_node_config (T.runner_config runner))))
    run-role runner plain made good =
        let calls = (run T R F S cli).1 in
        let (left, all, ends) = run-order runner plain made in
        let (collators, full_nodes) = order-role O _ (services calls) left all (ends ∙ good) in
        (any-service is_collator calls ∙ collators, any-service is_full_node calls ∙ full_nodes)
