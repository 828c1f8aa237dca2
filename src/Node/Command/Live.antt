-- ===== src/Node/Command/Live.antt =====
-- node/src/command.rs and node/src/service.rs: what it takes for a run of the program to start a node.
use evm_parachain.Base.{ℕ, true, ◌≡◌, refl, ◌∙◌, sym, none, some, arith, ok, is_ok, Result, subst}
use evm_parachain.Base.Action.{◌>>=◌, pure, done, failed, panicked}
use evm_parachain.Base.Runs.{Succeeds, Succeeds-bind}
use evm_parachain.Node.Service.{
  Outside, Starters, ServiceAction, start_node_impl, start_parachain_node,
}
use evm_parachain.Node.Service.Panics.{GivesKey}
use evm_parachain.Node.Service.Starts.{Grants, start_node_impl-Succeeds}
use evm_parachain.Node.Service.Phases.Milestones.{order, milestones}
use evm_parachain.Node.Service.Order.{order-whole}
use evm_parachain.Node.ChainSpec.{Extensions}
use evm_parachain.Node.Cli.{CliLib}
use evm_parachain.Node.Command.Calls.{Tools, Cli, Runners, Features}
use evm_parachain.Node.Command.Run.{
  embed, state_version, polkadot_config, node_setup, announce, run_node, run,
}
use evm_parachain.Node.Command.Features.{setup-done}
use evm_parachain.Node.Command.Start.{services, DrivesOnce, run-order}

module _ {O : Outside} {L : CliLib O.Configuration} (T : Tools O L) where
  -- Nothing that a configuration needs is missing: its specification has extensions, a genesis block can
  -- be made of it, the relay chain's command line gives a configuration, no library refuses what the
  -- start of a node asks, and an authority gets a key.
  pub record Equipped (S : Starters O) (cli : Cli T) (config : O.Configuration) : Type 0 where
    pub extensions : Extensions
    pub extended : L.get_extension (L.chain_spec config) ≡ some extensions
    pub block :
        is_ok
          (T.generate_genesis_block (L.chain_spec config) (state_version T (L.chain_spec config)))
        ≡ true
    pub polkadot : O.Configuration
    pub configured : polkadot_config T cli config ≡ ok polkadot
    pub grants : Grants O S polkadot (O.prepare_node_config config) cli.collator_options
    pub keyed :
        O.is_authority (O.prepare_node_config config) ≡ true
        → GivesKey O polkadot
            (O.prepare_node_config config)
            cli.collator_options.relay_chain_rpc_url

  ok-injective : {E A : Type 0} (a b : A) → ◌≡◌ {A = Result E A} (ok a) (ok b) → a ≡ b
  ok-injective a b h = cc

  embed-Succeeds :
      {A B : Type 0} (m : ServiceAction O A) (g : A → B)
      → Succeeds m
      → Succeeds (embed T m >>= λ a. pure (g a))
  embed-Succeeds (done a, calls) g h = refl
  embed-Succeeds (failed e, calls) g h = cc
  embed-Succeeds (panicked, calls) g h = cc

  module _ (S : Starters O) (cli : Cli T) (config : O.Configuration)
      (E : Equipped S cli config) where
    node_setup-Succeeds : Succeeds (node_setup T cli config)
    unfolding node_setup polkadot_config
    node_setup-Succeeds = ground (arith, E.extended, E.block, E.configured)

    announce-Succeeds : (id : ℕ) → Succeeds (announce T cli config id)
    announce-Succeeds id = ground arith

    run_node-Succeeds : Succeeds (run_node T S cli config)
    unfolding run_node start_parachain_node
    run_node-Succeeds = Succeeds-bind (node_setup T cli config) _ node_setup-Succeeds λ n made.
        Succeeds-bind (announce T cli config n.para_id) _ (announce-Succeeds n.para_id) λ _ _.
          let (_, _, _, same) = setup-done T S cli config n made in
          let polkadot : E.polkadot ≡ n.polkadot_config =
            ok-injective _ _ (sym E.configured ∙ same) in
          embed-Succeeds
            (start_node_impl O S config n.polkadot_config cli.collator_options n.para_id n.hwbench)
            (λ started. started.0)
            (subst
              (λ p.
                Succeeds (start_node_impl O S config p cli.collator_options n.para_id n.hwbench))
              polkadot
              (start_node_impl-Succeeds O S config E.polkadot cli.collator_options n.para_id
                n.hwbench E.grants E.keyed))

module _ {O : Outside} {L : CliLib O.Configuration} (T : Tools O L) (R : Runners T) (F : Features)
    (D : DrivesOnce T R) (S : Starters O) (cli : Cli T) where
  -- Where no subcommand is given, the runner that is made drives its closure once, and nothing is missing
  -- of what its configuration needs, a run of the program starts a node completely: its calls of the
  -- services go through all the milestones of the role, in their one order.
  pub run-starts :
      (runner : T.Runner)
      → cli.subcommand ≡ none
      → R.create none ≡ ok runner
      → Equipped T S cli (T.runner_config runner)
      → milestones O (services (run T R F S cli).1)
        ≡ order (O.is_authority (O.prepare_node_config (T.runner_config runner)))
  run-starts runner plain made E =
      let (left, all, ends) = run-order T R F D S cli runner plain made in
      let good = run_node-Succeeds T S cli (T.runner_config runner) E in
      order-whole O _ (services (run T R F S cli).1) left all (ends ∙ good)
