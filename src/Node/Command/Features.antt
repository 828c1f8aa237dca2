-- ===== src/Node/Command/Features.antt =====
-- node/src/command.rs: what `run` refuses, and with what the node is started.
use evm_parachain.Base.{
  Bool, true, false, ◌≡◌, none, some, [], ◌∷◌, any, arith, ok, err, Option-cases, inl, inr,
}
use evm_parachain.Base.Action.{done, failed}
use evm_parachain.Node.ChainSpec.{Extensions}
use evm_parachain.Node.Service.{Outside, Starters}
use evm_parachain.Node.Cli.{CliLib}
use evm_parachain.Node.Command.Calls.{
  Tools, Cli, Subcommand, try_runtime, Features, RunCall, create_runner, execute, service, Runners,
}
use evm_parachain.Node.Command.Run.{
  run_subcommand, run_node, NodeSetup, node_setup, no_para_id, polkadot_config,
}

module _ {O : Outside} {L : CliLib O.Configuration} (T : Tools O L) where
  -- A command's own code, and the services of a node.
  abbrev is_work : RunCall O → Bool
  is_work execute = true
  is_work (service c) = true
  is_work _ = false

module _ {O : Outside} {L : CliLib O.Configuration} (T : Tools O L) (R : Runners T) where
  -- If no runner can be made, every command of a node with the try-runtime feature fails with that
  -- error, and nothing else happens.
  pub run_subcommand-no_runner :
      (F : Features) (cli : Cli T) (sub : Subcommand T) (e : T.Error)
      → F.try_runtime ≡ true
      → R.create (some sub) ≡ err e
      → run_subcommand T R F cli sub ≡ (failed e, create_runner ∷ [])
  unfolding run_subcommand
  run_subcommand-no_runner F cli (try_runtime cmd) e t h = ground arith
  run_subcommand-no_runner F cli _ e t h = ground arith

module _ {O : Outside} {L : CliLib O.Configuration} (T : Tools O L) (S : Starters O) (cli : Cli T)
    (config : O.Configuration) where
  pub setup-done :
      (n : NodeSetup T)
      → (node_setup T cli config).0 ≡ done n
      → (e : Extensions) × (L.get_extension (L.chain_spec config) ≡ some e)
        × (n.para_id ≡ e.para_id)
        × (polkadot_config T cli config ≡ ok n.polkadot_config)
  unfolding node_setup
  setup-done n h = elim (Option-cases (L.get_extension (L.chain_spec config))) [
    | inl missing ↦ ground arith
    | inr (e, given) ↦ (e, given, ground arith, ground arith)
  ]

  -- A specification with no extensions has no parachain id: the node fails with the message for it,
  -- and no service is started.
  pub run_node-no_para_id :
      L.get_extension (L.chain_spec config) ≡ none
      → ((run_node T S cli config).0 ≡ failed (no_para_id T))
        × (any (is_work T) (run_node T S cli config).1 ≡ false)
  unfolding run_node node_setup
  run_node-no_para_id missing = ground arith
