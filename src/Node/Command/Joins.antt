-- ===== src/Node/Command/Joins.antt =====
-- node/src/command.rs, cli.rs and chain_spec.rs together: the parachain that the calls of a run name.
use mathlib.Core.Option.{some-injective}
use evm_parachain.Base.{
  ℕ, ◌≡◌, ap, ◌∙◌, sym, subst, none, some, List, [], ◌∷◌, map, All, arith, String, ok,
}
use evm_parachain.Base.Action.{done, failed, panicked}
use evm_parachain.Base.Runs.{Only, Only-bind}
use evm_parachain.Node.ChainSpec.{Extensions, ChainType}
use evm_parachain.Node.Service.{
  Outside, Starters, ServiceAction, Call, start_node_impl, start_parachain_node,
}
use evm_parachain.Node.Service.Identity.{Serves, start_node_impl-Serves}
use evm_parachain.Node.Cli.{CliLib}
use evm_parachain.Node.Command.Calls.{Tools, Cli, RunCall, service, inform, Runners, Features}
use evm_parachain.Node.Command.Run.{embed, node_setup, announce, run_node, run, run_cli}
use evm_parachain.Node.Command.Features.{setup-done}
use evm_parachain.Node.Command.Start.{DrivesOnce}
use evm_parachain.Node.Command.Substrate.{cli_methods}
use evm_parachain.Node.Command.Specs.{Names}
use evm_parachain.Node.Command.Builtin.{KeepsExtensions, found}

module _ {O : Outside} (id : ℕ) where
  -- A line of the log that tells a parachain id tells this one, and a call that starts a collator or a
  -- full node starts it for this parachain.
  abbrev pub OfParachain : RunCall O → Type 0
  OfParachain (inform other role) = other ≡ id
  OfParachain (service c) = Serves O id c
  OfParachain _ = Unit

  services-OfParachain :
      (calls : List (Call O)) → All (Serves O id) calls → All OfParachain (map service calls)
  services-OfParachain [] h = tt
  services-OfParachain (c ∷ calls) (h, hs) = (h, services-OfParachain calls hs)

module _ {O : Outside} {L : CliLib O.Configuration} (T : Tools O L) where
  embed-OfParachain :
      (id : ℕ) {A : Type 0} (m : ServiceAction O A)
      → Only (Serves O id) m
      → Only (OfParachain id) (embed T m)
  embed-OfParachain id (done a, calls) h = services-OfParachain id calls h
  embed-OfParachain id (failed e, calls) h = services-OfParachain id calls h
  embed-OfParachain id (panicked, calls) h = services-OfParachain id calls h

  module _ (S : Starters O) (cli : Cli T) (config : O.Configuration) (e : Extensions)
      (extended : L.get_extension (L.chain_spec config) ≡ some e) where
    setup-OfParachain : Only (OfParachain e.para_id) (node_setup T cli config)
    unfolding node_setup
    setup-OfParachain = ground arith

    announce-OfParachain :
        (id : ℕ) → id ≡ e.para_id → Only (OfParachain e.para_id) (announce T cli config id)
    announce-OfParachain id same = ground arith

    run_node-OfParachain : Only (OfParachain e.para_id) (run_node T S cli config)
    unfolding run_node start_parachain_node
    run_node-OfParachain =
        Only-bind (OfParachain e.para_id) (node_setup T cli config) _ setup-OfParachain λ n made.
          let (other, given, same, _) = setup-done T S cli config n made in
          let told : n.para_id ≡ e.para_id =
            same
            ∙ ap (λ (x : Extensions). x.para_id) (some-injective other e (sym given ∙ extended)) in
          Only-bind (OfParachain e.para_id) (announce T cli config n.para_id) _
            (announce-OfParachain n.para_id told)
            λ _ _.
              let start = λ (id : ℕ).
                start_node_impl O S config n.polkadot_config cli.collator_options id n.hwbench in
              Only-bind (OfParachain e.para_id) (embed T (start n.para_id)) _
                (embed-OfParachain e.para_id (start n.para_id) (
                  subst (λ id. Only (Serves O e.para_id) (start id)) (sym told)
                    (start_node_impl-Serves O e.para_id S config n.polkadot_config
                      cli.collator_options n.hwbench)))
                λ _ _. tt

module _ {O : Outside} {L : CliLib O.Configuration} (T : Tools O L) (R : Runners T) (F : Features)
    (D : DrivesOnce T R) (S : Starters O) (cli : Cli T) where
  run_cli-OfParachain :
      (runner : T.Runner) (e : Extensions)
      → R.create none ≡ ok runner
      → L.get_extension (L.chain_spec (T.runner_config runner)) ≡ some e
      → All (OfParachain e.para_id) (run_cli T R F S cli none).1
  unfolding run_cli
  run_cli-OfParachain runner e made extended =
      let node = run_node-OfParachain T S cli (T.runner_config runner) e extended in
      let driven = D.node runner (run_node T S cli) in
      rw made (tt, subst (All (OfParachain e.para_id)) (sym driven) node)

  -- Where no subcommand is given, and the runner that is made drives its closure once, over a
  -- configuration whose specification has extensions, every parachain id that a run of the program logs,
  -- and every one that it starts a collator or a full node for, is that of the extensions, whether the
  -- run ends well or not.
  pub run-OfParachain :
      (runner : T.Runner) (e : Extensions)
      → cli.subcommand ≡ none
      → R.create none ≡ ok runner
      → L.get_extension (L.chain_spec (T.runner_config runner)) ≡ some e
      → All (OfParachain e.para_id) (run T R F S cli).1
  unfolding run
  run-OfParachain runner e plain made extended =
      subst (λ sub. All (OfParachain e.para_id) (run_cli T R F S cli sub).1) (sym plain)
        (run_cli-OfParachain runner e made extended)

  -- Where no subcommand is given, and the runner that is made drives its closure once, over a
  -- configuration with the specification that a built-in name loads, every parachain id that a run of the
  -- program logs or starts a collator or a full node for is 1000; provided that a specification keeps the
  -- extensions that it is made with.
  run-builtin :
      (t : ChainType) (id : String) (runner : T.Runner)
      → KeepsExtensions T
      → Names t id
      → cli.subcommand ≡ none
      → R.create none ≡ ok runner
      → (cli_methods T).load_spec id ≡ ok (L.chain_spec (T.runner_config runner))
      → All (OfParachain 1000) (run T R F S cli).1
  run-builtin t id runner keeps named plain made loaded =
      run-OfParachain runner (record { relay_chain = "rococo-local"; para_id = 1000 }) plain made
        (found T t id (T.runner_config runner) keeps named loaded)
