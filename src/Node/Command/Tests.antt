-- ===== src/Node/Command/Tests.antt =====
-- The theorems about `run` and `load_spec`, over the command lines and services of the other tests. A
-- command is a number, and an error is its text.
use evm_parachain.Node.Command.Start.{services, DrivesOnce, run-order}
use evm_parachain.Node.Service.Phases.Milestones.{Milestone, order, milestones}
use evm_parachain.Node.Service.Tests.{grants, gives_key}
use evm_parachain.Node.Cli.Tests.{extensions}
use evm_parachain.Node.Command.Once.{executions, PassesErrors, run_subcommand-Once}
use evm_parachain.Node.Command.Joins.{OfParachain, run-OfParachain}
use evm_parachain.Node.Command.Live.{Equipped, run-starts}
use evm_parachain.Node.Command.Builtin.{builtin_joins}
use evm_parachain.Base.Runs.{is_done}
use evm_parachain.Base.{
  ◌⊎◌, ◌≤◌, All, is_empty, List, ◌++◌, true, false, ◌≡◌, refl, none, some, [], String, ok,
}
use evm_parachain.Node.ChainSpec.{development_config, development}
use evm_parachain.Node.Service.{new_partial}
use evm_parachain.Node.Service.Numbers.{over_numbers, starters, validator, full_node}
use evm_parachain.Node.Command.Substrate.{cli_methods}
use evm_parachain.Node.Cli.{new, chain_id, try_get, map_some}
use evm_parachain.Node.Command.{load_spec}
use evm_parachain.Node.Command.Calls.{CommandAction, Subcommand, revert}
use evm_parachain.Node.Command.Run.{run, run_subcommand, run_node, polkadot_config}
use evm_parachain.Node.Command.Texts.{texts, runners, lib, present, plain, cli_for}

abbrev other_command : Subcommand (texts present)
other_command = revert 2

runners-DrivesOnce : DrivesOnce (texts present) (runners present (ok 1))
runners-DrivesOnce = record {
  sync = λ runner body. refl;
  async = λ runner body. refl;
  node = λ runner body. refl;
}

run-order_example :
    (left : List Milestone) × (order true
      ≡ milestones over_numbers (
          services
            (run (texts present) (runners present (ok 1)) plain starters (cli_for present none)).1)
        ++ left)
    × (is_empty left
        ≡ is_done (run_node (texts present) starters (cli_for present none) validator).0)
run-order_example =
    run-order (texts present) (runners present (ok 1)) plain runners-DrivesOnce starters
      (cli_for present none) 1 refl refl

loaded : (cli_methods (texts present)).load_spec "dev" ≡ ok present
unfolding cli_methods load_spec development_config
loaded = refl

abbrev no_args : List String
no_args = []

builtin_joins_example :
    (map_some (λ e. e.para_id) (try_get lib present) ≡ some 1000)
    × (chain_id lib (new lib validator no_args) false ≡ ok "rococo-local")
builtin_joins_example =
    builtin_joins (texts present) development "dev" validator no_args false (λ s. refl) refl loaded
      refl

equipped : Equipped (texts present) starters (cli_for present none) validator
unfolding polkadot_config
equipped = record {
  extensions = extensions;
  extended = refl;
  block = refl;
  polkadot = full_node;
  configured = refl;
  grants = grants;
  keyed = gives_key;
}

run-starts_example :
    milestones over_numbers (
      services
        (run (texts present) (runners present (ok 1)) plain starters (cli_for present none)).1)
    ≡ order true
run-starts_example =
    run-starts (texts present) (runners present (ok 1)) plain runners-DrivesOnce starters
      (cli_for present none) 1 refl refl equipped

run-OfParachain_example :
    All
      (OfParachain 1000)
      (run (texts present) (runners present (ok 1)) plain starters (cli_for present none)).1
run-OfParachain_example =
    run-OfParachain (texts present) (runners present (ok 1)) plain runners-DrivesOnce starters
      (cli_for present none) 1 extensions refl refl refl

runners-PassesErrors : PassesErrors (texts present) (runners present (ok 1))
runners-PassesErrors = record { sync = λ runner body h. h; async = λ runner body h. h }

abbrev run_other : CommandAction (texts present) (Unit {0})
run_other =
    run_subcommand (texts present) (runners present (ok 1)) plain
      (cli_for present (some other_command)) other_command

run_subcommand-Once_example :
    (executions run_other.1 ≤ 1) × ((is_done run_other.0 ≡ false) ⊎ (executions run_other.1 ≡ 1))
run_subcommand-Once_example =
    run_subcommand-Once (texts present) (runners present (ok 1)) runners-DrivesOnce
      runners-PassesErrors plain (cli_for present (some other_command)) other_command

executed : (is_done run_other.0 ≡ true) × (executions run_other.1 ≡ 1)
unfolding run_subcommand new_partial
executed = (refl, refl)
