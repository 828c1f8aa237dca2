-- ===== src/Node/Service/Tests.antt =====
-- The theorems about the service over numbers.
use evm_parachain.Base.{is_empty, true, false, ◌≡◌, refl, none, some, List, ◌++◌}
use evm_parachain.Base.Runs.{Calm, is_done}
use evm_parachain.Node.Service.Calls.{PartialComponents}
use evm_parachain.Node.Service.Rpc.{FullDeps}
use evm_parachain.Node.Service.Partial.{new_partial}
use evm_parachain.Node.Service.Start.{
  start_node_impl, prepare, finish, start_as, build_relay_chain_interface,
}
use evm_parachain.Node.Service.Starts.{Grants}
use evm_parachain.Base.Machine.{Trace}
use evm_parachain.Node.Service.Phases.{Phase, is_open, Step, bare}
use evm_parachain.Node.Service.Phases.Start.{start_node_impl-Trace}
use evm_parachain.Node.Service.Phases.Milestones.{
  Milestone, order, milestones, start_node_impl-order,
}
use evm_parachain.Node.Service.Panics.{GivesKey, start_node_impl-Calm}
use evm_parachain.Node.Service.Numbers.{
  over_numbers, starters, options, over_rpc, validator, full_node,
}

no_key :
    is_done (start_node_impl over_numbers starters validator full_node over_rpc 1000 none).0 ≡ false
unfolding start_node_impl prepare finish start_as new_partial build_relay_chain_interface
no_key = refl

started :
    is_done (start_node_impl over_numbers starters validator full_node options 1000 (some 3)).0
    ≡ true
unfolding start_node_impl prepare finish start_as new_partial build_relay_chain_interface
started = refl

started_full :
    is_done (start_node_impl over_numbers starters full_node full_node over_rpc 1000 none).0 ≡ true
unfolding start_node_impl prepare finish start_as new_partial build_relay_chain_interface
started_full = refl

pub gives_key : true ≡ true → GivesKey over_numbers full_node validator none
gives_key authority handle bench r h = cc

start_node_impl-Calm_example :
    Calm (start_node_impl over_numbers starters validator full_node options 1000 none)
start_node_impl-Calm_example =
    start_node_impl-Calm over_numbers starters validator full_node options 1000 none gives_key

abbrev parts : PartialComponents over_numbers
parts = record {
  client = 1;
  backend = 2;
  import_queue = 6;
  keystore_container = 3;
  task_manager = 4;
  transaction_pool = 5;
  telemetry = some 18;
  telemetry_worker_handle = some 17;
}

abbrev deps : FullDeps over_numbers
deps = record { client = 3; pool = 4; deny_unsafe = true }

pub grants : Grants over_numbers starters full_node validator options
grants = record {
  worker = refl;
  parts = λ h e. refl;
  slot = λ c. refl;
  queue = λ c f t h. refl;
  relay = λ h b. refl;
  network = λ c p q r id. refl;
  tasks = λ p. refl;
  collator = λ p. refl;
  full_node = λ p. refl;
}

start_node_impl-Trace_example :
    (phase : Phase) × Trace
      (Step over_numbers (over_numbers.is_authority validator))
      bare
      (start_node_impl over_numbers starters validator full_node options 1000 (some 3)).1
      phase
    × (is_open phase
        ≡ is_done
            (start_node_impl over_numbers starters validator full_node options 1000 (some 3)).0)
start_node_impl-Trace_example =
    start_node_impl-Trace over_numbers starters validator full_node options 1000 (some 3)

start_node_impl-order_example :
    (left : List Milestone) × (order (over_numbers.is_authority validator)
      ≡ milestones over_numbers
          (start_node_impl over_numbers starters validator full_node options 1000 (some 3)).1
        ++ left)
    × (is_empty left
        ≡ is_done
            (start_node_impl over_numbers starters validator full_node options 1000 (some 3)).0)
start_node_impl-order_example =
    start_node_impl-order over_numbers starters validator full_node options 1000 (some 3)
