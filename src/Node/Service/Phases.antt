-- ===== src/Node/Service/Phases.antt =====
-- The state machine of a node's start, for node/src/service.rs: what is there already decides which call
-- may come next.
pub mod Start
pub mod Milestones
use evm_parachain.Base.{ℕ, Bool, true, false, ◌≡◌, refl, Option, none, some, List, String}
use evm_parachain.Base.Action.{call, try_call}
use evm_parachain.Base.Runs.{is_done}
use evm_parachain.Base.Machine.{
  Trace, Follows, Follows-bind, Follows-pure, Follows-call, Follows-try, Follows-lift,
  Follows-expect, Follows-go,
}
use evm_parachain.Node.Service.Interface.{Outside}
use evm_parachain.Node.Service.Calls.{
  Starters, CollatorOptions, PartialComponents, Call, SpawnTasksParams, BuildAuraConsensusParams,
  StartCollatorParams, StartFullNodeParams, new_worker, new_full_parts, spawn, new_full_pool,
  import_queue, build_minimal_relay_chain_node, build_inprocess_relay_chain, BuildNetworkParams,
  build_network, build_offchain_workers, spawn_tasks, print_hwbench, build_consensus,
  start_collator, start_full_node, start_network,
}
use evm_parachain.Node.Service.Partial.{
  start_telemetry, endpoints_in_use, run_worker, build_import_queue, handle_of, telemetry_of,
  new_partial,
}
use evm_parachain.Node.Service.Consensus.{build_consensus as consensus_of}
use evm_parachain.Node.Service.Start.{
  relay_error, build_relay_chain_interface, offchain_workers, report_hwbench, start_as, Prepared,
  prepare, tasks_of, finish, start_node_impl,
}

-- How far a node is: it has nothing; the client and its task manager; a transaction pool; an import queue;
-- a connection to the relay chain; a network; its tasks; a block producer; a collator or full node; and
-- its network is open.
pub data Phase : Type 0 where
  bare equipped pooled assembled connected networked tasked producing staffed open_network : Phase

abbrev pub is_open : Phase → Bool
is_open open_network = true
is_open _ = false

module _ (O : Outside) where
  -- The calls that a node makes in a phase, and the phase after each. The role decides on the last but one.
  pub data Step (role : Bool) : Phase → Call O → Phase → Type 0 where
    worker : (size : ℕ) → Step role bare (new_worker size) bare
    parts :
        (config : O.Configuration) (handle : Option O.TelemetryHandle) (executor : O.Executor)
        → Step role bare (new_full_parts config handle executor) equipped
    telemetry :
        (tasks : O.TaskManager) (name : String) → Step role equipped (spawn tasks name) equipped
    pool :
        (tasks : O.TaskManager) (client : O.Client)
        → Step role equipped (new_full_pool tasks client) pooled
    queue :
        (tasks : O.TaskManager) (client : O.Client) (slots : O.Timestamp → O.Slot × O.Timestamp)
        (registry : Option O.Registry) (handle : Option O.TelemetryHandle)
        → Step role pooled (import_queue tasks client slots registry handle) assembled
    remote :
        (config : O.Configuration) (tasks : O.TaskManager) (url : O.Url)
        → Step role assembled (build_minimal_relay_chain_node config tasks url) connected
    inprocess :
        (polkadot config : O.Configuration) (tasks : O.TaskManager)
        → Step role assembled (build_inprocess_relay_chain polkadot config tasks) connected
    network : (params : BuildNetworkParams O) → Step role connected (build_network params) networked
    offchain :
        (config : O.Configuration) (tasks : O.TaskManager) (client : O.Client) (net : O.Network)
        → Step role networked (build_offchain_workers config tasks client net) networked
    tasks : (params : SpawnTasksParams O) → Step role networked (spawn_tasks params) tasked
    hwbench : (bench : O.HwBench) → Step role tasked (print_hwbench bench) tasked
    report : (tasks : O.TaskManager) (name : String) → Step role tasked (spawn tasks name) tasked
    consensus :
        (params : BuildAuraConsensusParams O)
        → role ≡ true
        → Step role tasked (build_consensus params) producing
    collator :
        (params : StartCollatorParams O)
        → role ≡ true
        → Step role producing (start_collator params) staffed
    full_node :
        (params : StartFullNodeParams O)
        → role ≡ false
        → Step role tasked (start_full_node params) staffed
    opens : (starter : O.NetworkStarter) → Step role staffed (start_network starter) open_network
