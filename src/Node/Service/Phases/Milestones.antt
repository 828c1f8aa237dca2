-- ===== src/Node/Service/Phases/Milestones.antt =====
-- node/src/service.rs: the calls that every start of a node makes, in their order.
use mathlib.Core.List.{append_assoc}
use evm_parachain.Base.{
  is_empty, ℕ, Bool, true, false, ◌≡◌, refl, sym, ap, ◌∙◌, Option, List, [], ◌∷◌, ◌++◌,
}
use evm_parachain.Base.Runs.{is_done}
use evm_parachain.Base.Machine.{Trace, stay, go}
use evm_parachain.Node.Service.Interface.{Outside}
use evm_parachain.Node.Service.Calls.{
  Starters, CollatorOptions, Call, new_full_parts, new_full_pool, import_queue,
  build_minimal_relay_chain_node, build_inprocess_relay_chain, build_network, spawn_tasks,
  build_consensus, start_collator, start_full_node, start_network,
}
use evm_parachain.Node.Service.Start.{start_node_impl}
use evm_parachain.Node.Service.Phases.{
  Phase, is_open, Step, bare, equipped, pooled, assembled, connected, networked, tasked, producing,
  staffed, open_network, worker, parts, telemetry, pool, queue, remote, inprocess, network,
  offchain, tasks, hwbench, report, consensus, collator, full_node, opens,
}
use evm_parachain.Node.Service.Phases.Start.{start_node_impl-Trace}

pub data Milestone : Type 0 where
  full_parts transaction_pool queue_built relay_chain network_built tasks_spawned : Milestone
  consensus_built collator_started full_node_started network_opened : Milestone

-- The last calls, which the role decides on.
abbrev pub role_order : Bool → List Milestone
role_order true = consensus_built ∷ collator_started ∷ network_opened ∷ []
role_order false = full_node_started ∷ network_opened ∷ []

abbrev pub order : Bool → List Milestone
order role =
    full_parts
    ∷ transaction_pool
    ∷ queue_built
    ∷ relay_chain
    ∷ network_built
    ∷ tasks_spawned
    ∷ role_order role

-- What a node in a phase has still to do.
remaining : Bool → Phase → List Milestone
remaining role bare = order role
remaining role equipped =
    transaction_pool ∷ queue_built ∷ relay_chain ∷ network_built ∷ tasks_spawned ∷ role_order role
remaining role pooled = queue_built ∷ relay_chain ∷ network_built ∷ tasks_spawned ∷ role_order role
remaining role assembled = relay_chain ∷ network_built ∷ tasks_spawned ∷ role_order role
remaining role connected = network_built ∷ tasks_spawned ∷ role_order role
remaining role networked = tasks_spawned ∷ role_order role
remaining role tasked = role_order role
remaining role producing = collator_started ∷ network_opened ∷ []
remaining role staffed = network_opened ∷ []
remaining role open_network = []

is_empty-remaining : (role : Bool) (p : Phase) → is_empty (remaining role p) ≡ is_open p
unfolding remaining
is_empty-remaining true tasked = refl
is_empty-remaining false tasked = refl
is_empty-remaining role bare = refl
is_empty-remaining role equipped = refl
is_empty-remaining role pooled = refl
is_empty-remaining role assembled = refl
is_empty-remaining role connected = refl
is_empty-remaining role networked = refl
is_empty-remaining role producing = refl
is_empty-remaining role staffed = refl
is_empty-remaining role open_network = refl

module _ (O : Outside) where
  -- The milestone of a call, or none.
  abbrev pub milestone : Call O → List Milestone
  milestone (new_full_parts config handle executor) = full_parts ∷ []
  milestone (new_full_pool manager client) = transaction_pool ∷ []
  milestone (import_queue manager client slots registry handle) = queue_built ∷ []
  milestone (build_minimal_relay_chain_node config manager url) = relay_chain ∷ []
  milestone (build_inprocess_relay_chain polkadot config manager) = relay_chain ∷ []
  milestone (build_network params) = network_built ∷ []
  milestone (spawn_tasks params) = tasks_spawned ∷ []
  milestone (build_consensus params) = consensus_built ∷ []
  milestone (start_collator params) = collator_started ∷ []
  milestone (start_full_node params) = full_node_started ∷ []
  milestone (start_network starter) = network_opened ∷ []
  milestone _ = []

  abbrev pub milestones : List (Call O) → List Milestone
  milestones [] = []
  milestones (c ∷ cs) = milestone c ++ milestones cs

  Step-remaining :
      (role : Bool) {p q : Phase} {c : Call O}
      → Step O role p c q
      → remaining role p ≡ milestone c ++ remaining role q
  unfolding remaining
  Step-remaining role (worker size) = refl
  Step-remaining role (parts config handle executor) = refl
  Step-remaining role (telemetry manager name) = refl
  Step-remaining role (pool manager client) = refl
  Step-remaining role (queue manager client slots registry handle) = refl
  Step-remaining role (remote config manager url) = refl
  Step-remaining role (inprocess polkadot config manager) = refl
  Step-remaining role (network params) = refl
  Step-remaining role (offchain config manager client net) = refl
  Step-remaining role (tasks params) = refl
  Step-remaining role (hwbench bench) = refl
  Step-remaining role (report manager name) = refl
  Step-remaining role (consensus params h) = ap role_order h
  Step-remaining role (collator params h) = refl
  Step-remaining role (full_node params h) = ap role_order h
  Step-remaining role (opens starter) = refl

  Trace-remaining :
      (role : Bool) {p q : Phase} {cs : List (Call O)}
      → Trace (Step O role) p cs q
      → remaining role p ≡ milestones cs ++ remaining role q
  Trace-remaining role stay = refl
  Trace-remaining role {q = q} (go {c = c} {cs = cs} x path) =
      Step-remaining role x
      ∙ ap (λ ms. milestone c ++ ms) (Trace-remaining role path)
      ∙ sym (append_assoc (milestone c) (milestones cs) (remaining role q))

  -- Whatever the libraries answer, the start of a node goes through the milestones of its role in their
  -- one order, from the client to the network's start, each at most once and none left out on the way;
  -- and it gets through all of them exactly if it succeeds.
  pub start_node_impl-order :
      (S : Starters O) (config polkadot : O.Configuration) (options : CollatorOptions O) (id : ℕ)
      (bench : Option O.HwBench)
      → (left : List Milestone) × (order (O.is_authority (O.prepare_node_config config))
          ≡ milestones (start_node_impl O S config polkadot options id bench).1 ++ left)
        × (is_empty left ≡ is_done (start_node_impl O S config polkadot options id bench).0)
  unfolding remaining
  start_node_impl-order S config polkadot options id bench =
      let role = O.is_authority (O.prepare_node_config config) in
      let (phase, path, ends) = start_node_impl-Trace O S config polkadot options id bench in
      (remaining role phase, Trace-remaining role path, is_empty-remaining role phase ∙ ends)
