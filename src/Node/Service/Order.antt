-- ===== src/Node/Service/Order.antt =====
-- node/src/service.rs: in which order a node is started, and what a failure leaves undone.
use mathlib.Core.List.{append-nil}
use evm_parachain.Base.{
  is_empty, is_empty-true, closing, ℕ, Bool, true, false, not, ◌≡◌, refl, ◌∙◌, sym, ap, Option,
  List, [], ◌∷◌, ◌++◌, any, arith,
}
use evm_parachain.Base.Runs.{is_done, any-append}
use evm_parachain.Base.Machine.{Trace, stay, go}
use evm_parachain.Node.Service.Interface.{Outside}
use evm_parachain.Node.Service.Calls.{Starters, CollatorOptions, Call}
use evm_parachain.Node.Service.Start.{start_node_impl}
use evm_parachain.Node.Service.Stages.{
  Stage, early, collator, full_node, network, is_network, is_collator, is_full_node, stage,
}
use evm_parachain.Node.Service.Phases.{Phase, is_open, Step}
use evm_parachain.Node.Service.Phases.Start.{start_node_impl-Trace}
use evm_parachain.Node.Service.Phases.Milestones.{
  Milestone, full_parts, transaction_pool, queue_built, relay_chain, network_built, tasks_spawned,
  consensus_built, collator_started, full_node_started, network_opened, order, milestone,
  milestones, start_node_impl-order,
}

-- What a milestone puts to work.
stage_of : Milestone → Stage
stage_of collator_started = collator
stage_of full_node_started = full_node
stage_of network_opened = network
stage_of _ = early

abbrev starts : (Stage → Bool) → Milestone → Bool
starts p m = p (stage_of m)

order-starts :
    (role : Bool)
    → (any (starts is_collator) (order role) ≡ role)
      × (any (starts is_full_node) (order role) ≡ not role)
unfolding stage_of
order-starts true = (refl, refl)
order-starts false = (refl, refl)

order-closes :
    (role : Bool)
    → (before : List Milestone) × (order role ≡ before ++ network_opened ∷ [])
      × (any (starts is_network) before ≡ false)
unfolding stage_of
order-closes true = (
  full_parts ∷ transaction_pool ∷ queue_built ∷ relay_chain ∷ network_built ∷ tasks_spawned
      ∷ consensus_built ∷ collator_started ∷ [],
  refl,
  refl,
)
order-closes false = (
  full_parts ∷ transaction_pool ∷ queue_built ∷ relay_chain ∷ network_built ∷ tasks_spawned
      ∷ full_node_started ∷ [],
  refl,
  refl,
)

module _ (O : Outside) where
  Step-network :
      (role : Bool) {p q : Phase} {c : Call O}
      → Step O role p c q
      → (is_open p ≡ false) × (is_network (stage O c) ≡ is_open q)
  Step-network role (Step.worker size) = (refl, refl)
  Step-network role (Step.parts config handle executor) = (refl, refl)
  Step-network role (Step.telemetry manager name) = (refl, refl)
  Step-network role (Step.pool manager client) = (refl, refl)
  Step-network role (Step.queue manager client slots registry handle) = (refl, refl)
  Step-network role (Step.remote config manager url) = (refl, refl)
  Step-network role (Step.inprocess polkadot config manager) = (refl, refl)
  Step-network role (Step.network params) = (refl, refl)
  Step-network role (Step.offchain config manager client net) = (refl, refl)
  Step-network role (Step.tasks params) = (refl, refl)
  Step-network role (Step.hwbench bench) = (refl, refl)
  Step-network role (Step.report manager name) = (refl, refl)
  Step-network role (Step.consensus params h) = (refl, refl)
  Step-network role (Step.collator params h) = (refl, refl)
  Step-network role (Step.full_node params h) = (refl, refl)
  Step-network role (Step.opens starter) = (refl, refl)

  Trace-last :
      (role : Bool) {p q : Phase} {cs : List (Call O)}
      → Trace (Step O role) p cs q
      → is_open p ≡ false
      → is_open q ≡ true
      → (before : List (Call O)) × (c : Call O) × (cs ≡ before ++ c ∷ [])
        × (any (λ d. is_network (stage O d)) before ≡ false)
        × (is_network (stage O c) ≡ true)
  Trace-last role stay closed open_end = cc
  Trace-last role (go {c = c} x stay) closed open_end =
      ([], c, refl, refl, (Step-network role x).1 ∙ open_end)
  Trace-last role (go {c = c} x (go y path)) closed open_end =
      let between = (Step-network role y).0 in
      let (before, d, eq, quiet, hit) = Trace-last role (go y path) between open_end in
      let early_call = (Step-network role x).1 in
      (c ∷ before, d, ap (λ t. c ∷ t) eq, ground (arith, quiet, early_call, between), hit)

  any-milestone :
      (p : Stage → Bool) (c : Call O)
      → p early ≡ false
      → any (starts p) (milestone O c) ≡ p (stage O c)
  unfolding stage_of
  any-milestone p c h = ground arith

  any-milestones :
      (p : Stage → Bool) (cs : List (Call O))
      → p early ≡ false
      → any (starts p) (milestones O cs) ≡ any (λ c. p (stage O c)) cs
  any-milestones p [] h = refl
  any-milestones p (c ∷ cs) h =
      let one = any-milestone p c h in
      let rest = any-milestones p cs h in
      any-append (starts p) (milestone O c) (milestones O cs) ∙ ground (arith, one, rest)

  -- Of the calls that have gone some way through an order, one opens the network exactly if nothing is
  -- left; and then the role is the order's.
  pub order-completes :
      (role : Bool) (calls : List (Call O)) (left : List Milestone)
      → order role ≡ milestones O calls ++ left
      → any (λ c. is_network (stage O c)) calls ≡ is_empty left
  unfolding stage_of
  order-completes role calls left all =
      let (xs, ends, quiet) = order-closes role in
      sym (any-milestones is_network calls refl)
      ∙ closing (starts is_network) xs network_opened (milestones O calls) left quiet refl
          (sym ends ∙ all)

  -- Calls that leave nothing of an order have gone through all of it.
  pub order-whole :
      (role : Bool) (calls : List (Call O)) (left : List Milestone)
      → order role ≡ milestones O calls ++ left
      → is_empty left ≡ true
      → milestones O calls ≡ order role
  order-whole role calls left all empty = sym (
      all
      ∙ ap (λ t. milestones O calls ++ t) (is_empty-true left empty)
      ∙ append-nil (milestones O calls))

  pub order-role :
      (role : Bool) (calls : List (Call O)) (left : List Milestone)
      → order role ≡ milestones O calls ++ left
      → is_empty left ≡ true
      → (any (λ c. is_collator (stage O c)) calls ≡ role)
        × (any (λ c. is_full_node (stage O c)) calls ≡ not role)
  order-role role calls left all empty =
      let whole = order-whole role calls left all empty in
      let (collators, full_nodes) = order-starts role in
      (
        sym (any-milestones is_collator calls refl)
            ∙ ap (any (starts is_collator)) whole
            ∙ collators,
        sym (any-milestones is_full_node calls refl)
            ∙ ap (any (starts is_full_node)) whole
            ∙ full_nodes,
      )

  module _ (S : Starters O) where
    -- If the start of a node succeeds, its network is started by the very last call, and by none before.
    pub start_node_impl-last :
        (config polkadot : O.Configuration) (options : CollatorOptions O) (id : ℕ)
        (bench : Option O.HwBench)
        → is_done (start_node_impl O S config polkadot options id bench).0 ≡ true
        → (before : List (Call O)) × (c : Call O) × ((start_node_impl O S config polkadot options id
              bench).1
            ≡ before ++ c ∷ [])
          × (any (λ d. is_network (stage O d)) before ≡ false)
          × (is_network (stage O c) ≡ true)
    start_node_impl-last config polkadot options id bench good =
        let (phase, path, ends) = start_node_impl-Trace O S config polkadot options id bench in
        Trace-last (O.is_authority (O.prepare_node_config config)) path refl (ends ∙ good)

    -- The network of a node is started exactly if the whole start succeeds: where any step fails or
    -- panics, it is not.
    pub start_node_impl-completes :
        (config polkadot : O.Configuration) (options : CollatorOptions O) (id : ℕ)
        (bench : Option O.HwBench)
        → any (λ c. is_network (stage O c)) (start_node_impl O S config polkadot options id bench).1
          ≡ is_done (start_node_impl O S config polkadot options id bench).0
    start_node_impl-completes config polkadot options id bench =
        let (left, all, ends) = start_node_impl-order O S config polkadot options id bench in
        order-completes (O.is_authority (O.prepare_node_config config))
          (start_node_impl O S config polkadot options id bench).1 left all
        ∙ ends

    -- A node that was started is a collator exactly if its prepared configuration makes it an
    -- authority, and a full node exactly if not.
    pub start_node_impl-role :
        (config polkadot : O.Configuration) (options : CollatorOptions O) (id : ℕ)
        (bench : Option O.HwBench)
        → is_done (start_node_impl O S config polkadot options id bench).0 ≡ true
        → (any
              (λ c. is_collator (stage O c))
              (start_node_impl O S config polkadot options id bench).1
            ≡ O.is_authority (O.prepare_node_config config))
          × (any
                (λ c. is_full_node (stage O c))
                (start_node_impl O S config polkadot options id bench).1
              ≡ not (O.is_authority (O.prepare_node_config config)))
    start_node_impl-role config polkadot options id bench good =
        let (left, all, ends) = start_node_impl-order O S config polkadot options id bench in
        order-role (O.is_authority (O.prepare_node_config config))
          (start_node_impl O S config polkadot options id bench).1 left all (ends ∙ good)
