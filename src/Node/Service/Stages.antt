-- ===== src/Node/Service/Stages.antt =====
-- node/src/service.rs: which calls put a node to work.
use evm_parachain.Base.{Bool, true, false, ◌≡◌, arith}
use evm_parachain.Base.Runs.{Quiet}
use evm_parachain.Node.Service.Interface.{Outside}
use evm_parachain.Node.Service.Calls.{Call, start_collator, start_full_node, start_network}
use evm_parachain.Node.Service.Partial.{new_partial}

-- The calls that put a node to work, and all others.
pub data Stage : Type 0 where
  early collator full_node network : Stage

abbrev pub is_network : Stage → Bool
is_network network = true
is_network _ = false

abbrev pub is_collator : Stage → Bool
is_collator collator = true
is_collator _ = false

abbrev pub is_full_node : Stage → Bool
is_full_node full_node = true
is_full_node _ = false

module _ (O : Outside) where
  abbrev pub stage : Call O → Stage
  stage (start_collator params) = collator
  stage (start_full_node params) = full_node
  stage (start_network starter) = network
  stage _ = early

  module _ (p : Stage → Bool) (quiet : p early ≡ false) where
    abbrev pub at : Call O → Bool
    at c = p (stage c)

    pub new_partial-Quiet : (config : O.Configuration) → Quiet at (new_partial O config)
    unfolding new_partial
    new_partial-Quiet config = ground arith
