-- ===== src/Node.antt =====
-- src/node.rs
use attribute_graph.Common.{Bool, true, false, Option, some, List}
use attribute_graph.Common.HashSet.{HashSet}
use mathlib.Core.Option
use attribute_graph.Identity.{NodeId, SubgraphId}
use attribute_graph.Value.{TypeDescriptor, ValueStorage}
use attribute_graph.Rule.{RuleDescriptor}
use attribute_graph.Dependency.{sorted_ids}

pub data NodeKind : Type 0 where
  source derived : NodeKind

pub data NodeState : Type 0 where
  clean dirty maybe_dirty : NodeState

pub record Node : Type 0 where
  pub id : NodeId
  pub subgraph : Option SubgraphId
  pub kind : NodeKind
  pub state : NodeState
  pub value : Option ValueStorage
  pub active_dependencies : HashSet NodeId
  pub rule : Option RuleDescriptor

abbrev pub is_clean : NodeState → Bool
is_clean clean = true
is_clean _ = false

abbrev pub is_dirty_state : NodeState → Bool
is_dirty_state dirty = true
is_dirty_state _ = false

unfoldable pub is_dirty : Node → Bool
is_dirty node = is_dirty_state node.state

unfoldable pub value_type : Node → Option TypeDescriptor
value_type node = elim node.kind [
  | source ↦ Option.map (λ (v : ValueStorage). v.value_type) node.value
  | derived ↦ Option.map (λ (r : RuleDescriptor). r.value_type) node.rule
]

unfoldable pub active_dependencies : Node → List NodeId
unfolding sorted_ids
active_dependencies node = sorted_ids (some node.active_dependencies)
