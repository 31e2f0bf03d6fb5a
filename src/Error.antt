-- ===== src/Error.antt =====
-- src/error.rs
pub mod Display
use attribute_graph.Identity.{GraphId, NodeId, SubgraphId}
use attribute_graph.Value.{TypeDescriptor}

pub data GraphError : Type 0 where
  graph_mismatch : (expected actual : GraphId) → GraphError
  missing_node : NodeId → GraphError
  missing_subgraph : SubgraphId → GraphError
  subgraph_in_use : SubgraphId → GraphError
  missing_value : NodeId → GraphError
  missing_output : NodeId → GraphError
  not_source : NodeId → GraphError
  not_derived : NodeId → GraphError
  self_dependency : NodeId → GraphError
  cycle_detected : GraphError
  rule_value_type_mismatch : (expected actual : TypeDescriptor) → GraphError
  value_type_mismatch : (node : NodeId) (expected actual : TypeDescriptor) → GraphError
  value_decode_failed : (node : NodeId) (value_type : TypeDescriptor) → GraphError

-- `Result<A, GraphError>`
pub data Result (A : Type 0) : Type 0 where
  ok : A → Result A
  err : GraphError → Result A
