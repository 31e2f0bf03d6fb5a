-- ===== src/Error/Display.antt =====
-- src/error.rs: the messages.
use attribute_graph.Common.{String}
use attribute_graph.Common.Format.{◌<>◌}
use attribute_graph.Identity.Display.{show_graph_id, show_node_id, show_subgraph_id}
use attribute_graph.Error.{
  GraphError, graph_mismatch, missing_node, missing_subgraph, subgraph_in_use, missing_value,
  missing_output, not_source, not_derived, self_dependency, cycle_detected,
  rule_value_type_mismatch, value_type_mismatch, value_decode_failed,
}

unfoldable pub show_error : GraphError → String
unfolding show_graph_id show_node_id show_subgraph_id
show_error (graph_mismatch expected actual) =
    "handle belongs to graph "
    <> show_graph_id actual
    <> ", but this operation uses graph "
    <> show_graph_id expected
show_error (missing_node id) = "missing node " <> show_node_id id
show_error (missing_subgraph id) = "missing subgraph " <> show_subgraph_id id
show_error (subgraph_in_use id) = "subgraph " <> show_subgraph_id id <> " is still in use"
show_error (missing_value id) = "node " <> show_node_id id <> " has no cached value"
show_error (missing_output id) =
    "rule for node " <> show_node_id id <> " did not set an output value"
show_error (not_source id) = "node " <> show_node_id id <> " is not a source node"
show_error (not_derived id) = "node " <> show_node_id id <> " is not a derived node"
show_error (self_dependency id) = "node " <> show_node_id id <> " cannot depend on itself"
show_error cycle_detected = "dependency cycle detected"
show_error (rule_value_type_mismatch expected actual) =
    "rule expected to produce value type " <> expected.name <> ", got " <> actual.name
show_error (value_type_mismatch node expected actual) =
    "node "
    <> show_node_id node
    <> " expected value type "
    <> expected.name
    <> ", got "
    <> actual.name
show_error (value_decode_failed node value_type) =
    "node " <> show_node_id node <> " has invalid cached bytes for value type " <> value_type.name
