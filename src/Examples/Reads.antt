-- ===== src/Examples/Reads.antt =====
-- Reads, updates and construction scopes: the theorems at the small graph.
use attribute_graph.Common.{◌≡◌, true, some, refl, ap, ◌||◌}
use attribute_graph.Common.HashMap
use attribute_graph.Identity.{node_id_key, SubgraphId}
use attribute_graph.Dependency.{edge_key}
use attribute_graph.Node.{Node, is_clean}
use attribute_graph.Graph.Scopes.{with_subgraph}
use attribute_graph.Graph.Scopes.Construction.{Builds, with_subgraph-Builds}
use attribute_graph.Graph.Guards.{is_source, cached_value}
use attribute_graph.Graph.Propagate.{clear_inbound_pending_edges}
use attribute_graph.Graph.Evaluate.{
  finish_read, announce, check_output, finish_recompute, context_read, run_callback, evaluate,
  recompute_derived_node, validate_by_state, validate_derived_node, validate_for_read,
  validate_node_for_read, read_value, update_node,
}
use attribute_graph.Graph.Evaluate.Reads.{read_value_lem}
use attribute_graph.Graph.State.{Frame, frame, returned}
use attribute_graph.Graph.Invariant.{IsWellFormed}
use attribute_graph.Graph.Evaluate.Keeps.{
  read_value-Evolving, read_value-IsWellFormed, update_node-IsWellFormed,
}
use attribute_graph.Examples.{
  seven, copy, two_nodes, linked, two_nodes-IsWellFormed, linked-IsWellFormed, program,
}

read_value_example :
    IsWellFormed (read_value 2 copy two_nodes).1
    × (frame (read_value 2 copy two_nodes).1 ≡ frame two_nodes)
read_value_example = read_value-IsWellFormed 2 copy two_nodes two_nodes-IsWellFormed

update_node_example :
    IsWellFormed (update_node 2 copy linked).1
    × (frame (update_node 2 copy linked).1 ≡ frame linked)
update_node_example = update_node-IsWellFormed 2 copy linked linked-IsWellFormed

abbrev scope : SubgraphId
scope = record { graph = 1; local = 0 }

read_value-Builds : Builds (read_value 2 copy)
read_value-Builds = record {
  well_formed = λ g wf. (read_value-IsWellFormed 2 copy g wf).0;
  balanced =
      λ g. ap (λ (f : Frame). f.construction_subgraphs) ((read_value-Evolving 2 copy).run g).framed;
}

with_subgraph_example : Builds (with_subgraph scope (read_value 2 copy))
with_subgraph_example = with_subgraph-Builds scope (read_value 2 copy) read_value-Builds

-- The first read of the copy runs the rule, which reads the source.
copy_read : (read_value 2 copy two_nodes).0 ≡ returned seven
unfolding program read_value finish_read announce check_output finish_recompute context_read
    run_callback evaluate recompute_derived_node validate_by_state validate_derived_node
    validate_for_read validate_node_for_read cached_value clear_inbound_pending_edges
copy_read = refl

read_copy_example :
    (node : Node) × (HashMap.get (read_value 2 copy two_nodes).1.nodes copy ≡ some node)
    × (node.value ≡ some seven)
    × ((is_source node.kind || is_clean node.state) ≡ true)
read_copy_example = read_value_lem 2 copy two_nodes seven two_nodes-IsWellFormed copy_read
