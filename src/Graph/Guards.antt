-- ===== src/Graph/Guards.antt =====
-- The checks that the methods begin with, and the reads of a node's cache.
use attribute_graph.Common.{Bool, true, false, not, if◌then◌else◌, eqb}
use attribute_graph.Common.HashMap
use mathlib.Core.Option
use attribute_graph.Identity.{NodeId, SubgraphId, node_id_key, subgraph_id_key}
use attribute_graph.Value.{TypeDescriptor, ValueStorage, type_eqb}
use attribute_graph.Error.{
  graph_mismatch, missing_node, missing_subgraph, missing_value, not_source, not_derived,
  value_type_mismatch,
}
use attribute_graph.Node.{NodeKind, source, derived, value_type}
use attribute_graph.Graph.State.{AttributeGraph, Outcome, returned, failed, expect, ok_or, and_then}

unfoldable pub ensure_node : AttributeGraph → NodeId → Outcome Unit
unfolding HashMap.contains_key
ensure_node g id =
    if not (eqb id.graph g.id)
    then failed (graph_mismatch g.id id.graph)
    else if HashMap.contains_key g.nodes id
    then returned tt
    else failed (missing_node id)

abbrev pub is_source : NodeKind → Bool
is_source source = true
is_source derived = false

unfoldable pub ensure_source : AttributeGraph → NodeId → Outcome Unit
unfolding ensure_node
ensure_source g id = and_then (ensure_node g id) λ _.
    and_then (expect (HashMap.get g.nodes id))
      λ node. if is_source node.kind then returned tt else failed (not_source id)

unfoldable pub ensure_derived : AttributeGraph → NodeId → Outcome Unit
unfolding ensure_node
ensure_derived g id = and_then (ensure_node g id) λ _.
    and_then (expect (HashMap.get g.nodes id))
      λ node. if is_source node.kind then failed (not_derived id) else returned tt

unfoldable pub ensure_node_value_type : AttributeGraph → NodeId → TypeDescriptor → Outcome Unit
unfolding value_type type_eqb
ensure_node_value_type g id actual =
    and_then (ok_or (Option.bind (HashMap.get g.nodes id) value_type) (missing_node id)) λ expected.
      if type_eqb expected actual
      then returned tt
      else failed (value_type_mismatch id expected actual)

unfoldable pub ensure_subgraph : AttributeGraph → SubgraphId → Outcome Unit
unfolding HashMap.contains_key
ensure_subgraph g id =
    if not (eqb id.graph g.id)
    then failed (graph_mismatch g.id id.graph)
    else if HashMap.contains_key g.subgraphs id
    then returned tt
    else failed (missing_subgraph id)

unfoldable pub cached_value : AttributeGraph → NodeId → Outcome ValueStorage
cached_value g id =
    and_then (ok_or (HashMap.get g.nodes id) (missing_node id))
      λ node. ok_or node.value (missing_value id)
