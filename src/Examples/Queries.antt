-- ===== src/Examples/Queries.antt =====
-- The topological order and the edges of the small graph.
use attribute_graph.Common.{◌≡◌, List, [], contains, IsDistinct, IsSorted, is_some}
use attribute_graph.Common.HashMap
use attribute_graph.Identity.{NodeId, node_id_key}
use attribute_graph.Graph.State.{returned}
use attribute_graph.Graph.Query.{topological_order, edges}
use attribute_graph.Graph.Query.Edges.{edges_lem}
use attribute_graph.Graph.Commit.{successors}
use attribute_graph.Dependency.{edge, edge_key}
use attribute_graph.Graph.Query.Order.{IsDependencyFirst}
use attribute_graph.Graph.Query.Complete.{topological_order_lem}
use attribute_graph.Examples.{linked, linked-IsWellFormed}

topological_order_example :
    (order : List NodeId) × (topological_order linked ≡ returned order)
    × IsDistinct order
    × ((x : NodeId) → contains order x ≡ is_some (HashMap.get linked.nodes x))
    × IsDependencyFirst linked [] order
topological_order_example = topological_order_lem linked linked-IsWellFormed

edges_example :
    ((x y : NodeId) → contains (edges linked) (edge x y) ≡ contains (successors linked x) y)
    × IsDistinct (edges linked)
    × IsSorted (edges linked)
edges_example = edges_lem linked linked-IsWellFormed
