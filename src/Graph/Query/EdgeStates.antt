-- ===== src/Graph/Query/EdgeStates.antt =====
-- What `edge_state` tells.
use attribute_graph.Common.{
  ◌≡◌, inl, inr, ap, true, Option, if◌then◌else◌, contains, is_some, arith, Option-cases,
}
use attribute_graph.Common.HashMap
use attribute_graph.Identity.{NodeId, node_id_key}
use attribute_graph.Dependency.{edge, edge_key, inactive, settled, pending}
use attribute_graph.Node.{Node}
use attribute_graph.Graph.State.{AttributeGraph, returned}
use attribute_graph.Graph.Propagate.Invalidates.{ensure_node-present}
use attribute_graph.Graph.Commit.{successors}
use attribute_graph.Graph.Query.{edge_state}
use attribute_graph.Graph.Invariant.{dependencies_at, IsWellFormed}

-- Between two nodes of a well-formed graph, an edge is reported as pending when it is among the pending
-- edges, as settled when the second node is else among the first one's dependents, and as inactive
-- otherwise.
pub edge_state_lem :
    (g : AttributeGraph) (x y : NodeId)
    → IsWellFormed g
    → is_some (HashMap.get g.nodes x) ≡ true
    → is_some (HashMap.get g.nodes y) ≡ true
    → edge_state g x y
      ≡ returned (
          if contains g.pending_edges (edge x y)
          then pending
          else if contains (successors g x) y
          then settled
          else inactive)
unfolding edge_state
edge_state_lem g x y wf px py = elim (Option-cases (HashMap.get g.nodes y)) [
  | inl absent ↦ absurd (ground arith)
  | inr (node, found) ↦ ground (
    arith,
    ensure_node-present g x wf px,
    ensure_node-present g y wf py,
    ap (λ (o : Option Node). contains (dependencies_at o) x) found,
    wf.mirrored x y,
    wf.pending x y,
  )
]
