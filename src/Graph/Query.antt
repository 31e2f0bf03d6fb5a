-- ===== src/Graph/Query.antt =====
-- What the graph tells about itself: edges, their state, and the topological order.
pub mod EdgeStates
pub mod Edges
pub mod Remaining
pub mod Order
pub mod Complete
use attribute_graph.Common.{
  ℕ, zero, suc, not, none, some, List, [], ◌∷◌, ◌++◌, if◌then◌else◌, eqb, contains, length, sort,
}
use attribute_graph.Common.HashMap
use attribute_graph.Identity.{NodeId, node_id_key}
use attribute_graph.Error.{cycle_detected}
use attribute_graph.Dependency.{Edge, edge, edge_key, EdgeState, inactive, settled, pending}
use attribute_graph.Node.{Node, active_dependencies}
use attribute_graph.Graph.State.{
  AttributeGraph, Outcome, returned, failed, panicked, out_of_fuel, expect, and_then,
}
use attribute_graph.Graph.Guards.{ensure_node}
use attribute_graph.Graph.Propagate.{dependents_at}

unfoldable pub node_count : AttributeGraph → ℕ
node_count g = HashMap.len g.nodes

unfoldable pub dependencies_of : AttributeGraph → NodeId → Outcome (List NodeId)
dependencies_of g id =
    and_then (ensure_node g id)
      λ _. and_then (expect (HashMap.get g.nodes id)) λ node. returned (active_dependencies node)

unfoldable pub dependents_of : AttributeGraph → NodeId → Outcome (List NodeId)
dependents_of g id = and_then (ensure_node g id) λ _. returned (dependents_at g id)

abbrev pub edges_from : NodeId → List NodeId → List Edge
edges_from dependency [] = []
edges_from dependency (dependent ∷ rest) = edge dependency dependent ∷ edges_from dependency rest

unfoldable pub edge_list : HashMap.HashMap NodeId (List NodeId) → List Edge
edge_list [] = []
edge_list ((dependency, dependents) ∷ m) = edges_from dependency dependents ++ edge_list m

unfoldable pub edges : AttributeGraph → List Edge
edges g = sort (edge_list g.dependents)

unfoldable pub pending_edges : AttributeGraph → List Edge
pending_edges g = sort g.pending_edges

unfoldable pub edge_state : AttributeGraph → NodeId → NodeId → Outcome EdgeState
edge_state g dependency dependent = and_then (ensure_node g dependency) λ _.
    and_then (ensure_node g dependent) λ _.
      and_then (expect (HashMap.get g.nodes dependent)) λ node.
        if not (contains node.active_dependencies dependency)
        then returned inactive
        else if contains g.pending_edges (edge dependency dependent)
        then returned pending
        else returned settled

-- `insert_sorted`: before the first element that is greater.
unfoldable pub insert_sorted : List NodeId → NodeId → List NodeId
insert_sorted [] id = id ∷ []
insert_sorted (queued ∷ rest) id =
    if node_id_key.lt id queued then id ∷ queued ∷ rest else queued ∷ insert_sorted rest id

-- The variables of the loop of `topological_order`.
pub record Ordering : Type 0 where
  pub in_degree : HashMap.HashMap NodeId ℕ
  pub ready : List NodeId
  pub order : List NodeId

unfoldable pub in_degrees : HashMap.HashMap NodeId Node → HashMap.HashMap NodeId ℕ
in_degrees [] = []
in_degrees ((id, node) ∷ m) = (id, length node.active_dependencies) ∷ in_degrees m

unfoldable pub ready_ids : HashMap.HashMap NodeId ℕ → List NodeId
ready_ids [] = []
ready_ids ((id, degree) ∷ m) = if eqb degree 0 then id ∷ ready_ids m else ready_ids m

-- One dependent loses a dependency. An untracked dependent is a panic, and so is the underflow.
unfoldable pub lower_degree : NodeId → Ordering → Outcome Ordering
lower_degree dependent s = elim (HashMap.get s.in_degree dependent) [
  | none ↦ panicked
  | some zero ↦ panicked
  | some (suc degree) ↦ returned (record s {
    in_degree = HashMap.insert s.in_degree dependent degree;
    ready = if eqb degree 0 then insert_sorted s.ready dependent else s.ready;
  })
]

unfoldable pub lower_degrees : List NodeId → Ordering → Outcome Ordering
lower_degrees [] s = returned s
lower_degrees (dependent ∷ rest) s = and_then (lower_degree dependent s) (lower_degrees rest)

unfoldable pub order_loop : AttributeGraph → ℕ → Ordering → Outcome (List NodeId)
order_loop g zero s = elim s.ready [ [] ↦ returned s.order | _ ∷ _ ↦ out_of_fuel ]
order_loop g (suc fuel) s = elim s.ready [
  | [] ↦ returned s.order
  | id ∷ rest ↦
      and_then
        (lower_degrees (dependents_at g id) (record s { ready = rest; order = s.order ++ id ∷ [] }))
        (order_loop g fuel)
]

abbrev start_order : AttributeGraph → Ordering
start_order g =
    let degrees = in_degrees g.nodes in
    record { in_degree = degrees; ready = sort (ready_ids degrees); order = [] }

-- A node becomes ready once, so there are as many rounds as nodes at most.
unfoldable pub topological_order : AttributeGraph → Outcome (List NodeId)
topological_order g = and_then (order_loop g (HashMap.len g.nodes) (start_order g)) λ order.
    if eqb (length order) (HashMap.len g.nodes) then returned order else failed cycle_detected
