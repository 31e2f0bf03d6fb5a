-- ===== src/Graph/Invariant.antt =====
-- The well-formedness of a graph: how the two directions of an edge, the pending edges and the nodes
-- belong together, and that no dependency cycle exists.
pub mod Core
pub mod Tidy
use attribute_graph.Common.{
  ℕ, ◌<◌, ◌≡◌, refl, Bool, true, false, Option, none, some, List, [], ◌∷◌, contains, IsDistinct,
  is_some,
}
use attribute_graph.Common.HashMap
use attribute_graph.Common.HashSet.{HashSet}
use attribute_graph.Identity.{NodeId, node_id_key}
use attribute_graph.Dependency.{edge, edge_key}
use attribute_graph.Node.{Node}
use attribute_graph.Graph.State.{AttributeGraph, empty_graph, Outcome, Action}
use attribute_graph.Graph.Guards.{is_source}
use attribute_graph.Graph.Commit.{successors}

abbrev pub dependencies_at : Option Node → HashSet NodeId
dependencies_at none = []
dependencies_at (some node) = node.active_dependencies

abbrev pub dependencies : AttributeGraph → NodeId → HashSet NodeId
dependencies g id = dependencies_at (HashMap.get g.nodes id)

abbrev pub IsEdge : AttributeGraph → NodeId → NodeId → Type 0
IsEdge g x y = contains (successors g x) y ≡ true

-- A walk along the edges, from a dependency to what depends on it.
pub data Reaches (g : AttributeGraph) (x : NodeId) : NodeId → Type 0 where
  here : Reaches g x x
  step : {y z : NodeId} → Reaches g x y → IsEdge g y z → Reaches g x z

-- A source has no dependencies, and a derived node has a rule.
abbrev pub IsShaped : Node → Type 0
IsShaped node =
    (is_source node.kind ≡ true → (node.active_dependencies ≡ []) × (is_some node.value ≡ true))
    × (is_source node.kind ≡ false → is_some node.rule ≡ true)

-- No map lists a key twice, and no set a member.
pub record IsTidy (g : AttributeGraph) : Type 0 where
  pub nodes : IsDistinct (HashMap.keys g.nodes)
  pub dependents : IsDistinct (HashMap.keys g.dependents)
  pub reads : (x : NodeId) → IsDistinct (dependencies g x)
  pub edges : (x : NodeId) → IsDistinct (successors g x)

pub record IsWellFormed (g : AttributeGraph) : Type 0 where
  -- A node stands under its own id, which this graph gave out.
  pub named :
      (x : NodeId) (node : Node)
      → HashMap.get g.nodes x ≡ some node
      → (node.id ≡ x) × (x.graph ≡ g.id) × (x.local < g.next_node_id)
  pub shaped : (x : NodeId) (node : Node) → HashMap.get g.nodes x ≡ some node → IsShaped node
  pub keyed : (x : NodeId) → is_some (HashMap.get g.dependents x) ≡ is_some (HashMap.get g.nodes x)
  -- `dependents` and the nodes' dependency sets tell of the same edges.
  pub mirrored : (x y : NodeId) → contains (successors g x) y ≡ contains (dependencies g y) x
  pub pending : (x y : NodeId) → contains g.pending_edges (edge x y) ≡ true → IsEdge g x y
  pub acyclic : (x y : NodeId) → Reaches g x y → contains (successors g y) x ≡ false
  pub tidy : IsTidy g

abbrev pub Keeps : {A : Type 0} → (AttributeGraph → Type 0) → Action A → Type 0
Keeps P m = (g : AttributeGraph) → P g → P (m g).1

pub empty_graph-IsWellFormed : (id : ℕ) → IsWellFormed (empty_graph id)
unfolding HashMap.get HashMap.keys successors contains
empty_graph-IsWellFormed id = record {
  named = λ x node e. cc;
  shaped = λ x node e. cc;
  keyed = λ x. refl;
  mirrored = λ x y. refl;
  pending = λ x y e. cc;
  acyclic = λ x y r. refl;
  tidy = record { nodes = tt; dependents = tt; reads = λ x. tt; edges = λ x. tt };
}
