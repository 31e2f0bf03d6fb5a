-- ===== src/Graph/Mutate.antt =====
-- Nodes are added, written and removed.
pub mod Owners
pub mod Add
pub mod Write
pub mod Detach
pub mod Remove
pub mod Removed
use attribute_graph.Common.{
  ℕ, ◌≡◌, Bool, true, false, not, ◌&&◌, Option, none, some, List, [], ◌∷◌, if◌then◌else◌, ◌==◌,
}
use attribute_graph.Common.HashSet
use attribute_graph.Common.HashSet.{HashSet}
use attribute_graph.Common.HashMap
use attribute_graph.Identity.{NodeId, SubgraphId, node_id_key, subgraph_id_key, checked_increment}
use attribute_graph.Value.{ValueStorage, meaningfully_changed_from}
use attribute_graph.Rule.{RuleDescriptor}
use attribute_graph.Dependency.{Edge}
use attribute_graph.Node.{Node, NodeKind, source, derived, NodeState, clean, dirty}
use attribute_graph.Subgraph.{Subgraph}
use attribute_graph.Graph.State.{
  AttributeGraph, Outcome, returned, failed, panicked, expect, expect_ok, Action, pure, observe,
  gets, update, ◌>>=◌, ◌>>◌,
}
use attribute_graph.Graph.Guards.{ensure_source, ensure_node_value_type}
use attribute_graph.Graph.Propagate.{mark_changed}

-- Used ids are never given out again: the counter only grows, and its overflow is a panic.
unfoldable pub next_id : Action NodeId
next_id g = elim (checked_increment g.next_node_id) [
  | none ↦ (panicked, g)
  | some next ↦
      (returned (record { graph = g.id; local = g.next_node_id }), record g { next_node_id = next })
]

-- The top of the construction stack.
unfoldable pub current_subgraph : AttributeGraph → Option SubgraphId
current_subgraph g = elim g.construction_subgraphs [ [] ↦ none | top ∷ _ ↦ some top ]

abbrev own_node : NodeId → Subgraph → Subgraph
own_node id s = record s { nodes = HashSet.insert s.nodes id }

unfoldable pub register_node : NodeId → Action (Option SubgraphId)
register_node id g = elim (current_subgraph g) [
  | none ↦ (returned none, g)
  | some s ↦ elim (HashMap.get g.subgraphs s) [
    | none ↦ (panicked, g)
    | some _ ↦
        (returned (some s), record g { subgraphs = HashMap.modify g.subgraphs s (own_node id) })
  ]
]

abbrev default_entry :
    HashMap.HashMap NodeId (HashSet NodeId) → NodeId → HashMap.HashMap NodeId (HashSet NodeId)
default_entry m id = elim (HashMap.get m id) [ none ↦ HashMap.insert m id [] | some _ ↦ m ]

abbrev insert_node : NodeId → Node → AttributeGraph → AttributeGraph
insert_node id node g = record g {
  nodes = HashMap.insert g.nodes id node;
  dependents = default_entry g.dependents id;
}

abbrev pub source_node : NodeId → Option SubgraphId → ValueStorage → Node
source_node id subgraph value = record {
  id = id;
  subgraph = subgraph;
  kind = source;
  state = clean;
  value = some value;
  active_dependencies = [];
  rule = none;
}

abbrev pub derived_node : NodeId → Option SubgraphId → RuleDescriptor → Node
derived_node id subgraph rule = record {
  id = id;
  subgraph = subgraph;
  kind = derived;
  state = dirty;
  value = none;
  active_dependencies = [];
  rule = some rule;
}

unfoldable pub add_source : ValueStorage → Action NodeId
add_source value = do
  id ← next_id
  subgraph ← register_node id
  update (insert_node id (source_node id subgraph value))
  pure id

unfoldable pub add_derived : RuleDescriptor → Action NodeId
add_derived rule = do
  id ← next_id
  subgraph ← register_node id
  update (insert_node id (derived_node id subgraph rule))
  pure id

abbrev pub write_source : NodeId → ValueStorage → AttributeGraph → AttributeGraph
write_source id value g = record g {
  nodes =
      HashMap.modify g.nodes id
        (λ (node : Node). record node { value = some value; state = clean });
}

unfoldable pub set_source_value : NodeId → ValueStorage → Action (List NodeId)
set_source_value id value = do
  observe (λ g. ensure_source g id)
  observe (λ g. ensure_node_value_type g id value.value_type)
  node ← observe (λ g. expect (HashMap.get g.nodes id))
  let value_changed = meaningfully_changed_from value node.value
  update (write_source id value)
  if value_changed then mark_changed id else pure []

abbrev disown_node : NodeId → Subgraph → Subgraph
disown_node id s = record s { nodes = HashSet.remove s.nodes id }

abbrev release_from_subgraph : NodeId → Option SubgraphId → AttributeGraph → AttributeGraph
release_from_subgraph id none g = g
release_from_subgraph id (some s) g = record g {
  subgraphs = HashMap.modify g.subgraphs s (disown_node id);
}

-- The loop over the removed node's dependencies.
unfoldable pub forget_dependent :
    NodeId
    → List NodeId
    → HashMap.HashMap NodeId (HashSet NodeId)
    → HashMap.HashMap NodeId (HashSet NodeId)
forget_dependent id [] m = m
forget_dependent id (dependency ∷ rest) m =
    forget_dependent id rest (HashMap.modify m dependency (λ ids. HashSet.remove ids id))

abbrev pub drop_dependency : NodeId → Node → Node
drop_dependency id node = record node {
  active_dependencies = HashSet.remove node.active_dependencies id;
}

-- The loop over the removed node's dependents.
unfoldable pub forget_dependency :
    NodeId → List NodeId → HashMap.HashMap NodeId Node → HashMap.HashMap NodeId Node
forget_dependency id [] m = m
forget_dependency id (dependent ∷ rest) m =
    forget_dependency id rest (HashMap.modify m dependent (drop_dependency id))

abbrev touches : NodeId → Edge → Bool
touches id e = not (not (e.dependency == id) && not (e.dependent == id))

abbrev detach_dependents : NodeId → AttributeGraph → AttributeGraph
detach_dependents id g = elim (HashMap.get g.dependents id) [
  | none ↦ g
  | some dependents ↦ record g {
    dependents = HashMap.remove g.dependents id;
    nodes = forget_dependency id dependents g.nodes;
  }
]

-- What `remove_node` writes once the dependents have been invalidated.
unfoldable pub detach_node : Node → NodeId → AttributeGraph → AttributeGraph
detach_node node id g =
    let g1 =
      release_from_subgraph id node.subgraph (record g { nodes = HashMap.remove g.nodes id }) in
    let g2 = record g1 {
      dependents = forget_dependent id node.active_dependencies g1.dependents;
    } in
    let g3 = detach_dependents id g2 in
    record g3 { pending_edges = HashSet.retain (λ e. not (touches id e)) g3.pending_edges }

abbrev remove_present : NodeId → Action (Option Node)
remove_present id g = elim (HashMap.get g.nodes id) [
  | none ↦ (returned none, g)
  | some node ↦ (returned (some node), detach_node node id g)
]

-- `self.mark_changed(id).expect(..)`
abbrev mark_removed : NodeId → Action (List NodeId)
mark_removed id g = let (outcome, g') = mark_changed id g in (expect_ok outcome, g')

unfoldable pub remove_node : NodeId → Action (Option Node)
remove_node id = do
  present ← gets (λ g. HashMap.contains_key g.nodes id)
  if not present then pure none else do mark_removed id; remove_present id
