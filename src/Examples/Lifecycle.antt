-- ===== src/Examples/Lifecycle.antt =====
-- Adding, writing and removing nodes: the theorems at the small graph.
use attribute_graph.Common.{
  ◌≡◌, true, false, none, some, [], if◌then◌else◌, ◌==◌, contains, ◌&&◌, refl,
}
use attribute_graph.Common.HashMap
use attribute_graph.Identity.{NodeId, node_id_key}
use attribute_graph.Dependency.{edge, edge_key}
use attribute_graph.Node.{Node, source, derived, clean, dirty, value_type}
use attribute_graph.Graph.Propagate.{dependents_at, mark_changed}
use attribute_graph.Graph.Propagate.Marks.{content}
use attribute_graph.Graph.Propagate.Stale.{stale_at, dirty_at}
use attribute_graph.Graph.Mutate.{
  set_source_value, remove_node, add_source, add_derived, source_node,
}
use attribute_graph.Graph.Mutate.Write.{set_source_value_lem, set_source_value-IsWellFormed}
use attribute_graph.Graph.Mutate.Detach.{Without}
use attribute_graph.Graph.Mutate.Owners.{Disowned, Owned}
use mathlib.Core.List
use attribute_graph.Graph.Mutate.Removed.{remove_node_lem, remove_node-IsWellFormed}
use attribute_graph.Graph.Invariant.{IsEdge, Reaches, IsWellFormed}
use attribute_graph.Value.{meaningfully_changed_from}
use attribute_graph.Graph.State.{returned}
use attribute_graph.Graph.Mutate.Add.{add-IsWellFormed}
use attribute_graph.Examples.{
  seven, eight, count, copy_rule, two_nodes, linked, two_nodes-IsWellFormed, linked-IsWellFormed,
  program,
}

add_example :
    IsWellFormed (add_source eight two_nodes).1
    × IsWellFormed (add_derived copy_rule two_nodes).1
    × ((id : NodeId)
        → (add_source eight two_nodes).0 ≡ returned id
        → (HashMap.get two_nodes.nodes id ≡ none)
          × ((x : NodeId)
              → HashMap.get (add_source eight two_nodes).1.nodes x ≡ (
                  if id == x
                  then some (record {
                    id = id;
                    subgraph = List.head? two_nodes.construction_subgraphs;
                    kind = source;
                    state = clean;
                    value = some eight;
                    active_dependencies = [];
                    rule = none;
                  })
                  else HashMap.get two_nodes.nodes x))
          × Owned
              (List.head? two_nodes.construction_subgraphs)
              id
              two_nodes
              (add_source eight two_nodes).1)
    × ((id : NodeId)
        → (add_derived copy_rule two_nodes).0 ≡ returned id
        → (HashMap.get two_nodes.nodes id ≡ none)
          × ((x : NodeId)
              → HashMap.get (add_derived copy_rule two_nodes).1.nodes x ≡ (
                  if id == x
                  then some (record {
                    id = id;
                    subgraph = List.head? two_nodes.construction_subgraphs;
                    kind = derived;
                    state = dirty;
                    value = none;
                    active_dependencies = [];
                    rule = some copy_rule;
                  })
                  else HashMap.get two_nodes.nodes x))
          × Owned
              (List.head? two_nodes.construction_subgraphs)
              id
              two_nodes
              (add_derived copy_rule two_nodes).1)
add_example = add-IsWellFormed two_nodes eight copy_rule two_nodes-IsWellFormed

set_source_value_example : IsWellFormed (set_source_value count eight linked).1
set_source_value_example = set_source_value-IsWellFormed count eight linked linked-IsWellFormed

remove_node_example : IsWellFormed (remove_node count linked).1
remove_node_example = remove_node-IsWellFormed count linked linked-IsWellFormed

abbrev count_node : Node
count_node = source_node count none seven

count_found : HashMap.get linked.nodes count ≡ some count_node
unfolding program
count_found = refl

count_typed : value_type count_node ≡ some eight.value_type
unfolding program
count_typed = refl

write_count_example :
    ((set_source_value count eight linked).0
      ≡ returned (
          if meaningfully_changed_from eight count_node.value
          then dependents_at linked count
          else []))
    × (HashMap.get (set_source_value count eight linked).1.nodes count
        ≡ some (record count_node { value = some eight; state = clean }))
    × (meaningfully_changed_from eight count_node.value ≡ true
        → (x y : NodeId) → Reaches linked count x
        → IsEdge linked x y
        → (contains (set_source_value count eight linked).1.pending_edges (edge x y)
            && stale_at (HashMap.get (set_source_value count eight linked).1.nodes y))
          ≡ true)
    × (meaningfully_changed_from eight count_node.value ≡ false
        → ((set_source_value count eight linked).1
            ≡ record linked { nodes = (set_source_value count eight linked).1.nodes })
          × ((x : NodeId)
              → HashMap.get (set_source_value count eight linked).1.nodes x ≡ (
                  if count == x
                  then some (record count_node { value = some eight; state = clean })
                  else HashMap.get linked.nodes x)))
write_count_example =
    set_source_value_lem linked count count_node eight linked-IsWellFormed count_found refl
      count_typed

remove_count_example :
    ((removed : Node) × ((remove_node count linked).0 ≡ returned (some removed))
      × (content (some removed) ≡ content (some count_node)))
    × ((y : NodeId)
        → IsEdge linked count y
        → dirty_at (HashMap.get (remove_node count linked).1.nodes y) ≡ true)
    × Without count (mark_changed count linked).1 (remove_node count linked).1
    × Disowned none count linked (remove_node count linked).1
remove_count_example = remove_node_lem linked count count_node linked-IsWellFormed count_found
