-- ===== src/Examples/Scopes.antt =====
-- Building and removing subgraphs: the theorems at a graph with a subgraph that owns a source.
use attribute_graph.Common.{
  ◌≡◌, ◌∙◌, inl, inr, refl, none, not, ◌&&◌, contains, List, Option-cases, dedup, ◌↔◌, true, [],
  ◌∷◌,
}
use attribute_graph.Common.HashMap
use attribute_graph.Identity.{NodeId, SubgraphId, node_id_key, subgraph_id_key, checked_increment}
use attribute_graph.Error.{GraphError, cycle_detected}
use attribute_graph.Rule.{RuleHandle, DestroyFn}
use attribute_graph.Subgraph.{SubgraphRemoval}
use attribute_graph.Graph.State.{
  AttributeGraph, Action, fail, ◌>>◌, returned, failed, continue_rule,
}
use attribute_graph.Graph.Mutate.{
  add_source, remove_node, detach_node, forget_dependent, next_id, register_node, current_subgraph,
}
use attribute_graph.Graph.Mutate.Add.{add-IsWellFormed}
use attribute_graph.Graph.Invariant.{IsWellFormed}
use attribute_graph.Graph.Scopes.{
  build_subgraph, remove_subgraph, create_subgraph, next_subgraph_id, with_subgraph,
  subgraph_postorder, postorder_loop, find_active, owned_nodes, dependents_outside, remove_nodes,
  remove_subgraphs, drop_nodes,
}
use attribute_graph.Graph.Guards.{ensure_subgraph}
use attribute_graph.Graph.Query.{
  topological_order, in_degrees, ready_ids, order_loop, lower_degree, lower_degrees, insert_sorted,
}
use attribute_graph.Graph.Scopes.Construction.{Builds}
use attribute_graph.Graph.Scopes.Building.{build_subgraph-IsWellFormed}
use attribute_graph.Graph.Scopes.Removal.{remove_subgraph_lem}
use attribute_graph.Graph.Scopes.Removal.CutOff.{IsCutOff}
use attribute_graph.Graph.Scopes.Removal.Nodes.{has_node}
use attribute_graph.Examples.{eight, copy_rule, linked, linked-IsWellFormed, program}

next_id-balanced :
    (g : AttributeGraph) → (next_id g).1.construction_subgraphs ≡ g.construction_subgraphs
unfolding next_id
next_id-balanced g = elim (Option-cases (checked_increment g.next_node_id)) [
  | inl spent ↦ rw (spent, next_id) refl
  | inr (next, more) ↦ rw (more, next_id) refl
]

register_node-balanced :
    (id : NodeId) (g : AttributeGraph)
    → (register_node id g).1.construction_subgraphs ≡ g.construction_subgraphs
unfolding register_node
register_node-balanced id g = elim (Option-cases (current_subgraph g)) [
  | inl outside ↦ rw (outside, register_node) refl
  | inr (s, active) ↦ elim (Option-cases (HashMap.get g.subgraphs s)) [
    | inl missing ↦ rw (active, register_node, missing) refl
    | inr (owner, found) ↦ rw (active, register_node, found) refl
  ]
]

adds_eight : Builds (add_source eight)
unfolding add_source
adds_eight = record {
  well_formed = λ g wf. (add-IsWellFormed g eight copy_rule wf).0;
  balanced = λ g.
      continue_rule (λ k. k.construction_subgraphs ≡ g.construction_subgraphs) (next_id g).0 _
        (next_id g).1 (next_id-balanced g)
        λ id _.
          let k = (next_id g).1 in
          let kept = register_node-balanced id k ∙ next_id-balanced g in
          continue_rule (λ k'. k'.construction_subgraphs ≡ g.construction_subgraphs)
            (register_node id k).0 _ (register_node id k).1 kept λ _ _. kept;
}

abbrev scope : SubgraphId
scope = record { graph = 1; local = 0 }

abbrev scoped : AttributeGraph
scoped = (build_subgraph none (λ _. add_source eight) linked).1

-- A closure that adds a source and then fails.
abbrev fails : SubgraphId → Action NodeId
fails _ = do add_source eight; fail cycle_detected

abbrev created : AttributeGraph
created = (create_subgraph none linked).1

-- The graph that the failing closure leaves behind; it has the new source.
abbrev broken : AttributeGraph
broken = (with_subgraph scope (fails scope) created).1

scoped-IsWellFormed : IsWellFormed scoped
scoped-IsWellFormed =
    build_subgraph-IsWellFormed none (λ _. add_source eight) linked (λ _. adds_eight)
      linked-IsWellFormed

remove_subgraph_example :
    IsWellFormed (remove_subgraph scope scoped).1
    × ((e : GraphError)
        → (remove_subgraph scope scoped).0 ≡ failed e
        → (remove_subgraph scope scoped).1 ≡ scoped)
    × ((removal : SubgraphRemoval) (calls : List (DestroyFn × RuleHandle))
        → (remove_subgraph scope scoped).0 ≡ returned (removal, calls)
        → (HashMap.get (remove_subgraph scope scoped).1.subgraphs scope ≡ none)
          × ((x : NodeId)
              → (has_node (remove_subgraph scope scoped).1 x
                  ≡ (has_node scoped x && not (contains removal.nodes x)))
                × ((contains removal.dirtied_dependents x ≡ true)
                    ↔ IsCutOff scoped removal.nodes x)))
remove_subgraph_example = remove_subgraph_lem scope scoped scoped-IsWellFormed

-- The nodes that the subgraph owns are the one source, which nobody reads.
removal_run :
    (remove_subgraph scope scoped).0
    ≡ returned (
      record {
        subgraphs = scope ∷ [];
        nodes = record { graph = 1; local = 2 } ∷ [];
        dirtied_dependents = [];
      },
      [],
    )
unfolding program build_subgraph create_subgraph next_subgraph_id with_subgraph remove_subgraph
    ensure_subgraph subgraph_postorder postorder_loop find_active owned_nodes dependents_outside
    remove_nodes remove_subgraphs drop_nodes remove_node detach_node dedup HashMap.remove
    topological_order in_degrees ready_ids order_loop lower_degree lower_degrees insert_sorted
    subgraph_id_key forget_dependent
removal_run = refl

-- The removal of the broken subgraph returns: it takes the new source out.
undo_run :
    (remove_subgraph scope broken).0
    ≡ returned (
      record {
        subgraphs = scope ∷ [];
        nodes = record { graph = 1; local = 2 } ∷ [];
        dirtied_dependents = [];
      },
      [],
    )
unfolding program build_subgraph create_subgraph next_subgraph_id with_subgraph remove_subgraph
    ensure_subgraph subgraph_postorder postorder_loop find_active owned_nodes dependents_outside
    remove_nodes remove_subgraphs drop_nodes remove_node detach_node dedup HashMap.remove
    topological_order in_degrees ready_ids order_loop lower_degree lower_degrees insert_sorted
    subgraph_id_key forget_dependent
undo_run = refl
