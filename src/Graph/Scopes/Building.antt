-- ===== src/Graph/Scopes/Building.antt =====
-- Creating a subgraph, and building one as a whole.
use attribute_graph.Common.{
  ◌≡◌, List, not, ◌&&◌, contains, refl, Option, none, some, Option-cases, inl, inr, ℕ, arith,
}
use attribute_graph.Common.HashMap
use attribute_graph.Common.HashMap.{HashMap}
use attribute_graph.Subgraph.{Subgraph, SubgraphRemoval}
use attribute_graph.Identity.{NodeId, node_id_key, SubgraphId, subgraph_id_key, checked_increment}
use attribute_graph.Graph.State.{
  AttributeGraph, Action, Outcome, returned, failed, panicked, out_of_fuel, continue_rule,
}
use attribute_graph.Graph.Invariant.{IsWellFormed, Keeps}
use attribute_graph.Graph.Invariant.Core.{SameCore-IsWellFormed}
use attribute_graph.Graph.Scopes.{
  create_subgraph, next_subgraph_id, link_parent, ensure_parent, build_subgraph, finish_build,
  with_subgraph, remove_subgraph, empty_subgraph,
}
use attribute_graph.Graph.Scopes.Construction.{Builds, with_subgraph-Builds}
use attribute_graph.Graph.Scopes.Removal.{remove_subgraph_lem}
use attribute_graph.Graph.Scopes.Removal.Nodes.{has_node}
use attribute_graph.Error.{GraphError}
use attribute_graph.Rule.{RuleHandle, DestroyFn}

subgraphs-IsWellFormed :
    (g : AttributeGraph) (subgraphs : HashMap SubgraphId Subgraph) (next : ℕ)
    → IsWellFormed g
    → IsWellFormed (record g { subgraphs = subgraphs; next_subgraph_id = next })
subgraphs-IsWellFormed g subgraphs next =
    SameCore-IsWellFormed
      (record { nodes = refl; dependents = refl; pending = refl; id = refl; next = omega arith })

next_subgraph_id-Keeps : Keeps IsWellFormed next_subgraph_id
unfolding next_subgraph_id
next_subgraph_id-Keeps g wf = elim (Option-cases (checked_increment g.next_subgraph_id)) [
  | inl spent ↦ rw (spent, next_subgraph_id) wf
  | inr (next, more) ↦ rw (more, next_subgraph_id) (subgraphs-IsWellFormed g g.subgraphs next wf)
]

-- The construction stack is a given one.
abbrev HasStack : List SubgraphId → AttributeGraph → Type 0
HasStack stack g = g.construction_subgraphs ≡ stack

link_parent-Keeps :
    (id : SubgraphId) (parent : Option SubgraphId) → Keeps IsWellFormed (link_parent id parent)
link_parent-Keeps id none g wf = wf
link_parent-Keeps id (some parent) g wf = elim (Option-cases (HashMap.get g.subgraphs parent)) [
  | inl missing ↦ rw (missing, link_parent) wf
  | inr (s, found) ↦ rw (found, link_parent) (subgraphs-IsWellFormed g _ g.next_subgraph_id wf)
]

create_subgraph-Keeps : (parent : Option SubgraphId) → Keeps IsWellFormed (create_subgraph parent)
unfolding create_subgraph
create_subgraph-Keeps parent g wf =
    continue_rule IsWellFormed (ensure_parent parent g) _ g wf λ _ _.
      continue_rule IsWellFormed (next_subgraph_id g).0 _ (next_subgraph_id g).1
        (next_subgraph_id-Keeps g wf)
        λ id _.
          let k = (next_subgraph_id g).1 in
          let with_new = record k {
            subgraphs = HashMap.insert k.subgraphs id (empty_subgraph id parent);
          } in
          let linked = link_parent-Keeps id parent with_new (
            subgraphs-IsWellFormed k with_new.subgraphs k.next_subgraph_id
              (next_subgraph_id-Keeps g wf)) in
          continue_rule IsWellFormed (link_parent id parent with_new).0 _
            (link_parent id parent with_new).1 linked λ _ _. linked

finish_build-Keeps :
    {R : Type 0} (id : SubgraphId) (o : Outcome R) → Keeps IsWellFormed (finish_build id o)
finish_build-Keeps id (returned value) g wf = wf
finish_build-Keeps id (failed error) g wf =
    continue_rule IsWellFormed (remove_subgraph id g).0 _ (remove_subgraph id g).1
      (remove_subgraph_lem id g wf).0 λ _ _. (remove_subgraph_lem id g wf).0
finish_build-Keeps id panicked g wf = (remove_subgraph_lem id g wf).0
finish_build-Keeps id out_of_fuel g wf = wf

pub build_subgraph-IsWellFormed :
    {R : Type 0} (parent : Option SubgraphId) (build : SubgraphId → Action R) (g : AttributeGraph)
    → ((id : SubgraphId) → Builds (build id))
    → IsWellFormed g
    → IsWellFormed (build_subgraph parent build g).1
unfolding build_subgraph
build_subgraph-IsWellFormed parent build g builds wf =
    let created = create_subgraph-Keeps parent g wf in
    continue_rule IsWellFormed (create_subgraph parent g).0 _ (create_subgraph parent g).1 created
      λ id _.
        let r = with_subgraph id (build id) (create_subgraph parent g).1 in
        finish_build-Keeps id r.0 r.1
          ((with_subgraph-Builds id (build id) (builds id)).well_formed _ created)

-- What an undone build leaves: the subgraph is gone, and so are the nodes that its removal reported.
abbrev pub IsUndone : SubgraphId → SubgraphRemoval → AttributeGraph → AttributeGraph → Type 0
IsUndone id removal h g =
    (HashMap.get g.subgraphs id ≡ none)
    × ((x : NodeId) → has_node g x ≡ (has_node h x && not (contains removal.nodes x)))

-- What `build_subgraph` makes of the graph `h` and the outcome with which the closure ends.
record Finishes {R : Type 0} (id : SubgraphId) (o : Outcome R) (h : AttributeGraph)
    (removed : Outcome (SubgraphRemoval × List (DestroyFn × RuleHandle)))
    (r : Outcome (SubgraphId × R) × AttributeGraph) : Type 0 where
  kept : (value : R) → o ≡ returned value → r ≡ (returned (id, value), h)
  undone :
      (removal : SubgraphRemoval) (calls : List (DestroyFn × RuleHandle))
      → removed ≡ returned (removal, calls)
      → ((e : GraphError) → o ≡ failed e → (r.0 ≡ failed e) × IsUndone id removal h r.1)
        × (o ≡ panicked → (r.0 ≡ panicked) × IsUndone id removal h r.1)
