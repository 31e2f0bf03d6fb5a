-- ===== src/Graph/Mutate/Removed.antt =====
-- `remove_node` as a whole.
use attribute_graph.Common.{
  ◌≡◌, inl, inr, refl, sym, ap, ◌∙◌, Bool, true, false, Option, none, some, List, if◌then◌else◌,
  ◌==◌, is_some, Option-cases, subst, some_injective, Bool-cases,
}
use mathlib.Core.Option
use attribute_graph.Common.HashMap
use attribute_graph.Identity.{NodeId, node_id_key}
use attribute_graph.Node.{Node}
use attribute_graph.Graph.State.{continue_rule, expect_ok, AttributeGraph, Frame, Outcome, returned}
use attribute_graph.Graph.Propagate.{mark_changed, dependents_at}
use attribute_graph.Graph.Propagate.Changed.{mark_changed-Marks, mark_changed-IsWellFormed}
use attribute_graph.Graph.Propagate.Marks.{content}
use attribute_graph.Graph.Propagate.Stale.{dirty_at}
use attribute_graph.Graph.Propagate.Invalidates.{mark_changed_lem}
use attribute_graph.Graph.Mutate.{detach_node, remove_present, remove_node}
use attribute_graph.Graph.Mutate.Detach.{bare, Without, Without-IsWellFormed}
use attribute_graph.Graph.Mutate.Owners.{
  Disowned, Disowned-same, detach_node-Disowned, detach_node_stack,
}
use attribute_graph.Graph.Mutate.Remove.{detach_node-Without}
use attribute_graph.Graph.Invariant.{IsEdge, IsWellFormed}

dirty_at-bare : (o : Option Node) → dirty_at (Option.map bare o) ≡ dirty_at o
dirty_at-bare none = refl
dirty_at-bare (some n) = refl

dirty_at-if :
    (b : Bool) (o : Option Node) → dirty_at o ≡ true → dirty_at (if b then none else o) ≡ true
dirty_at-if true o h = refl
dirty_at-if false o h = h

content_at :
    (o : Option Node) (n : Node)
    → content o ≡ content (some n)
    → (m : Node) × (o ≡ some m) × (content (some m) ≡ content (some n))
content_at none n e = cc
content_at (some m) n e = (m, refl, e)

same_owner : (m n : Node) → content (some m) ≡ content (some n) → m.subgraph ≡ n.subgraph
same_owner m n e = ap (λ (k : Node). k.subgraph) (some_injective e)

remove_present-found :
    (g : AttributeGraph) (id : NodeId) (node : Node)
    → HashMap.get g.nodes id ≡ some node
    → remove_present id g ≡ (returned (some node), detach_node node id g)
remove_present-found g id node found = rw (found, remove_present) refl

remove_node-present :
    (g : AttributeGraph) (id : NodeId) (ids : List NodeId)
    → is_some (HashMap.get g.nodes id) ≡ true
    → (mark_changed id g).0 ≡ returned ids
    → remove_node id g ≡ remove_present id (mark_changed id g).1
unfolding remove_node HashMap.contains_key
remove_node-present g id ids present marked = rw (present, marked) refl

-- Removing an absent node does nothing.
remove_node-absent :
    (g : AttributeGraph) (id : NodeId)
    → HashMap.get g.nodes id ≡ none
    → remove_node id g ≡ (returned none, g)
unfolding remove_node HashMap.contains_key
remove_node-absent g id absent = rw absent refl

-- Removing a node of a well-formed graph returns the node, in the state that it had or another. Its
-- direct dependents are dirty afterwards, and the graph is, but for the marks, the old one without the
-- node: no entry, edge, dependency or pending edge with its id is left, and no other is lost; the subgraph
-- that owned it lists it no longer, and the subgraphs are the old ones else.
pub remove_node_lem :
    (g : AttributeGraph) (id : NodeId) (node : Node)
    → IsWellFormed g
    → HashMap.get g.nodes id ≡ some node
    → ((removed : Node) × ((remove_node id g).0 ≡ returned (some removed))
        × (content (some removed) ≡ content (some node)))
      × ((y : NodeId) → IsEdge g id y → dirty_at (HashMap.get (remove_node id g).1.nodes y) ≡ true)
      × Without id (mark_changed id g).1 (remove_node id g).1
      × Disowned node.subgraph id g (remove_node id g).1
remove_node_lem g id node wf found =
    let m = mark_changed_lem g id wf (ap is_some found) in
    let g' = (mark_changed id g).1 in
    let (removed, held, same) =
      content_at (HashMap.get g'.nodes id) node (m.3 id ∙ ap content found) in
    let without = detach_node-Without g' id removed (mark_changed-IsWellFormed id g wf) held in
    let runs : remove_node id g ≡ (returned (some removed), detach_node removed id g') =
      remove_node-present g id (dependents_at g id) (ap is_some found) m.0
      ∙ remove_present-found g' id removed held in
    subst
      (λ (r : Outcome (Option Node) × AttributeGraph).
        ((k : Node) × (r.0 ≡ returned (some k)) × (content (some k) ≡ content (some node)))
        × ((y : NodeId) → IsEdge g id y → dirty_at (HashMap.get r.1.nodes y) ≡ true)
        × Without id (mark_changed id g).1 r.1
        × Disowned node.subgraph id g r.1)
      (sym runs)
      (
        (removed, refl, same),
        λ y e.
            sym (dirty_at-bare (HashMap.get (detach_node removed id g').nodes y))
            ∙ ap dirty_at (without.nodes y)
            ∙ dirty_at-if (id == y) (Option.map bare (HashMap.get g'.nodes y))
                (dirty_at-bare (HashMap.get g'.nodes y) ∙ m.1 y e),
        without,
        Disowned-same (sym (ap (λ (f : Frame). f.subgraphs) (mark_changed-Marks id g).framed)) refl
            (subst (λ o. Disowned o id g' (detach_node removed id g'))
              (same_owner removed node same) (detach_node-Disowned removed id g')),
      )

-- Removing a node keeps a well-formed graph well-formed.
pub remove_node-IsWellFormed :
    (id : NodeId) (g : AttributeGraph) → IsWellFormed g → IsWellFormed (remove_node id g).1
remove_node-IsWellFormed id g wf = elim (Option-cases (HashMap.get g.nodes id)) [
  | inl absent ↦ rw (remove_node-absent g id absent) wf
  | inr (node, found) ↦
      Without-IsWellFormed (remove_node_lem g id node wf found).2
        (mark_changed-IsWellFormed id g wf)
]

remove_present_stack :
    (id : NodeId) (g : AttributeGraph)
    → (remove_present id g).1.construction_subgraphs ≡ g.construction_subgraphs
remove_present_stack id g = elim (Option-cases (HashMap.get g.nodes id)) [
  | inl absent ↦ rw (absent, remove_present) refl
  | inr (node, found) ↦ rw (found, remove_present) (detach_node_stack node id g)
]

-- Removing a node leaves the construction stack alone, on every way out.
pub remove_node_stack :
    (id : NodeId) (g : AttributeGraph)
    → (remove_node id g).1.construction_subgraphs ≡ g.construction_subgraphs
unfolding remove_node
remove_node_stack id g =
    let marked = ap (λ (f : Frame). f.construction_subgraphs) (mark_changed-Marks id g).framed in
    elim (Bool-cases (HashMap.contains_key g.nodes id)) [
      | inr absent ↦ rw absent refl
      | inl present ↦ rw present (
          continue_rule
            (λ (h : AttributeGraph). h.construction_subgraphs ≡ g.construction_subgraphs)
            (expect_ok (mark_changed id g).0) _ (mark_changed id g).1 marked
            λ _ _. remove_present_stack id (mark_changed id g).1 ∙ marked)
    ]
