-- ===== src/Graph/Scopes/Removal/Nodes.antt =====
-- The loop of `remove_subgraph` over the nodes: each is there, and they alone are gone.
use attribute_graph.Common.{
  ◌≡◌, inl, inr, refl, ap, Bool, true, not, ◌&&◌, Option, none, some, List, [], ◌∷◌, ◌==◌, contains,
  IsDistinct, is_some, arith, Option-cases, ==-refl, eq_of_==, sort, sym, ◌∙◌, subst,
}
use attribute_graph.Common.HashMap
use attribute_graph.Common.HashMap.{HashMap}
use attribute_graph.Identity.{NodeId, node_id_key, subgraph_id_key}
use attribute_graph.Node.{Node}
use attribute_graph.Graph.State.{
  continue_rule, expect, AttributeGraph, returned, returned_injective,
}
use attribute_graph.Graph.Mutate.{remove_node}
use attribute_graph.Graph.Mutate.Detach.{present_at}
use attribute_graph.Graph.Mutate.Removed.{
  remove_node_stack, remove_node_lem, remove_node-IsWellFormed,
}
use attribute_graph.Graph.Propagate.{mark_changed}
use attribute_graph.Graph.Propagate.Marks.{content}
use attribute_graph.Graph.Propagate.Invalidates.{mark_changed_lem}
use attribute_graph.Graph.Invariant.{IsWellFormed}
use attribute_graph.Graph.Scopes.{remove_nodes}
use mathlib.Core.List.{reverse}
use attribute_graph.Common.HashSet
use attribute_graph.Common.HashSet.{HashSet, contains-retain}
use attribute_graph.Common.Sort.{contains-sort}
use attribute_graph.Common.Distinct.{IsDistinct-retain, IsDistinct-reverse, contains-reverse}
use attribute_graph.Graph.Query.{topological_order}
use attribute_graph.Graph.Query.Complete.{topological_order_lem}

abbrev pub has_node : AttributeGraph → NodeId → Bool
has_node g x = is_some (HashMap.get g.nodes x)

is_some-content : (o p : Option Node) → content o ≡ content p → is_some o ≡ is_some p
is_some-content none none e = refl
is_some-content none (some n) e = cc
is_some-content (some m) none e = cc
is_some-content (some m) (some n) e = refl

-- Removing a node of a well-formed graph returns it; and it alone is gone.
remove_node-present :
    (g : AttributeGraph) (id : NodeId)
    → IsWellFormed g
    → has_node g id ≡ true
    → ((node : Node) × ((remove_node id g).0 ≡ returned (some node)))
      × ((x : NodeId) → has_node (remove_node id g).1 x ≡ (has_node g x && not (id == x)))
remove_node-present g id wf present = elim (Option-cases (HashMap.get g.nodes id)) [
  | inl absent ↦ absurd (ground arith)
  | inr (node, found) ↦
      let (taken, dirtied, without, disowned) = remove_node_lem g id node wf found in
      (
        (taken.0, taken.1),
        λ x. ground (
          arith,
          present_at (HashMap.get (remove_node id g).1.nodes x)
              (HashMap.get (mark_changed id g).1.nodes x) (id == x) (without.nodes x),
          is_some-content (HashMap.get (mark_changed id g).1.nodes x) (HashMap.get g.nodes x)
              ((mark_changed_lem g id wf present).3 x),
        ),
      )
]

-- Removing distinct nodes one after the other returns, and they alone are gone.
pub remove_nodes_lem :
    (ids : List NodeId) (g : AttributeGraph)
    → IsWellFormed g
    → IsDistinct ids
    → ((x : NodeId) → contains ids x ≡ true → has_node g x ≡ true)
    → ((nodes : List Node) × ((remove_nodes ids g).0 ≡ returned nodes))
      × IsWellFormed (remove_nodes ids g).1
      × ((x : NodeId) → has_node (remove_nodes ids g).1 x ≡ (has_node g x && not (contains ids x)))
unfolding remove_nodes contains
remove_nodes_lem [] g wf d known = (([], refl), wf, λ x. ground arith)
remove_nodes_lem (id ∷ rest) g wf d known =
    let ((node, took), gone) =
      remove_node-present g id wf (known id (ground (arith, ==-refl id))) in
    let ((nodes, took_rest), wf', gone_rest) =
      remove_nodes_lem rest (remove_node id g).1 (remove_node-IsWellFormed id g wf) d.1 λ x m.
        ground (
          arith,
          gone x,
          known x (ground arith),
          d.0,
          ap (contains rest) {x = id} {y = x},
          eq_of_== id x,
        ) in
    rw (took, took_rest) ((node ∷ nodes, refl), wf', λ x. ground (arith, gone x, gone_rest x))

listed_once :
    (g : AttributeGraph) (order : List NodeId)
    → IsWellFormed g
    → topological_order g ≡ returned order
    → IsDistinct order × ((x : NodeId) → contains order x ≡ has_node g x)
listed_once g order wf ordered =
    let (sorted, ran, distinct, members, first) = topological_order_lem g wf in
    let same : sorted ≡ order = returned_injective (sym ran ∙ ordered) in
    subst (λ (o : List NodeId). IsDistinct o × ((x : NodeId) → contains o x ≡ has_node g x)) same
      (distinct, members)

-- Removing what is to go of a graph, the nodes that depend on others first.
pub remove_ordered :
    (g : AttributeGraph) (removed : HashSet NodeId) (order : List NodeId)
    → IsWellFormed g
    → topological_order g ≡ returned order
    → (let r = remove_nodes (reverse (HashSet.retain (contains removed) order)) g in
        ((nodes : List Node) × (r.0 ≡ returned nodes))
        × IsWellFormed r.1
        × ((x : NodeId) → has_node r.1 x ≡ (has_node g x && not (contains (sort removed) x))))
remove_ordered g removed order wf ordered =
    let (distinct, members) = listed_once g order wf ordered in
    let going = HashSet.retain (contains removed) order in
    let chosen : (x : NodeId) → contains (reverse going) x ≡ (contains removed x && has_node g x) =
      λ x.
        ground (
          arith,
          contains-reverse going x,
          contains-retain (contains removed) order x,
          members x,
        ) in
    let (taken, well_formed, gone) =
      remove_nodes_lem (reverse going) g wf
        (IsDistinct-reverse going (IsDistinct-retain (contains removed) order distinct))
        λ x m. ground (arith, chosen x) in
    (taken, well_formed, λ x. ground (arith, gone x, chosen x, contains-sort removed x))

-- On every way out.
pub remove_nodes_stack :
    (ids : List NodeId) (g : AttributeGraph)
    → (remove_nodes ids g).1.construction_subgraphs ≡ g.construction_subgraphs
unfolding remove_nodes
remove_nodes_stack [] g = refl
remove_nodes_stack (id ∷ rest) g =
    let P : AttributeGraph → Type 0 = λ h. h.construction_subgraphs ≡ g.construction_subgraphs in
    continue_rule P (remove_node id g).0 _ (remove_node id g).1 (remove_node_stack id g) λ o _.
      continue_rule P (expect o) _ (remove_node id g).1 (remove_node_stack id g) λ node _.
        let later = remove_nodes_stack rest (remove_node id g).1 ∙ remove_node_stack id g in
        continue_rule P (remove_nodes rest (remove_node id g).1).0 _
          (remove_nodes rest (remove_node id g).1).1 later λ _ _. later
