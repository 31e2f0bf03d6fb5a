-- ===== src/Graph/Propagate/Invalidates.antt =====
-- `mark_changed` as a whole.
use attribute_graph.Common.{
  ◌+◌, ◌&&◌, ◌≤◌, ◌≡◌, inl, inr, refl, sym, ap, ◌∙◌, true, Option, none, some, List, [], ◌∷◌,
  contains, is_some, arith, length, Option-cases,
}
use attribute_graph.Common.HashSet
use attribute_graph.Common.HashSet.{HashSet}
use attribute_graph.Common.HashMap
use attribute_graph.Common.Sort.{length-sort}
use attribute_graph.Common.HashMap.{HashMap, contains-keys, length-keys}
use attribute_graph.Identity.{NodeId, node_id_key}
use attribute_graph.Dependency.{edge, edge_key, sorted_ids}
use attribute_graph.Node.{Node}
use attribute_graph.Graph.State.{AttributeGraph, returned}
use attribute_graph.Graph.Guards.{ensure_node}
use attribute_graph.Graph.Propagate.{
  dependents_at, mark_direct, spread_from, mark_changed, edge_count, total_length,
}
use attribute_graph.Graph.Commit.{successors, ids_at}
use attribute_graph.Graph.Invariant.{dependencies_at, IsEdge, Reaches, IsWellFormed}
use attribute_graph.Graph.Propagate.Marks.{Marks, content}
use attribute_graph.Graph.Propagate.Changed.{
  contains-dependents_at, AllFrom-dependents_at, mark_direct-Marks, mark_changed-Marks,
}
use attribute_graph.Graph.Propagate.Stale.{
  stale_at, dirty_at, Spread, spread-Spread, Spread-edges, Spread-direct, start-Spreading,
}
use attribute_graph.Graph.Propagate.Returns.{spread_returns, unseen_le}

-- One entry holds no more edges than the graph.
length-ids_at_le :
    (m : HashMap NodeId (HashSet NodeId)) (x : NodeId)
    → length (ids_at (HashMap.get m x)) ≤ total_length (HashMap.values m)
unfolding HashMap.get HashMap.values
length-ids_at_le [] x = omega arith
length-ids_at_le ((y, ids) ∷ m) x = ground (arith, length-ids_at_le m x)

-- An edge leads to a node.
edge-known :
    (g : AttributeGraph)
    → IsWellFormed g
    → (x y : NodeId) → IsEdge g x y
    → contains (HashMap.keys g.nodes) y ≡ true
unfolding contains
edge-known g wf x y e =
    contains-keys g.nodes y ∙ split (HashMap.get g.nodes y) (sym (wf.mirrored x y) ∙ e)
  where
    split : (o : Option Node) → contains (dependencies_at o) x ≡ true → is_some o ≡ true
    split none h = cc
    split (some n) h = refl

pub length-dependents_at :
    (g : AttributeGraph) (x : NodeId) → length (dependents_at g x) ≡ length (successors g x)
unfolding dependents_at successors sorted_ids
length-dependents_at g x = split (HashMap.get g.dependents x)
  where
    split : (o : Option (HashSet NodeId)) → length (sorted_ids o) ≡ length (ids_at o)
    split none = refl
    split (some ids) = length-sort ids

pub ensure_node-present :
    (g : AttributeGraph) (id : NodeId)
    → IsWellFormed g
    → is_some (HashMap.get g.nodes id) ≡ true
    → ensure_node g id ≡ returned tt
unfolding ensure_node
ensure_node-present g id wf present = elim (Option-cases (HashMap.get g.nodes id)) [
  | inl absent ↦ cc (rw absent at present)
  | inr (n, found) ↦ ground (arith, wf.named id n found)
]

module _ (g : AttributeGraph) (id : NodeId) (wf : IsWellFormed g) where
  abbrev ids : List NodeId
  ids = dependents_at g id

  abbrev direct : AttributeGraph
  direct = mark_direct id ids g

  direct-Marks : Marks g direct
  direct-Marks = mark_direct-Marks id ids g (AllFrom-dependents_at g id)

  spread_from_returns : (g' : AttributeGraph) × (spread_from ids direct ≡ some g')
  unfolding spread_from edge_count successors
  spread_from_returns =
      spread_returns g (edge-known g wf) (edge_count direct + HashMap.len direct.nodes)
        (record { graph = direct; queue = ids; seen = HashSet.from_list ids }) direct-Marks
        (omega (
          arith,
          length-dependents_at g id,
          length-ids_at_le g.dependents id,
          ap (λ (d : HashMap NodeId (HashSet NodeId)). total_length (HashMap.values d))
              direct-Marks.linked,
          unseen_le (HashMap.keys direct.nodes) (HashSet.from_list ids),
          length-keys direct.nodes,
        ))

  spread_from-Spread : (g' : AttributeGraph) → spread_from ids direct ≡ some g' → Spread g id g'
  unfolding spread_from
  spread_from-Spread g' e =
      spread-Spread g id _ id _ g' direct-Marks e
        (start-Spreading g id ids (contains-dependents_at g id))

-- On a well-formed graph, marking the dependents of a present node returns the sorted list of its direct
-- dependents. Afterwards they are dirty; every edge that leaves the node or a node reachable from it is
-- pending, and no node at the end of such an edge is clean; and of each node nothing but the state has
-- been written.
pub mark_changed_lem :
    (g : AttributeGraph) (id : NodeId)
    → IsWellFormed g
    → is_some (HashMap.get g.nodes id) ≡ true
    → ((mark_changed id g).0 ≡ returned (dependents_at g id))
      × ((y : NodeId) → IsEdge g id y → dirty_at (HashMap.get (mark_changed id g).1.nodes y) ≡ true)
      × ((x y : NodeId)
          → Reaches g id x
          → IsEdge g x y
          → (contains (mark_changed id g).1.pending_edges (edge x y)
              && stale_at (HashMap.get (mark_changed id g).1.nodes y))
            ≡ true)
      × ((x : NodeId)
          → content (HashMap.get (mark_changed id g).1.nodes x) ≡ content (HashMap.get g.nodes x))
unfolding mark_changed
mark_changed_lem g id wf present =
    let (g', e) = spread_from_returns g id wf in
    let s = spread_from-Spread g id wf g' e in
    let kept = (mark_changed-Marks id g).kept in
    let ok = ensure_node-present g id wf present in
    (
      rw (ok, e) refl,
      rw (ok, e) (Spread-direct g id g' s),
      rw (ok, e) (Spread-edges g id g' s),
      kept,
    )
