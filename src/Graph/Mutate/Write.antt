-- ===== src/Graph/Mutate/Write.antt =====
-- Writing a source.
use attribute_graph.Common.{
  ◌≡◌, inl, inr, refl, ap, ◌∙◌, true, false, ◌&&◌, some, [], if◌then◌else◌, contains, is_some,
  arith, Bool-cases, Option-cases, ==-refl, sym, subst, ◌==◌, ==-cases,
}
use mathlib.Core.Option
use attribute_graph.Common.HashMap
use attribute_graph.Common.HashMap.{get-modify}
use attribute_graph.Identity.{NodeId, node_id_key}
use attribute_graph.Value.{
  TypeDescriptor, ValueStorage, meaningfully_changed_from, type_eqb, type_eqb_iff,
}
use attribute_graph.Dependency.{edge, edge_key}
use attribute_graph.Node.{Node, clean, value_type}
use attribute_graph.Graph.State.{AttributeGraph, expect, returned, continue_rule}
use attribute_graph.Graph.Guards.{ensure_source, ensure_node_value_type, is_source}
use attribute_graph.Graph.Propagate.{dependents_at, mark_changed}
use attribute_graph.Graph.Propagate.Changed.{mark_changed-IsWellFormed}
use attribute_graph.Graph.Propagate.Apart.{mark_changed-apart}
use attribute_graph.Graph.Propagate.Stale.{stale_at}
use attribute_graph.Graph.Propagate.Invalidates.{ensure_node-present, mark_changed_lem}
use attribute_graph.Graph.Commit.{successors}
use attribute_graph.Graph.Mutate.{write_source, set_source_value}
use attribute_graph.Graph.Invariant.{IsEdge, Reaches, IsWellFormed}
use attribute_graph.Graph.Invariant.Core.{KeepsLinks, KeepsLinks-IsWellFormed, Reaches-of}

ensure_source-returned :
    (g : AttributeGraph) (id : NodeId)
    → ensure_source g id ≡ returned tt
    → (node : Node) × (HashMap.get g.nodes id ≡ some node) × (is_source node.kind ≡ true)
unfolding ensure_source
ensure_source-returned g id h = elim (Option-cases (HashMap.get g.nodes id)) [
  | inl absent ↦ ground arith
  | inr (node, found) ↦ (node, found, ground arith)
]

ensure_source-present :
    (g : AttributeGraph) (id : NodeId) (node : Node)
    → IsWellFormed g
    → HashMap.get g.nodes id ≡ some node
    → is_source node.kind ≡ true
    → ensure_source g id ≡ returned tt
unfolding ensure_source
ensure_source-present g id node wf found origin =
    ground (arith, ensure_node-present g id wf (ap is_some found))

type_eqb_refl : (t : TypeDescriptor) → type_eqb t t ≡ true
type_eqb_refl t = ground (arith, type_eqb_iff t t)

ensure_type-present :
    (g : AttributeGraph) (id : NodeId) (node : Node) (value : ValueStorage)
    → HashMap.get g.nodes id ≡ some node
    → value_type node ≡ some value.value_type
    → ensure_node_value_type g id value.value_type ≡ returned tt
unfolding ensure_node_value_type Option.bind
ensure_type-present g id node value found typed =
    rw (found, typed, type_eqb_refl value.value_type) refl

abbrev write : ValueStorage → Node → Node
write value node = record node { value = some value; state = clean }

write-KeepsLinks : (value : ValueStorage) → KeepsLinks (write value)
write-KeepsLinks value = record {
  id = λ n. refl;
  kind = λ n. refl;
  rule = λ n. refl;
  dependencies = λ n. refl;
  value = λ n h. refl;
}

write_source-IsWellFormed :
    (id : NodeId) (value : ValueStorage) (g : AttributeGraph)
    → IsWellFormed g
    → IsWellFormed (write_source id value g)
write_source-IsWellFormed id value g =
    KeepsLinks-IsWellFormed g id (write value) (write-KeepsLinks value)

-- Writing a source keeps a well-formed graph well-formed, on every way out.
pub set_source_value-IsWellFormed :
    (id : NodeId) (value : ValueStorage) (g : AttributeGraph)
    → IsWellFormed g
    → IsWellFormed (set_source_value id value g).1
unfolding set_source_value
set_source_value-IsWellFormed id value g wf =
    continue_rule IsWellFormed (ensure_source g id) _ g wf λ _ _.
      continue_rule IsWellFormed (ensure_node_value_type g id value.value_type) _ g wf λ _ _.
        continue_rule IsWellFormed (expect (HashMap.get g.nodes id)) _ g wf λ node _.
          elim (Bool-cases (meaningfully_changed_from value node.value)) [
            | inl changed ↦ rw changed (
                mark_changed-IsWellFormed id (write_source id value g)
                  (write_source-IsWellFormed id value g wf))
            | inr same ↦ rw same (write_source-IsWellFormed id value g wf)
          ]

module _ (g : AttributeGraph) (id : NodeId) (node : Node) (value : ValueStorage)
    (wf : IsWellFormed g) (found : HashMap.get g.nodes id ≡ some node)
    (origin : is_source node.kind ≡ true) where
  abbrev written : AttributeGraph
  written = write_source id value g

  written-found : HashMap.get written.nodes id ≡ some (write value node)
  written-found = ground (arith, get-modify g.nodes id (write value) id, ==-refl id)

  marked_lem :
      ((mark_changed id written).0 ≡ returned (dependents_at g id))
      × (HashMap.get (mark_changed id written).1.nodes id ≡ some (write value node))
      × ((x y : NodeId)
          → Reaches g id x
          → IsEdge g x y
          → (contains (mark_changed id written).1.pending_edges (edge x y)
              && stale_at (HashMap.get (mark_changed id written).1.nodes y))
            ≡ true)
  unfolding dependents_at successors
  marked_lem =
      let m =
        mark_changed_lem written id (write_source-IsWellFormed id value g wf)
          (ap is_some written-found) in
      (
        m.0,
        mark_changed-apart written id id
              (λ x r e. cc (sym ((write_source-IsWellFormed id value g wf).acyclic id x r) ∙ e))
            ∙ written-found,
        λ x y r e. m.2 x y (Reaches-of refl r) e,
      )

  -- The write touches the one node.
  written-nodes :
      (x : NodeId)
      → HashMap.get written.nodes x
        ≡ (if id == x then some (write value node) else HashMap.get g.nodes x)
  written-nodes x = elim (==-cases id x) [
    | inl (same, t) ↦
        rw t (subst (λ y. HashMap.get written.nodes y ≡ some (write value node)) same written-found)
    | inr t ↦ rw t (get-modify g.nodes id (write value) x ∙ rw t refl)
  ]

-- Writing a value of the right type to a source of a well-formed graph returns, and the source holds the
-- value and is clean. If the value is a change, the source's direct dependents are returned in order,
-- every edge that leaves the source or a node reachable from it is pending, and no node at the end of
-- such an edge is clean. If it is no change, nothing but the source's value and state has been written.
pub set_source_value_lem :
    (g : AttributeGraph) (id : NodeId) (node : Node) (value : ValueStorage)
    → IsWellFormed g
    → HashMap.get g.nodes id ≡ some node
    → is_source node.kind ≡ true
    → value_type node ≡ some value.value_type
    → ((set_source_value id value g).0
        ≡ returned (if meaningfully_changed_from value node.value then dependents_at g id else []))
      × (HashMap.get (set_source_value id value g).1.nodes id
          ≡ some (record node { value = some value; state = clean }))
      × (meaningfully_changed_from value node.value ≡ true
          → (x y : NodeId) → Reaches g id x
          → IsEdge g x y
          → (contains (set_source_value id value g).1.pending_edges (edge x y)
              && stale_at (HashMap.get (set_source_value id value g).1.nodes y))
            ≡ true)
      × (meaningfully_changed_from value node.value ≡ false
          → ((set_source_value id value g).1
              ≡ record g { nodes = (set_source_value id value g).1.nodes })
            × ((x : NodeId)
                → HashMap.get (set_source_value id value g).1.nodes x ≡ (
                    if id == x
                    then some (record node { value = some value; state = clean })
                    else HashMap.get g.nodes x)))
unfolding set_source_value
set_source_value_lem g id node value wf found origin typed =
    let origin_ok = ensure_source-present g id node wf found origin in
    let type_ok = ensure_type-present g id node value found typed in
    elim (Bool-cases (meaningfully_changed_from value node.value)) [
      | inl changed ↦
          let m = marked_lem g id node value wf found origin in
          rw (origin_ok, type_ok, found, changed) (m.0, m.1, λ _. m.2, λ h. cc)
      | inr same ↦
          rw (origin_ok, type_ok, found, same)
            (
              refl,
              written-found g id node value wf found origin,
              λ h. cc,
              λ _. (refl, written-nodes g id node value wf found origin),
            )
    ]
