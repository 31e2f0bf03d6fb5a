-- ===== src/Graph/Evaluate/Reads.antt =====
-- What a read returns.
use attribute_graph.Common.{
  ℕ, zero, suc, ◌≡◌, inl, inr, refl, sym, ap, ◌∙◌, Bool, true, ◌||◌, Option, none, some, arith,
  Bool-cases,
}
use attribute_graph.Common.HashMap
use attribute_graph.Identity.{NodeId, node_id_key}
use attribute_graph.Value.{ValueStorage}
use attribute_graph.Error.{missing_node, missing_value}
use attribute_graph.Node.{Node, is_clean}
use attribute_graph.Graph.State.{
  AttributeGraph, returned, returned_injective, expect, ok_or, and_then, Action, continue_returned,
}
use attribute_graph.Graph.Guards.{ensure_node, is_source, cached_value}
use attribute_graph.Graph.Invariant.{IsWellFormed}
use attribute_graph.Graph.Propagate.StaysClean.{clean_at}
use attribute_graph.Graph.Evaluate.{
  validate_derived_node, validate_for_read, validate_node_for_read, read_value,
}
use attribute_graph.Graph.Evaluate.Keeps.{Evolving, validate_node_for_read-Evolving}
use attribute_graph.Graph.Evaluate.Cleans.{expect-returned, validate_derived_node-Cleans}

-- A node whose value may be handed out.
abbrev pub current_at : Option Node → Bool
current_at none = true
current_at (some n) = is_source n.kind || is_clean n.state

current_of_clean : (o : Option Node) → clean_at o ≡ true → current_at o ≡ true
current_of_clean none h = refl
current_of_clean (some n) h = ground arith

cached_value-returned :
    (g : AttributeGraph) (id : NodeId) (v : ValueStorage)
    → cached_value g id ≡ returned v
    → (node : Node) × (HashMap.get g.nodes id ≡ some node) × (node.value ≡ some v)
unfolding cached_value
cached_value-returned g id v e = split (HashMap.get g.nodes id) e
  where
    value_of : (o : Option ValueStorage) → ok_or o (missing_value id) ≡ returned v → o ≡ some v
    value_of none e = cc
    value_of (some w) e = ap some (returned_injective e)

    split :
        (o : Option Node)
        → and_then (ok_or o (missing_node id)) (λ node. ok_or node.value (missing_value id))
          ≡ returned v
        → (node : Node) × (o ≡ some node) × (node.value ≡ some v)
    split none e = cc
    split (some n) e = (n, refl, value_of n.value e)

module _ (validate : NodeId → Action Bool) (evolving : (id : NodeId) → Evolving (validate id))
    (id : NodeId) (g : AttributeGraph) (wf : IsWellFormed g) where
  validate_for_read-current :
      (b : Bool)
      → (validate_for_read validate id g).0 ≡ returned b
      → current_at (HashMap.get (validate_for_read validate id g).1.nodes id) ≡ true
  unfolding validate_for_read
  validate_for_read-current b e =
      let (_, ensured, e1) = continue_returned (ensure_node g id) _ g b e in
      let (node, expected, e2) = continue_returned (expect (HashMap.get g.nodes id)) _ g b e1 in
      let found = expect-returned (HashMap.get g.nodes id) node expected in
      elim (Bool-cases (is_source node.kind)) [
        | inl origin ↦ rw (ensured, expected, origin) (rw found (ground arith))
        | inr derived ↦
            let (outcome, validated, _) =
              continue_returned (validate_derived_node validate id g).0 _
                (validate_derived_node validate id g).1 b (rw derived at e2) in
            let kept =
              current_of_clean (HashMap.get (validate_derived_node validate id g).1.nodes id)
                ((validate_derived_node-Cleans validate evolving id).run g wf outcome validated) in
            rw (ensured, expected, derived, validated) kept
      ]

validate_node_for_read-current :
    (fuel : ℕ) (id : NodeId) (g : AttributeGraph) (b : Bool)
    → IsWellFormed g
    → (validate_node_for_read fuel id g).0 ≡ returned b
    → current_at (HashMap.get (validate_node_for_read fuel id g).1.nodes id) ≡ true
unfolding validate_node_for_read
validate_node_for_read-current zero id g b wf e = cc
validate_node_for_read-current (suc fuel) id g b wf e =
    validate_for_read-current (validate_node_for_read fuel) (validate_node_for_read-Evolving fuel)
      id g wf b e

-- A read of a well-formed graph that returns a value returns the one that the node holds then, and the
-- node is a source or clean.
pub read_value_lem :
    (fuel : ℕ) (id : NodeId) (g : AttributeGraph) (v : ValueStorage)
    → IsWellFormed g
    → (read_value fuel id g).0 ≡ returned v
    → (node : Node) × (HashMap.get (read_value fuel id g).1.nodes id ≡ some node)
      × (node.value ≡ some v)
      × ((is_source node.kind || is_clean node.state) ≡ true)
unfolding read_value
read_value_lem fuel id g v wf e =
    let h = (validate_node_for_read fuel id g).1 in
    let (b, validated, cached) = continue_returned (validate_node_for_read fuel id g).0 _ h v e in
    let (node, found, held) = cached_value-returned h id v cached in
    rw validated (
      node,
      found,
      held,
      sym (ap current_at found) ∙ validate_node_for_read-current fuel id g b wf validated,
    )
