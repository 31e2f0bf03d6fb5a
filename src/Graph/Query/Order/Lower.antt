-- ===== src/Graph/Query/Order/Lower.antt =====
-- Lowering the degrees of the dependents of a node that `topological_order` takes.
use attribute_graph.Common.{
  suc, ◌+◌, ◌≡◌, inl, inr, refl, ap, true, false, not, ◌&&◌, none, some, List, [], ◌∷◌,
  if◌then◌else◌, eqb, contains, is_some, arith, ==-cases, ==-refl,
}
use attribute_graph.Common.HashMap
use attribute_graph.Common.HashMap.{HashMap, get-insert, contains-keys}
use attribute_graph.Identity.{NodeId, node_id_key}
use attribute_graph.Graph.State.{AttributeGraph, returned}
use attribute_graph.Graph.Query.{Ordering, insert_sorted, lower_degree, lower_degrees}
use attribute_graph.Graph.Query.Remaining.{contains-insert_sorted, IsDistinct-insert_sorted}
use attribute_graph.Graph.Query.Order.{left_at, IsOrdering, IsTodo}

module _ (g : AttributeGraph) where
  abbrev lowered : NodeId → Ordering → Ordering
  lowered x s = record s {
    in_degree = HashMap.insert s.in_degree x (left_at g s.order x);
    ready = if eqb (left_at g s.order x) 0 then insert_sorted s.ready x else s.ready;
  }

  module _ (x : NodeId) (todo : List NodeId) (s : Ordering) (inv : IsOrdering g (x ∷ todo) s)
      (h : IsTodo g s.order (x ∷ todo)) where
    x_todo : contains (x ∷ todo) x ≡ true
    unfolding contains
    x_todo = ground (arith, ==-refl x)

    degree_found : HashMap.get s.in_degree x ≡ some (suc (left_at g s.order x))
    degree_found = ground (arith, inv.degree x, h.1 x x_todo, x_todo)

    not_ready : contains s.ready x ≡ false
    not_ready = ground (arith, inv.ready x, x_todo)

    lowered-degree :
        (z : NodeId)
        → HashMap.get (HashMap.insert s.in_degree x (left_at g s.order x)) z ≡ (
            if is_some (HashMap.get g.nodes z)
            then some (left_at g s.order z + (if contains todo z then 1 else 0))
            else none)
    unfolding contains
    lowered-degree z = elim (==-cases x z) [
      | inl (same, t) ↦
          rw (get-insert s.in_degree x (left_at g s.order x) z, t, ← same, h.1 x x_todo, h.0.0)
            (ap some (omega arith))
      | inr t ↦ ground (arith, get-insert s.in_degree x (left_at g s.order x) z, inv.degree z)
    ]

    lowered-ready :
        (z : NodeId)
        → contains (lowered x s).ready z ≡ (
            is_some (HashMap.get g.nodes z)
            && not (contains s.order z)
            && eqb (left_at g s.order z) 0
            && not (contains todo z))
    unfolding contains
    lowered-ready z = elim (==-cases x z) [
      | inl (same, t) ↦ rw (← same) (
          ground (
            arith,
            contains-insert_sorted s.ready x x,
            not_ready,
            ==-refl x,
            h.1 x x_todo,
            h.2 x x_todo,
            h.0.0,
          ))
      | inr t ↦ ground (arith, contains-insert_sorted s.ready x z, inv.ready z)
    ]

    lowered-IsOrdering : IsOrdering g todo (lowered x s)
    lowered-IsOrdering = record {
      degree = lowered-degree;
      ready = lowered-ready;
      distinct = (
        ground (arith, IsDistinct-insert_sorted s.ready x not_ready, inv.distinct.0),
        inv.distinct.1,
      );
      known = inv.known;
      first = inv.first;
    }

    lower_one : lower_degree x s ≡ returned (lowered x s)
    unfolding lower_degree
    lower_one = rw (degree_found, lower_degree) refl

  IsTodo-rest :
      (order : List NodeId) (x : NodeId) (todo : List NodeId)
      → IsTodo g order (x ∷ todo)
      → IsTodo g order todo
  unfolding contains
  IsTodo-rest order x todo h = (h.0.1, λ z m. h.1 z (ground arith), λ z m. h.2 z (ground arith))

  pub lower_all :
      (todo : List NodeId) (s : Ordering)
      → IsOrdering g todo s
      → IsTodo g s.order todo
      → (t : Ordering) × (lower_degrees todo s ≡ returned t)
        × IsOrdering g [] t
        × (t.order ≡ s.order)
  unfolding lower_degrees
  lower_all [] s inv h = (s, refl, inv, refl)
  lower_all (x ∷ todo) s inv h =
      let rest =
        lower_all todo (lowered x s) (lowered-IsOrdering x todo s inv h)
          (IsTodo-rest s.order x todo h) in
      (rest.0, rw (lower_one x todo s inv h) rest.1, rest.2, rest.3)
