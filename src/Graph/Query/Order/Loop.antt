-- ===== src/Graph/Query/Order/Loop.antt =====
-- The loop of `topological_order` as a whole.
use attribute_graph.Common.{
  ℕ, zero, suc, ◌+◌, ◌≤◌, ◌≡◌, inl, inr, refl, ◌∙◌, true, List, [], ◌∷◌, ◌++◌, contains, IsDistinct,
  is_some, length, length-append, arith, List-cases,
}
use attribute_graph.Common.HashMap
use attribute_graph.Common.HashMap.{HashMap, get-insert, contains-keys}
use attribute_graph.Common.Distinct.{length-le_of_contains}
use attribute_graph.Identity.{NodeId, node_id_key}
use attribute_graph.Graph.State.{AttributeGraph, returned}
use attribute_graph.Graph.Propagate.{dependents_at}
use attribute_graph.Graph.Invariant.{IsWellFormed}
use attribute_graph.Graph.Query.{Ordering, order_loop}
use attribute_graph.Graph.Query.Order.{IsOrdering}
use attribute_graph.Graph.Query.Order.Lower.{lower_all}
use attribute_graph.Graph.Query.Order.Take.{taken, taken-IsOrdering, dependents-IsTodo}

module _ (g : AttributeGraph) (wf : IsWellFormed g) where
  -- An order is no longer than the list of the keys.
  length-order_le :
      (order : List NodeId)
      → IsDistinct order
      → ((x : NodeId) → contains order x ≡ true → is_some (HashMap.get g.nodes x) ≡ true)
      → length order ≤ length (HashMap.keys g.nodes)
  length-order_le order d known =
      length-le_of_contains order (HashMap.keys g.nodes) d
        λ x m. contains-keys g.nodes x ∙ known x m

  too_long :
      (id : NodeId) (rest : List NodeId) (s : Ordering)
      → IsOrdering g [] s
      → s.ready ≡ id ∷ rest
      → ¬ (length (HashMap.keys g.nodes) ≤ length s.order)
  too_long id rest s inv front short =
      let longer = taken-IsOrdering g wf id rest s inv front in
      omega (
        arith,
        short,
        length-append s.order (id ∷ []),
        length-order_le (s.order ++ id ∷ []) longer.distinct.1 longer.known,
      )

  pub order_loop_lem :
      (fuel : ℕ) (s : Ordering)
      → IsOrdering g [] s
      → length (HashMap.keys g.nodes) ≤ length s.order + fuel
      → (order : List NodeId) × (order_loop g fuel s ≡ returned order)
        × ((t : Ordering) × IsOrdering g [] t × (t.ready ≡ []) × (t.order ≡ order))
  unfolding order_loop
  order_loop_lem zero s inv enough = elim (List-cases s.ready) [
    | inl done ↦ (s.order, rw (done, order_loop) refl, (s, inv, done, refl))
    | inr (id, rest, front) ↦ absurd (too_long id rest s inv front (omega (arith, enough)))
  ]
  order_loop_lem (suc fuel) s inv enough = elim (List-cases s.ready) [
    | inl done ↦ (s.order, rw (done, order_loop) refl, (s, inv, done, refl))
    | inr (id, rest, front) ↦
        let (t, run, kept, same) =
          lower_all g (dependents_at g id) (taken g wf id rest s)
            (taken-IsOrdering g wf id rest s inv front)
            (dependents-IsTodo g wf id rest s inv front) in
        let (order, ran, final) =
          order_loop_lem fuel t kept
            (rw same (omega (arith, enough, length-append s.order (id ∷ [])))) in
        (order, rw (front, order_loop) (rw run ran), final)
  ]
