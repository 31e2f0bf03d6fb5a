-- ===== src/Graph/Commit/Cycles.antt =====
-- Cycles and the replacement of the dependencies of one node.
use attribute_graph.Common.{
  ◌≡◌, ◌⊎◌, inl, inr, true, false, if◌then◌else◌, ◌==◌, contains, arith, ==-cases, Bool-cases,
}
use attribute_graph.Common.HashSet.{HashSet}
use attribute_graph.Identity.{NodeId, node_id_key}
use attribute_graph.Graph.State.{AttributeGraph}
use attribute_graph.Graph.Commit.{successors}
use attribute_graph.Graph.Invariant.{IsEdge, Reaches, here, step}

pub Reaches-trans :
    {g : AttributeGraph} {x y z : NodeId} → Reaches g x y → Reaches g y z → Reaches g x z
Reaches-trans p here = p
Reaches-trans p (step q e) = step (Reaches-trans p q) e

module _ (g g' : AttributeGraph) (y : NodeId) (next : HashSet NodeId)
    (edges : (x z : NodeId)
      → contains (successors g' x) z
        ≡ (if z == y then contains next x else contains (successors g x) z)) where
  old-IsEdge : (x z : NodeId) → (z == y) ≡ false → IsEdge g' x z → IsEdge g x z
  old-IsEdge x z t e = ground (arith, edges x z)

  new_edge : (x z : NodeId) → (z == y) ≡ true → IsEdge g' x z → contains next x ≡ true
  new_edge x z t e = ground (arith, edges x z)

  -- A new walk from `y` is an old one, from its last visit of `y` on.
  from_changed : {z : NodeId} → Reaches g' y z → Reaches g y z
  from_changed here = here
  from_changed (step {y = b} {z = c} r e) = elim (==-cases c y) [
    | inl (same, t) ↦ rw same here
    | inr t ↦ step (from_changed r) (old-IsEdge b c t e)
  ]

  -- A new walk is an old one, or it enters `y` from one of the new dependencies.
  split_walk :
      {x z : NodeId}
      → Reaches g' x z
      → Reaches g x z ⊎ ((d : NodeId) × (contains next d ≡ true) × Reaches g' x d × Reaches g' y z)
  split_walk here = inl here
  split_walk (step {y = b} {z = c} r e) = elim (==-cases c y) [
    | inl (same, t) ↦ inr (b, new_edge b c t e, r, rw same here)
    | inr t ↦ elim (split_walk r) [
      | inl old ↦ inl (step old (old-IsEdge b c t e))
      | inr (d, m, p, q) ↦ inr (d, m, p, step q e)
    ]
  ]

  module _ (allowed : (d : NodeId) → contains next d ≡ true → ¬ Reaches g y d)
      (acyclic : (x z : NodeId) → Reaches g x z → contains (successors g z) x ≡ false) where
    no_cycle : (x z : NodeId) → Reaches g' x z → ¬ IsEdge g' z x
    no_cycle x z r e = elim (==-cases x y) [
      | inl (same, t) ↦ allowed z (new_edge z x t e) (from_changed (rw same at r))
      | inr t ↦ elim (split_walk r) [
        | inl old ↦ cc (acyclic x z old, old-IsEdge z x t e)
        | inr (d, m, p, q) ↦ allowed d m (from_changed (Reaches-trans (step q e) p))
      ]
    ]

    pub acyclic_of_allowed : (x z : NodeId) → Reaches g' x z → contains (successors g' z) x ≡ false
    acyclic_of_allowed x z r = elim (Bool-cases (contains (successors g' z) x)) [
      | inl e ↦ absurd (no_cycle x z r e)
      | inr f ↦ f
    ]
