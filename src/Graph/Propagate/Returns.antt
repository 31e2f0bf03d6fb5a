-- ===== src/Graph/Propagate/Returns.antt =====
-- The fuel of the loop of `mark_changed`.
use attribute_graph.Common.{
  ℕ, zero, suc, ◌+◌, ◌≤◌, ◌≡◌, inl, inr, refl, ap, true, false, some, List, [], ◌∷◌, if◌then◌else◌,
  contains, arith, eq_of_==, ==-comm, ==-refl, length, length-append, List-cases,
}
use attribute_graph.Common.HashSet
use attribute_graph.Common.HashSet.{HashSet, contains-insert}
use attribute_graph.Common.HashMap
use attribute_graph.Common.HashMap.{HashMap, keys-modify}
use attribute_graph.Identity.{NodeId, node_id_key}
use attribute_graph.Graph.State.{AttributeGraph}
use attribute_graph.Graph.Propagate.{
  soften, dependents_at, Walk, reach_dependent, reach_dependents, spread_round, spread,
}
use attribute_graph.Graph.Invariant.{IsEdge}
use attribute_graph.Graph.Propagate.Marks.{Marks, Marks-trans, successors-marked}
use attribute_graph.Graph.Propagate.Changed.{contains-dependents_at, spread_round-Marks}

-- How many of the listed ids the walk has not seen.
unfoldable pub unseen : List NodeId → HashSet NodeId → ℕ
unseen [] seen = 0
unseen (x ∷ xs) seen = (if contains seen x then 0 else 1) + unseen xs seen

unseen-insert_le :
    (xs : List NodeId) (seen : HashSet NodeId) (d : NodeId)
    → unseen xs (HashSet.insert seen d) ≤ unseen xs seen
unfolding unseen
unseen-insert_le [] seen d = omega arith
unseen-insert_le (x ∷ xs) seen d =
    ground (arith, unseen-insert_le xs seen d, contains-insert seen d x)

unseen-insert :
    (xs : List NodeId) (seen : HashSet NodeId) (d : NodeId)
    → contains seen d ≡ false
    → contains xs d ≡ true
    → unseen xs (HashSet.insert seen d) + 1 ≤ unseen xs seen
unfolding unseen contains
unseen-insert [] seen d new m = cc
unseen-insert (x ∷ xs) seen d new m = ground (
  arith,
  unseen-insert xs seen d new,
  unseen-insert_le xs seen d,
  contains-insert seen d x,
  eq_of_== x d,
  ==-comm x d,
)

pub unseen_le : (xs : List NodeId) (seen : HashSet NodeId) → unseen xs seen ≤ length xs
unfolding unseen
unseen_le [] seen = omega arith
unseen_le (x ∷ xs) seen = ground (arith, unseen_le xs seen)

-- The rounds that are left at most.
abbrev measure : Walk → ℕ
measure w = length w.queue + unseen (HashMap.keys w.graph.nodes) w.seen

next-keys :
    (x d : NodeId) (w : Walk)
    → HashMap.keys (reach_dependent x d w).graph.nodes ≡ HashMap.keys w.graph.nodes
unfolding reach_dependent
next-keys x d w = ground (arith, keys-modify w.graph.nodes d soften)

reach_dependent-measure_le :
    (x d : NodeId) (w : Walk)
    → contains (HashMap.keys w.graph.nodes) d ≡ true
    → measure (reach_dependent x d w) ≤ measure w
unfolding reach_dependent
reach_dependent-measure_le x d w known = ground (
  arith,
  keys-modify w.graph.nodes d soften,
  length-append w.queue (d ∷ []),
  unseen-insert (HashMap.keys w.graph.nodes) w.seen d,
)

reach_dependents-measure_le :
    (x : NodeId) (ids : List NodeId) (w : Walk)
    → ((y : NodeId) → contains ids y ≡ true → contains (HashMap.keys w.graph.nodes) y ≡ true)
    → measure (reach_dependents x ids w) ≤ measure w
unfolding reach_dependents contains
reach_dependents-measure_le x [] w known = omega arith
reach_dependents-measure_le x (d ∷ rest) w known =
    let first = reach_dependent-measure_le x d w (known d (ground (arith, ==-refl d))) in
    let later =
      reach_dependents-measure_le x rest (reach_dependent x d w)
        λ y m. rw next-keys (known y (ground arith)) in
    omega (arith, first, later)

module _ (g : AttributeGraph)
    (known : (x y : NodeId) → IsEdge g x y → contains (HashMap.keys g.nodes) y ≡ true) where
  pub spread_returns :
      (fuel : ℕ) (w : Walk)
      → Marks g w.graph
      → measure w ≤ fuel
      → (g' : AttributeGraph) × (spread fuel w ≡ some g')
  unfolding spread
  spread_returns zero w m enough = elim (List-cases w.queue) [
    | inl empty ↦ (w.graph, rw (empty, spread) refl)
    | inr (x, rest, q) ↦ absurd (omega (arith, ap (λ (l : List NodeId). length l) q))
  ]
  spread_returns (suc fuel) w m enough = elim (List-cases w.queue) [
    | inl empty ↦ (w.graph, rw (empty, spread) refl)
    | inr (x, rest, q) ↦
        let fewer =
          reach_dependents-measure_le x (dependents_at w.graph x) (record w { queue = rest })
            λ y e.
              rw m.listed (known x y (rw (contains-dependents_at, successors-marked m) at e)) in
        let (g', e) =
          spread_returns fuel (spread_round x rest w) (Marks-trans m (spread_round-Marks x rest w))
            (unfold spread_round in omega (arith, fewer, ap (λ (l : List NodeId). length l) q)) in
        (g', rw (q, spread) e)
  ]
