-- ===== src/Graph/Propagate/Unchanged.antt =====
-- The steps of `mark_unchanged`, `mark_clean` and `clear_inbound_pending_edges`.
use attribute_graph.Common.{
  ℕ, zero, suc, ◌+◌, ◌≡◌, inl, inr, refl, subst, Bool, true, false, not, some, List, [], ◌∷◌, ◌==◌,
  contains, Bool-cases, Option-cases, List-cases, some_injective,
}
use attribute_graph.Common.HashSet
use attribute_graph.Common.HashMap
use attribute_graph.Identity.{NodeId, node_id_key}
use attribute_graph.Dependency.{edge, edge_key}
use attribute_graph.Node.{NodeState, clean, dirty, maybe_dirty}
use attribute_graph.Graph.State.{AttributeGraph}
use attribute_graph.Graph.Propagate.{
  set_state, dependents_at, Walk, has_inbound_pending, clear_inbound_pending_edges, mark_clean,
  settle_state, settle_dependent, settle_dependents, settle_round, settle, edge_count,
  mark_unchanged,
}
use attribute_graph.Graph.Propagate.Marks.{
  Marks, Marks-refl, Marks-trans, Marks-modify, Marks-remove,
}

settle_state-Marks :
    (d : NodeId) (removed : Bool) (s : NodeState) (w : Walk)
    → Marks w.graph (settle_state d removed s w).graph
unfolding settle_state
settle_state-Marks d removed maybe_dirty w = Marks-modify w.graph d (set_state clean) (λ n. refl)
settle_state-Marks d true clean w = Marks-refl w.graph
settle_state-Marks d false clean w = Marks-refl w.graph
settle_state-Marks d removed dirty w = Marks-refl w.graph

settle_dependent-Marks : (x d : NodeId) (w : Walk) → Marks w.graph (settle_dependent x d w).graph
unfolding settle_dependent
settle_dependent-Marks x d w = elim (Bool-cases (has_inbound_pending g d)) [
  | inl waits ↦ rw waits first
  | inr free ↦ elim (Option-cases (HashMap.get g.nodes d)) [
    | inl absent ↦ rw (free, absent) first
    | inr (node, found) ↦
        rw (free, found)
          (Marks-trans first (settle_state-Marks d _ node.state (record w { graph = g })))
  ]
]
  where
    g : AttributeGraph
    g = record w.graph { pending_edges = HashSet.remove w.graph.pending_edges (edge x d) }

    first : Marks w.graph g
    first = unfold HashSet.remove in Marks-remove w.graph (λ e. not (e == edge x d))

settle_dependents-Marks :
    (x : NodeId) (ids : List NodeId) (w : Walk) → Marks w.graph (settle_dependents x ids w).graph
unfolding settle_dependents
settle_dependents-Marks x [] w = Marks-refl w.graph
settle_dependents-Marks x (d ∷ rest) w =
    Marks-trans (settle_dependent-Marks x d w)
      (settle_dependents-Marks x rest (settle_dependent x d w))

settle_round-Marks :
    (x : NodeId) (rest : List NodeId) (w : Walk) → Marks w.graph (settle_round x rest w).graph
unfolding settle_round
settle_round-Marks x rest w = elim (Bool-cases (contains w.seen x)) [
  | inl old ↦ rw old (Marks-refl w.graph)
  | inr new ↦ rw new (settle_dependents-Marks x (dependents_at w.graph x) _)
]

settle-Marks :
    (fuel : ℕ) (w : Walk) (g' : AttributeGraph) → settle fuel w ≡ some g' → Marks w.graph g'
unfolding settle
settle-Marks zero w g' e = elim (List-cases w.queue) [
  | inl empty ↦
      subst (Marks w.graph) (some_injective (rw (empty, settle) at e)) (Marks-refl w.graph)
  | inr (x, rest, q) ↦ cc (rw (q, settle) at e)
]
settle-Marks (suc fuel) w g' e = elim (List-cases w.queue) [
  | inl empty ↦
      subst (Marks w.graph) (some_injective (rw (empty, settle) at e)) (Marks-refl w.graph)
  | inr (x, rest, q) ↦
      Marks-trans (settle_round-Marks x rest w)
        (settle-Marks fuel (settle_round x rest w) g' (rw (q, settle) at e))
]

pub mark_unchanged-Marks : (id : NodeId) (g : AttributeGraph) → Marks g (mark_unchanged id g).1
unfolding mark_unchanged
mark_unchanged-Marks id g =
    let start : Walk = record { graph = g; queue = id ∷ []; seen = [] } in
    elim (Option-cases (settle (edge_count g + 1) start)) [
      | inl stuck ↦ rw stuck (Marks-refl g)
      | inr (g', e) ↦ rw e (settle-Marks (edge_count g + 1) start g' e)
    ]

pub clear_inbound-Marks :
    (id : NodeId) (g : AttributeGraph) → Marks g (clear_inbound_pending_edges id g)
unfolding clear_inbound_pending_edges
clear_inbound-Marks id g = Marks-remove g (λ e. not (e.dependent == id))

pub mark_clean-Marks : (id : NodeId) (g : AttributeGraph) → Marks g (mark_clean id g)
unfolding mark_clean
mark_clean-Marks id g =
    Marks-trans (Marks-modify g id (set_state clean) (λ n. refl)) (clear_inbound-Marks id _)
