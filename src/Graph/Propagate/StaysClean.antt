-- ===== src/Graph/Propagate/StaysClean.antt =====
-- `mark_unchanged` and the nodes that are clean.
use attribute_graph.Common.{
  ℕ, zero, suc, ◌+◌, ◌≡◌, inl, inr, refl, subst, Bool, true, false, Option, none, some, List, [],
  ◌∷◌, contains, arith, Bool-cases, Option-cases, List-cases, some_injective,
}
use mathlib.Core.Option
use attribute_graph.Common.HashSet
use attribute_graph.Common.HashMap
use attribute_graph.Common.HashMap.{get-modify}
use attribute_graph.Identity.{NodeId, node_id_key}
use attribute_graph.Dependency.{edge, edge_key}
use attribute_graph.Node.{Node, NodeState, clean, dirty, maybe_dirty, is_clean}
use attribute_graph.Graph.State.{AttributeGraph}
use attribute_graph.Graph.Propagate.{
  set_state, dependents_at, Walk, has_inbound_pending, settle_state, settle_dependent,
  settle_dependents, settle_round, settle, edge_count, mark_unchanged,
}

-- The node under an id, if there is one, is clean.
abbrev pub clean_at : Option Node → Bool
clean_at none = true
clean_at (some n) = is_clean n.state

module _ (z : NodeId) where
  abbrev pub IsCleanAt : AttributeGraph → Type 0
  IsCleanAt g = clean_at (HashMap.get g.nodes z) ≡ true

  clean_at-set : (o : Option Node) → clean_at (Option.map (set_state clean) o) ≡ true
  clean_at-set none = refl
  clean_at-set (some n) = refl

  pub set_clean-IsCleanAt :
      (d : NodeId) (g : AttributeGraph)
      → IsCleanAt g
      → IsCleanAt (record g { nodes = HashMap.modify g.nodes d (set_state clean) })
  set_clean-IsCleanAt d g h =
      ground (arith, get-modify g.nodes d (set_state clean) z, clean_at-set (HashMap.get g.nodes z))

  settle_state-IsCleanAt :
      (d : NodeId) (removed : Bool) (s : NodeState) (w : Walk)
      → IsCleanAt w.graph
      → IsCleanAt (settle_state d removed s w).graph
  unfolding settle_state
  settle_state-IsCleanAt d removed maybe_dirty w h = set_clean-IsCleanAt d w.graph h
  settle_state-IsCleanAt d true clean w h = h
  settle_state-IsCleanAt d false clean w h = h
  settle_state-IsCleanAt d removed dirty w h = h

  settle_dependent-IsCleanAt :
      (x d : NodeId) (w : Walk) → IsCleanAt w.graph → IsCleanAt (settle_dependent x d w).graph
  unfolding settle_dependent
  settle_dependent-IsCleanAt x d w h = elim (Bool-cases (has_inbound_pending g d)) [
    | inl busy ↦ rw busy h
    | inr free ↦ elim (Option-cases (HashMap.get g.nodes d)) [
      | inl absent ↦ rw (free, absent) h
      | inr (node, found) ↦
          rw (free, found) (settle_state-IsCleanAt d _ node.state (record w { graph = g }) h)
    ]
  ]
    where
      g : AttributeGraph
      g = record w.graph { pending_edges = HashSet.remove w.graph.pending_edges (edge x d) }

  settle_dependents-IsCleanAt :
      (x : NodeId) (ids : List NodeId) (w : Walk)
      → IsCleanAt w.graph
      → IsCleanAt (settle_dependents x ids w).graph
  unfolding settle_dependents
  settle_dependents-IsCleanAt x [] w h = h
  settle_dependents-IsCleanAt x (d ∷ rest) w h =
      settle_dependents-IsCleanAt x rest (settle_dependent x d w)
        (settle_dependent-IsCleanAt x d w h)

  settle_round-IsCleanAt :
      (x : NodeId) (rest : List NodeId) (w : Walk)
      → IsCleanAt w.graph
      → IsCleanAt (settle_round x rest w).graph
  unfolding settle_round
  settle_round-IsCleanAt x rest w h = elim (Bool-cases (contains w.seen x)) [
    | inl old ↦ rw old h
    | inr new ↦ rw new (settle_dependents-IsCleanAt x (dependents_at w.graph x) _ h)
  ]

  settle-IsCleanAt :
      (fuel : ℕ) (w : Walk) (g' : AttributeGraph)
      → settle fuel w ≡ some g'
      → IsCleanAt w.graph
      → IsCleanAt g'
  unfolding settle
  settle-IsCleanAt zero w g' e h = elim (List-cases w.queue) [
    | inl empty ↦ subst IsCleanAt (some_injective (rw (empty, settle) at e)) h
    | inr (x, rest, q) ↦ cc (rw (q, settle) at e)
  ]
  settle-IsCleanAt (suc fuel) w g' e h = elim (List-cases w.queue) [
    | inl empty ↦ subst IsCleanAt (some_injective (rw (empty, settle) at e)) h
    | inr (x, rest, q) ↦
        settle-IsCleanAt fuel (settle_round x rest w) g' (rw (q, settle) at e)
          (settle_round-IsCleanAt x rest w h)
  ]

  pub mark_unchanged-IsCleanAt :
      (id : NodeId) (g : AttributeGraph) → IsCleanAt g → IsCleanAt (mark_unchanged id g).1
  unfolding mark_unchanged
  mark_unchanged-IsCleanAt id g h =
      let start : Walk = record { graph = g; queue = id ∷ []; seen = [] } in
      elim (Option-cases (settle (edge_count g + 1) start)) [
        | inl stuck ↦ rw stuck h
        | inr (g', e) ↦ rw e (settle-IsCleanAt (edge_count g + 1) start g' e h)
      ]
