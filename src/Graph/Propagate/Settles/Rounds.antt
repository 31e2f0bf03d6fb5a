-- ===== src/Graph/Propagate/Settles/Rounds.antt =====
-- The rounds of `mark_unchanged`.
use attribute_graph.Common.{
  ℕ, zero, suc, ◌+◌, ◌≤◌, ◌≡◌, inl, inr, refl, ap, ◌∙◌, subst, Bool, true, false, some, List, [],
  ◌∷◌, contains, arith, ==-cases, length, length-append, Bool-cases, Option-cases, List-cases,
}
use attribute_graph.Common.HashSet
use attribute_graph.Common.HashSet.{HashSet, contains-remove}
use attribute_graph.Common.HashMap
use attribute_graph.Common.HashMap.{get-modify}
use attribute_graph.Identity.{NodeId, node_id_key}
use attribute_graph.Dependency.{edge, edge_key}
use attribute_graph.Node.{Node, NodeState, clean, dirty, maybe_dirty}
use attribute_graph.Graph.State.{AttributeGraph, returned}
use attribute_graph.Graph.Commit.{successors}
use attribute_graph.Graph.Commit.Search.{unexplored, unexplored-nil, unexplored-insert}
use attribute_graph.Graph.Propagate.{
  set_state, dependents_at, edge_count, Walk, any_into, has_inbound_pending, settle_state,
  settle_dependent, settle_dependents, settle_round, settle, mark_unchanged,
}
use attribute_graph.Graph.Propagate.Invalidates.{length-dependents_at}
use attribute_graph.Graph.Propagate.Settles.{Settles, Settles-refl, Settles-trans}

-- What a step of the walk does: it settles, queues one node at most for each id, and sees nothing new.
record Steps (k : ℕ) (w v : Walk) : Type 0 where
  settles : Settles w.graph v.graph
  queued : length v.queue ≤ length w.queue + k
  saw : v.seen ≡ w.seen

Steps-settle_state :
    (d : NodeId) (removed : Bool) (node : Node) (w : Walk)
    → HashMap.get w.graph.nodes d ≡ some node
    → has_inbound_pending w.graph d ≡ false
    → (state : NodeState) → node.state ≡ state
    → Steps 1 w (settle_state d removed state w)
unfolding settle_state has_inbound_pending
Steps-settle_state d removed node w found free maybe_dirty was = record {
  settles = record {
    linked = refl;
    fewer = λ e m. m;
    settled = λ x. elim (==-cases d x) [
      | inl (same, t) ↦ inr (
        node,
        subst (λ z. HashMap.get w.graph.nodes z ≡ some node) same found,
        was,
        ground (
          arith,
          get-modify w.graph.nodes d (set_state clean) x,
          ap (HashMap.get w.graph.nodes) same,
        ),
        subst (λ z. any_into w.graph.pending_edges z ≡ false) same free,
      )
      | inr t ↦ inl (ground (arith, get-modify w.graph.nodes d (set_state clean) x))
    ];
  };
  queued = omega (arith, length-append w.queue (d ∷ []));
  saw = refl;
}
Steps-settle_state d true node w found free clean was = record {
  settles = Settles-refl w.graph;
  queued = omega (arith, length-append w.queue (d ∷ []));
  saw = refl;
}
Steps-settle_state d false node w found free clean was = record {
  settles = Settles-refl w.graph;
  queued = omega arith;
  saw = refl;
}
Steps-settle_state d removed node w found free dirty was = record {
  settles = Settles-refl w.graph;
  queued = omega arith;
  saw = refl;
}

Steps-trans : {j k : ℕ} {u v w : Walk} → Steps j u v → Steps k v w → Steps (j + k) u w
Steps-trans {j} {k} {u} {v} {w} s t = record {
  settles = Settles-trans u.graph v.graph w.graph s.settles t.settles;
  queued = omega (arith, s.queued, t.queued);
  saw = t.saw ∙ s.saw;
}

module _ (x d : NodeId) (w : Walk) where
  abbrev unpended : AttributeGraph
  unpended = record w.graph { pending_edges = HashSet.remove w.graph.pending_edges (edge x d) }

  Settles-unpended : Settles w.graph unpended
  Settles-unpended = record {
    linked = refl;
    fewer = λ e m. ground (arith, contains-remove w.graph.pending_edges (edge x d) e);
    settled = λ z. inl refl;
  }

  Steps-unpended : Steps 0 w (record w { graph = unpended })
  Steps-unpended = record { settles = Settles-unpended; queued = omega arith; saw = refl }

  at_most_one : {v : Walk} → Steps 0 w v → Steps 1 w v
  at_most_one s = record { settles = s.settles; queued = omega (arith, s.queued); saw = s.saw }

  Steps-settle_dependent : Steps 1 w (settle_dependent x d w)
  unfolding settle_dependent
  Steps-settle_dependent = elim (Bool-cases (has_inbound_pending unpended d)) [
    | inl waits ↦ rw waits (at_most_one Steps-unpended)
    | inr free ↦ elim (Option-cases (HashMap.get w.graph.nodes d)) [
      | inl absent ↦ rw (free, absent) (at_most_one Steps-unpended)
      | inr (node, found) ↦
          rw (free, found)
            (Steps-trans Steps-unpended (
              Steps-settle_state d (contains w.graph.pending_edges (edge x d)) node
                (record w { graph = unpended }) found free node.state refl))
    ]
  ]

Steps-settle_dependents :
    (x : NodeId) (ids : List NodeId) (w : Walk) → Steps (length ids) w (settle_dependents x ids w)
unfolding settle_dependents
Steps-settle_dependents x [] w = record {
  settles = Settles-refl w.graph;
  queued = omega arith;
  saw = refl;
}
Steps-settle_dependents x (d ∷ rest) w =
    let first = Steps-settle_dependent x d w in
    let later = Steps-settle_dependents x rest (settle_dependent x d w) in
    record {
      settles = Settles-trans _ _ _ first.settles later.settles;
      queued = omega (arith, first.queued, later.queued);
      saw = later.saw ∙ first.saw;
    }

-- The rounds that are left at most.
abbrev measure : Walk → ℕ
measure w = unexplored w.graph.dependents w.seen + length w.queue

module _ (x : NodeId) (rest : List NodeId) (w : Walk) (front : w.queue ≡ x ∷ rest) where
  Settles-settle_round : Settles w.graph (settle_round x rest w).graph
  unfolding settle_round
  Settles-settle_round = elim (Bool-cases (contains w.seen x)) [
    | inl old ↦ rw old (Settles-refl w.graph)
    | inr new ↦
        rw new
          (Steps-settle_dependents x (dependents_at w.graph x)
            (record w { queue = rest; seen = HashSet.insert w.seen x })).settles
  ]

  settle_round-measure_lt : measure (settle_round x rest w) + 1 ≤ measure w
  unfolding settle_round successors
  settle_round-measure_lt = elim (Bool-cases (contains w.seen x)) [
    | inl old ↦ rw old (omega (arith, ap (λ (l : List NodeId). length l) front))
    | inr new ↦
        let v : Walk = record w { queue = rest; seen = HashSet.insert w.seen x } in
        let s = Steps-settle_dependents x (dependents_at w.graph x) v in
        rw (new, s.saw, s.settles.linked)
          (omega (
            arith,
            s.queued,
            unexplored-insert w.graph.dependents w.seen x new,
            length-dependents_at w.graph x,
            ap (λ (l : List NodeId). length l) front,
          ))
  ]

settle_lem :
    (fuel : ℕ) (w : Walk)
    → measure w ≤ fuel
    → (h : AttributeGraph) × (settle fuel w ≡ some h) × Settles w.graph h
unfolding settle
settle_lem zero w enough = elim (List-cases w.queue) [
  | inl empty ↦ (w.graph, rw (empty, settle) refl, Settles-refl w.graph)
  | inr (x, rest, q) ↦ absurd (omega (arith, enough, ap (λ (l : List NodeId). length l) q))
]
settle_lem (suc fuel) w enough = elim (List-cases w.queue) [
  | inl empty ↦ (w.graph, rw (empty, settle) refl, Settles-refl w.graph)
  | inr (x, rest, q) ↦
      let (h, e, s) =
        settle_lem fuel (settle_round x rest w)
          (omega (arith, settle_round-measure_lt x rest w q)) in
      (h, rw (q, settle) e, Settles-trans _ _ _ (Settles-settle_round x rest w q) s)
]

-- On every graph, `mark_unchanged` comes to its end. It adds no pending edge and leaves the edges as they
-- are; and it leaves each node as it is, or the node was one that might be dirty, and then it is clean and no
-- pending edge leads into it.
pub mark_unchanged_lem :
    (id : NodeId) (g : AttributeGraph)
    → ((mark_unchanged id g).0 ≡ returned tt) × Settles g (mark_unchanged id g).1
unfolding mark_unchanged edge_count
mark_unchanged_lem id g =
    let (h, e, s) =
      settle_lem (edge_count g + 1) (record { graph = g; queue = id ∷ []; seen = [] })
        (omega (arith, unexplored-nil g.dependents)) in
    (rw e refl, rw e s)
