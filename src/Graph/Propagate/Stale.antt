-- ===== src/Graph/Propagate/Stale.antt =====
-- What `mark_changed` marks: the invariant of its loop.
use attribute_graph.Common.{
  ℕ, zero, suc, ◌≡◌, ◌⊎◌, inl, inr, refl, ap, Bool, true, false, not, ◌&&◌, ◌||◌, Option, none,
  some, List, [], ◌∷◌, ◌==◌, contains, arith, eq_of_==, ==-comm, ==-refl, ==-cases, some_injective,
  List-cases,
}
use mathlib.Core.Option
use attribute_graph.Common.HashSet
use attribute_graph.Common.HashSet.{HashSet, contains-insert, contains-from_list, contains-append}
use attribute_graph.Common.HashMap
use attribute_graph.Common.HashMap.{get-modify}
use attribute_graph.Identity.{NodeId, node_id_key}
use attribute_graph.Dependency.{edge, edge_key, edge_key_lem}
use attribute_graph.Node.{Node, NodeState, clean, dirty, maybe_dirty, is_clean, is_dirty_state}
use attribute_graph.Graph.State.{AttributeGraph}
use attribute_graph.Graph.Propagate.{
  set_state, soften, dependents_at, mark_one, mark_direct, Walk, reach_dependent, reach_dependents,
  spread_round, spread,
}
use attribute_graph.Graph.Commit.{successors}
use attribute_graph.Graph.Invariant.{IsEdge, Reaches, here, step}
use attribute_graph.Graph.Propagate.Marks.{Marks, Marks-trans, successors-marked}
use attribute_graph.Graph.Propagate.Changed.{contains-dependents_at, spread_round-Marks}

-- Tests of the node under an id; an absent node passes.
abbrev pub stale_at : Option Node → Bool
stale_at none = true
stale_at (some n) = not (is_clean n.state)

abbrev pub dirty_at : Option Node → Bool
dirty_at none = true
dirty_at (some n) = is_dirty_state n.state

stale_of_dirty : (o : Option Node) → dirty_at o ≡ true → stale_at o ≡ true
stale_of_dirty none h = refl
stale_of_dirty (some n) h = split n.state h
  where
    split : (s : NodeState) → is_dirty_state s ≡ true → not (is_clean s) ≡ true
    split clean h = cc
    split dirty h = refl
    split maybe_dirty h = refl

stale-soften : (o : Option Node) → stale_at (Option.map soften o) ≡ true
stale-soften none = refl
stale-soften (some n) = ground arith

dirty-soften : (o : Option Node) → dirty_at o ≡ true → dirty_at (Option.map soften o) ≡ true
dirty-soften none h = refl
dirty-soften (some n) h = rw (unclean n.state h) h
  where
    unclean : (s : NodeState) → is_dirty_state s ≡ true → is_clean s ≡ false
    unclean clean h = cc
    unclean dirty h = refl
    unclean maybe_dirty h = refl

dirty-set : (o : Option Node) → dirty_at (Option.map (set_state dirty) o) ≡ true
dirty-set none = refl
dirty-set (some n) = refl

-- What marking the direct dependents leaves.
pub mark_direct-dirty :
    (x : NodeId) (ids : List NodeId) (g : AttributeGraph) (y : NodeId)
    → (contains ids y || dirty_at (HashMap.get g.nodes y)) ≡ true
    → dirty_at (HashMap.get (mark_direct x ids g).nodes y) ≡ true
unfolding mark_direct mark_one contains
mark_direct-dirty x [] g y h = ground arith
mark_direct-dirty x (d ∷ rest) g y h =
    mark_direct-dirty x rest (mark_one x d g) y
      (ground (arith, get-modify g.nodes d (set_state dirty) y, dirty-set (HashMap.get g.nodes y)))

pub mark_direct-pending :
    (x : NodeId) (ids : List NodeId) (g : AttributeGraph) (y : NodeId)
    → (contains ids y || contains g.pending_edges (edge x y)) ≡ true
    → contains (mark_direct x ids g).pending_edges (edge x y) ≡ true
unfolding mark_direct mark_one contains
mark_direct-pending x [] g y h = ground arith
mark_direct-pending x (d ∷ rest) g y h = mark_direct-pending x rest (mark_one x d g) y (
    ground (
      arith,
      contains-insert g.pending_edges (edge x d) (edge x y),
      edge_key_lem x d x y,
      ==-refl x,
    ))

module _ (g : AttributeGraph) (id : NodeId) where
  -- What holds of the walk while the edges from `x` to `todo` are still to be visited.
  pub record Spreading (x : NodeId) (todo : List NodeId) (w : Walk) : Type 0 where
    pub direct :
        (y : NodeId)
        → IsEdge g id y
        → (contains w.seen y
            && contains w.graph.pending_edges (edge id y)
            && dirty_at (HashMap.get w.graph.nodes y))
          ≡ true
    pub closed :
        (u v : NodeId)
        → contains w.seen u ≡ true
        → contains w.queue u ≡ false
        → IsEdge g u v
        → ((contains w.seen v && contains w.graph.pending_edges (edge u v))
            || ((u == x) && contains todo v))
          ≡ true
    pub stale :
        (y : NodeId) → contains w.seen y ≡ true → stale_at (HashMap.get w.graph.nodes y) ≡ true

  module _ (x d : NodeId) (w : Walk) where
    abbrev next : Walk
    next = reach_dependent x d w

    next-seen : (y : NodeId) → contains next.seen y ≡ ((d == y) || contains w.seen y)
    unfolding reach_dependent
    next-seen y = ground (arith, contains-insert w.seen d y, eq_of_== d y)

    next-pending :
        (u v : NodeId)
        → contains next.graph.pending_edges (edge u v)
          ≡ (((x == u) && (d == v)) || contains w.graph.pending_edges (edge u v))
    unfolding reach_dependent
    next-pending u v =
        ground
          (arith, contains-insert w.graph.pending_edges (edge x d) (edge u v), edge_key_lem x d u v)

    pub next-queue :
        (y : NodeId)
        → contains next.queue y ≡ (contains w.queue y || ((d == y) && not (contains w.seen d)))
    unfolding reach_dependent contains
    next-queue y = ground (arith, contains-append w.queue (d ∷ []) y)

    next-stale :
        (y : NodeId)
        → (contains w.seen y ≡ true → stale_at (HashMap.get w.graph.nodes y) ≡ true)
        → ((d == y) || contains w.seen y) ≡ true
        → stale_at (HashMap.get next.graph.nodes y) ≡ true
    unfolding reach_dependent
    next-stale y h m = ground (
      arith,
      get-modify w.graph.nodes d soften y,
      stale-soften (HashMap.get w.graph.nodes y),
      eq_of_== d y,
    )

    next-dirty :
        (y : NodeId)
        → dirty_at (HashMap.get w.graph.nodes y) ≡ true
        → dirty_at (HashMap.get next.graph.nodes y) ≡ true
    unfolding reach_dependent
    next-dirty y h =
        ground
          (arith, get-modify w.graph.nodes d soften y, dirty-soften (HashMap.get w.graph.nodes y))

    next-Spreading : (rest : List NodeId) → Spreading x (d ∷ rest) w → Spreading x rest next
    unfolding contains
    next-Spreading rest s = record {
      direct = λ y e. ground (arith, s.direct y e, next-seen y, next-pending id y, next-dirty y);
      closed = λ u v a b e.
          let old : contains w.seen u ≡ true =
            ground (arith, next-seen u, next-queue u, eq_of_== d u) in
          let out : contains w.queue u ≡ false = ground (arith, next-queue u) in
          ground (arith, s.closed u v old out e, next-seen v, next-pending u v, ==-comm u x);
      stale = λ y m. next-stale y (s.stale y) (rw next-seen at m);
    }

  reach_dependents-Spreading :
      (x : NodeId) (ids : List NodeId) (w : Walk)
      → Spreading x ids w
      → Spreading x [] (reach_dependents x ids w)
  unfolding reach_dependents
  reach_dependents-Spreading x [] w s = s
  reach_dependents-Spreading x (d ∷ rest) w s =
      reach_dependents-Spreading x rest (reach_dependent x d w) (next-Spreading x d w rest s)

  -- One round of the loop, whose next round may start anywhere.
  spread_round-Spreading :
      (x y : NodeId) (rest : List NodeId) (w : Walk)
      → Marks g w.graph
      → w.queue ≡ x ∷ rest
      → Spreading y [] w
      → Spreading x [] (spread_round x rest w)
  unfolding spread_round contains
  spread_round-Spreading x y rest w m q s =
      reach_dependents-Spreading x (dependents_at w.graph x) (record w { queue = rest })
        (record {
          direct = s.direct;
          closed = λ u v a b e. elim (==-cases x u) [
            | inl (same, t) ↦ ground (
              arith,
              contains-dependents_at w.graph x v,
              ap (λ (l : List NodeId). contains l v) (successors-marked m x),
              ap (λ (l : NodeId). contains (successors g l) v) same,
              ==-comm u x,
            )
            | inr t ↦ ground (arith, s.closed u v a (rw q (ground arith)) e)
          ];
          stale = s.stale;
        })

  -- What the loop ends with.
  pub record Spread (g' : AttributeGraph) : Type 0 where
    pub last : Walk
    pub ended : (last.queue ≡ []) × (last.graph ≡ g')
    pub near : NodeId
    pub spreading : Spreading near [] last

  pub spread-Spread :
      (fuel : ℕ) (near : NodeId) (w : Walk) (g' : AttributeGraph)
      → Marks g w.graph
      → spread fuel w ≡ some g'
      → Spreading near [] w
      → Spread g'
  unfolding spread
  spread-Spread zero near w g' m e s = elim (List-cases w.queue) [
    | inl empty ↦ record {
      last = w;
      ended = (empty, some_injective (rw (empty, spread) at e));
      near = near;
      spreading = s;
    }
    | inr (x, rest, q) ↦ cc (rw (q, spread) at e)
  ]
  spread-Spread (suc fuel) near w g' m e s = elim (List-cases w.queue) [
    | inl empty ↦ record {
      last = w;
      ended = (empty, some_injective (rw (empty, spread) at e));
      near = near;
      spreading = s;
    }
    | inr (x, rest, q) ↦
        spread-Spread fuel x (spread_round x rest w) g'
          (Marks-trans m (spread_round-Marks x rest w)) (rw (q, spread) at e)
          (spread_round-Spreading x near rest w m q s)
  ]

  module _ (g' : AttributeGraph) (s : Spread g') where
    -- From a visited node the walk has gone on.
    onward :
        (u v : NodeId)
        → contains s.last.seen u ≡ true
        → IsEdge g u v
        → (contains s.last.seen v && contains s.last.graph.pending_edges (edge u v)) ≡ true
    unfolding contains
    onward u v a e = ground (arith, s.spreading.closed u v a (rw s.ended.0 refl) e)

    visited : {x : NodeId} → Reaches g id x → (id ≡ x) ⊎ (contains s.last.seen x ≡ true)
    visited here = inl refl
    visited (step {y} {z} r e) = elim (visited r) [
      | inl same ↦ inr (ground (arith, s.spreading.direct z (rw same e)))
      | inr old ↦ inr (ground (arith, onward y z old e))
    ]

    pub Spread-edges :
        (x y : NodeId)
        → Reaches g id x
        → IsEdge g x y
        → (contains g'.pending_edges (edge x y) && stale_at (HashMap.get g'.nodes y)) ≡ true
    Spread-edges x y r e = rw (← s.ended.1) (elim (visited r) [
      | inl same ↦
          rw (← same) (ground (arith, s.spreading.direct y (rw (← same) at e), s.spreading.stale y))
      | inr old ↦ ground (arith, onward x y old e, s.spreading.stale y)
    ])

    pub Spread-direct : (y : NodeId) → IsEdge g id y → dirty_at (HashMap.get g'.nodes y) ≡ true
    Spread-direct y e = rw (← s.ended.1) (ground (arith, s.spreading.direct y e))

  -- The walk starts as it should.
  pub start-Spreading :
      (ids : List NodeId)
      → ((y : NodeId) → contains ids y ≡ contains (successors g id) y)
      → Spreading id []
          (record { graph = mark_direct id ids g; queue = ids; seen = HashSet.from_list ids })
  start-Spreading ids all = record {
    direct = λ y e. ground (
      arith,
      all y,
      contains-from_list ids y,
      mark_direct-dirty id ids g y,
      mark_direct-pending id ids g y,
    );
    closed = λ u v a b e. ground (arith, contains-from_list ids u);
    stale = λ y m.
        stale_of_dirty (HashMap.get (mark_direct id ids g).nodes y)
          (mark_direct-dirty id ids g y (ground (arith, contains-from_list ids y)));
  }
