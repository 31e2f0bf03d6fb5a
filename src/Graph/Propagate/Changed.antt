-- ===== src/Graph/Propagate/Changed.antt =====
-- The steps of `mark_changed`.
use attribute_graph.Common.{
  ℕ, zero, suc, ◌≡◌, inl, inr, refl, true, Option, none, some, List, [], ◌∷◌, contains, arith,
  ==-refl, Bool-cases, Option-cases, some_injective, subst, List-cases,
}
use attribute_graph.Common.HashSet
use attribute_graph.Common.HashSet.{HashSet, contains-insert, contains-from_list}
use attribute_graph.Common.HashMap
use attribute_graph.Common.Sort.{contains-sort}
use attribute_graph.Identity.{NodeId, node_id_key}
use attribute_graph.Dependency.{edge, edge_key, sorted_ids}
use attribute_graph.Node.{Node, clean, dirty}
use attribute_graph.Graph.State.{AttributeGraph, continue_rule}
use attribute_graph.Graph.Guards.{ensure_node}
use attribute_graph.Graph.Propagate.{
  set_state, soften, dependents_at, mark_one, mark_direct, Walk, reach_dependent, reach_dependents,
  spread_round, spread, spread_from, mark_changed,
}
use attribute_graph.Graph.Commit.{successors, ids_at}
use attribute_graph.Graph.Invariant.{IsEdge, IsWellFormed, Keeps}
use attribute_graph.Graph.Propagate.Marks.{
  Marks, Marks-refl, Marks-trans, Marks-modify, Marks-insert, Marks-IsWellFormed, successors-marked,
}

-- `dependents_at` lists what `successors` holds.
pub contains-dependents_at :
    (g : AttributeGraph) (x z : NodeId)
    → contains (dependents_at g x) z ≡ contains (successors g x) z
unfolding dependents_at successors sorted_ids
contains-dependents_at g x z = split (HashMap.get g.dependents x)
  where
    split : (o : Option (HashSet NodeId)) → contains (sorted_ids o) z ≡ contains (ids_at o) z
    split none = refl
    split (some ids) = contains-sort ids z

-- Each listed id depends on `x`.
abbrev pub AllFrom : AttributeGraph → NodeId → List NodeId → Type 0
AllFrom g x ids = (z : NodeId) → contains ids z ≡ true → IsEdge g x z

pub AllFrom-dependents_at : (g : AttributeGraph) (x : NodeId) → AllFrom g x (dependents_at g x)
AllFrom-dependents_at g x z m = rw contains-dependents_at at m

pub AllFrom-tail :
    (g : AttributeGraph) (x d : NodeId) (rest : List NodeId)
    → AllFrom g x (d ∷ rest)
    → AllFrom g x rest
unfolding contains
AllFrom-tail g x d rest h z m = h z (ground arith)

pub AllFrom-head :
    (g : AttributeGraph) (x d : NodeId) (rest : List NodeId) → AllFrom g x (d ∷ rest) → IsEdge g x d
unfolding contains
AllFrom-head g x d rest h = h d (ground (arith, ==-refl d))

AllFrom-marked :
    {g g' : AttributeGraph} (x : NodeId) (ids : List NodeId)
    → Marks g g'
    → AllFrom g x ids
    → AllFrom g' x ids
AllFrom-marked x ids m h z c = rw (successors-marked m x) (h z c)

mark_one-Marks : (x d : NodeId) (g : AttributeGraph) → IsEdge g x d → Marks g (mark_one x d g)
unfolding mark_one
mark_one-Marks x d g e = Marks-trans (Marks-modify g d (set_state dirty) (λ n. refl)) (
    Marks-insert (record g { nodes = HashMap.modify g.nodes d (set_state dirty) }) x d
      (unfold successors in e))

pub mark_direct-Marks :
    (x : NodeId) (ids : List NodeId) (g : AttributeGraph)
    → AllFrom g x ids
    → Marks g (mark_direct x ids g)
unfolding mark_direct
mark_direct-Marks x [] g h = Marks-refl g
mark_direct-Marks x (d ∷ rest) g h =
    let first = mark_one-Marks x d g (AllFrom-head g x d rest h) in
    Marks-trans first (
      mark_direct-Marks x rest (mark_one x d g)
        (AllFrom-marked x rest first (AllFrom-tail g x d rest h)))

soften-same : (n : Node) → set_state clean (soften n) ≡ set_state clean n
soften-same n = ground arith

reach_dependent-Marks :
    (x d : NodeId) (w : Walk) → IsEdge w.graph x d → Marks w.graph (reach_dependent x d w).graph
unfolding reach_dependent
reach_dependent-Marks x d w e =
    let g = record w.graph { pending_edges = HashSet.insert w.graph.pending_edges (edge x d) } in
    let first = Marks-insert w.graph x d e in
    elim (Bool-cases (contains w.seen d)) [
      | inl old ↦ rw old first
      | inr new ↦ rw new (Marks-trans first (Marks-modify g d soften soften-same))
    ]

pub reach_dependents-Marks :
    (x : NodeId) (ids : List NodeId) (w : Walk)
    → AllFrom w.graph x ids
    → Marks w.graph (reach_dependents x ids w).graph
unfolding reach_dependents
reach_dependents-Marks x [] w h = Marks-refl w.graph
reach_dependents-Marks x (d ∷ rest) w h =
    let first = reach_dependent-Marks x d w (AllFrom-head w.graph x d rest h) in
    Marks-trans first (
      reach_dependents-Marks x rest (reach_dependent x d w)
        (AllFrom-marked x rest first (AllFrom-tail w.graph x d rest h)))

pub spread_round-Marks :
    (x : NodeId) (rest : List NodeId) (w : Walk) → Marks w.graph (spread_round x rest w).graph
unfolding spread_round
spread_round-Marks x rest w =
    reach_dependents-Marks x (dependents_at w.graph x) (record w { queue = rest })
      (AllFrom-dependents_at w.graph x)

pub spread-Marks :
    (fuel : ℕ) (w : Walk) (g' : AttributeGraph) → spread fuel w ≡ some g' → Marks w.graph g'
unfolding spread
spread-Marks zero w g' e = elim (List-cases w.queue) [
  | inl empty ↦
      subst (Marks w.graph) (some_injective (rw (empty, spread) at e)) (Marks-refl w.graph)
  | inr (x, rest, q) ↦ cc (rw (q, spread) at e)
]
spread-Marks (suc fuel) w g' e = elim (List-cases w.queue) [
  | inl empty ↦
      subst (Marks w.graph) (some_injective (rw (empty, spread) at e)) (Marks-refl w.graph)
  | inr (x, rest, q) ↦
      Marks-trans (spread_round-Marks x rest w)
        (spread-Marks fuel (spread_round x rest w) g' (rw (q, spread) at e))
]

spread_from-Marks :
    (ids : List NodeId) (g g' : AttributeGraph) → spread_from ids g ≡ some g' → Marks g g'
unfolding spread_from
spread_from-Marks ids g g' e = spread-Marks _ _ g' e

-- `mark_changed` only marks, on every way out.
pub mark_changed-Marks : (id : NodeId) (g : AttributeGraph) → Marks g (mark_changed id g).1
unfolding mark_changed
mark_changed-Marks id g = continue_rule (Marks g) (ensure_node g id) _ g (Marks-refl g) λ _ _.
    let ids = dependents_at g id in
    let first = mark_direct-Marks id ids g (AllFrom-dependents_at g id) in
    elim (Option-cases (spread_from ids (mark_direct id ids g))) [
      | inl stuck ↦ rw stuck first
      | inr (g', e) ↦ rw e (Marks-trans first (spread_from-Marks ids (mark_direct id ids g) g' e))
    ]

-- Marking the dependents of a node keeps a well-formed graph well-formed, on every way out.
pub mark_changed-IsWellFormed : (id : NodeId) → Keeps IsWellFormed (mark_changed id)
mark_changed-IsWellFormed id g = Marks-IsWellFormed (mark_changed-Marks id g)
