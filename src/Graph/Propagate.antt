-- ===== src/Graph/Propagate.antt =====
-- How staleness spreads: `mark_changed`, `mark_unchanged`, `mark_clean` and the pending edges.
pub mod Marks
pub mod Changed
pub mod Unchanged
pub mod Settles
pub mod Stale
pub mod Apart
pub mod StaysClean
pub mod Returns
pub mod Invalidates
use attribute_graph.Common.{
  ℕ, zero, suc, ◌+◌, ◌≡◌, refl, Bool, true, false, not, Option, none, some, List, [], ◌∷◌, ◌++◌,
  if◌then◌else◌, ◌==◌, ◌||◌, contains, length,
}
use attribute_graph.Common.HashSet
use attribute_graph.Common.HashSet.{HashSet}
use attribute_graph.Common.HashMap
use attribute_graph.Identity.{NodeId, node_id_key}
use attribute_graph.Dependency.{Edge, edge, edge_key, sorted_ids}
use attribute_graph.Node.{Node, NodeState, clean, dirty, maybe_dirty, is_clean}
use attribute_graph.Graph.State.{
  AttributeGraph, Outcome, returned, failed, panicked, out_of_fuel, Action, pure, observe, gets,
  update, continue, ◌>>=◌, ◌>>◌,
}
use attribute_graph.Graph.Guards.{ensure_node}

abbrev pub set_state : NodeState → Node → Node
set_state state node = record node { state = state }

-- `sorted_ids(self.dependents.get(&id))`
unfoldable pub dependents_at : AttributeGraph → NodeId → List NodeId
dependents_at g id = sorted_ids (HashMap.get g.dependents id)

-- One round of the loop over the direct dependents.
unfoldable pub mark_one : NodeId → NodeId → AttributeGraph → AttributeGraph
mark_one dependency dependent g = record g {
  nodes = HashMap.modify g.nodes dependent (set_state dirty);
  pending_edges = HashSet.insert g.pending_edges (edge dependency dependent);
}

unfoldable pub mark_direct : NodeId → List NodeId → AttributeGraph → AttributeGraph
mark_direct dependency [] g = g
mark_direct dependency (dependent ∷ rest) g =
    mark_direct dependency rest (mark_one dependency dependent g)

-- The variables of a worklist loop.
pub record Walk : Type 0 where
  pub graph : AttributeGraph
  pub queue : List NodeId
  pub seen : HashSet NodeId

-- `Clean` becomes `MaybeDirty`, and other states stay.
abbrev pub soften : Node → Node
soften node = if is_clean node.state then set_state maybe_dirty node else node

-- The body of the inner loop of `mark_changed`.
unfoldable pub reach_dependent : NodeId → NodeId → Walk → Walk
reach_dependent current dependent w =
    let g = record w.graph {
      pending_edges = HashSet.insert w.graph.pending_edges (edge current dependent);
    } in
    if contains w.seen dependent then record w { graph = g } else record {
      graph = record g { nodes = HashMap.modify g.nodes dependent soften };
      queue = w.queue ++ dependent ∷ [];
      seen = HashSet.insert w.seen dependent;
    }

unfoldable pub reach_dependents : NodeId → List NodeId → Walk → Walk
reach_dependents current [] w = w
reach_dependents current (dependent ∷ rest) w =
    reach_dependents current rest (reach_dependent current dependent w)

-- One round of the loop of `mark_changed`, after `current` left the queue.
unfoldable pub spread_round : NodeId → List NodeId → Walk → Walk
spread_round current rest w =
    reach_dependents current (dependents_at w.graph current) (record w { queue = rest })

unfoldable pub spread : ℕ → Walk → Option AttributeGraph
spread zero w = elim w.queue [ [] ↦ some w.graph | _ ∷ _ ↦ none ]
spread (suc fuel) w = elim w.queue [
  | [] ↦ some w.graph
  | current ∷ rest ↦ spread fuel (spread_round current rest w)
]

-- A loop that is given fuel, as an action.
abbrev pub loop_result : AttributeGraph → Option AttributeGraph → Outcome Unit × AttributeGraph
loop_result g none = (out_of_fuel, g)
loop_result g (some g') = (returned tt, g')

abbrev pub run_loop : (AttributeGraph → Option AttributeGraph) → Action Unit
run_loop loop g = loop_result g (loop g)

pub run_loop_rule {ℓ} :
    {A : Type 0} (P : AttributeGraph → Type ℓ) (o : Option AttributeGraph) (f : Unit {0} → Action A)
    (g : AttributeGraph)
    → P g
    → ((g' : AttributeGraph) → o ≡ some g' → P (f tt g').1)
    → P (continue (loop_result g o).0 f (loop_result g o).1).1
run_loop_rule P none f g p h = p
run_loop_rule P (some g') f g p h = h g' refl

abbrev pub total_length {ℓ} : {A : Type ℓ} → List (List A) → ℕ
total_length [] = 0
total_length (xs ∷ xss) = length xs + total_length xss

unfoldable pub edge_count : AttributeGraph → ℕ
edge_count g = total_length (HashMap.values g.dependents)

-- Each round takes a node from the queue; the direct dependents stand there at first, and then every
-- node comes there once at most.
unfoldable pub spread_from : List NodeId → AttributeGraph → Option AttributeGraph
spread_from dependents g =
    spread (edge_count g + HashMap.len g.nodes)
      (record { graph = g; queue = dependents; seen = HashSet.from_list dependents })

unfoldable pub mark_changed : NodeId → Action (List NodeId)
mark_changed dependency = do
  observe (λ g. ensure_node g dependency)
  dependents ← gets (λ g. dependents_at g dependency)
  update (mark_direct dependency dependents)
  run_loop (spread_from dependents)
  pure dependents

unfoldable pub any_into : List Edge → NodeId → Bool
any_into [] id = false
any_into (e ∷ es) id = (e.dependent == id) || any_into es id

unfoldable pub has_inbound_pending : AttributeGraph → NodeId → Bool
has_inbound_pending g id = any_into g.pending_edges id

unfoldable pub clear_inbound_pending_edges : NodeId → AttributeGraph → AttributeGraph
clear_inbound_pending_edges id g = record g {
  pending_edges = HashSet.retain (λ e. not (e.dependent == id)) g.pending_edges;
}

unfoldable pub mark_clean : NodeId → AttributeGraph → AttributeGraph
mark_clean id g =
    clear_inbound_pending_edges id
      (record g { nodes = HashMap.modify g.nodes id (set_state clean) })

-- The match on the dependent's state, once nothing is pending into it.
unfoldable pub settle_state : NodeId → Bool → NodeState → Walk → Walk
settle_state dependent removed_pending maybe_dirty w = record w {
  graph = record w.graph { nodes = HashMap.modify w.graph.nodes dependent (set_state clean) };
  queue = w.queue ++ dependent ∷ [];
}
settle_state dependent removed_pending clean w =
    if removed_pending then record w { queue = w.queue ++ dependent ∷ [] } else w
settle_state dependent removed_pending dirty w = w

-- The body of the inner loop of `mark_unchanged`.
unfoldable pub settle_dependent : NodeId → NodeId → Walk → Walk
settle_dependent current dependent w =
    let removed_pending = contains w.graph.pending_edges (edge current dependent) in
    let g = record w.graph {
      pending_edges = HashSet.remove w.graph.pending_edges (edge current dependent);
    } in
    let w' = record w { graph = g } in
    if has_inbound_pending g dependent then w' else elim (HashMap.get g.nodes dependent) [
      | none ↦ w'
      | some node ↦ settle_state dependent removed_pending node.state w'
    ]

unfoldable pub settle_dependents : NodeId → List NodeId → Walk → Walk
settle_dependents current [] w = w
settle_dependents current (dependent ∷ rest) w =
    settle_dependents current rest (settle_dependent current dependent w)

-- One round of the loop of `mark_unchanged`, after `current` left the queue.
unfoldable pub settle_round : NodeId → List NodeId → Walk → Walk
settle_round current rest w =
    if contains w.seen current
    then record w { queue = rest }
    else settle_dependents current (dependents_at w.graph current)
        (record w { queue = rest; seen = HashSet.insert w.seen current })

unfoldable pub settle : ℕ → Walk → Option AttributeGraph
settle zero w = elim w.queue [ [] ↦ some w.graph | _ ∷ _ ↦ none ]
settle (suc fuel) w = elim w.queue [
  | [] ↦ some w.graph
  | current ∷ rest ↦ settle fuel (settle_round current rest w)
]

-- A node enters the queue once for each edge into it at most.
unfoldable pub mark_unchanged : NodeId → Action Unit
mark_unchanged dependency =
    run_loop
      λ g. settle (edge_count g + 1) (record { graph = g; queue = dependency ∷ []; seen = [] })
