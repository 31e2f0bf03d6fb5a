-- ===== src/Diff/Snapshot/Entries.antt =====
-- The loops that fill the maps of a snapshot.
use attribute_graph.Common.{
  ◌≡◌, inl, inr, refl, ap, true, Option, none, some, List, [], ◌∷◌, Key, String, if◌then◌else◌,
  contains, is_some, arith, ==-cases, ==-refl, Option-cases,
}
use mathlib.Core.Option
use attribute_graph.Common.HashMap
use attribute_graph.Common.BTreeMap
use attribute_graph.Common.BTreeMap.{BTreeMap, IsAscending, IsAscending-insert, get-insert}
use attribute_graph.Identity.{NodeId, SubgraphId, node_id_key, subgraph_id_key}
use attribute_graph.Value.Bytes.{Endian, Text}
use attribute_graph.Dependency.{Edge, edge, edge_key, EdgeState, settled, pending}
use attribute_graph.Node.{Node, active_dependencies}
use attribute_graph.Subgraph
use attribute_graph.Graph.State.{AttributeGraph, returned}
use attribute_graph.Graph.Propagate.{dependents_at}
use attribute_graph.Graph.Propagate.Invalidates.{ensure_node-present}
use attribute_graph.Graph.Query.{dependencies_of, dependents_of, edge_state}
use attribute_graph.Graph.Query.EdgeStates.{edge_state_lem}
use attribute_graph.Graph.Commit.{successors}
use attribute_graph.Graph.Invariant.{IsWellFormed}
use attribute_graph.Graph.Invariant.Core.{ends_present}
use attribute_graph.Diff.Snapshot.{
  SubgraphSnapshot, NodeSnapshot, subgraph_snapshot, node_snapshot, capture_subgraphs,
  capture_nodes, capture_edges,
}

module _ {K V : Type 0} ⦃k : Key K⦄ (f : K → Option V) where
  -- The map is `captured` with what `f` gives for the ids.
  abbrev pub IsFilled : List K → BTreeMap K V → BTreeMap K V → Type 0
  IsFilled ids captured m =
      (z : K) → HashMap.get m z ≡ (if contains ids z then f z else HashMap.get captured z)

  IsFilled-insert :
      (id : K) (rest : List K) (captured m : BTreeMap K V) (v : V)
      → f id ≡ some v
      → IsFilled rest (BTreeMap.insert captured id v) m
      → IsFilled (id ∷ rest) captured m
  unfolding contains
  IsFilled-insert id rest captured m v found filled z = elim (==-cases id z) [
    | inl (same, t) ↦ ground (arith, filled z, get-insert captured id v z, ap f same)
    | inr t ↦ ground (arith, filled z, get-insert captured id v z)
  ]

module _ (target : Endian) (debug : Text → String) (g : AttributeGraph)
    (node_labels : BTreeMap NodeId String) (subgraph_labels : BTreeMap SubgraphId String) where
  -- What is kept of a node and of a subgraph.
  abbrev pub kept_node : NodeId → Node → NodeSnapshot
  kept_node id node =
      node_snapshot target debug g node_labels subgraph_labels id node (active_dependencies node)
        (dependents_at g id)

  abbrev pub kept_subgraph : SubgraphId → Subgraph.Subgraph → SubgraphSnapshot
  kept_subgraph id subgraph =
      subgraph_snapshot target debug g node_labels subgraph_labels id subgraph

  -- Each entry of a map stands under its id.
  abbrev pub IsNamed : BTreeMap NodeId NodeSnapshot → Type 0
  IsNamed m = (id : NodeId) (n : NodeSnapshot) → HashMap.get m id ≡ some n → n.id ≡ id

  unfoldable pub subgraph_at : SubgraphId → Option SubgraphSnapshot
  subgraph_at id = Option.map (kept_subgraph id) (HashMap.get g.subgraphs id)

  pub capture_subgraphs_lem :
      (ids : List SubgraphId) (captured : BTreeMap SubgraphId SubgraphSnapshot)
      → ((id : SubgraphId) → contains ids id ≡ true → is_some (HashMap.get g.subgraphs id) ≡ true)
      → IsAscending captured
      → (m : BTreeMap SubgraphId SubgraphSnapshot) × (capture_subgraphs target debug g node_labels
            subgraph_labels ids captured
          ≡ returned m)
        × IsAscending m
        × IsFilled subgraph_at ids captured m
  unfolding capture_subgraphs contains subgraph_at
  capture_subgraphs_lem [] captured present asc = (captured, refl, asc, λ id. refl)
  capture_subgraphs_lem (id ∷ rest) captured present asc =
      elim (Option-cases (HashMap.get g.subgraphs id)) [
        | inl absent ↦ absurd (ground (arith, present id, ==-refl id))
        | inr (subgraph, found) ↦
            let kept = kept_subgraph id subgraph in
            let (m, run, ascending, filled) =
              capture_subgraphs_lem rest (BTreeMap.insert captured id kept)
                (λ z h. present z (ground arith)) (IsAscending-insert captured id kept asc) in
            (
              m,
              rw found run,
              ascending,
              IsFilled-insert subgraph_at id rest captured m kept
                  (ap (Option.map (kept_subgraph id)) found) filled,
            )
      ]

  module _ (wf : IsWellFormed g) where
    present_of_found :
        (id : NodeId) (node : Node)
        → HashMap.get g.nodes id ≡ some node
        → is_some (HashMap.get g.nodes id) ≡ true
    present_of_found id node found = rw found refl

    dependencies_of_lem :
        (id : NodeId) (node : Node)
        → HashMap.get g.nodes id ≡ some node
        → dependencies_of g id ≡ returned (active_dependencies node)
    unfolding dependencies_of
    dependencies_of_lem id node found =
        rw (ensure_node-present g id wf (present_of_found id node found), found) refl

    dependents_of_lem :
        (id : NodeId) (node : Node)
        → HashMap.get g.nodes id ≡ some node
        → dependents_of g id ≡ returned (dependents_at g id)
    unfolding dependents_of
    dependents_of_lem id node found =
        rw (ensure_node-present g id wf (present_of_found id node found)) refl

    unfoldable pub node_at : NodeId → Option NodeSnapshot
    node_at id = Option.map (kept_node id) (HashMap.get g.nodes id)

    pub capture_nodes_lem :
        (ids : List NodeId) (captured : BTreeMap NodeId NodeSnapshot)
        → ((id : NodeId) → contains ids id ≡ true → is_some (HashMap.get g.nodes id) ≡ true)
        → IsAscending captured
        → (m : BTreeMap NodeId NodeSnapshot) × (capture_nodes target debug g node_labels
              subgraph_labels ids captured
            ≡ returned m)
          × IsAscending m
          × IsFilled node_at ids captured m
    unfolding capture_nodes contains node_at
    capture_nodes_lem [] captured present asc = (captured, refl, asc, λ id. refl)
    capture_nodes_lem (id ∷ rest) captured present asc =
        elim (Option-cases (HashMap.get g.nodes id)) [
          | inl absent ↦ absurd (ground (arith, present id, ==-refl id))
          | inr (node, found) ↦
              let kept = kept_node id node in
              let (m, run, ascending, filled) =
                capture_nodes_lem rest (BTreeMap.insert captured id kept)
                  (λ z h. present z (ground arith)) (IsAscending-insert captured id kept asc) in
              (
                m,
                rw (found, dependencies_of_lem id node found, dependents_of_lem id node found) run,
                ascending,
                IsFilled-insert node_at id rest captured m kept
                    (ap (Option.map (kept_node id)) found) filled,
              )
        ]

    unfoldable pub state_of_edge : Edge → Option EdgeState
    state_of_edge e =
        if contains (successors g e.dependency) e.dependent
        then some (if contains g.pending_edges e then pending else settled)
        else none

    edge_state_at :
        (x y : NodeId)
        → contains (successors g x) y ≡ true
        → edge_state g x y
          ≡ returned (if contains g.pending_edges (edge x y) then pending else settled)
    edge_state_at x y e =
        let (px, py) = ends_present g x y wf e in ground (arith, edge_state_lem g x y wf px py)

    pub capture_edges_lem :
        (es : List Edge) (captured : BTreeMap Edge EdgeState)
        → ((x y : NodeId) → contains es (edge x y) ≡ true → contains (successors g x) y ≡ true)
        → IsAscending captured
        → (m : BTreeMap Edge EdgeState) × (capture_edges target debug g node_labels subgraph_labels
              es captured
            ≡ returned m)
          × IsAscending m
          × IsFilled state_of_edge es captured m
    unfolding capture_edges contains state_of_edge
    capture_edges_lem [] captured present asc = (captured, refl, asc, λ id. refl)
    capture_edges_lem (e ∷ rest) captured present asc =
        let is_edge = present e.dependency e.dependent (ground (arith, ==-refl e)) in
        let state = if contains g.pending_edges e then pending else settled in
        let (m, run, ascending, filled) =
          capture_edges_lem rest (BTreeMap.insert captured e state)
            (λ x y h. present x y (ground arith)) (IsAscending-insert captured e state asc) in
        (
          m,
          rw (edge_state_at e.dependency e.dependent is_edge) run,
          ascending,
          IsFilled-insert state_of_edge e rest captured m state (rw is_edge refl) filled,
        )
