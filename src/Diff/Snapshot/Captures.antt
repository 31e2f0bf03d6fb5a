-- ===== src/Diff/Snapshot/Captures.antt =====
-- What `GraphSnapshot::capture_with_label_maps` keeps of a graph.
use attribute_graph.Common.{
  ◌≡◌, refl, sym, ◌∙◌, Bool, true, false, Option, none, some, [], String, if◌then◌else◌, sort,
  contains, is_some, subst,
}
use mathlib.Core.Option
use attribute_graph.Common.HashMap
use attribute_graph.Common.HashMap.{contains-keys}
use attribute_graph.Common.BTreeMap.{BTreeMap, IsAscending}
use attribute_graph.Common.Sort.{contains-sort}
use attribute_graph.Identity.{NodeId, SubgraphId, node_id_key, subgraph_id_key}
use attribute_graph.Value.Bytes.{Endian, Text}
use attribute_graph.Dependency.{edge, edge_key, settled, pending}
use attribute_graph.Graph.State.{AttributeGraph, returned}
use attribute_graph.Graph.Query.{edges, pending_edges}
use attribute_graph.Graph.Query.Edges.{edges_lem}
use attribute_graph.Graph.Query.Complete.{topological_order_lem}
use attribute_graph.Graph.Commit.{successors}
use attribute_graph.Graph.Scopes.{subgraphs}
use attribute_graph.Graph.Invariant.{IsWellFormed}
use attribute_graph.Diff.Snapshot.{GraphSnapshot, capture_with_label_maps}
use attribute_graph.Diff.Snapshot.Shown.{
  Matches, Matches-map, ShowsNode, ShowsSubgraph, kept_node-ShowsNode, kept_subgraph-ShowsSubgraph,
}
use attribute_graph.Diff.Snapshot.Entries.{
  kept_node, kept_subgraph, subgraph_at, node_at, state_of_edge, capture_subgraphs_lem,
  capture_nodes_lem, capture_edges_lem,
}

contains-subgraphs :
    (g : AttributeGraph) (id : SubgraphId)
    → contains (subgraphs g) id ≡ is_some (HashMap.get g.subgraphs id)
unfolding subgraphs
contains-subgraphs g id = contains-sort (HashMap.keys g.subgraphs) id ∙ contains-keys g.subgraphs id

filled_map :
    {A B : Type 0} (h : A → B) (o : Option A) (b : Bool) {r : Option B}
    → b ≡ is_some o
    → r ≡ (if b then Option.map h o else none)
    → r ≡ Option.map h o
filled_map h none b e f = rw e at f
filled_map h (some x) b e f = rw e at f

filled_if :
    {A : Type 0} (b c : Bool) (x : A) {r : Option A}
    → b ≡ c
    → r ≡ (if b then (if c then some x else none) else none)
    → r ≡ (if c then some x else none)
filled_if true c x e f = f
filled_if false c x e f = rw (← e) f

module _ (target : Endian) (debug : Text → String) (g : AttributeGraph)
    (node_labels : BTreeMap NodeId String) (subgraph_labels : BTreeMap SubgraphId String) where
  -- A snapshot shows the graph: each node, each subgraph, each edge with its state, and nothing else.
  pub record Shows (s : GraphSnapshot) : Type 0 where
    pub nodes :
        (id : NodeId)
        → Matches
            (ShowsNode target debug g node_labels subgraph_labels id)
            (HashMap.get g.nodes id)
            (HashMap.get s.nodes id)
    pub subgraphs :
        (id : SubgraphId)
        → Matches
            (ShowsSubgraph target debug g node_labels subgraph_labels id)
            (HashMap.get g.subgraphs id)
            (HashMap.get s.subgraphs id)
    pub edges :
        (x y : NodeId)
        → HashMap.get s.edges (edge x y) ≡ (
            if contains (successors g x) y
            then some (if contains g.pending_edges (edge x y) then pending else settled)
            else none)
    pub pending_edges : s.pending_edges ≡ sort g.pending_edges
    pub ascending : IsAscending s.nodes × IsAscending s.subgraphs × IsAscending s.edges

-- Capturing a well-formed graph returns a snapshot with the label, which shows the graph: each node with its
-- label, subgraph, kind, state, type, name and cached value as `render_value` shows it, each subgraph with
-- its label and parent, their ids of nodes and subgraphs in ascending order, each edge with its state, and
-- nothing else.
pub capture_lem :
    (target : Endian) (debug : Text → String) (g : AttributeGraph)
    (node_labels : BTreeMap NodeId String) (subgraph_labels : BTreeMap SubgraphId String)
    (label : String)
    → IsWellFormed g
    → (s : GraphSnapshot) × (capture_with_label_maps target debug g node_labels subgraph_labels
          label
        ≡ returned s)
      × (s.label ≡ label)
      × Shows target debug g node_labels subgraph_labels s
unfolding capture_with_label_maps subgraph_at node_at state_of_edge pending_edges HashMap.get
capture_lem target debug g node_labels subgraph_labels label wf =
    let (order, ordered, distinct, members, first) = topological_order_lem g wf in
    let listed = edges_lem g wf in
    let (ss, run_s, asc_s, filled_s) =
      capture_subgraphs_lem target debug g node_labels subgraph_labels (subgraphs g) []
        (λ id m. sym (contains-subgraphs g id) ∙ m) tt in
    let (ns, run_n, asc_n, filled_n) =
      capture_nodes_lem target debug g node_labels subgraph_labels wf order []
        (λ id m. sym (members id) ∙ m) tt in
    let (es, run_e, asc_e, filled_e) =
      capture_edges_lem target debug g node_labels subgraph_labels wf (edges g) []
        (λ x y m. sym (listed.0 x y) ∙ m) tt in
    (
      record {
        label = label;
        subgraphs = ss;
        nodes = ns;
        edges = es;
        pending_edges = pending_edges g;
      },
      rw (run_s, ordered, run_n, run_e) refl,
      refl,
      record {
        nodes = λ id.
            subst
              (Matches (ShowsNode target debug g node_labels subgraph_labels id)
                (HashMap.get g.nodes id))
              (sym (
                filled_map (kept_node target debug g node_labels subgraph_labels id)
                  (HashMap.get g.nodes id) (contains order id) (members id) (filled_n id)))
              (Matches-map _ _ (kept_node-ShowsNode target debug g node_labels subgraph_labels id)
                (HashMap.get g.nodes id));
        subgraphs = λ id.
            subst
              (Matches (ShowsSubgraph target debug g node_labels subgraph_labels id)
                (HashMap.get g.subgraphs id))
              (sym (
                filled_map (kept_subgraph target debug g node_labels subgraph_labels id)
                  (HashMap.get g.subgraphs id) (contains (subgraphs g) id) (contains-subgraphs g id)
                  (filled_s id)))
              (Matches-map _ _
                (kept_subgraph-ShowsSubgraph target debug g node_labels subgraph_labels id)
                (HashMap.get g.subgraphs id));
        edges = λ x y.
            filled_if (contains (edges g) (edge x y)) (contains (successors g x) y)
              (if contains g.pending_edges (edge x y) then pending else settled) (listed.0 x y)
              (filled_e (edge x y));
        pending_edges = refl;
        ascending = (asc_n, asc_s, asc_e);
      },
    )
