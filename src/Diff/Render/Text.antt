-- ===== src/Diff/Render/Text.antt =====
-- diff/src/render.rs: the text format. `{:?}` of a rule's name goes by tables of Unicode and is a parameter.
use attribute_graph.Common.{
  ℕ, zero, suc, ◌+◌, ◌-◌, Option, none, some, List, [], ◌∷◌, ◌++◌, map, String, if◌then◌else◌, ltb,
  eqb, length,
}
use attribute_graph.Common.HashMap
use attribute_graph.Common.BTreeMap.{BTreeMap}
use attribute_graph.Common.Format.{◌<>◌, concat_all, join}
use attribute_graph.Identity.{NodeId, SubgraphId}
use attribute_graph.Dependency.{Edge, EdgeState}
use attribute_graph.Diff.Snapshot.{GraphSnapshot, NodeSnapshot, SubgraphSnapshot}
use attribute_graph.Diff.Change.{
  GraphDiff, GraphChange, subgraph_added, subgraph_removed, node_added, node_removed,
  node_state_changed, node_value_changed, edge_added, edge_removed, edge_state_changed,
}
use attribute_graph.Diff.Timeline.{DiffSession}
use attribute_graph.Diff.Render.Names.{
  line, labeled_id, labeled_subgraph_id, node_name, subgraph_name, snapshot_node_labels,
  snapshot_subgraph_labels, render_value, render_optional_value, render_optional_subgraph,
  render_edge, render_ids, render_subgraph_ids, render_node_scope_suffix, node_kind, state_name,
  edge_state_name,
}

unfoldable pub render_change :
    GraphChange → BTreeMap NodeId String → BTreeMap SubgraphId String → String
render_change (subgraph_added subgraph) node_labels subgraph_labels =
    "subgraph "
    <> subgraph_name subgraph
    <> " added parent="
    <> render_optional_subgraph subgraph.parent subgraph_labels
    <> " nodes="
    <> render_ids subgraph.nodes
render_change (subgraph_removed subgraph) node_labels subgraph_labels =
    "subgraph "
    <> subgraph_name subgraph
    <> " removed parent="
    <> render_optional_subgraph subgraph.parent subgraph_labels
    <> " nodes="
    <> render_ids subgraph.nodes
render_change (node_added node) node_labels subgraph_labels =
    "node "
    <> node_name node
    <> " added ("
    <> node_kind node
    <> ")"
    <> render_node_scope_suffix node subgraph_labels
render_change (node_removed node) node_labels subgraph_labels =
    "node "
    <> node_name node
    <> " removed ("
    <> node_kind node
    <> ")"
    <> render_node_scope_suffix node subgraph_labels
render_change (node_state_changed id before after) node_labels subgraph_labels =
    "node "
    <> labeled_id id node_labels
    <> " state "
    <> state_name before
    <> " -> "
    <> state_name after
render_change (node_value_changed id before after) node_labels subgraph_labels =
    "node "
    <> labeled_id id node_labels
    <> " value "
    <> render_optional_value before
    <> " -> "
    <> render_optional_value after
render_change (edge_added edge state) node_labels subgraph_labels =
    "edge " <> render_edge edge node_labels <> " added (" <> edge_state_name state <> ")"
render_change (edge_removed edge state) node_labels subgraph_labels =
    "edge " <> render_edge edge node_labels <> " removed (" <> edge_state_name state <> ")"
render_change (edge_state_changed edge before after) node_labels subgraph_labels =
    "edge "
    <> render_edge edge node_labels
    <> " state "
    <> edge_state_name before
    <> " -> "
    <> edge_state_name after

unfoldable pub render_subgraph_line : SubgraphSnapshot → BTreeMap SubgraphId String → String
render_subgraph_line subgraph subgraph_labels =
    subgraph_name subgraph
    <> " parent="
    <> render_optional_subgraph subgraph.parent subgraph_labels
    <> " children="
    <> render_subgraph_ids subgraph.children subgraph_labels
    <> " nodes="
    <> render_ids subgraph.nodes

-- A piece that is pushed if there is something to show.
abbrev piece : {A : Type 0} → (A → String) → Option A → List String
piece show none = []
piece show (some a) = show a ∷ []

-- The lines of a listing, or the one that says that there is none.
abbrev listing : {A : Type 0} → (A → String) → List A → String
listing show [] = line "- none"
listing show (x ∷ xs) = concat_all (map (λ a. line ("- " <> show a)) (x ∷ xs))

abbrev subgraph_listing : BTreeMap SubgraphId String → List SubgraphSnapshot → String
subgraph_listing labels [] = ""
subgraph_listing labels (x ∷ xs) =
    line "Subgraphs:"
    <> concat_all (map (λ subgraph. line ("- " <> render_subgraph_line subgraph labels)) (x ∷ xs))

unfoldable pub render_text_diff : GraphDiff → String
render_text_diff diff =
    line ("Diff: " <> diff.before_label <> " -> " <> diff.after_label) <> elim diff.changes [
      | [] ↦ line "- no changes"
      | change ∷ rest ↦ concat_all (
          map (λ c. line ("- " <> render_change c diff.node_labels diff.subgraph_labels))
            (change ∷ rest))
    ]

-- `slice::get`
abbrev get_elem? : {A : Type 0} → List A → ℕ → Option A
get_elem? [] n = none
get_elem? (x ∷ xs) zero = some x
get_elem? (x ∷ xs) (suc n) = get_elem? xs n

module _ (debug : String → String) where
  unfoldable pub render_node_line : NodeSnapshot → BTreeMap SubgraphId String → String
  render_node_line node subgraph_labels = join " " (
      (node_name node ∷ node_kind node ∷ state_name node.state ∷ [])
      ++ piece (λ subgraph. "subgraph=" <> labeled_subgraph_id subgraph subgraph_labels)
          node.subgraph_id
      ++ piece (λ value_type. "type=" <> value_type) node.value_type
      ++ piece (λ debug_name. "rule=" <> debug debug_name) node.debug_name
      ++ piece (λ value. "value=" <> render_value value) node.cached_value
      ++ (("deps=" <> render_ids node.dependencies)
          ∷ ("dependents=" <> render_ids node.dependents)
          ∷ []))

  unfoldable pub render_text_snapshot : GraphSnapshot → String
  render_text_snapshot snapshot =
      let subgraph_labels = snapshot_subgraph_labels snapshot in
      line ("Snapshot: " <> snapshot.label)
      <> subgraph_listing subgraph_labels (HashMap.values snapshot.subgraphs)
      <> line "Nodes:"
      <> listing (λ node. render_node_line node subgraph_labels) (HashMap.values snapshot.nodes)
      <> line "Edges:"
      <> listing
          (λ (entry : Edge × EdgeState).
            render_edge entry.0 (snapshot_node_labels snapshot) <> " " <> edge_state_name entry.1)
          snapshot.edges

  -- The loop over the snapshots, from an index on.
  unfoldable pub text_timeline_from : DiffSession → ℕ → List GraphSnapshot → String
  text_timeline_from session index [] = ""
  text_timeline_from session index (snapshot ∷ rest) =
      (if eqb index 0
        then render_text_snapshot snapshot
        else elim (get_elem? session.diffs (index - 1)) [
          | none ↦ ""
          | some diff ↦ render_text_diff diff
        ])
      <> (if ltb (index + 1) (length session.snapshots) then "\n" else "")
      <> text_timeline_from session (index + 1) rest

  unfoldable pub render_text_timeline : DiffSession → String
  render_text_timeline session = text_timeline_from session 0 session.snapshots
