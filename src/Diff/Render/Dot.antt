-- ===== src/Diff/Render/Dot.antt =====
-- diff/src/render.rs: the Graphviz format.
use attribute_graph.Common.{ℕ, ◌+◌, Option, some, List, [], ◌∷◌, map, String}
use attribute_graph.Common.BTreeMap.{BTreeMap}
use attribute_graph.Common.Format.{◌<>◌, decimal, concat_all}
use attribute_graph.Identity.{SubgraphId}
use attribute_graph.Dependency.{Edge, EdgeState}
use attribute_graph.Diff.Snapshot.{GraphSnapshot, NodeSnapshot, SubgraphSnapshot}
use attribute_graph.Diff.Timeline.{DiffSession}
use attribute_graph.Diff.Render.Names.{
  line, node_ref, subgraph_ref, subgraph_name, dot_fill, edge_state_name, snapshot_subgraph_labels,
  dot_escape, render_node_label,
}
use attribute_graph.Diff.Render.Scopes.{◌<?>◌, render_subgraph, render_scopes}

unfoldable pub render_dot_node :
    String → BTreeMap SubgraphId String → NodeSnapshot → String → String
unfolding dot_escape render_node_label
render_dot_node node_prefix subgraph_labels node indent = line (
    indent
    <> node_ref node_prefix node.id
    <> " [label=\""
    <> dot_escape (render_node_label node "\\n" subgraph_labels)
    <> "\", style=filled, fillcolor=\""
    <> dot_fill node.state
    <> "\"] ;")

abbrev dot_opening : String → SubgraphSnapshot → String → String → String
dot_opening node_prefix subgraph indent child_indent =
    line (indent <> "subgraph cluster_" <> subgraph_ref node_prefix subgraph.id <> " {")
    <> line (child_indent <> "label=\"" <> dot_escape (subgraph_name subgraph) <> "\";")

abbrev dot_placeholder : String → SubgraphSnapshot → String → String
dot_placeholder node_prefix subgraph child_indent = line (
    child_indent
    <> subgraph_ref node_prefix subgraph.id
    <> "_empty [label=\"no attributes\", shape=plaintext];")

abbrev dot_closing : String → String
dot_closing indent = line (indent <> "}")

unfoldable pub render_dot_subgraph :
    String
    → BTreeMap SubgraphId String
    → GraphSnapshot
    → ℕ
    → String
    → SubgraphSnapshot
    → Option String
unfolding render_subgraph render_dot_node
render_dot_subgraph node_prefix subgraph_labels snapshot fuel indent subgraph =
    render_subgraph snapshot (dot_opening node_prefix) (render_dot_node node_prefix subgraph_labels)
      (dot_placeholder node_prefix) dot_closing fuel indent subgraph

abbrev dot_edge : String → String → Edge × EdgeState → String
dot_edge node_prefix indent entry = line (
    indent
    <> node_ref node_prefix entry.0.dependency
    <> " -> "
    <> node_ref node_prefix entry.0.dependent
    <> " [label=\""
    <> edge_state_name entry.1
    <> "\"] ;")

unfoldable pub render_dot_snapshot_body : GraphSnapshot → String → String → Option String
unfolding render_scopes render_dot_node snapshot_subgraph_labels
render_dot_snapshot_body snapshot indent node_prefix =
    let subgraph_labels = snapshot_subgraph_labels snapshot in
    render_scopes snapshot (dot_opening node_prefix) (render_dot_node node_prefix subgraph_labels)
      (dot_placeholder node_prefix) dot_closing indent
    <?> some (concat_all (map (dot_edge node_prefix indent) snapshot.edges))

unfoldable pub render_dot_snapshot : GraphSnapshot → Option String
unfolding render_dot_snapshot_body
render_dot_snapshot snapshot =
    some (line "digraph AttributeGraph {" <> line "  rankdir=LR;")
    <?> render_dot_snapshot_body snapshot "  " ""
    <?> some (line "}")

abbrev dot_timeline_entry : ℕ → GraphSnapshot → Option String
dot_timeline_entry index snapshot =
    some (
      line ("  subgraph cluster_" <> decimal index <> " {")
      <> line ("    label=\"" <> dot_escape snapshot.label <> "\";"))
    <?> render_dot_snapshot_body snapshot "    " ("s" <> decimal index <> "_")
    <?> some (line "  }")

-- The loop over the snapshots, from an index on.
unfoldable pub dot_timeline_from : ℕ → List GraphSnapshot → Option String
unfolding render_dot_snapshot_body
dot_timeline_from index [] = some ""
dot_timeline_from index (snapshot ∷ rest) =
    dot_timeline_entry index snapshot <?> dot_timeline_from (index + 1) rest

unfoldable pub render_dot_timeline : DiffSession → Option String
unfolding dot_timeline_from
render_dot_timeline session =
    some (line "digraph AttributeGraphTimeline {" <> line "  rankdir=LR;")
    <?> dot_timeline_from 0 session.snapshots
    <?> some (line "}")
