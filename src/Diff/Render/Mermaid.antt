-- ===== src/Diff/Render/Mermaid.antt =====
-- diff/src/render.rs: the Mermaid format.
use attribute_graph.Common.{ℕ, ◌+◌, ◌&&◌, Option, some, List, [], ◌∷◌, map, String}
use attribute_graph.Common.BTreeMap.{BTreeMap}
use attribute_graph.Common.Format.{◌<>◌, decimal, concat_all}
use attribute_graph.Identity.{SubgraphId}
use attribute_graph.Dependency.{Edge, EdgeState}
use attribute_graph.Diff.Snapshot.{GraphSnapshot, NodeSnapshot, SubgraphSnapshot}
use attribute_graph.Diff.Timeline.{DiffSession}
use attribute_graph.Diff.Render.Names.{
  line, node_ref, subgraph_ref, subgraph_name, state_class, edge_state_name,
  snapshot_subgraph_labels, mermaid_escape, render_node_label,
}
use attribute_graph.Diff.Render.Scopes.{◌<?>◌, no_entries, if_any, render_subgraph, render_scopes}

unfoldable pub render_mermaid_node :
    String → BTreeMap SubgraphId String → NodeSnapshot → String → String
unfolding mermaid_escape render_node_label
render_mermaid_node node_prefix subgraph_labels node indent =
    line (
      indent
      <> node_ref node_prefix node.id
      <> "[\""
      <> mermaid_escape (render_node_label node "<br/>" subgraph_labels)
      <> "\"]")
    <> line
        (indent <> "class " <> node_ref node_prefix node.id <> " " <> state_class node.state <> ";")

abbrev mermaid_opening : String → SubgraphSnapshot → String → String → String
mermaid_opening node_prefix subgraph indent child_indent =
    line (
      indent
      <> "subgraph "
      <> subgraph_ref node_prefix subgraph.id
      <> "[\""
      <> mermaid_escape (subgraph_name subgraph)
      <> "\"]")
    <> line (child_indent <> "direction TB")

abbrev mermaid_placeholder : String → SubgraphSnapshot → String → String
mermaid_placeholder node_prefix subgraph child_indent =
    let placeholder = subgraph_ref node_prefix subgraph.id <> "_empty" in
    line (child_indent <> placeholder <> "[\"no attributes\"]")
    <> line (child_indent <> "class " <> placeholder <> " scopeempty;")

abbrev mermaid_closing : String → String
mermaid_closing indent = line (indent <> "end")

unfoldable pub render_mermaid_subgraph :
    String
    → BTreeMap SubgraphId String
    → GraphSnapshot
    → ℕ
    → String
    → SubgraphSnapshot
    → Option String
unfolding render_subgraph render_mermaid_node
render_mermaid_subgraph node_prefix subgraph_labels snapshot fuel indent subgraph =
    render_subgraph snapshot (mermaid_opening node_prefix)
      (render_mermaid_node node_prefix subgraph_labels) (mermaid_placeholder node_prefix)
      mermaid_closing fuel indent subgraph

abbrev mermaid_edge : String → String → Edge × EdgeState → String
mermaid_edge node_prefix indent entry = line (
    indent
    <> node_ref node_prefix entry.0.dependency
    <> " -->|\""
    <> edge_state_name entry.1
    <> "\"| "
    <> node_ref node_prefix entry.0.dependent)

unfoldable pub render_mermaid_snapshot_body : GraphSnapshot → String → String → Option String
unfolding render_scopes render_mermaid_node snapshot_subgraph_labels
render_mermaid_snapshot_body snapshot indent node_prefix =
    let subgraph_labels = snapshot_subgraph_labels snapshot in
    some (
      if_any (no_entries snapshot.nodes && no_entries snapshot.subgraphs)
        (line (indent <> node_prefix <> "empty[\"empty graph\"]")))
    <?> render_scopes snapshot (mermaid_opening node_prefix)
        (render_mermaid_node node_prefix subgraph_labels) (mermaid_placeholder node_prefix)
        mermaid_closing indent
    <?> some (concat_all (map (mermaid_edge node_prefix indent) snapshot.edges))

unfoldable pub mermaid_class_defs : String
mermaid_class_defs =
    line "  classDef clean fill:#e8f5e9,stroke:#2e7d32,color:#1b1f23;"
    <> line "  classDef dirty fill:#ffebee,stroke:#c62828,color:#1b1f23;"
    <> line "  classDef maybe fill:#fff8e1,stroke:#f9a825,color:#1b1f23;"
    <> line "  classDef timeline fill:transparent,stroke:transparent,color:transparent;"
    <> line "  classDef scopeempty fill:#f5f5f5,stroke:#9e9e9e,color:#1b1f23,stroke-dasharray:3 3;"

unfoldable pub render_mermaid_snapshot : GraphSnapshot → Option String
unfolding render_mermaid_snapshot_body mermaid_class_defs
render_mermaid_snapshot snapshot =
    some (line "flowchart LR")
    <?> render_mermaid_snapshot_body snapshot "  " ""
    <?> some mermaid_class_defs

abbrev timeline_prefix : ℕ → String
timeline_prefix index = "s" <> decimal index <> "_"

abbrev timeline_anchor : ℕ → String
timeline_anchor index = timeline_prefix index <> "timeline_anchor"

abbrev mermaid_timeline_entry : ℕ → GraphSnapshot → Option String
mermaid_timeline_entry index snapshot =
    some (
      line
        ("  subgraph snapshot" <> decimal index <> "[\"" <> mermaid_escape snapshot.label <> "\"]")
      <> line "    direction TB"
      <> line ("    " <> timeline_anchor index <> "[\" \"]")
      <> line ("    class " <> timeline_anchor index <> " timeline;"))
    <?> render_mermaid_snapshot_body snapshot "    " (timeline_prefix index)
    <?> some (line "  end")

-- The loop over the snapshots, from an index on, and the anchors that it pushes.
unfoldable pub mermaid_timeline_from : ℕ → List GraphSnapshot → Option String
unfolding render_mermaid_snapshot_body
mermaid_timeline_from index [] = some ""
mermaid_timeline_from index (snapshot ∷ rest) =
    mermaid_timeline_entry index snapshot <?> mermaid_timeline_from (index + 1) rest

unfoldable pub anchors_from : ℕ → List GraphSnapshot → List String
anchors_from index [] = []
anchors_from index (snapshot ∷ rest) = timeline_anchor index ∷ anchors_from (index + 1) rest

-- `anchors.windows(2)`
unfoldable pub link_anchors : List String → String
link_anchors [] = ""
link_anchors (a ∷ []) = ""
link_anchors (a ∷ b ∷ rest) = line ("  " <> a <> " ~~~ " <> b) <> link_anchors (b ∷ rest)

unfoldable pub render_mermaid_timeline : DiffSession → Option String
unfolding mermaid_timeline_from anchors_from link_anchors mermaid_class_defs
render_mermaid_timeline session =
    some (line "flowchart LR")
    <?> mermaid_timeline_from 0 session.snapshots
    <?> some (link_anchors (anchors_from 0 session.snapshots) <> mermaid_class_defs)
