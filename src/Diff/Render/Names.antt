-- ===== src/Diff/Render/Names.antt =====
-- diff/src/render.rs: the names and labels that all formats share.
use attribute_graph.Common.{Option, none, some, List, [], map, String}
use mathlib.Core.Option
use attribute_graph.Common.HashMap
use attribute_graph.Common.BTreeMap.{BTreeMap}
use attribute_graph.Common.Format.{◌<>◌, decimal, join, replace}
use attribute_graph.Identity.{NodeId, SubgraphId, node_id_key, subgraph_id_key}
use attribute_graph.Identity.Display.{show_subgraph_id}
use attribute_graph.Dependency.{Edge, EdgeState, inactive, settled, pending}
use attribute_graph.Node.{NodeKind, source, derived, NodeState, clean, dirty, maybe_dirty}
use attribute_graph.Diff.Snapshot.{
  GraphSnapshot, NodeSnapshot, SubgraphSnapshot, ValueSummary, or_else,
}
use attribute_graph.Diff.Change.{collect_node_labels_from, collect_subgraph_labels_from}

abbrev pub line : String → String
line text = text <> "\n"

abbrev pub id_name : NodeId → String
id_name id = "#" <> decimal id.local

abbrev pub labeled_id : NodeId → BTreeMap NodeId String → String
labeled_id id node_labels =
    or_else (Option.map (λ label. label <> " (" <> id_name id <> ")") (HashMap.get node_labels id))
      (id_name id)

abbrev pub labeled_subgraph_id : SubgraphId → BTreeMap SubgraphId String → String
labeled_subgraph_id id subgraph_labels =
    or_else
      (Option.map (λ label. label <> " (" <> show_subgraph_id id <> ")")
        (HashMap.get subgraph_labels id))
      (show_subgraph_id id)

abbrev pub node_name : NodeSnapshot → String
node_name node =
    or_else (Option.map (λ label. label <> " (" <> id_name node.id <> ")") node.label)
      (id_name node.id)

abbrev pub subgraph_name : SubgraphSnapshot → String
subgraph_name subgraph =
    or_else
      (Option.map (λ label. label <> " (" <> show_subgraph_id subgraph.id <> ")") subgraph.label)
      (show_subgraph_id subgraph.id)

-- Collecting pairs into a map is inserting them one after the other.
unfoldable pub snapshot_node_labels : GraphSnapshot → BTreeMap NodeId String
snapshot_node_labels snapshot = collect_node_labels_from (HashMap.values snapshot.nodes) []

unfoldable pub snapshot_subgraph_labels : GraphSnapshot → BTreeMap SubgraphId String
snapshot_subgraph_labels snapshot =
    collect_subgraph_labels_from (HashMap.values snapshot.subgraphs) []

abbrev pub render_value : ValueSummary → String
render_value value = value.rendered <> " (" <> value.value_type <> ")"

abbrev pub render_optional_value : Option ValueSummary → String
render_optional_value value = or_else (Option.map render_value value) "<missing>"

abbrev pub render_optional_subgraph : Option SubgraphId → BTreeMap SubgraphId String → String
render_optional_subgraph id subgraph_labels =
    or_else (Option.map (λ s. labeled_subgraph_id s subgraph_labels) id) "<root>"

abbrev pub render_edge : Edge → BTreeMap NodeId String → String
render_edge edge node_labels =
    labeled_id edge.dependent node_labels
    <> " depends on "
    <> labeled_id edge.dependency node_labels

abbrev pub render_ids : List NodeId → String
render_ids ids = "[" <> join ", " (map id_name ids) <> "]"

abbrev pub render_subgraph_ids : List SubgraphId → BTreeMap SubgraphId String → String
render_subgraph_ids ids subgraph_labels =
    "[" <> join ", " (map (λ id. labeled_subgraph_id id subgraph_labels) ids) <> "]"

abbrev pub render_node_scope_suffix : NodeSnapshot → BTreeMap SubgraphId String → String
render_node_scope_suffix node subgraph_labels =
    or_else
      (Option.map (λ id. " subgraph=" <> labeled_subgraph_id id subgraph_labels) node.subgraph_id)
      ""

abbrev pub node_ref : String → NodeId → String
node_ref prefix id = prefix <> "n" <> decimal id.local

abbrev pub subgraph_ref : String → SubgraphId → String
subgraph_ref prefix id = prefix <> "sg" <> decimal id.local

abbrev kind_name : NodeKind → String
kind_name source = "Source"
kind_name derived = "Derived"

abbrev pub node_kind : NodeSnapshot → String
node_kind node = kind_name node.kind

abbrev pub state_name : NodeState → String
state_name clean = "Clean"
state_name dirty = "Dirty"
state_name maybe_dirty = "MaybeDirty"

abbrev pub state_class : NodeState → String
state_class clean = "clean"
state_class dirty = "dirty"
state_class maybe_dirty = "maybe"

abbrev pub dot_fill : NodeState → String
dot_fill clean = "#e8f5e9"
dot_fill dirty = "#ffebee"
dot_fill maybe_dirty = "#fff8e1"

abbrev pub edge_state_name : EdgeState → String
edge_state_name inactive = "Inactive"
edge_state_name settled = "Settled"
edge_state_name pending = "Pending"

unfoldable pub mermaid_escape : String → String
mermaid_escape value = replace "\"" "#quot;" (replace "\\" "\\\\" value)

unfoldable pub dot_escape : String → String
dot_escape value = replace "\"" "\\\"" value

abbrev optional_line : String → String → Option String → String
optional_line line_break title none = ""
optional_line line_break title (some text) = line_break <> title <> text

unfoldable pub render_node_label : NodeSnapshot → String → BTreeMap SubgraphId String → String
render_node_label node line_break subgraph_labels =
    node_name node
    <> line_break
    <> node_kind node
    <> " "
    <> state_name node.state
    <> optional_line line_break "subgraph: "
        (Option.map (λ id. labeled_subgraph_id id subgraph_labels) node.subgraph_id)
    <> optional_line line_break "rule: " node.debug_name
    <> optional_line line_break "value: " (Option.map render_value node.cached_value)
