-- ===== src/Diff/Snapshot.antt =====
-- diff/src/snapshot.rs: what the visualizer keeps of a graph.
pub mod Entries
pub mod Shown
pub mod Captures
use attribute_graph.Common.{ℕ, Bool, Option, none, some, List, [], ◌∷◌, String, if◌then◌else◌, map}
use mathlib.Core.Option
use text.Mathlib.Text.{◌==◌ as str_eq}
use attribute_graph.Common.HashMap
use attribute_graph.Common.BTreeMap
use attribute_graph.Common.BTreeMap.{BTreeMap}
use attribute_graph.Common.Format.{◌<>◌, decimal, hex_byte, concat_all}
use attribute_graph.Identity.{NodeId, SubgraphId, node_id_key, subgraph_id_key}
use attribute_graph.Error.{missing_node, missing_subgraph}
use attribute_graph.Value.{ValueStorage, ValueComparison}
use attribute_graph.Value.Bytes.{ℤ, pos, negsuc, Endian, Text, from_utf8}
use attribute_graph.Value.Convert.{as_bool, as_i64}
use attribute_graph.Dependency.{Edge, edge_key, EdgeState}
use attribute_graph.Node.{Node, NodeKind, NodeState, value_type}
use attribute_graph.Rule.{RuleDescriptor}
use attribute_graph.Subgraph
use attribute_graph.Graph.State.{AttributeGraph, Outcome, returned, and_then, ok_or}
use attribute_graph.Graph.Query.{
  topological_order, dependencies_of, dependents_of, edges, edge_state, pending_edges,
}
use attribute_graph.Graph.Scopes.{subgraphs}

pub record ValueSummary : Type 0 where
  pub value_type : String
  pub rendered : String
  pub bytes_hex : String
  pub comparison : ValueComparison

pub record SubgraphSnapshot : Type 0 where
  pub id : SubgraphId
  pub label : Option String
  pub parent : Option SubgraphId
  pub children : List SubgraphId
  pub nodes : List NodeId

pub record NodeSnapshot : Type 0 where
  pub id : NodeId
  pub label : Option String
  pub subgraph_id : Option SubgraphId
  pub kind : NodeKind
  pub state : NodeState
  pub value_type : Option String
  pub debug_name : Option String
  pub cached_value : Option ValueSummary
  pub dependencies : List NodeId
  pub dependents : List NodeId

pub record GraphSnapshot : Type 0 where
  pub label : String
  pub subgraphs : BTreeMap SubgraphId SubgraphSnapshot
  pub nodes : BTreeMap NodeId NodeSnapshot
  pub edges : BTreeMap Edge EdgeState
  pub pending_edges : List Edge

unfoldable pub bytes_hex : List ℕ → String
bytes_hex bytes = concat_all (map hex_byte bytes)

abbrev bool_text : Bool → String
bool_text b = if b then "true" else "false"

unfoldable pub i64_text : ℤ → String
i64_text (pos n) = decimal n
i64_text (negsuc n) = "-" <> decimal (ℕ.suc n)

abbrev pub or_else : Option String → String → String
or_else none other = other
or_else (some text) other = text

-- What the host's target and the standard library bring: the byte order, and `{:?}` of a text, which
-- goes by tables of Unicode.
module _ (target : Endian) (debug : Text → String) where
  unfoldable pub render_value : ValueStorage → String
  render_value value =
      let name = value.value_type.name in
      if str_eq name "bool"
      then or_else (Option.map bool_text (as_bool value)) "<invalid bool>"
      else if str_eq name "i64"
      then or_else (Option.map i64_text (as_i64 target value)) "<invalid i64>"
      else if str_eq name "&'static str"
      then or_else (Option.map debug (from_utf8 value.bytes)) "<invalid utf8>"
      else if str_eq name "String"
      then or_else (Option.map debug (from_utf8 value.bytes)) "<invalid utf8>"
      else "0x" <> bytes_hex value.bytes

  unfoldable pub summary_from_storage : ValueStorage → ValueSummary
  summary_from_storage value = record {
    value_type = value.value_type.name;
    rendered = render_value value;
    bytes_hex = bytes_hex value.bytes;
    comparison = value.comparison;
  }

  module _ (graph : AttributeGraph) (node_labels : BTreeMap NodeId String)
      (subgraph_labels : BTreeMap SubgraphId String) where
    abbrev pub subgraph_snapshot : SubgraphId → Subgraph.Subgraph → SubgraphSnapshot
    subgraph_snapshot id subgraph = record {
      id = id;
      label = HashMap.get subgraph_labels id;
      parent = subgraph.parent;
      children = Subgraph.children subgraph;
      nodes = Subgraph.nodes subgraph;
    }

    unfoldable pub capture_subgraphs :
        List SubgraphId
        → BTreeMap SubgraphId SubgraphSnapshot
        → Outcome (BTreeMap SubgraphId SubgraphSnapshot)
    capture_subgraphs [] captured = returned captured
    capture_subgraphs (id ∷ rest) captured =
        and_then (ok_or (HashMap.get graph.subgraphs id) (missing_subgraph id)) λ subgraph.
          capture_subgraphs rest (BTreeMap.insert captured id (subgraph_snapshot id subgraph))

    abbrev pub node_snapshot : NodeId → Node → List NodeId → List NodeId → NodeSnapshot
    node_snapshot id node dependencies dependents = record {
      id = id;
      label = HashMap.get node_labels id;
      subgraph_id = node.subgraph;
      kind = node.kind;
      state = node.state;
      value_type = Option.map (λ t. t.name) (value_type node);
      debug_name = Option.map (λ (r : RuleDescriptor). r.debug_name) node.rule;
      cached_value = Option.map summary_from_storage node.value;
      dependencies = dependencies;
      dependents = dependents;
    }

    unfoldable pub capture_nodes :
        List NodeId → BTreeMap NodeId NodeSnapshot → Outcome (BTreeMap NodeId NodeSnapshot)
    capture_nodes [] captured = returned captured
    capture_nodes (id ∷ rest) captured =
        and_then (ok_or (HashMap.get graph.nodes id) (missing_node id)) λ node.
          and_then (dependencies_of graph id) λ dependencies.
            and_then (dependents_of graph id) λ dependents.
              capture_nodes rest
                (BTreeMap.insert captured id (node_snapshot id node dependencies dependents))

    unfoldable pub capture_edges :
        List Edge → BTreeMap Edge EdgeState → Outcome (BTreeMap Edge EdgeState)
    capture_edges [] captured = returned captured
    capture_edges (e ∷ rest) captured =
        and_then (edge_state graph e.dependency e.dependent)
          λ state. capture_edges rest (BTreeMap.insert captured e state)

    unfoldable pub capture_with_label_maps : String → Outcome GraphSnapshot
    capture_with_label_maps label =
        and_then (capture_subgraphs (subgraphs graph) []) λ captured_subgraphs.
          and_then (topological_order graph) λ order.
            and_then (capture_nodes order []) λ captured_nodes.
              and_then (capture_edges (edges graph) []) λ captured_edges. returned (record {
                label = label;
                subgraphs = captured_subgraphs;
                nodes = captured_nodes;
                edges = captured_edges;
                pending_edges = pending_edges graph;
              })

  unfoldable pub capture_with_labels :
      AttributeGraph → BTreeMap NodeId String → String → Outcome GraphSnapshot
  capture_with_labels graph node_labels label = capture_with_label_maps graph node_labels [] label

  unfoldable pub capture : AttributeGraph → String → Outcome GraphSnapshot
  capture graph label = capture_with_labels graph [] label

unfoldable pub node : GraphSnapshot → NodeId → Option NodeSnapshot
node snapshot id = HashMap.get snapshot.nodes id
