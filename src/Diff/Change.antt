-- ===== src/Diff/Change.antt =====
-- diff/src/change.rs: what changed between two snapshots.
pub mod Exact
pub mod Empty
use attribute_graph.Common.{
  Bool, true, false, not, ◌&&◌, Option, none, some, List, [], ◌∷◌, ◌++◌, Key, String, if◌then◌else◌,
}
use mathlib.Core.Option
use text.Mathlib.Text.{◌==◌ as str_eq}
use attribute_graph.Common.HashMap
use attribute_graph.Common.BTreeMap
use attribute_graph.Common.BTreeMap.{BTreeMap}
use attribute_graph.Identity.{NodeId, SubgraphId, node_id_key, subgraph_id_key}
use attribute_graph.Value.{ValueComparison, bytewise, always_changed}
use attribute_graph.Dependency.{Edge, edge_key, EdgeState, inactive, settled, pending}
use attribute_graph.Node.{NodeState, clean, dirty, maybe_dirty}
use attribute_graph.Diff.Snapshot.{GraphSnapshot, NodeSnapshot, SubgraphSnapshot, ValueSummary}

pub data GraphChange : Type 0 where
  subgraph_added : SubgraphSnapshot → GraphChange
  subgraph_removed : SubgraphSnapshot → GraphChange
  node_added : NodeSnapshot → GraphChange
  node_removed : NodeSnapshot → GraphChange
  node_state_changed : (id : NodeId) (before after : NodeState) → GraphChange
  node_value_changed : (id : NodeId) (before after : Option ValueSummary) → GraphChange
  edge_added : (edge : Edge) (state : EdgeState) → GraphChange
  edge_removed : (edge : Edge) (state : EdgeState) → GraphChange
  edge_state_changed : (edge : Edge) (before after : EdgeState) → GraphChange

pub record GraphDiff : Type 0 where
  pub before_label : String
  pub after_label : String
  pub node_labels : BTreeMap NodeId String
  pub subgraph_labels : BTreeMap SubgraphId String
  pub changes : List GraphChange

-- What `derive(PartialEq)` gives.
unfoldable pub node_state_eqb : NodeState → NodeState → Bool
node_state_eqb clean clean = true
node_state_eqb dirty dirty = true
node_state_eqb maybe_dirty maybe_dirty = true
node_state_eqb _ _ = false

unfoldable pub edge_state_eqb : EdgeState → EdgeState → Bool
edge_state_eqb inactive inactive = true
edge_state_eqb settled settled = true
edge_state_eqb pending pending = true
edge_state_eqb _ _ = false

unfoldable pub comparison_eqb : ValueComparison → ValueComparison → Bool
comparison_eqb bytewise bytewise = true
comparison_eqb always_changed always_changed = true
comparison_eqb _ _ = false

unfoldable pub summary_eqb : ValueSummary → ValueSummary → Bool
unfolding comparison_eqb
summary_eqb a b =
    str_eq a.value_type b.value_type
    && str_eq a.rendered b.rendered
    && str_eq a.bytes_hex b.bytes_hex
    && comparison_eqb a.comparison b.comparison

unfoldable pub cached_value_eqb : Option ValueSummary → Option ValueSummary → Bool
unfolding summary_eqb
cached_value_eqb none none = true
cached_value_eqb (some a) (some b) = summary_eqb a b
cached_value_eqb _ _ = false

unfoldable pub diff_node : NodeSnapshot → NodeSnapshot → List GraphChange
unfolding node_state_eqb cached_value_eqb
diff_node before after =
    (if node_state_eqb before.state after.state
      then []
      else node_state_changed after.id before.state after.state ∷ [])
    ++ (if cached_value_eqb before.cached_value after.cached_value
        then []
        else node_value_changed after.id before.cached_value after.cached_value ∷ [])

-- `for (key, value) in &map { changes.extend(…) }`
unfoldable pub for_entries :
    {K V : Type 0} → (K → V → List GraphChange) → BTreeMap K V → List GraphChange
for_entries body [] = []
for_entries body ((key, value) ∷ map) = body key value ++ for_entries body map

module _ (before after : GraphSnapshot) where
  unfoldable pub removed_node : NodeId → NodeSnapshot → List GraphChange
  removed_node id before_node =
      if HashMap.contains_key after.nodes id then [] else node_removed before_node ∷ []

  unfoldable pub removed_subgraph : SubgraphId → SubgraphSnapshot → List GraphChange
  removed_subgraph id before_subgraph =
      if HashMap.contains_key after.subgraphs id then [] else subgraph_removed before_subgraph ∷ []

  unfoldable pub added_subgraph : SubgraphId → SubgraphSnapshot → List GraphChange
  added_subgraph id after_subgraph =
      if HashMap.contains_key before.subgraphs id then [] else subgraph_added after_subgraph ∷ []

  unfoldable pub changed_node : NodeId → NodeSnapshot → List GraphChange
  unfolding diff_node
  changed_node id after_node = elim (HashMap.get before.nodes id) [
    | some before_node ↦ diff_node before_node after_node
    | none ↦ node_added after_node ∷ []
  ]

  unfoldable pub changed_edge : Edge → EdgeState → List GraphChange
  unfolding edge_state_eqb
  changed_edge edge before_state = elim (HashMap.get after.edges edge) [
    | some after_state ↦
        if not (edge_state_eqb before_state after_state)
        then edge_state_changed edge before_state after_state ∷ []
        else []
    | none ↦ edge_removed edge before_state ∷ []
  ]

  unfoldable pub added_edge : Edge → EdgeState → List GraphChange
  added_edge edge after_state =
      if HashMap.contains_key before.edges edge then [] else edge_added edge after_state ∷ []

  unfoldable pub changes_between : List GraphChange
  unfolding for_entries removed_node removed_subgraph added_subgraph changed_node changed_edge
      added_edge
  changes_between =
      for_entries removed_node before.nodes
      ++ (for_entries removed_subgraph before.subgraphs
          ++ (for_entries added_subgraph after.subgraphs
              ++ (for_entries changed_node after.nodes
                  ++ (for_entries changed_edge before.edges
                      ++ for_entries added_edge after.edges))))

abbrev insert_label :
    {K : Type 0} ⦃k : Key K⦄ → BTreeMap K String → K → Option String → BTreeMap K String
insert_label labels id none = labels
insert_label labels id (some label) = BTreeMap.insert labels id label

-- One pass over the values; the second pass starts with the labels of the first.
unfoldable pub collect_node_labels_from :
    List NodeSnapshot → BTreeMap NodeId String → BTreeMap NodeId String
collect_node_labels_from [] labels = labels
collect_node_labels_from (node ∷ rest) labels =
    collect_node_labels_from rest (insert_label labels node.id node.label)

unfoldable pub collect_node_labels : GraphSnapshot → GraphSnapshot → BTreeMap NodeId String
unfolding collect_node_labels_from
collect_node_labels before after =
    collect_node_labels_from (HashMap.values before.nodes ++ HashMap.values after.nodes) []

unfoldable pub collect_subgraph_labels_from :
    List SubgraphSnapshot → BTreeMap SubgraphId String → BTreeMap SubgraphId String
collect_subgraph_labels_from [] labels = labels
collect_subgraph_labels_from (subgraph ∷ rest) labels =
    collect_subgraph_labels_from rest (insert_label labels subgraph.id subgraph.label)

unfoldable pub collect_subgraph_labels : GraphSnapshot → GraphSnapshot → BTreeMap SubgraphId String
unfolding collect_subgraph_labels_from
collect_subgraph_labels before after =
    collect_subgraph_labels_from (HashMap.values before.subgraphs ++ HashMap.values after.subgraphs)
      []

unfoldable pub between : GraphSnapshot → GraphSnapshot → GraphDiff
unfolding changes_between collect_node_labels collect_subgraph_labels
between before after = record {
  before_label = before.label;
  after_label = after.label;
  node_labels = collect_node_labels before after;
  subgraph_labels = collect_subgraph_labels before after;
  changes = changes_between before after;
}

unfoldable pub is_empty : GraphDiff → Bool
is_empty diff = elim diff.changes [ [] ↦ true | _ ∷ _ ↦ false ]
