-- ===== src/Diff/Timeline.antt =====
-- diff/src/timeline.rs: a session of snapshots and the differences between them.
pub mod Consecutive
use attribute_graph.Common.{Option, none, some, List, [], ◌∷◌, ◌++◌, String}
use attribute_graph.Common.BTreeMap
use attribute_graph.Common.BTreeMap.{BTreeMap}
use attribute_graph.Identity.{NodeId, SubgraphId, node_id_key, subgraph_id_key}
use attribute_graph.Attribute.{Attribute}
use attribute_graph.Value.Bytes.{Endian, Text}
use attribute_graph.Graph.State.{AttributeGraph, Outcome, returned, failed, panicked, out_of_fuel}
use attribute_graph.Diff.Snapshot.{GraphSnapshot, capture_with_label_maps}
use attribute_graph.Diff.Change.{GraphDiff, between}

pub record DiffSession : Type 0 where
  pub snapshots : List GraphSnapshot
  pub diffs : List GraphDiff
  pub node_labels : BTreeMap NodeId String
  pub subgraph_labels : BTreeMap SubgraphId String

unfoldable pub new_session : DiffSession
new_session = record { snapshots = []; diffs = []; node_labels = []; subgraph_labels = [] }

unfoldable pub label_node : NodeId → String → DiffSession → DiffSession
label_node id label session = record session {
  node_labels = BTreeMap.insert session.node_labels id label;
}

unfoldable pub label_attribute : {T : Type 0} → Attribute T → String → DiffSession → DiffSession
label_attribute attribute label session = label_node attribute.id label session

unfoldable pub label_subgraph : SubgraphId → String → DiffSession → DiffSession
label_subgraph id label session = record session {
  subgraph_labels = BTreeMap.insert session.subgraph_labels id label;
}

-- `slice::last`
unfoldable pub last : {A : Type 0} → List A → Option A
last [] = none
last (x ∷ []) = some x
last (x ∷ y ∷ rest) = last (y ∷ rest)

abbrev pub diffs_to : Option GraphSnapshot → GraphSnapshot → List GraphDiff
diffs_to none snapshot = []
diffs_to (some before) snapshot = between before snapshot ∷ []

abbrev pub push_snapshot : GraphSnapshot → DiffSession → DiffSession
push_snapshot snapshot session = record session {
  snapshots = session.snapshots ++ snapshot ∷ [];
  diffs = session.diffs ++ diffs_to (last session.snapshots) snapshot;
}

-- What `capture` goes on with when the snapshot has been taken, or the `?` has left it.
abbrev pub keep_captured : Outcome GraphSnapshot → DiffSession → Outcome GraphSnapshot × DiffSession
keep_captured (returned snapshot) session = (returned snapshot, push_snapshot snapshot session)
keep_captured (failed e) session = (failed e, session)
keep_captured panicked session = (panicked, session)
keep_captured out_of_fuel session = (out_of_fuel, session)

unfoldable pub capture :
    Endian
    → (Text → String)
    → String
    → AttributeGraph
    → DiffSession
    → Outcome GraphSnapshot × DiffSession
capture target debug label graph session =
    keep_captured
      (capture_with_label_maps target debug graph session.node_labels session.subgraph_labels label)
      session

unfoldable pub latest_snapshot : DiffSession → Option GraphSnapshot
latest_snapshot session = last session.snapshots

unfoldable pub latest_diff : DiffSession → Option GraphDiff
latest_diff session = last session.diffs
