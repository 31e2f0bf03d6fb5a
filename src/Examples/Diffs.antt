-- ===== src/Examples/Diffs.antt =====
-- Snapshots, diffs and quoted texts: the theorems at examples.
use attribute_graph.Common.{
  ◌≡◌, ◌↔◌, inl, inr, refl, sym, ap, true, none, some, [], ◌∷◌, ◌++◌, String, ==-cases,
  some_injective, ◌∙◌,
}
use mathlib.Core.List.{Memᴰ}
use attribute_graph.Common.HashMap
use attribute_graph.Identity.{node_id_key}
use attribute_graph.Value.{bytewise}
use attribute_graph.Value.Bytes.{big, Text}
use attribute_graph.Node.{source, clean}
use attribute_graph.Error.{GraphError}
use attribute_graph.Graph.State.{returned, failed}
use attribute_graph.Diff.Snapshot.{
  GraphSnapshot, NodeSnapshot, ValueSummary, capture_with_label_maps,
}
use attribute_graph.Diff.Snapshot.Captures.{Shows, capture_lem}
use attribute_graph.Diff.Change.{GraphDiff, GraphChange, node_value_changed, between, is_empty}
use attribute_graph.Diff.Change.Exact.{IsIndexed, IsChange}
use attribute_graph.Diff.Change.Exact.Complete.{changes_exact}
use attribute_graph.Diff.Change.Empty.{IsSameView, is_empty-between}
use attribute_graph.Diff.Timeline.{DiffSession, last, capture, latest_snapshot, latest_diff}
use attribute_graph.Diff.Timeline.Consecutive.{
  IsTimeline, capture-IsTimeline, capture-Shows, diffs_of,
}
use attribute_graph.Examples.{count, linked, linked-IsWellFormed}

abbrev debug : Text → String
debug t = "text"

abbrev summary : String → ValueSummary
summary rendered = record {
  value_type = "count";
  rendered = rendered;
  bytes_hex = rendered;
  comparison = bytewise;
}

abbrev count_shot : String → NodeSnapshot
count_shot rendered = record {
  id = count;
  label = some "count";
  subgraph_id = none;
  kind = source;
  state = clean;
  value_type = some "count";
  debug_name = none;
  cached_value = some (summary rendered);
  dependencies = [];
  dependents = [];
}

-- A snapshot of the source alone.
abbrev shot : String → GraphSnapshot
shot rendered = record {
  label = rendered;
  subgraphs = [];
  nodes = (count, count_shot rendered) ∷ [];
  edges = [];
  pending_edges = [];
}

shot-IsIndexed : (rendered : String) → IsIndexed (shot rendered)
unfolding HashMap.get
shot-IsIndexed rendered = record {
  nodes = (tt, tt);
  subgraphs = tt;
  edges = tt;
  node_ids = λ id n e. elim (==-cases count id) [
    | inl (same, t) ↦ ap (λ (n : NodeSnapshot). n.id) (sym (some_injective (rw t at e))) ∙ same
    | inr t ↦ cc (rw t at e)
  ];
  subgraph_ids = λ id n e. cc;
}

capture_example :
    (s : GraphSnapshot) × (capture_with_label_maps big debug linked [] [] "start" ≡ returned s)
    × (s.label ≡ "start")
    × Shows big debug linked [] [] s
capture_example = capture_lem big debug linked [] [] "start" linked-IsWellFormed

abbrev seven_to_eight : GraphChange
seven_to_eight = node_value_changed count (some (summary "07")) (some (summary "08"))

changes_example :
    Memᴰ seven_to_eight (between (shot "07") (shot "08")).changes
    ↔ IsChange (shot "07") (shot "08") seven_to_eight
changes_example =
    changes_exact (shot "07") (shot "08") (shot-IsIndexed "07") (shot-IsIndexed "08") seven_to_eight

is_empty_example :
    (is_empty (between (shot "07") (shot "07")) ≡ true) ↔ IsSameView (shot "07") (shot "07")
is_empty_example =
    is_empty-between (shot "07") (shot "07") (shot-IsIndexed "07") (shot-IsIndexed "07")

abbrev session : DiffSession
session = record { snapshots = shot "07" ∷ []; diffs = []; node_labels = []; subgraph_labels = [] }

session_example :
    (s : GraphSnapshot) × ((capture big debug "next" linked session).0 ≡ returned s)
    × Shows big debug linked [] [] s
    × ((before : GraphSnapshot)
        → last session.snapshots ≡ some before
        → IsIndexed before
        → (diff : GraphDiff) × (latest_diff (capture big debug "next" linked session).1 ≡ some diff)
          × ((c : GraphChange) → Memᴰ c diff.changes ↔ IsChange before s c))
session_example = capture-Shows big debug "next" linked session linked-IsWellFormed

session-IsTimeline : IsTimeline session
unfolding diffs_of
session-IsTimeline = refl

timeline_example :
    IsTimeline (capture big debug "next" linked session).1
    × ((s : GraphSnapshot)
        → (capture big debug "next" linked session).0 ≡ returned s
        → ((capture big debug "next" linked session).1.snapshots ≡ session.snapshots ++ s ∷ [])
          × (latest_snapshot (capture big debug "next" linked session).1 ≡ some s))
    × ((e : GraphError)
        → (capture big debug "next" linked session).0 ≡ failed e
        → (capture big debug "next" linked session).1 ≡ session)
timeline_example = capture-IsTimeline big debug "next" linked session session-IsTimeline
