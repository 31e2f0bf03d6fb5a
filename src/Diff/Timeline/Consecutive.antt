-- ===== src/Diff/Timeline/Consecutive.antt =====
-- What a session keeps.
use attribute_graph.Common.{
  ◌≡◌, ◌↔◌, some_injective, refl, sym, ap, ◌∙◌, Option, none, some, List, [], ◌∷◌, ◌++◌, String,
}
use attribute_graph.Common.HashMap
use attribute_graph.Identity.{NodeId, SubgraphId, node_id_key, subgraph_id_key}
use attribute_graph.Value.Bytes.{Endian, Text}
use attribute_graph.Error.{GraphError}
use attribute_graph.Graph.State.{AttributeGraph, Outcome, returned, failed, panicked, out_of_fuel}
use attribute_graph.Graph.Invariant.{IsWellFormed}
use attribute_graph.Diff.Snapshot.{
  GraphSnapshot, NodeSnapshot, SubgraphSnapshot, capture_with_label_maps,
}
use attribute_graph.Diff.Snapshot.Captures.{Shows, capture_lem}
use attribute_graph.Diff.Change.{GraphDiff, GraphChange, between}
use attribute_graph.Common.BTreeMap.{BTreeMap}
use mathlib.Core.List.{Memᴰ}
use attribute_graph.Node.{Node}
use attribute_graph.Subgraph
use attribute_graph.Diff.Snapshot.Shown.{Matches, ShowsNode, ShowsSubgraph}
use attribute_graph.Diff.Change.Exact.{IsIndexed, IsChange}
use attribute_graph.Diff.Change.Exact.Complete.{changes_exact}
use attribute_graph.Diff.Timeline.{
  DiffSession, last, diffs_to, push_snapshot, keep_captured, capture, latest_snapshot, latest_diff,
}

-- The differences between each snapshot and the next.
unfoldable pub diffs_of : List GraphSnapshot → List GraphDiff
diffs_of [] = []
diffs_of (x ∷ []) = []
diffs_of (x ∷ y ∷ rest) = between x y ∷ diffs_of (y ∷ rest)

abbrev pub IsTimeline : DiffSession → Type 0
IsTimeline session = session.diffs ≡ diffs_of session.snapshots

diffs_of-snoc :
    (xs : List GraphSnapshot) (y : GraphSnapshot)
    → diffs_of (xs ++ y ∷ []) ≡ diffs_of xs ++ diffs_to (last xs) y
unfolding diffs_of last
diffs_of-snoc [] y = refl
diffs_of-snoc (x ∷ []) y = refl
diffs_of-snoc (x ∷ z ∷ rest) y = ap (λ l. between x z ∷ l) (diffs_of-snoc (z ∷ rest) y)

last-snoc : {A : Type 0} (xs : List A) (y : A) → last (xs ++ y ∷ []) ≡ some y
unfolding last
last-snoc [] y = refl
last-snoc (x ∷ []) y = refl
last-snoc (x ∷ z ∷ rest) y = last-snoc (z ∷ rest) y

push_snapshot-IsTimeline :
    (s : GraphSnapshot) (session : DiffSession)
    → IsTimeline session
    → IsTimeline (push_snapshot s session)
push_snapshot-IsTimeline s session t =
    ap (λ ds. ds ++ diffs_to (last session.snapshots) s) t ∙ sym (diffs_of-snoc session.snapshots s)

returned_injective : {A : Type 0} {x y : A} → ◌≡◌ {A = Outcome A} (returned x) (returned y) → x ≡ y
returned_injective e = cc

-- What a capture does to the session, by its outcome.
record Captured (session : DiffSession) (r : Outcome GraphSnapshot × DiffSession) : Type 0 where
  timeline : IsTimeline r.1
  kept :
      (s : GraphSnapshot)
      → r.0 ≡ returned s
      → (r.1.snapshots ≡ session.snapshots ++ s ∷ []) × (latest_snapshot r.1 ≡ some s)
  untouched : (e : GraphError) → r.0 ≡ failed e → r.1 ≡ session

keep_captured-Captured :
    (o : Outcome GraphSnapshot) (session : DiffSession)
    → IsTimeline session
    → Captured session (keep_captured o session)
unfolding latest_snapshot
keep_captured-Captured (returned s) session t = record {
  timeline = push_snapshot-IsTimeline s session t;
  kept = λ s' e. (
    ap (λ x. session.snapshots ++ x ∷ []) (returned_injective e),
    last-snoc session.snapshots s ∙ ap some (returned_injective e),
  );
  untouched = λ e' e. cc;
}
keep_captured-Captured (failed e) session t = record {
  timeline = t;
  kept = λ s' e. cc;
  untouched = λ e' e. refl;
}
keep_captured-Captured panicked session t = record {
  timeline = t;
  kept = λ s' e. cc;
  untouched = λ e' e. refl;
}
keep_captured-Captured out_of_fuel session t = record {
  timeline = t;
  kept = λ s' e. cc;
  untouched = λ e' e. refl;
}

-- If a session's diffs are those between each snapshot and the next, they are so after a capture too,
-- whatever the graph. A capture that returns has appended its snapshot, which is then the latest; one that
-- fails has left the session as it was.
pub capture-IsTimeline :
    (target : Endian) (debug : Text → String) (label : String) (g : AttributeGraph)
    (session : DiffSession)
    → IsTimeline session
    → IsTimeline (capture target debug label g session).1
      × ((s : GraphSnapshot)
          → (capture target debug label g session).0 ≡ returned s
          → ((capture target debug label g session).1.snapshots ≡ session.snapshots ++ s ∷ [])
            × (latest_snapshot (capture target debug label g session).1 ≡ some s))
      × ((e : GraphError)
          → (capture target debug label g session).0 ≡ failed e
          → (capture target debug label g session).1 ≡ session)
unfolding capture
capture-IsTimeline target debug label g session t =
    let c =
      keep_captured-Captured
        (capture_with_label_maps target debug g session.node_labels session.subgraph_labels label)
        session t in
    (c.timeline, c.kept, c.untouched)

-- A snapshot that shows a graph has each entry under its id.
pub Shows-IsIndexed :
    (target : Endian) (debug : Text → String) (g : AttributeGraph)
    (node_labels : BTreeMap NodeId String) (subgraph_labels : BTreeMap SubgraphId String)
    (s : GraphSnapshot)
    → Shows target debug g node_labels subgraph_labels s
    → IsIndexed s
Shows-IsIndexed target debug g node_labels subgraph_labels s w = record {
  nodes = w.ascending.0;
  subgraphs = w.ascending.1;
  edges = w.ascending.2;
  node_ids = λ id n e. node_id (HashMap.get g.nodes id) (HashMap.get s.nodes id) (w.nodes id) e;
  subgraph_ids = λ id n e.
      subgraph_id (HashMap.get g.subgraphs id) (HashMap.get s.subgraphs id) (w.subgraphs id) e;
}
  where
    node_id :
        {id : NodeId} {n : NodeSnapshot} (o : Option Node) (p : Option NodeSnapshot)
        → Matches (ShowsNode target debug g node_labels subgraph_labels id) o p
        → p ≡ some n
        → n.id ≡ id
    node_id none none m e = cc
    node_id none (some k) m e = absurd m
    node_id (some l) none m e = absurd m
    node_id (some l) (some k) m e = sym (ap (λ (n : NodeSnapshot). n.id) (some_injective e)) ∙ m.id

    subgraph_id :
        {id : SubgraphId} {n : SubgraphSnapshot} (o : Option Subgraph.Subgraph)
        (p : Option SubgraphSnapshot)
        → Matches (ShowsSubgraph target debug g node_labels subgraph_labels id) o p
        → p ≡ some n
        → n.id ≡ id
    subgraph_id none none m e = cc
    subgraph_id none (some k) m e = absurd m
    subgraph_id (some l) none m e = absurd m
    subgraph_id (some l) (some k) m e =
        sym (ap (λ (n : SubgraphSnapshot). n.id) (some_injective e)) ∙ m.id

-- Capturing a well-formed graph in a session returns a snapshot that shows the graph under the session's
-- labels, and the diff that it adds after an earlier snapshot, whose maps are in order with each entry under
-- its id, lists exactly the changes from the one to the other.
pub capture-Shows :
    (target : Endian) (debug : Text → String) (label : String) (g : AttributeGraph)
    (session : DiffSession)
    → IsWellFormed g
    → (s : GraphSnapshot) × ((capture target debug label g session).0 ≡ returned s)
      × Shows target debug g session.node_labels session.subgraph_labels s
      × ((before : GraphSnapshot)
          → last session.snapshots ≡ some before
          → IsIndexed before
          → (diff : GraphDiff) × (latest_diff (capture target debug label g session).1 ≡ some diff)
            × ((c : GraphChange) → Memᴰ c diff.changes ↔ IsChange before s c))
unfolding capture latest_diff
capture-Shows target debug label g session wf =
    let (s, run, named, shows) =
      capture_lem target debug g session.node_labels session.subgraph_labels label wf in
    (
      s,
      rw run refl,
      shows,
      λ before found indexed. (
        between before s,
        rw (run, found) (last-snoc session.diffs (between before s)),
        changes_exact before s indexed
            (Shows-IsIndexed target debug g session.node_labels session.subgraph_labels s shows),
      ),
    )
