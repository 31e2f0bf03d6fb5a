-- ===== src/Graph/Commit/Atomic.antt =====
-- `commit_dependencies` as a whole.
use attribute_graph.Common.{
  ◌≡◌, ◌⊎◌, inl, inr, ap, ◌∙◌, false, some, List, contains, arith, ==-refl, Option-cases,
}
use attribute_graph.Common.HashSet
use attribute_graph.Common.HashSet.{HashSet, contains-from_list}
use attribute_graph.Common.HashMap
use attribute_graph.Common.Distinct.{IsDistinct-from_list}
use attribute_graph.Identity.{NodeId, node_id_key}
use attribute_graph.Error.{GraphError}
use attribute_graph.Dependency.{DependencyChangeSet}
use attribute_graph.Node.{Node}
use attribute_graph.Graph.State.{
  AttributeGraph, frame, returned, failed, Outcome-cases, bind-stopped,
}
use attribute_graph.Graph.Guards.{ensure_derived, is_source}
use attribute_graph.Graph.Commit.{check_dependencies, replace_dependencies, commit_dependencies}
use attribute_graph.Graph.Commit.Keeps.{
  check_dependencies_sound, replace_dependencies-IsWellFormed, get-replace_dependencies,
  frame-replaced,
}
use attribute_graph.Graph.Invariant.{dependencies, IsWellFormed}

pub ensure_derived-returned :
    (g : AttributeGraph) (x : NodeId)
    → ensure_derived g x ≡ returned tt
    → (node : Node) × (HashMap.get g.nodes x ≡ some node) × (is_source node.kind ≡ false)
unfolding ensure_derived
ensure_derived-returned g x h = elim (Option-cases (HashMap.get g.nodes x)) [
  | inl absent ↦ ground arith
  | inr (node, found) ↦ (node, found, ground arith)
]

-- The three ways in which a commit ends: a failed check, and then nothing is written, or the writes.
pub commit_cases :
    (g : AttributeGraph) (y : NodeId) (ds : List NodeId)
    → ((commit_dependencies y ds g).1 ≡ g)
        × ((c : DependencyChangeSet) → (commit_dependencies y ds g).0 ≡ returned c → ⊥)
      ⊎ ((node : Node) × (HashMap.get g.nodes y ≡ some node)
          × (is_source node.kind ≡ false)
          × (check_dependencies g y (HashSet.from_list ds) ≡ returned tt)
          × ((commit_dependencies y ds g).1
              ≡ replace_dependencies y node.active_dependencies (HashSet.from_list ds) g)
          × ((e : GraphError) → (commit_dependencies y ds g).0 ≡ failed e → ⊥))
unfolding commit_dependencies
commit_cases g y ds = elim (Outcome-cases (ensure_derived g y)) [
  | inr bad ↦ inl (bind-stopped (ensure_derived g y) _ g bad)
  | inl (_, ok) ↦
      let (node, found, derived) = ensure_derived-returned g y ok in
      elim (Outcome-cases (check_dependencies g y (HashSet.from_list ds))) [
        | inr bad ↦
            rw ok (inl (bind-stopped (check_dependencies g y (HashSet.from_list ds)) _ g bad))
        | inl (_, passed) ↦ inr (
          node,
          found,
          derived,
          passed,
          rw (ok, passed, found),
          rw (ok, passed, found) (λ e h. cc),
        )
      ]
]

-- A commit keeps a well-formed graph well-formed, whatever set was read; in particular it closes no
-- cycle. If it does not return, it has written nothing. If it returns, the node's dependencies are the
-- set that was committed.
pub commit_dependencies_lem :
    (g : AttributeGraph) (y : NodeId) (ds : List NodeId)
    → IsWellFormed g
    → IsWellFormed (commit_dependencies y ds g).1
      × ((e : GraphError)
          → (commit_dependencies y ds g).0 ≡ failed e
          → (commit_dependencies y ds g).1 ≡ g)
      × ((c : DependencyChangeSet)
          → (commit_dependencies y ds g).0 ≡ returned c
          → (x : NodeId)
          → contains (dependencies (commit_dependencies y ds g).1 y) x ≡ contains ds x)
commit_dependencies_lem g y ds wf = elim (commit_cases g y ds) [
  | inl (same, stopped) ↦ (rw same wf, λ e _. same, λ c h. absurd (stopped c h))
  | inr (node, found, derived, passed, written, unfailed) ↦
      let next = HashSet.from_list ds in
      let allowed = check_dependencies_sound g y next passed in
      (
        rw written (
            replace_dependencies-IsWellFormed g y node next found wf allowed derived
              (IsDistinct-from_list ds)),
        λ e h. absurd (unfailed e h),
        λ c h x.
            rw (written, get-replace_dependencies g y node next found wf allowed y, ==-refl)
              (contains-from_list ds x),
      )
]

pub commit_dependencies-IsWellFormed :
    (g : AttributeGraph) (y : NodeId) (ds : List NodeId)
    → IsWellFormed g
    → IsWellFormed (commit_dependencies y ds g).1
commit_dependencies-IsWellFormed g y ds wf = (commit_dependencies_lem g y ds wf).0

-- A commit writes nothing but nodes and edges.
pub commit-framed :
    (g : AttributeGraph) (y : NodeId) (ds : List NodeId)
    → frame (commit_dependencies y ds g).1 ≡ frame g
commit-framed g y ds = elim (commit_cases g y ds) [
  | inl (same, stopped) ↦ ap frame same
  | inr (node, found, derived, passed, written, unfailed) ↦
      ap frame written ∙ frame-replaced y node.active_dependencies (HashSet.from_list ds) g
]
