-- ===== src/Graph/Commit/Keeps.antt =====
-- The writes of a commit, and well-formedness.
use attribute_graph.Common.{
  ◌≡◌, ◌⊎◌, inl, inr, refl, ap, ◌∙◌, Bool, true, false, not, ◌&&◌, ◌||◌, some, List, [], ◌∷◌,
  if◌then◌else◌, ◌==◌, contains, is_some, arith, IsDistinct, Bool-cases, eq_of_==, ==-comm,
  ==-cases, sort, eqb_iff,
}
use attribute_graph.Common.HashSet
use attribute_graph.Common.HashSet.{HashSet, contains-retain, contains-from_list}
use attribute_graph.Common.HashMap
use attribute_graph.Common.HashMap.{HashMap, get-modify, keys-modify}
use attribute_graph.Common.Sort.{contains-sort}
use attribute_graph.Identity.{NodeId, node_id_key}
use attribute_graph.Dependency.{edge, edge_key}
use attribute_graph.Node.{Node}
use attribute_graph.Graph.State.{AttributeGraph, Frame, frame, returned}
use attribute_graph.Graph.Guards.{ensure_node, is_source}
use attribute_graph.Graph.Commit.{
  successors, has_path, check_dependencies, detach_removed, attach_added, set_dependencies,
  replace_dependencies,
}
use attribute_graph.Graph.Commit.Search.{has_path_complete}
use attribute_graph.Graph.Commit.Edges.{
  successors-detach_removed, successors-attach_added, pending-detach_removed, keyed-detach_removed,
  keyed-attach_added, frame-detach_removed, frame-attach_added,
}
use attribute_graph.Graph.Commit.Cycles.{acyclic_of_allowed}
use attribute_graph.Graph.Invariant.Tidy.{
  IsTidyMap, attach_added-IsTidyMap, detach_removed-IsTidyMap,
}
use attribute_graph.Graph.Invariant.{
  IsTidy, dependencies_at, dependencies, IsEdge, Reaches, IsWellFormed,
}

-- What the checks establish of a dependency of `y`.
pub record IsAllowed (g : AttributeGraph) (y d : NodeId) : Type 0 where
  pub present : is_some (HashMap.get g.nodes d) ≡ true
  pub no_way_back : ¬ Reaches g y d

pub ensure_node-returned :
    (g : AttributeGraph) (x : NodeId)
    → ensure_node g x ≡ returned tt
    → (is_some (HashMap.get g.nodes x) ≡ true) × (x.graph ≡ g.id)
unfolding ensure_node
ensure_node-returned g x h = ground (arith, eqb_iff x.graph g.id)

check_one :
    (g : AttributeGraph) (y d : NodeId) (rest : List NodeId)
    → check_dependencies g y (d ∷ rest) ≡ returned tt
    → (ensure_node g d ≡ returned tt)
      × (has_path g y d ≡ returned false)
      × (check_dependencies g y rest ≡ returned tt)
unfolding check_dependencies
check_one g y d rest h = ground arith

pub check_dependencies_sound :
    (g : AttributeGraph) (y : NodeId) (ds : List NodeId)
    → check_dependencies g y ds ≡ returned tt
    → (d : NodeId) → contains ds d ≡ true
    → IsAllowed g y d
unfolding contains
check_dependencies_sound g y [] h d m = cc
check_dependencies_sound g y (e ∷ rest) h d m =
    let (exists, no_path, others) = check_one g y e rest h in
    elim (==-cases e d) [
      | inl (same, t) ↦ rw (← same) (record {
        present = (ensure_node-returned g e exists).0;
        no_way_back = has_path_complete g y e no_path;
      })
      | inr t ↦ check_dependencies_sound g y rest others d (ground arith)
    ]

pub frame-replaced :
    (y : NodeId) (current next : HashSet NodeId) (g : AttributeGraph)
    → frame (replace_dependencies y current next g) ≡ frame g
unfolding replace_dependencies
frame-replaced y current next g =
    (frame-attach_added y _ (detach_removed y (sort (HashSet.difference current next)) g)).0
    ∙ (frame-detach_removed y _ g).0

-- The writes of a commit to `y`, whose node is `node`, of a set that passed the checks.
module _ (g : AttributeGraph) (y : NodeId) (node : Node) (next : HashSet NodeId)
    (found : HashMap.get g.nodes y ≡ some node) (wf : IsWellFormed g)
    (allowed : (d : NodeId) → contains next d ≡ true → IsAllowed g y d) where
  abbrev current : HashSet NodeId
  current = node.active_dependencies

  abbrev removed : List NodeId
  removed = sort (HashSet.difference current next)

  abbrev added : List NodeId
  added = sort (HashSet.difference next current)

  abbrev detached : AttributeGraph
  detached = detach_removed y removed g

  abbrev attached : AttributeGraph
  attached = attach_added y added detached

  abbrev after : AttributeGraph
  after = replace_dependencies y current next g

  contains-removed :
      (x : NodeId) → contains removed x ≡ (not (contains next x) && contains current x)
  unfolding HashSet.difference
  contains-removed x =
      contains-sort (HashSet.difference current next) x
      ∙ contains-retain (λ d. not (contains next d)) current x

  contains-added : (x : NodeId) → contains added x ≡ (not (contains current x) && contains next x)
  unfolding HashSet.difference
  contains-added x =
      contains-sort (HashSet.difference next current) x
      ∙ contains-retain (λ d. not (contains current d)) next x

  nodes-attached : attached.nodes ≡ g.nodes
  nodes-attached = (frame-attach_added y added detached).1 ∙ (frame-detach_removed y removed g).1

  frame-replace_dependencies : frame after ≡ frame g
  frame-replace_dependencies = frame-replaced y current next g

  pub nodes-replace_dependencies : after.nodes ≡ HashMap.modify g.nodes y (set_dependencies next)
  unfolding replace_dependencies
  nodes-replace_dependencies = ap (λ m. HashMap.modify m y (set_dependencies next)) nodes-attached

  pub get-replace_dependencies :
      (x : NodeId)
      → HashMap.get after.nodes x
        ≡ (if y == x then some (set_dependencies next node) else HashMap.get g.nodes x)
  get-replace_dependencies x =
      rw nodes-replace_dependencies
        (ground (arith, get-modify g.nodes y (set_dependencies next) x, eq_of_== y x, found))

  dependencies-replace :
      (z : NodeId) → dependencies after z ≡ (if z == y then next else dependencies g z)
  dependencies-replace z = rw (get-replace_dependencies z, ==-comm z y) (split (y == z))
    where
      split :
          (b : Bool)
          → dependencies_at (if b then some (set_dependencies next node) else HashMap.get g.nodes z)
            ≡ (if b then next else dependencies g z)
      split true = refl
      split false = refl

  successors-attached :
      (x z : NodeId)
      → contains (successors attached x) z ≡ (
          (contains added x && (z == y))
          || (not (contains removed x && (z == y)) && contains (successors g x) z))
  successors-attached x z = ground (
    arith,
    successors-attach_added y added detached x z,
    successors-detach_removed y removed g x z,
  )

  -- The old edges into `y` are its old dependencies.
  edges_into : (x z : NodeId) → (z == y) ≡ true → contains (successors g x) z ≡ contains current x
  edges_into x z t =
      rw (eq_of_== z y t) (wf.mirrored x y ∙ ap (λ o. contains (dependencies_at o) x) found)

  successors-replace :
      (x z : NodeId)
      → contains (successors after x) z
        ≡ (if z == y then contains next x else contains (successors g x) z)
  unfolding replace_dependencies successors
  successors-replace x z =
      ground (arith, successors-attached x z, contains-removed x, contains-added x, edges_into x z)

  dependents-after : after.dependents ≡ attached.dependents
  unfolding replace_dependencies
  dependents-after = refl

  pending-after : after.pending_edges ≡ detached.pending_edges
  unfolding replace_dependencies
  pending-after = (frame-attach_added y added detached).2

  present : (x : NodeId) → contains next x ≡ true → is_some (HashMap.get g.nodes x) ≡ true
  present x m = (allowed x m).present

  keyed-replace :
      (x : NodeId) → is_some (HashMap.get after.dependents x) ≡ is_some (HashMap.get after.nodes x)
  keyed-replace x = rw dependents-after (
      ground (
        arith,
        keyed-attach_added y added detached x,
        keyed-detach_removed y removed g x,
        contains-added x,
        present x,
        get-replace_dependencies x,
        wf.keyed x,
        eq_of_== y x,
        found,
      ))

  pending-replace :
      (x z : NodeId) → contains after.pending_edges (edge x z) ≡ true → IsEdge after x z
  pending-replace x z m = ground (
    arith,
    rw pending-after at m,
    pending-detach_removed y removed g x z,
    wf.pending x z,
    successors-replace x z,
    edges_into x z,
    contains-removed x,
  )

  mirrored-replace :
      (x z : NodeId) → contains (successors after x) z ≡ contains (dependencies after z) x
  mirrored-replace x z =
      rw (successors-replace x z, dependencies-replace z) (split (z == y) (wf.mirrored x z))
    where
      split :
          (b : Bool)
          → contains (successors g x) z ≡ contains (dependencies g z) x
          → (if b then contains next x else contains (successors g x) z)
            ≡ contains (if b then next else dependencies g z) x
      split true h = refl
      split false h = h

  attached-IsTidyMap : IsTidyMap attached.dependents
  unfolding successors
  attached-IsTidyMap = attach_added-IsTidyMap y added detached (
      detach_removed-IsTidyMap y removed g
        (record { keys = wf.tidy.dependents; sets = wf.tidy.edges }))

  dependencies-distinct : IsDistinct next → (x : NodeId) → IsDistinct (dependencies after x)
  dependencies-distinct distinct x = elim (Bool-cases (x == y)) [
    | inl t ↦ rw (dependencies-replace x, t) distinct
    | inr t ↦ rw (dependencies-replace x, t) (wf.tidy.reads x)
  ]

  after-IsTidy : IsDistinct next → IsTidy after
  unfolding successors
  after-IsTidy distinct = record {
    nodes =
        rw (nodes-replace_dependencies, keys-modify g.nodes y (set_dependencies next))
          wf.tidy.nodes;
    dependents = rw dependents-after attached-IsTidyMap.keys;
    reads = dependencies-distinct distinct;
    edges = λ x. rw dependents-after (attached-IsTidyMap.sets x);
  }

  frame-id : after.id ≡ g.id
  frame-id = ap (λ (f : Frame). f.id) frame-replace_dependencies

  frame-next : after.next_node_id ≡ g.next_node_id
  frame-next = ap (λ (f : Frame). f.next_node_id) frame-replace_dependencies

  origin :
      (x : NodeId) (n : Node)
      → HashMap.get after.nodes x ≡ some n
      → ((y ≡ x) × (n ≡ set_dependencies next node)) ⊎ (HashMap.get g.nodes x ≡ some n)
  origin x n e = ground (arith, get-replace_dependencies x, eq_of_== y x)

  pub replace_dependencies-IsWellFormed :
      is_source node.kind ≡ false → IsDistinct next → IsWellFormed after
  replace_dependencies-IsWellFormed derived distinct = record {
    named = λ x n e.
        ground (arith, origin x n e, wf.named x n, wf.named y node found, frame-id, frame-next);
    shaped = λ x n e. elim (origin x n e) [
      | inl (_, same) ↦ rw same (λ s. cc, λ _. (wf.shaped y node found).1 derived)
      | inr old ↦ wf.shaped x n old
    ];
    keyed = keyed-replace;
    mirrored = mirrored-replace;
    pending = pending-replace;
    acyclic =
        acyclic_of_allowed g after y next successors-replace (λ d m. (allowed d m).no_way_back)
          wf.acyclic;
    tidy = after-IsTidy distinct;
  }
