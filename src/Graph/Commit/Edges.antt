-- ===== src/Graph/Commit/Edges.antt =====
-- What a commit does to the edges, entry by entry.
use attribute_graph.Common.{
  ◌≡◌, refl, ◌∙◌, Bool, true, false, not, ◌&&◌, ◌||◌, Option, none, some, List, [], ◌∷◌,
  if◌then◌else◌, ◌==◌, contains, is_some, arith, eq_of_==, ==-comm,
}
use mathlib.Core.Option
use attribute_graph.Common.HashSet
use attribute_graph.Common.HashSet.{HashSet, contains-insert, contains-remove, contains-nil}
use attribute_graph.Common.HashMap
use attribute_graph.Common.HashMap.{HashMap, get-insert, get-modify}
use attribute_graph.Identity.{NodeId, node_id_key}
use attribute_graph.Dependency.{edge, edge_key, edge_key_lem}
use attribute_graph.Graph.State.{AttributeGraph, frame}
use attribute_graph.Graph.Commit.{
  ids_at, successors, entry_insert, detach_one, detach_removed, attach_one, attach_added,
}

contains-modify-remove :
    (m : HashMap NodeId (HashSet NodeId)) (d y x z : NodeId)
    → contains (ids_at (HashMap.get (HashMap.modify m d (λ ids. HashSet.remove ids y)) x)) z
      ≡ (not ((d == x) && (z == y)) && contains (ids_at (HashMap.get m x)) z)
contains-modify-remove m d y x z =
    rw (get-modify m d (λ ids. HashSet.remove ids y) x) (split (HashMap.get m x) (d == x))
  where
    split :
        (o : Option (HashSet NodeId)) (b : Bool)
        → contains (ids_at (if b then Option.map (λ ids. HashSet.remove ids y) o else o)) z
          ≡ (not (b && (z == y)) && contains (ids_at o) z)
    split none true = ground (arith, contains-nil z)
    split none false = ground (arith, contains-nil z)
    split (some ids) true = contains-remove ids y z
    split (some ids) false = refl

contains-entry_insert :
    (m : HashMap NodeId (HashSet NodeId)) (d y x z : NodeId)
    → contains (ids_at (HashMap.get (entry_insert m d y) x)) z
      ≡ (((d == x) && (z == y)) || contains (ids_at (HashMap.get m x)) z)
unfolding entry_insert
contains-entry_insert m d y x z = ground (
  arith,
  get-insert m d (HashSet.insert (ids_at (HashMap.get m d)) y) x,
  contains-insert (ids_at (HashMap.get m d)) y z,
  eq_of_== d x,
  ==-comm y z,
)

module _ (y d : NodeId) (g : AttributeGraph) (x : NodeId) where
  successors-detach_one :
      (z : NodeId)
      → contains (successors (detach_one y d g) x) z
        ≡ (not ((d == x) && (z == y)) && contains (successors g x) z)
  unfolding detach_one successors
  successors-detach_one z = contains-modify-remove g.dependents d y x z

  pending-detach_one :
      (z : NodeId)
      → contains (detach_one y d g).pending_edges (edge x z)
        ≡ (not ((d == x) && (z == y)) && contains g.pending_edges (edge x z))
  unfolding detach_one
  pending-detach_one z = ground (
    arith,
    contains-remove g.pending_edges (edge d y) (edge x z),
    edge_key_lem x z d y,
    ==-comm x d,
  )

  keyed-detach_one :
      is_some (HashMap.get (detach_one y d g).dependents x) ≡ is_some (HashMap.get g.dependents x)
  unfolding detach_one
  keyed-detach_one = ground (arith, get-modify g.dependents d (λ ids. HashSet.remove ids y) x)

  successors-attach_one :
      (z : NodeId)
      → contains (successors (attach_one y d g) x) z
        ≡ (((d == x) && (z == y)) || contains (successors g x) z)
  unfolding attach_one successors
  successors-attach_one z = contains-entry_insert g.dependents d y x z

  keyed-attach_one :
      is_some (HashMap.get (attach_one y d g).dependents x)
      ≡ ((d == x) || is_some (HashMap.get g.dependents x))
  unfolding attach_one entry_insert
  keyed-attach_one =
      ground (
        arith,
        get-insert g.dependents d (HashSet.insert (ids_at (HashMap.get g.dependents d)) y) x,
      )

module _ (y : NodeId) where
  pub successors-detach_removed :
      (removed : List NodeId) (g : AttributeGraph) (x z : NodeId)
      → contains (successors (detach_removed y removed g) x) z
        ≡ (not (contains removed x && (z == y)) && contains (successors g x) z)
  unfolding detach_removed contains
  successors-detach_removed [] g x z = refl
  successors-detach_removed (d ∷ rest) g x z = ground (
    arith,
    successors-detach_removed rest (detach_one y d g) x z,
    successors-detach_one y d g x z,
  )

  pub successors-attach_added :
      (added : List NodeId) (g : AttributeGraph) (x z : NodeId)
      → contains (successors (attach_added y added g) x) z
        ≡ ((contains added x && (z == y)) || contains (successors g x) z)
  unfolding attach_added contains
  successors-attach_added [] g x z = refl
  successors-attach_added (d ∷ rest) g x z =
      ground (
        arith,
        successors-attach_added rest (attach_one y d g) x z,
        successors-attach_one y d g x z,
      )

  pub pending-detach_removed :
      (removed : List NodeId) (g : AttributeGraph) (x z : NodeId)
      → contains (detach_removed y removed g).pending_edges (edge x z)
        ≡ (not (contains removed x && (z == y)) && contains g.pending_edges (edge x z))
  unfolding detach_removed contains
  pending-detach_removed [] g x z = refl
  pending-detach_removed (d ∷ rest) g x z =
      ground
        (arith, pending-detach_removed rest (detach_one y d g) x z, pending-detach_one y d g x z)

  pub keyed-detach_removed :
      (removed : List NodeId) (g : AttributeGraph) (x : NodeId)
      → is_some (HashMap.get (detach_removed y removed g).dependents x)
        ≡ is_some (HashMap.get g.dependents x)
  unfolding detach_removed
  keyed-detach_removed [] g x = refl
  keyed-detach_removed (d ∷ rest) g x =
      keyed-detach_removed rest (detach_one y d g) x ∙ keyed-detach_one y d g x

  pub keyed-attach_added :
      (added : List NodeId) (g : AttributeGraph) (x : NodeId)
      → is_some (HashMap.get (attach_added y added g).dependents x)
        ≡ (contains added x || is_some (HashMap.get g.dependents x))
  unfolding attach_added contains
  keyed-attach_added [] g x = refl
  keyed-attach_added (d ∷ rest) g x =
      ground (arith, keyed-attach_added rest (attach_one y d g) x, keyed-attach_one y d g x)

  -- The loops write the edges and nothing else.
  pub frame-detach_removed :
      (removed : List NodeId) (g : AttributeGraph)
      → (frame (detach_removed y removed g) ≡ frame g)
        × ((detach_removed y removed g).nodes ≡ g.nodes)
  unfolding detach_removed detach_one
  frame-detach_removed [] g = (refl, refl)
  frame-detach_removed (d ∷ rest) g = frame-detach_removed rest (detach_one y d g)

  pub frame-attach_added :
      (added : List NodeId) (g : AttributeGraph)
      → (frame (attach_added y added g) ≡ frame g)
        × ((attach_added y added g).nodes ≡ g.nodes)
        × ((attach_added y added g).pending_edges ≡ g.pending_edges)
  unfolding attach_added attach_one
  frame-attach_added [] g = (refl, refl, refl)
  frame-attach_added (d ∷ rest) g = frame-attach_added rest (attach_one y d g)
