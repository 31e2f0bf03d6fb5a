-- ===== src/Graph/Query/Edges.antt =====
-- The listing of the edges.
use attribute_graph.Common.{
  ◌≡◌, inl, inr, refl, ◌∙◌, true, false, ◌&&◌, none, List, [], ◌∷◌, ◌++◌, ◌==◌, contains,
  IsDistinct, IsSorted, arith, ==-cases, ==-refl,
}
use attribute_graph.Common.HashSet.{HashSet, contains-append, contains-nil}
use attribute_graph.Common.HashMap
use attribute_graph.Common.HashMap.{HashMap, contains-keys}
use attribute_graph.Common.Sort.{contains-sort, sort-IsSorted, IsDistinct-sort}
use attribute_graph.Identity.{NodeId, node_id_key}
use attribute_graph.Dependency.{Edge, edge, edge_key, edge_key_lem}
use attribute_graph.Graph.State.{AttributeGraph}
use attribute_graph.Graph.Commit.{successors, ids_at}
use attribute_graph.Graph.Query.{edges_from, edge_list, edges}
use attribute_graph.Graph.Invariant.{IsWellFormed}

contains-edges_from :
    (d : NodeId) (ds : List NodeId) (x y : NodeId)
    → contains (edges_from d ds) (edge x y) ≡ ((d == x) && contains ds y)
unfolding contains
contains-edges_from d [] x y = ground arith
contains-edges_from d (n ∷ ds) x y =
    ground (arith, contains-edges_from d ds x y, edge_key_lem d n x y)

absent_edges :
    (m : HashMap NodeId (HashSet NodeId)) (x y : NodeId)
    → contains (HashMap.keys m) x ≡ false
    → contains (edge_list m) (edge x y) ≡ false
unfolding edge_list HashMap.keys contains
absent_edges [] x y f = refl
absent_edges ((d, ds) ∷ m) x y f = ground (
  arith,
  absent_edges m x y,
  contains-edges_from d ds x y,
  contains-append (edges_from d ds) (edge_list m) (edge x y),
)

contains-edge_list :
    (m : HashMap NodeId (HashSet NodeId)) (x y : NodeId)
    → IsDistinct (HashMap.keys m)
    → contains (edge_list m) (edge x y) ≡ contains (ids_at (HashMap.get m x)) y
unfolding edge_list HashMap.keys HashMap.get
contains-edge_list [] x y h = ground (arith, contains-nil y, contains-nil (edge x y))
contains-edge_list ((d, ds) ∷ m) x y h = elim (==-cases d x) [
  | inl (same, t) ↦ ground (
    arith,
    absent_edges m x y (absent same h.0),
    contains-edges_from d ds x y,
    contains-append (edges_from d ds) (edge_list m) (edge x y),
  )
  | inr t ↦ ground (
    arith,
    contains-edge_list m x y h.1,
    contains-edges_from d ds x y,
    contains-append (edges_from d ds) (edge_list m) (edge x y),
  )
]
  where
    absent : d ≡ x → contains (HashMap.keys m) d ≡ false → contains (HashMap.keys m) x ≡ false
    absent e f = rw e at f

IsDistinct-append :
    (s t : List Edge)
    → IsDistinct s
    → IsDistinct t
    → ((e : Edge) → contains s e ≡ true → contains t e ≡ false)
    → IsDistinct (s ++ t)
unfolding contains
IsDistinct-append [] t ds dt apart = dt
IsDistinct-append (e ∷ s) t ds dt apart = (
  ground (arith, contains-append s t e, apart e (ground (arith, ==-refl e)), ds.0),
  IsDistinct-append s t ds.1 dt λ z m. apart z (ground arith),
)

IsDistinct-edges_from :
    (d : NodeId) (ds : List NodeId) → IsDistinct ds → IsDistinct (edges_from d ds)
IsDistinct-edges_from d [] h = tt
IsDistinct-edges_from d (n ∷ ds) h =
    ground (arith, IsDistinct-edges_from d ds h.1, contains-edges_from d ds d n)

IsDistinct-edge_list :
    (m : HashMap NodeId (HashSet NodeId))
    → IsDistinct (HashMap.keys m)
    → ((x : NodeId) → IsDistinct (ids_at (HashMap.get m x)))
    → IsDistinct (edge_list m)
unfolding edge_list HashMap.keys HashMap.get
IsDistinct-edge_list [] h sets = tt
IsDistinct-edge_list ((d, ds) ∷ m) h sets =
    IsDistinct-append (edges_from d ds) (edge_list m)
      (IsDistinct-edges_from d ds (rw (==-refl d) at (sets d)))
      (IsDistinct-edge_list m h.1 λ x. later x) λ e found. apart e.dependency e.dependent found
  where
    later : (x : NodeId) → IsDistinct (ids_at (HashMap.get m x))
    later x = elim (==-cases d x) [ inl (same, t) ↦ rw (gone x same) tt | inr t ↦ rw t at (sets x) ]
      where
        gone : (x : NodeId) → d ≡ x → HashMap.get m x ≡ none
        gone x same = rw (← same) (ground (arith, contains-keys m d, h.0))

    apart :
        (x y : NodeId)
        → contains (edges_from d ds) (edge x y) ≡ true
        → contains (edge_list m) (edge x y) ≡ false
    apart x y found = elim (==-cases d x) [
      | inl (same, t) ↦ absent_edges m x y (moved same h.0)
      | inr t ↦ absurd (ground (arith, contains-edges_from d ds x y))
    ]
      where
        moved :
            {x : NodeId}
            → d ≡ x
            → contains (HashMap.keys m) d ≡ false
            → contains (HashMap.keys m) x ≡ false
        moved same f = rw same at f

-- `edges` lists the edges of a well-formed graph, each once and in order.
pub edges_lem :
    (g : AttributeGraph)
    → IsWellFormed g
    → ((x y : NodeId) → contains (edges g) (edge x y) ≡ contains (successors g x) y)
      × IsDistinct (edges g)
      × IsSorted (edges g)
unfolding edges successors
edges_lem g wf = (
  λ x y.
      contains-sort (edge_list g.dependents) (edge x y)
      ∙ contains-edge_list g.dependents x y wf.tidy.dependents,
  IsDistinct-sort (edge_list g.dependents)
      (IsDistinct-edge_list g.dependents wf.tidy.dependents wf.tidy.edges),
  sort-IsSorted (edge_list g.dependents),
)
