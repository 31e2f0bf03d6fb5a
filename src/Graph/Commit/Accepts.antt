-- ===== src/Graph/Commit/Accepts.antt =====
-- When `commit_dependencies` accepts a set.
use attribute_graph.Common.{
  ◌≡◌, ◌↔◌, inl, inr, refl, sym, ap, ◌∙◌, Bool, true, false, some, List, [], ◌∷◌, ◌==◌, contains,
  is_some, arith, eq_of_==, ==-refl, Bool-cases, sort,
}
use attribute_graph.Common.HashSet
use attribute_graph.Common.HashSet.{HashSet, contains-from_list}
use attribute_graph.Common.HashMap
use attribute_graph.Identity.{NodeId, node_id_key}
use attribute_graph.Dependency.{DependencyChangeSet}
use attribute_graph.Node.{Node}
use attribute_graph.Graph.State.{AttributeGraph, returned}
use attribute_graph.Graph.Guards.{ensure_derived, is_source}
use attribute_graph.Graph.Propagate.Invalidates.{ensure_node-present}
use attribute_graph.Graph.Commit.{has_path, check_dependencies, commit_dependencies}
use attribute_graph.Graph.Commit.Search.{has_path_returns, has_path_sound}
use attribute_graph.Graph.Commit.Keeps.{IsAllowed, check_dependencies_sound}
use attribute_graph.Graph.Commit.Atomic.{commit_cases}
use attribute_graph.Graph.Invariant.{Reaches, here, IsWellFormed}

has_path_misses :
    (g : AttributeGraph) (y d : NodeId) → ¬ Reaches g y d → has_path g y d ≡ returned false
has_path_misses g y d away = split (has_path_returns g y d).0 (has_path_returns g y d).1
  where
    split : (found : Bool) → has_path g y d ≡ returned found → has_path g y d ≡ returned false
    split true e = absurd (away (has_path_sound g y d e))
    split false e = e

not_self : (g : AttributeGraph) (y d : NodeId) → ¬ Reaches g y d → (d == y) ≡ false
not_self g y d away = elim (Bool-cases (d == y)) [
  | inl t ↦ absurd (away (rw (eq_of_== d y t) here))
  | inr f ↦ f
]

check_dependencies_accepts :
    (g : AttributeGraph) (y : NodeId) (ds : List NodeId)
    → IsWellFormed g
    → ((d : NodeId) → contains ds d ≡ true → IsAllowed g y d)
    → check_dependencies g y ds ≡ returned tt
unfolding check_dependencies contains
check_dependencies_accepts g y [] wf allowed = refl
check_dependencies_accepts g y (d ∷ rest) wf allowed =
    let one = allowed d (ground (arith, ==-refl d)) in
    ground (
      arith,
      ensure_node-present g d wf one.present,
      not_self g y d one.no_way_back,
      has_path_misses g y d one.no_way_back,
      check_dependencies_accepts g y rest wf (λ e m. allowed e (ground arith)),
    )

ensure_derived-present :
    (g : AttributeGraph) (y : NodeId) (node : Node)
    → IsWellFormed g
    → HashMap.get g.nodes y ≡ some node
    → is_source node.kind ≡ false
    → ensure_derived g y ≡ returned tt
unfolding ensure_derived
ensure_derived-present g y node wf found derived =
    ground (arith, ensure_node-present g y wf (ap is_some found))

module _ (g : AttributeGraph) (y : NodeId) (node : Node) (ds : List NodeId) (wf : IsWellFormed g)
    (found : HashMap.get g.nodes y ≡ some node) (derived : is_source node.kind ≡ false) where
  abbrev changes : DependencyChangeSet
  changes = record {
    added = sort (HashSet.difference (HashSet.from_list ds) node.active_dependencies);
    removed = sort (HashSet.difference node.active_dependencies (HashSet.from_list ds));
    retained = sort (HashSet.intersection node.active_dependencies (HashSet.from_list ds));
  }

  commit_returns :
      ((d : NodeId) → contains ds d ≡ true → IsAllowed g y d)
      → (commit_dependencies y ds g).0 ≡ returned changes
  unfolding commit_dependencies
  commit_returns allowed =
      rw
        (
          ensure_derived-present g y node wf found derived,
          check_dependencies_accepts g y (HashSet.from_list ds) wf
              (λ d m. allowed d (sym (contains-from_list ds d) ∙ m)),
          found,
        )
        refl

-- On a well-formed graph, a commit to a derived node returns exactly when every dependency is a node
-- that cannot be reached from the committing one, which is itself among the nodes it reaches.
pub commit_accepts :
    (g : AttributeGraph) (y : NodeId) (node : Node) (ds : List NodeId)
    → IsWellFormed g
    → HashMap.get g.nodes y ≡ some node
    → is_source node.kind ≡ false
    → ((c : DependencyChangeSet) × ((commit_dependencies y ds g).0 ≡ returned c))
      ↔ ((d : NodeId) → contains ds d ≡ true → IsAllowed g y d)
commit_accepts g y node ds wf found derived = (
  λ (c, e) d m. elim (commit_cases g y ds) [
    | inl (same, stopped) ↦ absurd (stopped c e)
    | inr (n, _, _, passed, _, _) ↦
        check_dependencies_sound g y (HashSet.from_list ds) passed d (contains-from_list ds d ∙ m)
  ],
  λ allowed.
      (changes g y node ds wf found derived, commit_returns g y node ds wf found derived allowed),
)
