-- ===== src/Examples/Commits.antt =====
-- Commits and paths: the theorems at the small graph.
use attribute_graph.Common.{◌≡◌, ◌↔◌, Bool, true, none, some, [], ◌∷◌, contains, refl}
use attribute_graph.Common.HashMap
use attribute_graph.Identity.{NodeId, node_id_key}
use attribute_graph.Dependency.{edge_key, DependencyChangeSet}
use attribute_graph.Node.{Node}
use attribute_graph.Graph.Commit.Keeps.{IsAllowed}
use attribute_graph.Graph.Commit.Accepts.{commit_accepts}
use attribute_graph.Error.{GraphError}
use attribute_graph.Graph.State.{returned, failed}
use attribute_graph.Graph.Commit.{has_path, commit_dependencies}
use attribute_graph.Graph.Commit.Search.{has_path_correct}
use attribute_graph.Graph.Commit.Atomic.{commit_dependencies_lem}
use attribute_graph.Graph.Invariant.{dependencies, Reaches, IsWellFormed}
use attribute_graph.Graph.Mutate.{derived_node}
use attribute_graph.Examples.{
  count, copy, copy_rule, two_nodes, linked, two_nodes-IsWellFormed, program,
}

commit_example :
    IsWellFormed (commit_dependencies copy (count ∷ []) two_nodes).1
    × ((e : GraphError)
        → (commit_dependencies copy (count ∷ []) two_nodes).0 ≡ failed e
        → (commit_dependencies copy (count ∷ []) two_nodes).1 ≡ two_nodes)
    × ((c : DependencyChangeSet)
        → (commit_dependencies copy (count ∷ []) two_nodes).0 ≡ returned c
        → (x : NodeId)
        → contains (dependencies (commit_dependencies copy (count ∷ []) two_nodes).1 copy) x
          ≡ contains (count ∷ []) x)
commit_example = commit_dependencies_lem two_nodes copy (count ∷ []) two_nodes-IsWellFormed

has_path_example :
    (found : Bool) × (has_path linked count copy ≡ returned found)
    × ((found ≡ true) ↔ ∥ Reaches linked count copy ∥₁)
has_path_example = has_path_correct linked count copy

abbrev copy_node : Node
copy_node = derived_node copy none copy_rule

copy_found : HashMap.get two_nodes.nodes copy ≡ some copy_node
unfolding program
copy_found = refl

commit_accepts_example :
    ((c : DependencyChangeSet) × ((commit_dependencies copy (count ∷ []) two_nodes).0 ≡ returned c))
    ↔ ((d : NodeId) → contains (count ∷ []) d ≡ true → IsAllowed two_nodes copy d)
commit_accepts_example =
    commit_accepts two_nodes copy copy_node (count ∷ []) two_nodes-IsWellFormed copy_found refl
