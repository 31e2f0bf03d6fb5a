-- ===== src/Graph/Commit.antt =====
-- `has_path` and `commit_dependencies`: the dependency set of one evaluation replaces the last one.
pub mod Search
pub mod Edges
pub mod Cycles
pub mod Keeps
pub mod Atomic
pub mod Accepts
use attribute_graph.Common.{
  ℕ, zero, suc, ◌+◌, ◌≡◌, Bool, true, false, Option, none, some, List, [], ◌∷◌, ◌++◌, if◌then◌else◌,
  ◌==◌, contains, sort,
}
use attribute_graph.Common.HashSet
use attribute_graph.Common.HashSet.{HashSet}
use attribute_graph.Common.HashMap
use attribute_graph.Identity.{NodeId, node_id_key}
use attribute_graph.Error.{self_dependency, cycle_detected}
use attribute_graph.Dependency.{Edge, edge, edge_key, DependencyChangeSet}
use attribute_graph.Node.{Node}
use attribute_graph.Graph.State.{
  AttributeGraph, Outcome, returned, failed, out_of_fuel, expect, and_then, Action, pure, observe,
  gets, update, ◌>>=◌, ◌>>◌,
}
use attribute_graph.Graph.Guards.{ensure_node, ensure_derived}
use attribute_graph.Graph.Propagate.{edge_count}

abbrev pub ids_at : Option (HashSet NodeId) → HashSet NodeId
ids_at none = []
ids_at (some ids) = ids

-- `self.dependents.get(&id).into_iter().flatten()`
unfoldable pub successors : AttributeGraph → NodeId → List NodeId
successors g id = ids_at (HashMap.get g.dependents id)

-- The loop of `has_path`.
unfoldable pub search_path :
    AttributeGraph → NodeId → ℕ → List NodeId → HashSet NodeId → Option Bool
search_path g to zero stack seen = elim stack [ [] ↦ some false | _ ∷ _ ↦ none ]
search_path g to (suc fuel) stack seen = elim stack [
  | [] ↦ some false
  | current ∷ rest ↦ elim (current == to) [
    | true ↦ some true
    | false ↦ elim (contains seen current) [
      | true ↦ search_path g to fuel rest seen
      | false ↦ search_path g to fuel (successors g current ++ rest) (HashSet.insert seen current)
    ]
  ]
]

-- Each round takes one entry from the stack, and an edge is pushed once.
unfoldable pub has_path : AttributeGraph → NodeId → NodeId → Outcome Bool
has_path g from to = elim (search_path g to (edge_count g + 1) (from ∷ []) []) [
  | none ↦ out_of_fuel
  | some found ↦ returned found
]

-- The loop of checks; the first that fails, in the set's order, is the error.
unfoldable pub check_dependencies : AttributeGraph → NodeId → List NodeId → Outcome Unit
check_dependencies g dependent [] = returned tt
check_dependencies g dependent (dependency ∷ rest) =
    let others = check_dependencies g dependent rest in
    and_then (ensure_node g dependency) λ _.
      if dependency == dependent
      then failed (self_dependency dependent)
      else and_then (has_path g dependent dependency)
          λ found. if found then failed cycle_detected else others

-- One round of the loop over `removed`.
unfoldable pub detach_one : NodeId → NodeId → AttributeGraph → AttributeGraph
detach_one dependent dependency g = record g {
  dependents = HashMap.modify g.dependents dependency (λ ids. HashSet.remove ids dependent);
  pending_edges = HashSet.remove g.pending_edges (edge dependency dependent);
}

unfoldable pub detach_removed : NodeId → List NodeId → AttributeGraph → AttributeGraph
detach_removed dependent [] g = g
detach_removed dependent (dependency ∷ rest) g =
    detach_removed dependent rest (detach_one dependent dependency g)

-- `map.entry(key).or_default()`, then `insert`
unfoldable pub entry_insert :
    HashMap.HashMap NodeId (HashSet NodeId)
    → NodeId
    → NodeId
    → HashMap.HashMap NodeId (HashSet NodeId)
entry_insert m key id = HashMap.insert m key (HashSet.insert (ids_at (HashMap.get m key)) id)

-- One round of the loop over `added`.
unfoldable pub attach_one : NodeId → NodeId → AttributeGraph → AttributeGraph
attach_one dependent dependency g = record g {
  dependents = entry_insert g.dependents dependency dependent;
}

unfoldable pub attach_added : NodeId → List NodeId → AttributeGraph → AttributeGraph
attach_added dependent [] g = g
attach_added dependent (dependency ∷ rest) g =
    attach_added dependent rest (attach_one dependent dependency g)

abbrev pub set_dependencies : HashSet NodeId → Node → Node
set_dependencies next node = record node { active_dependencies = next }

-- The writes of a commit that passed the checks.
unfoldable pub replace_dependencies :
    NodeId → HashSet NodeId → HashSet NodeId → AttributeGraph → AttributeGraph
replace_dependencies dependent current next g =
    let removed = sort (HashSet.difference current next) in
    let added = sort (HashSet.difference next current) in
    let g' = attach_added dependent added (detach_removed dependent removed g) in
    record g' { nodes = HashMap.modify g'.nodes dependent (set_dependencies next) }

unfoldable pub commit_dependencies : NodeId → List NodeId → Action DependencyChangeSet
commit_dependencies dependent dependencies = do
  observe (λ g. ensure_derived g dependent)
  let next = HashSet.from_list dependencies
  observe (λ g. check_dependencies g dependent next)
  node ← observe (λ g. expect (HashMap.get g.nodes dependent))
  let current = node.active_dependencies
  update (replace_dependencies dependent current next)
  pure (record {
    added = sort (HashSet.difference next current);
    removed = sort (HashSet.difference current next);
    retained = sort (HashSet.intersection current next);
  })
