-- ===== src/Examples.antt =====
-- A small graph for examples: a source, and a derived node whose rule copies the source.
pub mod Values
pub mod Marks
pub mod Commits
pub mod Quotes
pub mod Reads
pub mod Scopes
pub mod Lifecycle
pub mod Queries
pub mod Diffs
use attribute_graph.Common.{
  ◌≡◌, ◌↔◌, Bool, true, false, none, some, [], ◌∷◌, if◌then◌else◌, ◌==◌, contains, ◌&&◌, refl,
  arith, IsDistinct, nat_key, is_some, ap, List, sort, ◌||◌,
}
use attribute_graph.Common.HashMap
use attribute_graph.Identity.{NodeId, node_id_key, GraphId, SubgraphId, checked_increment}
use attribute_graph.Identity.Fresh.{graph_ids, graph_ids-IsDistinct}
use attribute_graph.Dependency.{
  edge, edge_key, sorted_ids, inactive, settled, pending, DependencyChangeSet,
}
use attribute_graph.Node.{Node, clean, is_clean, value_type}
use attribute_graph.Graph.Propagate.{
  dependents_at, clear_inbound_pending_edges, edge_count, mark_direct, mark_one, spread_from,
  spread, spread_round, reach_dependents, reach_dependent, mark_changed,
}
use attribute_graph.Graph.Propagate.Marks.{content}
use attribute_graph.Graph.Propagate.Stale.{stale_at, dirty_at}
use attribute_graph.Graph.Propagate.Invalidates.{mark_changed_lem}
use attribute_graph.Graph.Mutate.{
  write_source, set_source_value, remove_node, next_id, register_node, add_source, add_derived,
  source_node, derived_node, current_subgraph,
}
use attribute_graph.Graph.Mutate.Write.{set_source_value_lem, set_source_value-IsWellFormed}
use attribute_graph.Graph.Mutate.Detach.{Without}
use attribute_graph.Graph.Mutate.Removed.{remove_node_lem, remove_node-IsWellFormed}
use attribute_graph.Graph.Scopes.{with_subgraph}
use attribute_graph.Graph.Scopes.Construction.{Builds, with_subgraph-Builds}
use attribute_graph.Graph.Invariant.{
  IsEdge, dependencies, Reaches, IsWellFormed, empty_graph-IsWellFormed,
}
use attribute_graph.Common.HashSet
use attribute_graph.Graph.Commit.Keeps.{IsAllowed}
use attribute_graph.Graph.Commit.Accepts.{commit_accepts}
use attribute_graph.Graph.Query.{edge_state}
use attribute_graph.Graph.Query.EdgeStates.{edge_state_lem}
use mathlib.Core.Path.{sym, ◌∙◌}
use attribute_graph.Graph.Propagate.Apart.{mark_changed-apart}
use attribute_graph.Graph.Guards.{is_source, cached_value, ensure_derived, ensure_node}
use attribute_graph.Graph.Evaluate.{
  finish_read, announce, check_output, finish_recompute, context_read, run_callback, evaluate,
  recompute_derived_node, validate_by_state, validate_derived_node, validate_for_read,
  validate_node_for_read, read_value, update_node,
}
use attribute_graph.Graph.Evaluate.Reads.{read_value_lem}
use attribute_graph.Value.{
  changed_under, bytes_eqb, type_eqb, TypeDescriptor, ValueStorage, bytewise,
  meaningfully_changed_from, unchanged_iff,
}
use attribute_graph.Graph.Commit.{
  check_dependencies, search_path, successors, replace_dependencies, attach_added, attach_one,
  entry_insert, detach_removed, has_path, commit_dependencies,
}
use attribute_graph.Value.Bytes.{big, InI64}
use attribute_graph.Value.Convert.{bool_value, i64_value, string_value}
use attribute_graph.Value.RoundTrip.{Faithful, AnyValue, attribute_values-Faithful}
use attribute_graph.Error.{GraphError, Result, ok, err}
use attribute_graph.Rule.{
  Answer, answered, read_panicked, unwind, Callback, return, read, set_output, RuleDescriptor,
}
use attribute_graph.Graph.State.{AttributeGraph, empty_graph, Frame, frame, returned, failed}
use attribute_graph.Graph.Propagate.Changed.{mark_changed-IsWellFormed}
use attribute_graph.Graph.Commit.Search.{has_path_correct}
use attribute_graph.Graph.Commit.Atomic.{commit_dependencies_lem}
use attribute_graph.Graph.Evaluate.Keeps.{
  read_value-Evolving, read_value-IsWellFormed, update_node-IsWellFormed,
}
use attribute_graph.Graph.Mutate.Add.{add-IsWellFormed}

abbrev pub count_type : TypeDescriptor
count_type = record { name = "count" }

abbrev pub seven : ValueStorage
seven = record { value_type = count_type; bytes = 7 ∷ []; comparison = bytewise }

abbrev pub eight : ValueStorage
eight = record { value_type = count_type; bytes = 8 ∷ []; comparison = bytewise }

abbrev pub count : NodeId
count = record { graph = 1; local = 0 }

abbrev pub copy : NodeId
copy = record { graph = 1; local = 1 }

abbrev pub store_copy : Answer → Callback
store_copy (answered (ok value)) = set_output value (return (ok tt))
store_copy (answered (err e)) = return (err e)
store_copy read_panicked = unwind

abbrev pub copy_rule : RuleDescriptor
copy_rule = record {
  body = 0;
  update = λ body evaluating. read count store_copy;
  destroy = none;
  body_type = count_type;
  value_type = count_type;
  debug_name = "copy";
}

abbrev pub empty : AttributeGraph
empty = empty_graph 1

abbrev pub one_node : AttributeGraph
one_node = (add_source seven empty).1

abbrev pub two_nodes : AttributeGraph
two_nodes = (add_derived copy_rule one_node).1

abbrev pub linked : AttributeGraph
linked = (commit_dependencies copy (count ∷ []) two_nodes).1

pub one_node-IsWellFormed : IsWellFormed one_node
one_node-IsWellFormed = (add-IsWellFormed empty seven copy_rule (empty_graph-IsWellFormed 1)).0

pub two_nodes-IsWellFormed : IsWellFormed two_nodes
two_nodes-IsWellFormed = (add-IsWellFormed one_node seven copy_rule one_node-IsWellFormed).1

pub linked-IsWellFormed : IsWellFormed linked
linked-IsWellFormed = (commit_dependencies_lem two_nodes copy (count ∷ []) two_nodes-IsWellFormed).0

-- What the runs below compute with.
pub program : Unit {0}
unfolding next_id checked_increment current_subgraph register_node add_source add_derived
    HashMap.get HashMap.insert HashMap.modify HashMap.values HashMap.contains_key
    commit_dependencies check_dependencies has_path search_path ensure_derived ensure_node
    successors edge_count replace_dependencies attach_added attach_one entry_insert detach_removed
    HashSet.insert HashSet.from_list HashSet.difference contains sort node_id_key HashSet.retain
    meaningfully_changed_from changed_under bytes_eqb type_eqb value_type mark_changed mark_direct
    mark_one dependents_at sorted_ids spread_from spread spread_round reach_dependents
    reach_dependent
program = tt

pub count_present : is_some (HashMap.get linked.nodes count) ≡ true
unfolding program
count_present = refl
