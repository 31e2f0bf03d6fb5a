-- ===== src/Examples/Marks.antt =====
-- Marks and edges: the theorems at the small graph.
use attribute_graph.Common.{◌≡◌, true, if◌then◌else◌, contains, ◌&&◌, refl, is_some}
use attribute_graph.Common.HashMap
use attribute_graph.Identity.{NodeId, node_id_key}
use attribute_graph.Dependency.{edge, edge_key, inactive, settled, pending}
use attribute_graph.Graph.Propagate.{dependents_at, mark_changed, mark_unchanged}
use attribute_graph.Graph.Propagate.Marks.{content}
use attribute_graph.Graph.Propagate.Stale.{stale_at, dirty_at}
use attribute_graph.Graph.Propagate.Invalidates.{mark_changed_lem}
use attribute_graph.Graph.Invariant.{IsEdge, Reaches, IsWellFormed}
use attribute_graph.Graph.Query.{edge_state}
use attribute_graph.Graph.Query.EdgeStates.{edge_state_lem}
use mathlib.Core.Path.{sym, ◌∙◌}
use attribute_graph.Graph.Propagate.Apart.{mark_changed-apart}
use attribute_graph.Graph.Commit.{successors}
use attribute_graph.Graph.State.{returned}
use attribute_graph.Graph.Propagate.Changed.{mark_changed-IsWellFormed}
use attribute_graph.Graph.Propagate.Settles.{Settles}
use attribute_graph.Graph.Propagate.Settles.Rounds.{mark_unchanged_lem}
use attribute_graph.Examples.{count, copy, linked, linked-IsWellFormed, program, count_present}

mark_changed_example : IsWellFormed (mark_changed count linked).1
mark_changed_example = mark_changed-IsWellFormed count linked linked-IsWellFormed

mark_changed_run_example :
    ((mark_changed count linked).0 ≡ returned (dependents_at linked count))
    × ((y : NodeId)
        → IsEdge linked count y
        → dirty_at (HashMap.get (mark_changed count linked).1.nodes y) ≡ true)
    × ((x y : NodeId)
        → Reaches linked count x
        → IsEdge linked x y
        → (contains (mark_changed count linked).1.pending_edges (edge x y)
            && stale_at (HashMap.get (mark_changed count linked).1.nodes y))
          ≡ true)
    × ((x : NodeId)
        → content (HashMap.get (mark_changed count linked).1.nodes x)
          ≡ content (HashMap.get linked.nodes x))
mark_changed_run_example = mark_changed_lem linked count linked-IsWellFormed count_present

copy_present : is_some (HashMap.get linked.nodes copy) ≡ true
unfolding program
copy_present = refl

edge_state_example :
    edge_state linked count copy
    ≡ returned (
        if contains linked.pending_edges (edge count copy)
        then pending
        else if contains (successors linked count) copy
        then settled
        else inactive)
edge_state_example = edge_state_lem linked count copy linked-IsWellFormed count_present copy_present

count_unread : (x : NodeId) → Reaches linked copy x → ¬ IsEdge linked x count
unfolding program
count_unread x r e = cc (sym (linked-IsWellFormed.mirrored x count) ∙ e)

mark_apart_example :
    HashMap.get (mark_changed copy linked).1.nodes count ≡ HashMap.get linked.nodes count
mark_apart_example = mark_changed-apart linked copy count count_unread

unchanged_run_example :
    ((mark_unchanged count linked).0 ≡ returned tt) × Settles linked (mark_unchanged count linked).1
unchanged_run_example = mark_unchanged_lem count linked
