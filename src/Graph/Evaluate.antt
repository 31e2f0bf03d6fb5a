-- ===== src/Graph/Evaluate.antt =====
-- Lazy evaluation. `validate_node_for_read` calls itself through the rules' reads and through the
-- dependencies of a node that may be dirty: that call is the argument `validate` of the methods here,
-- and fuel bounds how deep such calls nest.
pub mod Keeps
pub mod Cleans
pub mod Reads
use attribute_graph.Common.{
  ℕ, zero, suc, ◌≡◌, Bool, true, false, not, ◌&&◌, ◌||◌, Option, none, some, List, [], ◌∷◌,
  if◌then◌else◌, ◌==◌, contains, is_some,
}
use attribute_graph.Common.HashSet
use attribute_graph.Common.HashSet.{HashSet}
use attribute_graph.Common.HashMap
use attribute_graph.Identity.{NodeId, node_id_key}
use attribute_graph.Value.{TypeDescriptor, ValueStorage, type_eqb, meaningfully_changed_from}
use attribute_graph.Error.{
  GraphError, self_dependency, cycle_detected, missing_output, value_type_mismatch, Result, ok, err,
}
use attribute_graph.Rule.{
  Answer, answered, read_panicked, Callback, return, unwind, read, set_output, RuleDescriptor,
}
use attribute_graph.Dependency.{DependencyChangeSet, UpdateOutcome, no_update}
use attribute_graph.Node.{
  Node, NodeState, clean, dirty, maybe_dirty, is_clean, is_dirty_state, active_dependencies,
}
use attribute_graph.Graph.State.{
  AttributeGraph, Outcome, returned, failed, panicked, out_of_fuel, expect, ok_or, Action, pure,
  observe, gets, fail, update, ◌>>=◌, ◌>>◌, and_then,
}
use attribute_graph.Graph.Guards.{ensure_node, ensure_derived, is_source, cached_value}
use attribute_graph.Graph.Propagate.{
  set_state, mark_changed, mark_unchanged, mark_clean, clear_inbound_pending_edges,
}
use attribute_graph.Graph.Commit.{commit_dependencies}

-- The fields of `EvaluationContext` beside the graph and `evaluating`.
pub record Context : Type 0 where
  pub dependencies_read : HashSet NodeId
  pub output : Option ValueStorage

-- What a read hands to the callback; a panic or an exhausted budget does not return to it.
-- What a rule sees of a read.
abbrev pub answer : Outcome ValueStorage → Option Answer
answer (returned a) = some (answered (ok a))
answer (failed e) = some (answered (err e))
answer panicked = some read_panicked
answer out_of_fuel = none

abbrev pub from_result : {A : Type 0} → Result A → Outcome A
from_result (ok a) = returned a
from_result (err e) = failed e

-- The lines of `EvaluationContext::read` behind the validation: the dependency is recorded once it has
-- been validated.
unfoldable pub finish_read :
    NodeId
    → Context
    → AttributeGraph
    → Outcome Bool
    → (Outcome ValueStorage × Context) × AttributeGraph
finish_read dependency c g (returned _) = (
  (
    cached_value g dependency,
    record c { dependencies_read = HashSet.insert c.dependencies_read dependency },
  ),
  g,
)
finish_read dependency c g (failed e) = ((failed e, c), g)
finish_read dependency c g panicked = ((panicked, c), g)
finish_read dependency c g out_of_fuel = ((out_of_fuel, c), g)

abbrev pub push_evaluation : NodeId → AttributeGraph → AttributeGraph
push_evaluation id g = record g { evaluation_stack = id ∷ g.evaluation_stack }

abbrev pub pop_list : List NodeId → List NodeId
pop_list [] = []
pop_list (_ ∷ rest) = rest

abbrev pub pop_evaluation : AttributeGraph → AttributeGraph
pop_evaluation g = record g { evaluation_stack = pop_list g.evaluation_stack }

abbrev pub store_output : NodeId → ValueStorage → AttributeGraph → AttributeGraph
store_output id output g = record g {
  nodes =
      HashMap.modify g.nodes id
        (λ (node : Node). record node { value = some output; state = clean });
}

-- The last lines: what the new value means for the dependents.
unfoldable pub announce : NodeId → Bool → Action (List NodeId)
announce id true = mark_changed id
announce id false = do mark_unchanged id; pure []

unfoldable pub check_output : NodeId → TypeDescriptor → Option ValueStorage → Outcome ValueStorage
check_output id expected output = and_then (ok_or output (missing_output id)) λ value.
    if type_eqb value.value_type expected
    then returned value
    else failed (value_type_mismatch id expected value.value_type)

-- `recompute_derived_node` from the output on: it is checked, and the dependencies and it are stored.
unfoldable pub finish_recompute :
    NodeId → Option ValueStorage → RuleDescriptor → Context → Action UpdateOutcome
finish_recompute id old_value rule c = do
  output ← observe (λ _. check_output id rule.value_type c.output)
  changes ← commit_dependencies id c.dependencies_read
  let value_changed = meaningfully_changed_from output old_value
  update (store_output id output)
  update (clear_inbound_pending_edges id)
  dirtied_dependents ← announce id value_changed
  pure (record {
    dependency_changes = changes;
    value_changed = value_changed;
    dirtied_dependents = dirtied_dependents;
  })

module _ (validate : NodeId → Action Bool) where
  -- `EvaluationContext::read`.
  unfoldable pub context_read :
      NodeId → NodeId → Context → AttributeGraph → (Outcome ValueStorage × Context) × AttributeGraph
  context_read evaluating dependency c g =
      if dependency == evaluating
      then ((failed (self_dependency evaluating), c), g)
      else finish_read dependency c (validate dependency g).1 (validate dependency g).0

  -- The callback runs, from its first step to its return or its panic.
  unfoldable pub run_callback :
      NodeId → Callback → Context → AttributeGraph → (Outcome Unit × Context) × AttributeGraph
  run_callback evaluating (return r) c g = ((from_result r, c), g)
  run_callback evaluating unwind c g = ((panicked, c), g)
  run_callback evaluating (set_output value next) c g =
      run_callback evaluating next (record c { output = some value }) g
  run_callback evaluating (read dependency next) c g =
      let ((result, c'), g') = context_read evaluating dependency c g in
      elim (answer result) [
        | none ↦ ((out_of_fuel, c'), g')
        | some r ↦ run_callback evaluating (next r) c' g'
      ]

  -- The part of `recompute_derived_node` between the push and the question mark: `catch_unwind` sees
  -- to it that the stack is popped on every way out.
  unfoldable pub evaluate : NodeId → RuleDescriptor → Action Context
  evaluate id rule g =
      let ((result, c), g') =
        run_callback id (rule.update rule.body id)
          (record { dependencies_read = []; output = none }) (push_evaluation id g) in
      (and_then result (λ _. returned c), pop_evaluation g')

  unfoldable pub recompute_derived_node : NodeId → Action UpdateOutcome
  recompute_derived_node id = do
    observe (λ g. ensure_derived g id)
    node ← observe (λ g. expect (HashMap.get g.nodes id))
    active ← gets (λ g. contains g.evaluation_stack id)
    if active then fail cycle_detected else pure tt
    rule ← observe (λ _. expect node.rule)
    c ← evaluate id rule
    finish_recompute id node.value rule c

  -- The loop over the dependencies: whether one of them changed.
  unfoldable pub validate_dependencies : List NodeId → Action Bool
  validate_dependencies [] = pure false
  validate_dependencies (dependency ∷ rest) = do
    changed ← validate dependency
    others ← validate_dependencies rest
    pure (changed || others)

  -- A node that may be dirty.
  unfoldable pub validate_maybe_dirty : NodeId → List NodeId → Action UpdateOutcome
  validate_maybe_dirty id dependencies = do
    dependency_changed ← validate_dependencies dependencies
    if dependency_changed
        then recompute_derived_node id
        else do update (mark_clean id); mark_unchanged id; pure no_update

  -- The branches on the node's state and on whether it has a value.
  unfoldable pub validate_by_state : NodeId → Node → Action UpdateOutcome
  validate_by_state id node =
      if is_clean node.state && is_some node.value
      then pure no_update
      else if is_dirty_state node.state || not (is_some node.value)
      then recompute_derived_node id
      else validate_maybe_dirty id (active_dependencies node)

  unfoldable pub validate_derived_node : NodeId → Action UpdateOutcome
  validate_derived_node id = do
    observe (λ g. ensure_derived g id)
    node ← observe (λ g. expect (HashMap.get g.nodes id))
    validate_by_state id node

  -- The body of `validate_node_for_read`.
  unfoldable pub validate_for_read : NodeId → Action Bool
  validate_for_read id = do
    observe (λ g. ensure_node g id)
    node ← observe (λ g. expect (HashMap.get g.nodes id))
    if is_source node.kind
        then pure false
        else do outcome ← validate_derived_node id; pure outcome.value_changed

unfoldable pub validate_node_for_read : ℕ → NodeId → Action Bool
validate_node_for_read zero id g = (out_of_fuel, g)
validate_node_for_read (suc fuel) id g = validate_for_read (validate_node_for_read fuel) id g

unfoldable pub read_value : ℕ → NodeId → Action ValueStorage
read_value fuel id = do validate_node_for_read fuel id; observe (λ g. cached_value g id)

unfoldable pub update_node : ℕ → NodeId → Action UpdateOutcome
update_node fuel id = do
  observe (λ g. ensure_derived g id)
  validate_derived_node (validate_node_for_read fuel) id
