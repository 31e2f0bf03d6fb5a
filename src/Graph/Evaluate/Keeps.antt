-- ===== src/Graph/Evaluate/Keeps.antt =====
-- Well-formedness and the frame under lazy evaluation, whatever the rules do.
use attribute_graph.Common.{
  ℕ, zero, suc, ◌≡◌, inl, inr, refl, ap, ◌∙◌, Bool, true, false, not, ◌&&◌, ◌||◌, Option, some,
  List, [], ◌∷◌, if◌then◌else◌, ◌==◌, contains, is_some, Bool-cases, Option-cases,
}
use native.Mathlib.Nat.{le_refl}
use attribute_graph.Common.HashMap
use attribute_graph.Common.HashMap.{get-modify}
use attribute_graph.Identity.{NodeId, node_id_key}
use attribute_graph.Value.{ValueStorage, meaningfully_changed_from}
use attribute_graph.Error.{GraphError, cycle_detected}
use attribute_graph.Rule.{Callback, return, unwind, read, set_output, RuleDescriptor}
use attribute_graph.Dependency.{no_update}
use attribute_graph.Node.{Node, clean, is_clean, is_dirty_state, active_dependencies}
use attribute_graph.Graph.State.{
  AttributeGraph, Frame, frame, expect, Outcome, returned, failed, panicked, out_of_fuel, Action,
  continue_rule, pure, fail, observe, gets, update, ◌>>=◌,
}
use attribute_graph.Graph.Evaluate.{
  Context, answer, finish_read, pop_list, context_read, run_callback, push_evaluation,
  pop_evaluation, evaluate, store_output, announce, finish_recompute, recompute_derived_node,
  validate_dependencies, validate_maybe_dirty, validate_by_state, validate_derived_node,
  validate_for_read, validate_node_for_read, read_value, update_node,
}
use attribute_graph.Graph.Guards.{ensure_node, ensure_derived, is_source, cached_value}
use attribute_graph.Graph.Commit.{commit_dependencies}
use attribute_graph.Graph.Commit.Atomic.{commit-framed, commit_dependencies-IsWellFormed}
use attribute_graph.Graph.Propagate.{mark_unchanged}
use attribute_graph.Graph.Propagate.Marks.{Marks, Marks-IsWellFormed}
use attribute_graph.Graph.Propagate.Changed.{mark_changed-Marks}
use attribute_graph.Graph.Propagate.Unchanged.{
  mark_unchanged-Marks, clear_inbound-Marks, mark_clean-Marks,
}
use attribute_graph.Graph.Invariant.{IsWellFormed}
use attribute_graph.Graph.Invariant.Core.{SameCore-IsWellFormed, KeepsLinks-IsWellFormed}

-- A change of the graph during an evaluation.
pub record Evolves (g g' : AttributeGraph) : Type 0 where
  pub framed : frame g' ≡ frame g
  pub well_formed : IsWellFormed g → IsWellFormed g'

pub Evolves-refl : (g : AttributeGraph) → Evolves g g
Evolves-refl g = record { framed = refl; well_formed = λ w. w }

pub Evolves-trans : {g h k : AttributeGraph} → Evolves g h → Evolves h k → Evolves g k
Evolves-trans a b = record {
  framed = b.framed ∙ a.framed;
  well_formed = λ w. b.well_formed (a.well_formed w);
}

pub record Evolving {A : Type 0} (m : Action A) : Type 0 where
  pub run : (g : AttributeGraph) → Evolves g (m g).1

-- Rules for the steps of a method.
module _ {A : Type 0} where
  pub pure-Evolving : {a : A} → Evolving (pure a)
  pure-Evolving = record { run = λ g. Evolves-refl g }

  pub fail-Evolving : {e : GraphError} → Evolving (fail {A = A} e)
  fail-Evolving = record { run = λ g. Evolves-refl g }

  pub observe-Evolving : {f : AttributeGraph → Outcome A} → Evolving (observe f)
  observe-Evolving = record { run = λ g. Evolves-refl g }

  pub gets-Evolving : {f : AttributeGraph → A} → Evolving (gets f)
  gets-Evolving = record { run = λ g. Evolves-refl g }

  pub if-Evolving :
      (b : Bool) {m n : Action A} → Evolving m → Evolving n → Evolving (if b then m else n)
  if-Evolving true h k = h
  if-Evolving false h k = k

pub update-Evolving :
    {f : AttributeGraph → AttributeGraph}
    → ((g : AttributeGraph) → Evolves g (f g))
    → Evolving (update f)
update-Evolving h = record { run = h }

bind-Evolving :
    {A B : Type 0} {m : Action A} {f : A → Action B}
    → Evolving m
    → ((a : A) → Evolving (f a))
    → Evolving (m >>= f)
bind-Evolving {m = m} {f = f} first rest = record {
  run = λ g.
      let (o, h) = m g in
      continue_rule (Evolves g) o f h (first.run g)
        (λ a e. Evolves-trans (first.run g) ((rest a).run h));
}

pub Marks-Evolves : {g h : AttributeGraph} → Marks g h → Evolves g h
Marks-Evolves m = record { framed = m.framed; well_formed = Marks-IsWellFormed m }

pub commit-Evolving : (y : NodeId) (ds : List NodeId) → Evolving (commit_dependencies y ds)
commit-Evolving y ds = record {
  run = λ g. record {
    framed = commit-framed g y ds;
    well_formed = commit_dependencies-IsWellFormed g y ds;
  };
}

pub store_output-Evolves :
    (id : NodeId) (output : ValueStorage) (g : AttributeGraph)
    → Evolves g (store_output id output g)
store_output-Evolves id output g = record {
  framed = refl;
  well_formed =
      KeepsLinks-IsWellFormed g id
        (λ (node : Node). record node { value = some output; state = clean })
        (record {
          id = λ n. refl;
          kind = λ n. refl;
          rule = λ n. refl;
          dependencies = λ n. refl;
          value = λ n _. refl;
        });
}

mark_unchanged-Evolving : (id : NodeId) → Evolving (mark_unchanged id)
mark_unchanged-Evolving id = record { run = λ g. Marks-Evolves (mark_unchanged-Marks id g) }

announce-Evolving : (id : NodeId) (changed : Bool) → Evolving (announce id changed)
unfolding announce
announce-Evolving id true = record { run = λ g. Marks-Evolves (mark_changed-Marks id g) }
announce-Evolving id false = bind-Evolving (mark_unchanged-Evolving id) λ _. pure-Evolving

finish-Evolving :
    (id : NodeId) (old : Option ValueStorage) (rule : RuleDescriptor) (c : Context)
    → Evolving (finish_recompute id old rule c)
unfolding finish_recompute
finish-Evolving id old rule c = bind-Evolving {A = ValueStorage} observe-Evolving λ output.
    let changed = meaningfully_changed_from output old in
    bind-Evolving (commit-Evolving id c.dependencies_read) λ changes.
      bind-Evolving (update-Evolving (store_output-Evolves id output)) λ _.
        bind-Evolving (update-Evolving (λ g. Marks-Evolves (clear_inbound-Marks id g))) λ _.
          bind-Evolving (announce-Evolving id changed) λ dirtied.
            pure-Evolving
              {a = record {
                dependency_changes = changes;
                value_changed = changed;
                dirtied_dependents = dirtied;
              }}

graph-finish_read :
    (d : NodeId) (c : Context) (g : AttributeGraph) (o : Outcome Bool) → (finish_read d c g o).1 ≡ g
unfolding finish_read
graph-finish_read d c g (returned _) = refl
graph-finish_read d c g (failed e) = refl
graph-finish_read d c g panicked = refl
graph-finish_read d c g out_of_fuel = refl

-- The stack is popped as it was pushed, and nothing else of the frame was written in between.
frame-popped :
    (id : NodeId) (g h : AttributeGraph)
    → frame h ≡ frame (push_evaluation id g)
    → frame (pop_evaluation h) ≡ frame g
frame-popped id g h e =
    ap
      (λ (f : Frame).
        let popped : Frame = record f { evaluation_stack = pop_list f.evaluation_stack } in popped)
      e

popped-Evolves :
    (id : NodeId) (g h : AttributeGraph)
    → Evolves (push_evaluation id g) h
    → Evolves g (pop_evaluation h)
popped-Evolves id g h e = record {
  framed = frame-popped id g h e.framed;
  well_formed = λ w.
      SameCore-IsWellFormed
        (record { nodes = refl; dependents = refl; pending = refl; id = refl; next = le_refl _ })
        (e.well_formed (
          SameCore-IsWellFormed
            (record {
              nodes = refl;
              dependents = refl;
              pending = refl;
              id = refl;
              next = le_refl _;
            })
            w));
}

module _ (validate : NodeId → Action Bool) (evolving : (d : NodeId) → Evolving (validate d)) where
  context_read-Evolves :
      (evaluating d : NodeId) (c : Context) (g : AttributeGraph)
      → Evolves g (context_read validate evaluating d c g).1
  unfolding context_read
  context_read-Evolves evaluating d c g = elim (Bool-cases (d == evaluating)) [
    | inl self ↦ rw self (Evolves-refl g)
    | inr other ↦
        rw other (rw (graph-finish_read d c (validate d g).1 (validate d g).0) ((evolving d).run g))
  ]

  run_callback-Evolves :
      (evaluating : NodeId) (k : Callback) (c : Context) (g : AttributeGraph)
      → Evolves g (run_callback validate evaluating k c g).1
  unfolding run_callback
  run_callback-Evolves evaluating (return r) c g = Evolves-refl g
  run_callback-Evolves evaluating unwind c g = Evolves-refl g
  run_callback-Evolves evaluating (set_output value next) c g =
      run_callback-Evolves evaluating next _ g
  run_callback-Evolves evaluating (read d next) c g =
      let ((o, c'), h) = context_read validate evaluating d c g in
      let first = context_read-Evolves evaluating d c g in
      elim (Option-cases (answer o)) [
        | inl stop ↦ rw (stop, run_callback) first
        | inr (r, e) ↦
            rw (e, run_callback)
              (Evolves-trans first (run_callback-Evolves evaluating (next r) c' h))
      ]

  pub evaluate-Evolving :
      (id : NodeId) (rule : RuleDescriptor) → Evolving (evaluate validate id rule)
  unfolding evaluate
  evaluate-Evolving id rule = record {
    run = λ g.
        popped-Evolves id g _
          (run_callback-Evolves id (rule.update rule.body id) _ (push_evaluation id g));
  }

  pub recompute-Evolving : (id : NodeId) → Evolving (recompute_derived_node validate id)
  unfolding recompute_derived_node
  recompute-Evolving id = bind-Evolving (observe-Evolving {f = λ g. ensure_derived g id}) λ _.
      bind-Evolving (observe-Evolving {f = λ g. expect (HashMap.get g.nodes id)}) λ node.
        bind-Evolving (gets-Evolving {f = λ g. contains g.evaluation_stack id}) λ active.
          bind-Evolving {A = Unit {0}}
            (if-Evolving active (fail-Evolving {e = cycle_detected}) (pure-Evolving {a = tt}))
            λ _. bind-Evolving (observe-Evolving {f = λ _. expect node.rule}) λ rule.
              bind-Evolving (evaluate-Evolving id rule) λ c. finish-Evolving id node.value rule c

  pub validate_dependencies-Evolving :
      (ds : List NodeId) → Evolving (validate_dependencies validate ds)
  unfolding validate_dependencies
  validate_dependencies-Evolving [] = pure-Evolving
  validate_dependencies-Evolving (d ∷ rest) =
      bind-Evolving (evolving d)
        λ changed. bind-Evolving (validate_dependencies-Evolving rest) λ others. pure-Evolving

  validate_maybe_dirty-Evolving :
      (id : NodeId) (ds : List NodeId) → Evolving (validate_maybe_dirty validate id ds)
  unfolding validate_maybe_dirty
  validate_maybe_dirty-Evolving id ds = bind-Evolving (validate_dependencies-Evolving ds) λ changed.
      if-Evolving changed (recompute-Evolving id) (
        bind-Evolving (update-Evolving (λ g. Marks-Evolves (mark_clean-Marks id g)))
          λ _. bind-Evolving (mark_unchanged-Evolving id) λ _. pure-Evolving {a = no_update})

  validate_by_state-Evolving :
      (id : NodeId) (node : Node) → Evolving (validate_by_state validate id node)
  unfolding validate_by_state
  validate_by_state-Evolving id node =
      if-Evolving (is_clean node.state && is_some node.value) (pure-Evolving {a = no_update}) (
        if-Evolving (is_dirty_state node.state || not (is_some node.value)) (recompute-Evolving id)
          (validate_maybe_dirty-Evolving id (active_dependencies node)))

  pub validate_derived_node-Evolving : (id : NodeId) → Evolving (validate_derived_node validate id)
  unfolding validate_derived_node
  validate_derived_node-Evolving id =
      bind-Evolving (observe-Evolving {f = λ g. ensure_derived g id}) λ _.
        bind-Evolving (observe-Evolving {f = λ g. expect (HashMap.get g.nodes id)})
          λ node. validate_by_state-Evolving id node

  validate_for_read-Evolving : (id : NodeId) → Evolving (validate_for_read validate id)
  unfolding validate_for_read
  validate_for_read-Evolving id = bind-Evolving (observe-Evolving {f = λ g. ensure_node g id}) λ _.
      bind-Evolving (observe-Evolving {f = λ g. expect (HashMap.get g.nodes id)}) λ node.
        if-Evolving (is_source node.kind) (pure-Evolving {a = false}) (
          bind-Evolving (validate_derived_node-Evolving id)
            λ outcome. pure-Evolving {a = outcome.value_changed})

pub validate_node_for_read-Evolving :
    (fuel : ℕ) (id : NodeId) → Evolving (validate_node_for_read fuel id)
unfolding validate_node_for_read
validate_node_for_read-Evolving zero id = record { run = λ g. Evolves-refl g }
validate_node_for_read-Evolving (suc fuel) id =
    let once =
      validate_for_read-Evolving (validate_node_for_read fuel)
        (validate_node_for_read-Evolving fuel) id in
    record { run = λ g. once.run g }

pub read_value-Evolving : (fuel : ℕ) (id : NodeId) → Evolving (read_value fuel id)
unfolding read_value
read_value-Evolving fuel id =
    bind-Evolving (validate_node_for_read-Evolving fuel id)
      λ _. observe-Evolving {f = λ g. cached_value g id}

pub update_node-Evolving : (fuel : ℕ) (id : NodeId) → Evolving (update_node fuel id)
unfolding update_node
update_node-Evolving fuel id = bind-Evolving (observe-Evolving {f = λ g. ensure_derived g id}) λ _.
    validate_derived_node-Evolving (validate_node_for_read fuel)
      (validate_node_for_read-Evolving fuel) id

-- Reading a node keeps a well-formed graph well-formed, for every rule, every state of the caches, every
-- fuel and every way out, an error of a rule or a panic included; and it leaves the evaluation stack,
-- the construction stack, the subgraphs and the id counters as they were.
pub read_value-IsWellFormed :
    (fuel : ℕ) (id : NodeId) (g : AttributeGraph)
    → IsWellFormed g
    → IsWellFormed (read_value fuel id g).1 × (frame (read_value fuel id g).1 ≡ frame g)
read_value-IsWellFormed fuel id g wf =
    let e = (read_value-Evolving fuel id).run g in (e.well_formed wf, e.framed)

-- Updating a node keeps a well-formed graph well-formed and the frame as it was, for every rule, every
-- state of the caches, every fuel and every way out.
pub update_node-IsWellFormed :
    (fuel : ℕ) (id : NodeId) (g : AttributeGraph)
    → IsWellFormed g
    → IsWellFormed (update_node fuel id g).1 × (frame (update_node fuel id g).1 ≡ frame g)
update_node-IsWellFormed fuel id g wf =
    let e = (update_node-Evolving fuel id).run g in (e.well_formed wf, e.framed)
