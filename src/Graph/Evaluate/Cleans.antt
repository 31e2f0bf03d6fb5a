-- ===== src/Graph/Evaluate/Cleans.antt =====
-- The state of a node after its validation.
use attribute_graph.Common.{
  ◌≡◌, inl, inr, refl, sym, ap, ◌∙◌, Bool, true, false, not, ◌&&◌, ◌||◌, Option, none, some, List,
  if◌then◌else◌, contains, is_some, arith, Bool-cases, ==-refl,
}
use mathlib.Core.Option
use attribute_graph.Common.HashMap
use attribute_graph.Common.HashMap.{get-modify}
use attribute_graph.Identity.{NodeId, node_id_key}
use attribute_graph.Value.{ValueStorage, meaningfully_changed_from}
use attribute_graph.Error.{cycle_detected}
use attribute_graph.Rule.{RuleDescriptor}
use attribute_graph.Dependency.{UpdateOutcome}
use attribute_graph.Node.{Node, is_clean, is_dirty_state, active_dependencies}
use attribute_graph.Graph.State.{
  AttributeGraph, returned, expect, Action, continue_rule, continue_returned, returned_injective,
  ◌>>=◌,
}
use attribute_graph.Graph.Guards.{ensure_derived}
use attribute_graph.Graph.Propagate.{mark_unchanged, mark_clean, clear_inbound_pending_edges}
use attribute_graph.Graph.Propagate.Apart.{mark_changed-apart}
use attribute_graph.Graph.Propagate.Unchanged.{clear_inbound-Marks}
use attribute_graph.Graph.Propagate.StaysClean.{clean_at, IsCleanAt, mark_unchanged-IsCleanAt}
use attribute_graph.Graph.Invariant.{IsWellFormed}
use attribute_graph.Graph.Evaluate.{
  Context, store_output, announce, finish_recompute, recompute_derived_node, validate_maybe_dirty,
  validate_by_state, validate_derived_node,
}
use attribute_graph.Graph.Evaluate.Keeps.{
  Evolving, pure-Evolving, fail-Evolving, observe-Evolving, gets-Evolving, if-Evolving,
  commit-Evolving, store_output-Evolves, Marks-Evolves, evaluate-Evolving,
  validate_dependencies-Evolving,
}

module _ (id : NodeId) where
  -- An action that, if it returns from a well-formed graph, leaves the node clean.
  pub record Cleans {A : Type 0} (m : Action A) : Type 0 where
    pub run :
        (g : AttributeGraph)
        → IsWellFormed g
        → (a : A) → (m g).0 ≡ returned a
        → IsCleanAt id (m g).1

  pub bind-Cleans :
      {A B : Type 0} {m : Action A} {f : A → Action B}
      → Evolving m
      → ((a : A) → Cleans (f a))
      → Cleans (m >>= f)
  bind-Cleans {m = m} {f = f} first rest = record {
    run = λ g wf b e.
        let (a, ea, eb) = continue_returned (m g).0 f (m g).1 b e in
        rw ea ((rest a).run (m g).1 ((first.run g).well_formed wf) b eb);
  }

  if-Cleans :
      {A : Type 0} (b : Bool) {m n : Action A} → Cleans m → Cleans n → Cleans (if b then m else n)
  if-Cleans true h k = h
  if-Cleans false h k = k

  announce-IsCleanAt :
      (changed : Bool) (g : AttributeGraph)
      → IsWellFormed g
      → IsCleanAt id g
      → IsCleanAt id (announce id changed g).1
  unfolding announce
  announce-IsCleanAt true g wf h =
      rw (mark_changed-apart g id id (λ x r e. cc (sym (wf.acyclic id x r) ∙ e))) h
  announce-IsCleanAt false g wf h =
      continue_rule (IsCleanAt id) (mark_unchanged id g).0 _ (mark_unchanged id g).1
        (mark_unchanged-IsCleanAt id id g h) (λ _ _. mark_unchanged-IsCleanAt id id g h)

  modified-IsCleanAt :
      (g : AttributeGraph) (f : Node → Node)
      → ((n : Node) → is_clean (f n).state ≡ true)
      → clean_at (HashMap.get (HashMap.modify g.nodes id f) id) ≡ true
  modified-IsCleanAt g f cleans =
      rw (get-modify g.nodes id f id, ==-refl id) (split (HashMap.get g.nodes id))
    where
      split : (o : Option Node) → clean_at (Option.map f o) ≡ true
      split none = refl
      split (some n) = cleans n

  stored-IsCleanAt :
      (output : ValueStorage) (g : AttributeGraph)
      → IsCleanAt id (clear_inbound_pending_edges id (store_output id output g))
  unfolding clear_inbound_pending_edges
  stored-IsCleanAt output g = modified-IsCleanAt g _ (λ n. refl)

  mark_clean-IsCleanAt : (g : AttributeGraph) → IsCleanAt id (mark_clean id g)
  unfolding mark_clean clear_inbound_pending_edges
  mark_clean-IsCleanAt g = modified-IsCleanAt g _ (λ n. refl)

  finish-Cleans :
      (old : Option ValueStorage) (rule : RuleDescriptor) (c : Context)
      → Cleans (finish_recompute id old rule c)
  unfolding finish_recompute
  finish-Cleans old rule c = bind-Cleans {A = ValueStorage} observe-Evolving λ output.
      bind-Cleans (commit-Evolving id c.dependencies_read) λ changes. record {
        run = λ g wf a e.
            let changed = meaningfully_changed_from output old in
            let k = clear_inbound_pending_edges id (store_output id output g) in
            let kept =
              announce-IsCleanAt changed k
                ((Marks-Evolves (clear_inbound-Marks id (store_output id output g))).well_formed
                  ((store_output-Evolves id output g).well_formed wf))
                (stored-IsCleanAt output g) in
            continue_rule (IsCleanAt id) (announce id changed k).0 _ (announce id changed k).1 kept
              (λ _ _. kept);
      }

pub expect-returned : (o : Option Node) (node : Node) → expect o ≡ returned node → o ≡ some node
expect-returned none node e = cc
expect-returned (some n) node e = ap some (returned_injective e)

module _ (validate : NodeId → Action Bool) (evolving : (id : NodeId) → Evolving (validate id))
    (id : NodeId) where
  recompute-Cleans : Cleans id (recompute_derived_node validate id)
  unfolding recompute_derived_node
  recompute-Cleans = bind-Cleans id (observe-Evolving {f = λ g. ensure_derived g id}) λ _.
      bind-Cleans id (observe-Evolving {f = λ g. expect (HashMap.get g.nodes id)}) λ node.
        bind-Cleans id (gets-Evolving {f = λ g. contains g.evaluation_stack id}) λ active.
          bind-Cleans id {A = Unit {0}}
            (if-Evolving active (fail-Evolving {e = cycle_detected}) (pure-Evolving {a = tt}))
            λ _. bind-Cleans id (observe-Evolving {f = λ _. expect node.rule}) λ rule.
              bind-Cleans id (evaluate-Evolving validate evolving id rule)
                λ c. finish-Cleans id node.value rule c

  validate_maybe_dirty-Cleans : (ds : List NodeId) → Cleans id (validate_maybe_dirty validate id ds)
  unfolding validate_maybe_dirty
  validate_maybe_dirty-Cleans ds =
      bind-Cleans id (validate_dependencies-Evolving validate evolving ds) λ changed.
        if-Cleans id changed recompute-Cleans (record {
          run = λ g wf a e.
              let kept =
                mark_unchanged-IsCleanAt id id (mark_clean id g) (mark_clean-IsCleanAt id g) in
              continue_rule (IsCleanAt id) (mark_unchanged id (mark_clean id g)).0 _
                (mark_unchanged id (mark_clean id g)).1 kept (λ _ _. kept);
        })

  validate_by_state-IsCleanAt :
      (g : AttributeGraph) (node : Node) (a : UpdateOutcome)
      → IsWellFormed g
      → HashMap.get g.nodes id ≡ some node
      → (validate_by_state validate id node g).0 ≡ returned a
      → IsCleanAt id (validate_by_state validate id node g).1
  unfolding validate_by_state
  validate_by_state-IsCleanAt g node a wf found e =
      elim (Bool-cases (is_clean node.state && is_some node.value)) [
        | inl done ↦ rw done (rw found (ground arith))
        | inr stale ↦ elim (Bool-cases (is_dirty_state node.state || not (is_some node.value))) [
          | inl due ↦ rw (stale, due) (recompute-Cleans.run g wf a (rw (stale, due) at e))
          | inr unsure ↦
              rw (stale, unsure)
                ((validate_maybe_dirty-Cleans (active_dependencies node)).run g wf a
                  (rw (stale, unsure) at e))
        ]
      ]

  -- A returning validation of a derived node leaves it clean.
  pub validate_derived_node-Cleans : Cleans id (validate_derived_node validate id)
  unfolding validate_derived_node
  validate_derived_node-Cleans = record {
    run = λ g wf a e.
        let (_, derived, e1) = continue_returned (ensure_derived g id) _ g a e in
        let (node, expected, e2) = continue_returned (expect (HashMap.get g.nodes id)) _ g a e1 in
        let found = expect-returned (HashMap.get g.nodes id) node expected in
        rw (derived, expected) (validate_by_state-IsCleanAt g node a wf found e2);
  }
