-- ===== src/Graph/Scopes/Removal.antt =====
-- What the removal of a subgraph does: by way of its outcomes, to the last step.
pub mod CutOff
pub mod Nodes
pub mod Subgraphs
use attribute_graph.Common.{
  ◌≡◌, ◌↔◌, ◌⊎◌, inl, inr, refl, sym, ap, ◌∙◌, subst, Bool, true, false, not, ◌&&◌, ◌||◌, Option,
  none, some, List, [], ◌∷◌, if◌then◌else◌, ◌==◌, sort, contains, IsDistinct, is_some, arith,
  Option-cases, Bool-cases, ==-cases, ==-refl, ==-comm, eq_of_==,
}
use mathlib.Core.Option
use mathlib.Core.List.{reverse}
use attribute_graph.Common.HashSet
use attribute_graph.Common.HashSet.{HashSet, contains-retain, contains-append}
use attribute_graph.Common.HashMap
use attribute_graph.Common.HashMap.{HashMap}
use attribute_graph.Identity.{NodeId, SubgraphId, node_id_key, subgraph_id_key}
use attribute_graph.Error.{GraphError, subgraph_in_use}
use attribute_graph.Node.{Node}
use attribute_graph.Graph.State.{
  AttributeGraph, Action, Outcome, pure, returned_injective, returned, failed, panicked,
  out_of_fuel, continue, continue_returned,
}
use attribute_graph.Graph.Mutate.{remove_node}
use attribute_graph.Graph.Mutate.Detach.{Without, present_at}
use attribute_graph.Graph.Mutate.Removed.{remove_node_lem, remove_node-IsWellFormed}
use attribute_graph.Graph.Propagate.{mark_changed}
use attribute_graph.Graph.Propagate.Marks.{content}
use attribute_graph.Graph.Propagate.Invalidates.{mark_changed_lem}
use attribute_graph.Graph.Invariant.{IsWellFormed}
use attribute_graph.Graph.Invariant.Core.{SameCore, SameCore-IsWellFormed}
use attribute_graph.Rule.{RuleHandle, DestroyFn}
use attribute_graph.Subgraph.{SubgraphRemoval}
use attribute_graph.Common.Sort.{contains-sort}
use attribute_graph.Graph.Query.{topological_order}
use attribute_graph.Graph.Query.Complete.{topological_order_lem}
use attribute_graph.Common.Distinct.{IsDistinct-retain, IsDistinct-reverse, contains-reverse}
use attribute_graph.Graph.Guards.{ensure_subgraph}
use attribute_graph.Graph.Scopes.{
  find_active, subgraph_postorder, owned_nodes, detach_subgraph, remove_nodes, remove_subgraphs,
  remove_subgraph, drop_nodes,
}
use attribute_graph.Graph.Scopes.Removal.CutOff.{IsCutOff, dependents_outside_lem}
use attribute_graph.Graph.Scopes.Removal.Subgraphs.{
  subgraph_postorder-contains, remove_subgraphs-gone,
}
use attribute_graph.Graph.Scopes.Removal.Nodes.{
  remove_nodes_stack, remove_ordered, has_node, remove_nodes_lem,
}

-- What `remove_subgraph` does, by its outcome.
record Removes (id : SubgraphId) (g : AttributeGraph)
    (r : Outcome (SubgraphRemoval × List (DestroyFn × RuleHandle)) × AttributeGraph) : Type 0 where
  well_formed : IsWellFormed r.1
  untouched : (e : GraphError) → r.0 ≡ failed e → r.1 ≡ g
  stack : r.1.construction_subgraphs ≡ g.construction_subgraphs
  emptied :
      (removal : SubgraphRemoval) (calls : List (DestroyFn × RuleHandle))
      → r.0 ≡ returned (removal, calls)
      → HashMap.get r.1.subgraphs id ≡ none
  gone :
      (removal : SubgraphRemoval) (calls : List (DestroyFn × RuleHandle))
      → r.0 ≡ returned (removal, calls)
      → (x : NodeId) → has_node r.1 x ≡ (has_node g x && not (contains removal.nodes x))
  dirtied :
      (removal : SubgraphRemoval) (calls : List (DestroyFn × RuleHandle))
      → r.0 ≡ returned (removal, calls)
      → (x : NodeId) → (contains removal.dirtied_dependents x ≡ true) ↔ IsCutOff g removal.nodes x

Removes-observe :
    {A : Type 0} (id : SubgraphId) (g : AttributeGraph) (o : Outcome A)
    (f : A → Action (SubgraphRemoval × List (DestroyFn × RuleHandle)))
    → IsWellFormed g
    → ((a : A) → o ≡ returned a → Removes id g (f a g))
    → Removes id g (continue o f g)
Removes-observe id g (returned a) f wf h = h a refl
Removes-observe id g (failed e) f wf h = record {
  well_formed = wf;
  untouched = λ e k. refl;
  stack = refl;
  emptied = λ removal calls k. cc;
  gone = λ removal calls k. cc;
  dirtied = λ removal calls k. cc;
}
Removes-observe id g panicked f wf h = record {
  well_formed = wf;
  untouched = λ e k. refl;
  stack = refl;
  emptied = λ removal calls k. cc;
  gone = λ removal calls k. cc;
  dirtied = λ removal calls k. cc;
}
Removes-observe id g out_of_fuel f wf h = record {
  well_formed = wf;
  untouched = λ e k. refl;
  stack = refl;
  emptied = λ removal calls k. cc;
  gone = λ removal calls k. cc;
  dirtied = λ removal calls k. cc;
}

-- Taking subgraphs out writes nothing else, and its only way of failing is a panic.
record Detaches (g : AttributeGraph) (r : Outcome Unit × AttributeGraph) : Type 0 where
  core : SameCore g r.1
  stack : r.1.construction_subgraphs ≡ g.construction_subgraphs
  no_failure : (e : GraphError) → ¬ (r.0 ≡ failed e)

remove_subgraphs-Detaches :
    (ids : List SubgraphId) (g : AttributeGraph) → Detaches g (remove_subgraphs ids g)
unfolding remove_subgraphs
remove_subgraphs-Detaches [] g = record {
  core = record { nodes = refl; dependents = refl; pending = refl; id = refl; next = omega arith };
  stack = refl;
  no_failure = λ e k. cc;
}
remove_subgraphs-Detaches (id ∷ rest) g = elim (Option-cases (HashMap.get g.subgraphs id)) [
  | inl absent ↦ rw absent (record {
    core = record {
      nodes = refl;
      dependents = refl;
      pending = refl;
      id = refl;
      next = omega arith;
    };
    stack = refl;
    no_failure = λ e k. cc;
  })
  | inr (s, found) ↦
      let later = remove_subgraphs-Detaches rest (detach_subgraph id s g) in
      rw found (record {
        core = record {
          nodes = later.core.nodes;
          dependents = later.core.dependents;
          pending = later.core.pending;
          id = later.core.id;
          next = later.core.next;
        };
        stack = later.stack;
        no_failure = later.no_failure;
      })
]

same_removal :
    {r r' : SubgraphRemoval} {c c' : List (DestroyFn × RuleHandle)}
    → ◌≡◌ {A = Outcome (SubgraphRemoval × List (DestroyFn × RuleHandle))}
        (returned (r, c))
        (returned (r', c'))
    → r ≡ r'
same_removal e = cc

-- The last steps, behind the removal of the nodes.
Removes-last :
    (id : SubgraphId) (g h : AttributeGraph) (r : Outcome Unit × AttributeGraph)
    (removal : SubgraphRemoval) (calls : List (DestroyFn × RuleHandle))
    → IsWellFormed h
    → h.construction_subgraphs ≡ g.construction_subgraphs
    → Detaches h r
    → (r.0 ≡ returned tt → HashMap.get r.1.subgraphs id ≡ none)
    → ((x : NodeId) → has_node h x ≡ (has_node g x && not (contains removal.nodes x)))
    → ((x : NodeId) → (contains removal.dirtied_dependents x ≡ true) ↔ IsCutOff g removal.nodes x)
    → Removes id g (continue r.0 (λ u. pure (removal, calls)) r.1)
Removes-last id g h (returned u, k) removal calls wf kept detaches emptied gone dirtied = record {
  well_formed = SameCore-IsWellFormed detaches.core wf;
  untouched = λ e stop. cc;
  stack = detaches.stack ∙ kept;
  emptied = λ removal' calls' stop. emptied refl;
  gone = λ removal' calls' stop x.
      ap (λ (m : HashMap NodeId Node). is_some (HashMap.get m x)) detaches.core.nodes
      ∙ gone x
      ∙ ap (λ (m : SubgraphRemoval). has_node g x && not (contains m.nodes x)) (same_removal stop);
  dirtied = λ removal' calls' stop x.
      subst
        (λ (m : SubgraphRemoval). (contains m.dirtied_dependents x ≡ true) ↔ IsCutOff g m.nodes x)
        (same_removal stop) (dirtied x);
}
Removes-last id g h (failed e, k) removal calls wf kept detaches emptied gone dirtied =
    absurd (detaches.no_failure e refl)
Removes-last id g h (panicked, k) removal calls wf kept detaches emptied gone dirtied = record {
  well_formed = SameCore-IsWellFormed detaches.core wf;
  untouched = λ e stop. cc;
  stack = detaches.stack ∙ kept;
  emptied = λ removal' calls' stop. cc;
  gone = λ removal' calls' stop. cc;
  dirtied = λ removal' calls' stop. cc;
}
Removes-last id g h (out_of_fuel, k) removal calls wf kept detaches emptied gone dirtied = record {
  well_formed = SameCore-IsWellFormed detaches.core wf;
  untouched = λ e stop. cc;
  stack = detaches.stack ∙ kept;
  emptied = λ removal' calls' stop. cc;
  gone = λ removal' calls' stop. cc;
  dirtied = λ removal' calls' stop. cc;
}

Removes-continue :
    {A : Type 0} (id : SubgraphId) (g : AttributeGraph) (r : Outcome A × AttributeGraph)
    (f : A → Action (SubgraphRemoval × List (DestroyFn × RuleHandle))) (a : A)
    → r.0 ≡ returned a
    → Removes id g (f a r.1)
    → Removes id g (continue r.0 f r.1)
Removes-continue id g r f a e h' = rw e h'

remove_subgraph-Removes :
    (id : SubgraphId) (g : AttributeGraph) → IsWellFormed g → Removes id g (remove_subgraph id g)
unfolding remove_subgraph
remove_subgraph-Removes id g wf = Removes-observe id g (ensure_subgraph g id) _ wf λ u _.
    Removes-observe id g (subgraph_postorder g id) _ wf λ postorder walked.
      Removes-observe id g
        (elim (find_active g.construction_subgraphs postorder) [
          | none ↦ returned tt
          | some active ↦ failed (subgraph_in_use active)
        ])
        _ wf
        λ u' _. Removes-observe id g (owned_nodes g postorder) _ wf λ owned _.
          Removes-observe id g (topological_order g) _ wf λ order ordered.
            let removed = HashSet.from_list owned in
            let ((nodes, took), well_formed, gone) = remove_ordered g removed order wf ordered in
            let ids = reverse (HashSet.retain (contains removed) order) in
            let h = (remove_nodes ids g).1 in
            Removes-continue id g (remove_nodes ids g) _ nodes took (
              Removes-last id g h (remove_subgraphs postorder h) _ (drop_nodes nodes) well_formed
                (remove_nodes_stack ids g) (remove_subgraphs-Detaches postorder h)
                (λ e.
                  remove_subgraphs-gone postorder h id e
                    (subgraph_postorder-contains g id postorder walked))
                gone (dependents_outside_lem g removed))

-- Removing a subgraph keeps a well-formed graph well-formed, on every way out. If it fails, it has
-- written nothing. If it returns, the subgraph is gone, the nodes that it reports are gone and no other, and
-- the dirtied dependents that it reports are the nodes outside that depended on one of them.
pub remove_subgraph_lem :
    (id : SubgraphId) (g : AttributeGraph)
    → IsWellFormed g
    → IsWellFormed (remove_subgraph id g).1
      × ((e : GraphError) → (remove_subgraph id g).0 ≡ failed e → (remove_subgraph id g).1 ≡ g)
      × ((removal : SubgraphRemoval) (calls : List (DestroyFn × RuleHandle))
          → (remove_subgraph id g).0 ≡ returned (removal, calls)
          → (HashMap.get (remove_subgraph id g).1.subgraphs id ≡ none)
            × ((x : NodeId)
                → (has_node (remove_subgraph id g).1 x
                    ≡ (has_node g x && not (contains removal.nodes x)))
                  × ((contains removal.dirtied_dependents x ≡ true) ↔ IsCutOff g removal.nodes x)))
remove_subgraph_lem id g wf =
    let removes = remove_subgraph-Removes id g wf in
    (
      removes.well_formed,
      removes.untouched,
      λ removal calls r. (
        removes.emptied removal calls r,
        λ x. (removes.gone removal calls r x, removes.dirtied removal calls r x),
      ),
    )

pub remove_subgraph_stack :
    (id : SubgraphId) (g : AttributeGraph)
    → IsWellFormed g
    → (remove_subgraph id g).1.construction_subgraphs ≡ g.construction_subgraphs
remove_subgraph_stack id g wf = (remove_subgraph-Removes id g wf).stack
