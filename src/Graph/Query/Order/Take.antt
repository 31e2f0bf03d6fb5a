-- ===== src/Graph/Query/Order/Take.antt =====
-- The node that `topological_order` takes from the ready ones.
use attribute_graph.Common.{
  ◌+◌, ◌≡◌, inl, inr, refl, sym, ap, ◌∙◌, subst, true, false, not, ◌&&◌, ◌||◌, Option, none, some,
  List, [], ◌∷◌, ◌++◌, if◌then◌else◌, eqb, ◌==◌, sort, contains, IsDistinct, is_some, arith,
  ==-cases, ==-refl, Bool-cases,
}
use attribute_graph.Common.HashSet.{HashSet, contains-nil}
use attribute_graph.Common.HashMap
use attribute_graph.Common.HashMap.{HashMap, get-insert, contains-keys}
use attribute_graph.Common.Sort.{contains-sort, IsDistinct-sort}
use attribute_graph.Identity.{NodeId, node_id_key}
use attribute_graph.Dependency.{sorted_ids}
use attribute_graph.Graph.State.{AttributeGraph}
use attribute_graph.Graph.Commit.{successors, ids_at}
use attribute_graph.Graph.Propagate.{dependents_at}
use attribute_graph.Graph.Invariant.Core.{ends_present}
use attribute_graph.Graph.Invariant.{dependencies, here, IsWellFormed}
use attribute_graph.Graph.Query.{Ordering}
use attribute_graph.Graph.Query.Remaining.{
  remaining-snoc, remaining_zero, contains-snoc, IsDistinct-snoc,
}
use attribute_graph.Graph.Query.Order.{
  IsDependencyFirst-snoc, IsDependencyFirst-closed, left_at, IsOrdering, IsTodo,
}

sorted_ids-sort : (o : Option (HashSet NodeId)) → sorted_ids o ≡ sort (ids_at o)
unfolding sorted_ids sort
sorted_ids-sort none = refl
sorted_ids-sort (some ids) = refl

module _ (g : AttributeGraph) (wf : IsWellFormed g) where
  -- The loop takes the first ready node to the end of the order.
  abbrev pub taken : NodeId → List NodeId → Ordering → Ordering
  taken id rest s = record s { ready = rest; order = s.order ++ id ∷ [] }

  dependents-successors : (id : NodeId) → dependents_at g id ≡ sort (successors g id)
  unfolding dependents_at successors
  dependents-successors id = sorted_ids-sort (HashMap.get g.dependents id)

  module _ (id : NodeId) (rest : List NodeId) (s : Ordering) (inv : IsOrdering g [] s)
      (front : s.ready ≡ id ∷ rest) where
    id_ready : contains s.ready id ≡ true
    unfolding contains
    id_ready = rw front (ground (arith, ==-refl id))

    fresh : contains s.order id ≡ false
    fresh = ground (arith, inv.ready id, id_ready)

    present : is_some (HashMap.get g.nodes id) ≡ true
    present = ground (arith, inv.ready id, id_ready)

    all_reached : left_at g s.order id ≡ 0
    all_reached = ground (arith, inv.ready id, id_ready)

    contains-todo : (x : NodeId) → contains (dependents_at g id) x ≡ contains (dependencies g x) id
    contains-todo x =
        ap (λ (l : List NodeId). contains l x) (dependents-successors id)
        ∙ contains-sort (successors g id) x
        ∙ wf.mirrored id x

    lower_left :
        (x : NodeId)
        → left_at g s.order x
          ≡ left_at g (s.order ++ id ∷ []) x + (if contains (dependents_at g id) x then 1 else 0)
    lower_left x =
        rw (contains-todo x) (remaining-snoc s.order (dependencies g x) id fresh (wf.tidy.reads x))

    ready_members : (x : NodeId) → contains s.ready x ≡ ((id == x) || contains rest x)
    unfolding contains
    ready_members x = rw front refl

    ready_distinct : (contains rest id ≡ false) × IsDistinct rest
    ready_distinct = subst (λ (l : List NodeId). IsDistinct l) front inv.distinct.0

    rest_members :
        (x : NodeId)
        → contains rest x ≡ (
            is_some (HashMap.get g.nodes x)
            && not (contains (s.order ++ id ∷ []) x)
            && eqb (left_at g (s.order ++ id ∷ []) x) 0
            && not (contains (dependents_at g id) x))
    rest_members x = elim (==-cases id x) [
      | inl (same, t) ↦
          rw (contains-snoc s.order id x, t)
            (ground (arith, ready_distinct.0, ap (contains rest) same))
      | inr t ↦ ground (
        arith,
        ready_members x,
        inv.ready x,
        contains-snoc s.order id x,
        lower_left x,
        contains-nil x,
      )
    ]

    taken_known :
        (x : NodeId)
        → contains (s.order ++ id ∷ []) x ≡ true
        → is_some (HashMap.get g.nodes x) ≡ true
    taken_known x m = elim (==-cases id x) [
      | inl (same, t) ↦ rw (← same) present
      | inr t ↦ inv.known x (ground (arith, contains-snoc s.order id x))
    ]

    pub taken-IsOrdering : IsOrdering g (dependents_at g id) (taken id rest s)
    unfolding contains
    taken-IsOrdering = record {
      degree = λ x. ground (arith, inv.degree x, lower_left x);
      ready = rest_members;
      distinct = (ready_distinct.1, IsDistinct-snoc s.order id fresh inv.distinct.1);
      known = taken_known;
      first =
          IsDependencyFirst-snoc g [] s.order id inv.first
            λ d m. remaining_zero s.order (dependencies g id) all_reached d m;
    }

    untaken :
        (x : NodeId)
        → contains (dependencies g x) id ≡ true
        → contains (s.order ++ id ∷ []) x ≡ false
    untaken x m = elim (Bool-cases (contains (s.order ++ id ∷ []) x)) [
      | inr f ↦ f
      | inl t ↦ elim (==-cases id x) [
        | inl (same, b) ↦
            absurd (ground (arith, wf.mirrored id id, wf.acyclic id id here, own same m))
        | inr b ↦ absurd (
            ground (
              arith,
              fresh,
              IsDependencyFirst-closed g [] s.order inv.first x id
                  (ground (arith, contains-snoc s.order id x)) m,
            ))
      ]
    ]
      where
        own :
            {x : NodeId}
            → id ≡ x
            → contains (dependencies g x) id ≡ true
            → contains (dependencies g id) id ≡ true
        own e h = subst (λ (z : NodeId). contains (dependencies g z) id ≡ true) (sym e) h

    pub dependents-IsTodo : IsTodo g (s.order ++ id ∷ []) (dependents_at g id)
    dependents-IsTodo = (
      rw (dependents-successors id) (IsDistinct-sort (successors g id) (wf.tidy.edges id)),
      λ x m. (ends_present g id x wf (wf.mirrored id x ∙ sym (contains-todo x) ∙ m)).1,
      λ x m. untaken x (sym (contains-todo x) ∙ m),
    )
