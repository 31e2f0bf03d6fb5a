-- ===== src/Graph/Query/Complete.antt =====
-- What `topological_order` returns.
use attribute_graph.Common.{
  ℕ, zero, suc, ◌+◌, ◌≤◌, ◌≡◌, inl, inr, refl, sym, ap, ◌∙◌, Bool, true, false, Option, none, some,
  List, [], ◌∷◌, if◌then◌else◌, eqb, contains, IsDistinct, is_some, length, arith, ==-cases,
  Bool-cases,
}
use attribute_graph.Common.HashMap
use attribute_graph.Common.HashMap.{HashMap, contains-keys, length-keys}
use attribute_graph.Common.Distinct.{length-le_of_contains}
use attribute_graph.Common.Sort.{contains-sort, IsDistinct-sort}
use attribute_graph.Identity.{NodeId, node_id_key}
use attribute_graph.Node.{Node}
use attribute_graph.Graph.State.{AttributeGraph, returned}
use attribute_graph.Graph.Commit.Cycles.{Reaches-trans}
use attribute_graph.Graph.Invariant.Core.{ends_present}
use attribute_graph.Graph.Invariant.{
  dependencies, dependencies_at, IsEdge, Reaches, here, step, IsWellFormed,
}
use attribute_graph.Graph.Query.{Ordering, in_degrees, ready_ids, start_order, topological_order}
use attribute_graph.Graph.Query.Remaining.{remaining-nil, missing}
use attribute_graph.Graph.Query.Order.{IsDependencyFirst, IsOrdering}
use attribute_graph.Graph.Query.Order.Loop.{order_loop_lem}

get-in_degrees :
    (m : HashMap NodeId Node) (x : NodeId)
    → HashMap.get (in_degrees m) x ≡ (
        if is_some (HashMap.get m x)
        then some (length (dependencies_at (HashMap.get m x)))
        else none)
unfolding in_degrees HashMap.get
get-in_degrees [] x = refl
get-in_degrees ((id, node) ∷ m) x = ground (arith, get-in_degrees m x)

abbrev is_zero_at : Option ℕ → Bool
is_zero_at none = false
is_zero_at (some n) = eqb n 0

contains-ready_ids_le :
    (m : HashMap NodeId ℕ) (x : NodeId)
    → contains (HashMap.keys m) x ≡ false
    → contains (ready_ids m) x ≡ false
unfolding ready_ids HashMap.keys contains
contains-ready_ids_le [] x f = refl
contains-ready_ids_le ((id, n) ∷ m) x f = ground (arith, contains-ready_ids_le m x)

contains-ready_ids :
    (m : HashMap NodeId ℕ) (x : NodeId)
    → IsDistinct (HashMap.keys m)
    → contains (ready_ids m) x ≡ is_zero_at (HashMap.get m x)
unfolding ready_ids HashMap.keys HashMap.get contains
contains-ready_ids [] x d = refl
contains-ready_ids ((id, n) ∷ m) x d = elim (==-cases id x) [
  | inl (same, t) ↦ ground (arith, contains-ready_ids_le m x (absent same d.0))
  | inr t ↦ ground (arith, contains-ready_ids m x d.1)
]
  where
    absent : id ≡ x → contains (HashMap.keys m) id ≡ false → contains (HashMap.keys m) x ≡ false
    absent e h = rw e at h

IsDistinct-ready_ids :
    (m : HashMap NodeId ℕ) → IsDistinct (HashMap.keys m) → IsDistinct (ready_ids m)
unfolding ready_ids HashMap.keys
IsDistinct-ready_ids [] d = tt
IsDistinct-ready_ids ((id, n) ∷ m) d =
    ground (arith, IsDistinct-ready_ids m d.1, contains-ready_ids_le m id d.0)

keys-in_degrees : (m : HashMap NodeId Node) → HashMap.keys (in_degrees m) ≡ HashMap.keys m
unfolding in_degrees HashMap.keys
keys-in_degrees [] = refl
keys-in_degrees ((id, node) ∷ m) = ap (λ l. id ∷ l) (keys-in_degrees m)

module _ (g : AttributeGraph) (wf : IsWellFormed g) where
  degree_keys : IsDistinct (HashMap.keys (in_degrees g.nodes))
  degree_keys = rw (keys-in_degrees g.nodes) wf.tidy.nodes

  start-IsOrdering : IsOrdering g [] (start_order g)
  unfolding contains IsDependencyFirst
  start-IsOrdering = record {
    degree = λ x. ground (arith, get-in_degrees g.nodes x, remaining-nil (dependencies g x));
    ready = λ x. ground (
      arith,
      contains-sort (ready_ids (in_degrees g.nodes)) x,
      contains-ready_ids (in_degrees g.nodes) x degree_keys,
      get-in_degrees g.nodes x,
      remaining-nil (dependencies g x),
    );
    distinct = (
      IsDistinct-sort (ready_ids (in_degrees g.nodes))
          (IsDistinct-ready_ids (in_degrees g.nodes) degree_keys),
      tt,
    );
    known = λ x m. cc;
    first = tt;
  }

  -- A node that is left out has a dependency that is left out.
  module _ (t : Ordering) (inv : IsOrdering g [] t) (done : t.ready ≡ []) where
    IsLeftOut : NodeId → Type 0
    IsLeftOut x = (is_some (HashMap.get g.nodes x) ≡ true) × (contains t.order x ≡ false)

    earlier : (x : NodeId) → IsLeftOut x → (d : NodeId) × IsEdge g d x × IsLeftOut d
    unfolding IsLeftOut contains
    earlier x out = elim (missing t.order (dependencies g x)) [
      | inl (e, all) ↦ absurd (ground (arith, inv.ready x, nothing_ready x))
      | inr (d, m, f) ↦
          (d, wf.mirrored d x ∙ m, ((ends_present g d x wf (wf.mirrored d x ∙ m)).0, f))
    ]
      where
        nothing_ready : (x : NodeId) → contains t.ready x ≡ false
        nothing_ready x = rw done refl

    -- A walk back from `x`, with the nodes it has seen.
    record IsWalk (x : NodeId) (seen : List NodeId) : Type 0 where
      distinct : IsDistinct seen
      ahead :
          (y : NodeId)
          → contains seen y ≡ true
          → Reaches g x y × (is_some (HashMap.get g.nodes y) ≡ true)

    extended :
        (x : NodeId) (seen : List NodeId)
        → IsWalk x seen
        → IsLeftOut x
        → (d : NodeId) × IsLeftOut d × IsWalk d (d ∷ seen)
    unfolding IsLeftOut contains
    extended x seen w out =
        let (d, edge, left) = earlier x out in
        let new : contains seen d ≡ false = elim (Bool-cases (contains seen d)) [
          | inr f ↦ f
          | inl m ↦ absurd (cc (wf.acyclic x d (w.ahead d m).0, edge))
        ] in
        (
          d,
          left,
          record {
            distinct = (new, w.distinct);
            ahead = λ y m. elim (==-cases d y) [
              | inl (same, b) ↦ rw (← same) (here, left.0)
              | inr b ↦
                  let (r, p) = w.ahead y (ground arith) in (Reaches-trans (step here edge) r, p)
            ];
          },
        )

    -- It meets no node twice, so it ends.
    walk_ends :
        (fuel : ℕ) (x : NodeId) (seen : List NodeId)
        → IsWalk x seen
        → length (HashMap.keys g.nodes) ≤ length seen + fuel
        → ¬ IsLeftOut x
    walk_ends zero x seen w enough out =
        let (d, left, longer) = extended x seen w out in
        omega (
          arith,
          enough,
          length-le_of_contains (d ∷ seen) (HashMap.keys g.nodes) longer.distinct
              λ y m. contains-keys g.nodes y ∙ (longer.ahead y m).1,
        )
    walk_ends (suc fuel) x seen w enough out =
        let (d, left, longer) = extended x seen w out in
        walk_ends fuel d (d ∷ seen) longer (omega (arith, enough)) left

    all_ordered : (x : NodeId) → contains t.order x ≡ is_some (HashMap.get g.nodes x)
    unfolding IsLeftOut contains
    all_ordered x = elim (Bool-cases (contains t.order x)) [
      | inl m ↦ m ∙ sym (inv.known x m)
      | inr f ↦ elim (Bool-cases (is_some (HashMap.get g.nodes x))) [
        | inr a ↦ f ∙ sym a
        | inl p ↦ absurd (
            walk_ends (length (HashMap.keys g.nodes)) x []
              (record { distinct = tt; ahead = λ y m. cc }) (omega arith) (p, f))
      ]
    ]

    all_counted : length t.order ≡ HashMap.len g.nodes
    all_counted = omega (
      arith,
      length-keys g.nodes,
      length-le_of_contains t.order (HashMap.keys g.nodes) inv.distinct.1
          λ x m. contains-keys g.nodes x ∙ inv.known x m,
      length-le_of_contains (HashMap.keys g.nodes) t.order wf.tidy.nodes
          λ x m. all_ordered x ∙ sym (contains-keys g.nodes x) ∙ m,
    )

-- On a well-formed graph `topological_order` returns: an order that lists each of the graph's nodes
-- once and nothing else, each node after all its dependencies.
pub topological_order_lem :
    (g : AttributeGraph)
    → IsWellFormed g
    → (order : List NodeId) × (topological_order g ≡ returned order)
      × IsDistinct order
      × ((x : NodeId) → contains order x ≡ is_some (HashMap.get g.nodes x))
      × IsDependencyFirst g [] order
unfolding topological_order
topological_order_lem g wf =
    let (order, ran, (t, inv, done, same)) =
      order_loop_lem g wf (HashMap.len g.nodes) (start_order g) (start-IsOrdering g wf)
        (omega (arith, length-keys g.nodes)) in
    (
      order,
      rw ran (ground (arith, all_counted g wf t inv done, ap (λ (l : List NodeId). length l) same)),
      rw (← same) inv.distinct.1,
      λ x. rw (← same) (all_ordered g wf t inv done x),
      rw (← same) inv.first,
    )
