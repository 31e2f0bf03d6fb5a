-- ===== src/Graph/Propagate/Apart.antt =====
-- `mark_changed` and the nodes that do not depend on the changed one.
use attribute_graph.Common.{
  ℕ, zero, suc, ◌≡◌, inl, inr, refl, ◌∙◌, true, false, some, List, [], ◌∷◌, ◌==◌, contains, arith,
  eq_of_==, ==-refl, Bool-cases, Option-cases, List-cases, some_injective,
}
use attribute_graph.Common.HashMap
use attribute_graph.Common.HashMap.{get-modify}
use attribute_graph.Identity.{NodeId, node_id_key}
use attribute_graph.Node.{dirty}
use attribute_graph.Graph.State.{AttributeGraph, continue_rule}
use attribute_graph.Graph.Guards.{ensure_node}
use attribute_graph.Graph.Propagate.{
  set_state, soften, dependents_at, mark_one, mark_direct, Walk, reach_dependent, reach_dependents,
  spread_round, spread, spread_from, mark_changed,
}
use attribute_graph.Graph.Invariant.{IsEdge, Reaches, here, step}
use attribute_graph.Graph.Propagate.Marks.{Marks, Marks-trans, successors-marked}
use attribute_graph.Graph.Propagate.Changed.{
  contains-dependents_at, AllFrom, AllFrom-dependents_at, AllFrom-head, AllFrom-tail,
  mark_direct-Marks, spread_round-Marks,
}
use attribute_graph.Graph.Propagate.Stale.{next-queue}

module _ (g : AttributeGraph) (id z : NodeId)
    (away : (x : NodeId) → Reaches g id x → ¬ IsEdge g x z) where
  differs : (x d : NodeId) → Reaches g id x → IsEdge g x d → (d == z) ≡ false
  differs x d r e = elim (Bool-cases (d == z)) [
    | inl t ↦ absurd (away x r (rw (eq_of_== d z t) at e))
    | inr f ↦ f
  ]

  mark_direct-apart :
      (ids : List NodeId) (h : AttributeGraph)
      → AllFrom g id ids
      → HashMap.get (mark_direct id ids h).nodes z ≡ HashMap.get h.nodes z
  unfolding mark_direct mark_one
  mark_direct-apart [] h all = refl
  mark_direct-apart (d ∷ rest) h all =
      mark_direct-apart rest (mark_one id d h) (AllFrom-tail g id d rest all)
      ∙ ground (
        arith,
        get-modify h.nodes d (set_state dirty) z,
        differs id d here (AllFrom-head g id d rest all),
      )

  record Apart (w : Walk) : Type 0 where
    same : HashMap.get w.graph.nodes z ≡ HashMap.get g.nodes z
    reached : (x : NodeId) → contains w.queue x ≡ true → Reaches g id x

  reach_dependent-same :
      (x d : NodeId) (w : Walk)
      → (d == z) ≡ false
      → HashMap.get (reach_dependent x d w).graph.nodes z ≡ HashMap.get w.graph.nodes z
  unfolding reach_dependent
  reach_dependent-same x d w f = ground (arith, get-modify w.graph.nodes d soften z)

  reach_dependents-Apart :
      (x : NodeId) (ids : List NodeId) (w : Walk)
      → Reaches g id x
      → AllFrom g x ids
      → Apart w
      → Apart (reach_dependents x ids w)
  unfolding reach_dependents
  reach_dependents-Apart x [] w r all a = a
  reach_dependents-Apart x (d ∷ rest) w r all a =
      let e = AllFrom-head g x d rest all in
      reach_dependents-Apart x rest (reach_dependent x d w) r (AllFrom-tail g x d rest all)
        (record {
          same = reach_dependent-same x d w (differs x d r e) ∙ a.same;
          reached = λ y m. elim (Bool-cases (d == y)) [
            | inl t ↦ rw (← eq_of_== d y t) (step r e)
            | inr f ↦ a.reached y (ground (arith, next-queue g id x d w y))
          ];
        })

  spread-Apart :
      (fuel : ℕ) (w : Walk) (g' : AttributeGraph)
      → Marks g w.graph
      → Apart w
      → spread fuel w ≡ some g'
      → HashMap.get g'.nodes z ≡ HashMap.get g.nodes z
  unfolding spread contains
  spread-Apart zero w g' m a e = elim (List-cases w.queue) [
    | inl empty ↦ rw (← some_injective (rw (empty, spread) at e)) a.same
    | inr (x, rest, q) ↦ cc (rw (q, spread) at e)
  ]
  spread-Apart (suc fuel) w g' m a e = elim (List-cases w.queue) [
    | inl empty ↦ rw (← some_injective (rw (empty, spread) at e)) a.same
    | inr (x, rest, q) ↦
        spread-Apart fuel (spread_round x rest w) g' (Marks-trans m (spread_round-Marks x rest w))
          (unfold spread_round in
            reach_dependents-Apart x (dependents_at w.graph x) (record w { queue = rest })
              (a.reached x (rw q (ground (arith, ==-refl x))))
              (λ y k. rw (contains-dependents_at, successors-marked m) at k)
              (record { same = a.same; reached = λ y k. a.reached y (rw q (ground arith)) }))
          (rw (q, spread) at e)
  ]

  spread_from-apart :
      (g' : AttributeGraph)
      → spread_from (dependents_at g id) (mark_direct id (dependents_at g id) g) ≡ some g'
      → HashMap.get g'.nodes z ≡ HashMap.get g.nodes z
  unfolding spread_from
  spread_from-apart g' e =
      spread-Apart _ _ g' (mark_direct-Marks id (dependents_at g id) g (AllFrom-dependents_at g id))
        (record {
          same = mark_direct-apart (dependents_at g id) g (AllFrom-dependents_at g id);
          reached = λ y k. step here (AllFrom-dependents_at g id y k);
        })
        e

-- Marking the dependents of a node leaves every node as it is that does not depend on it, directly or by
-- way of others.
pub mark_changed-apart :
    (g : AttributeGraph) (id z : NodeId)
    → ((x : NodeId) → Reaches g id x → ¬ IsEdge g x z)
    → HashMap.get (mark_changed id g).1.nodes z ≡ HashMap.get g.nodes z
unfolding mark_changed
mark_changed-apart g id z away =
    continue_rule (λ (h : AttributeGraph). HashMap.get h.nodes z ≡ HashMap.get g.nodes z)
      (ensure_node g id) _ g refl
      λ _ _.
        elim (Option-cases
          (spread_from (dependents_at g id) (mark_direct id (dependents_at g id) g))) [
            | inl stuck ↦
                rw stuck (
                  mark_direct-apart g id z away (dependents_at g id) g (AllFrom-dependents_at g id))
            | inr (g', e) ↦ rw e (spread_from-apart g id z away g' e)
          ]
