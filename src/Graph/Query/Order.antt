-- ===== src/Graph/Query/Order.antt =====
-- The variables of the loop of `topological_order`.
pub mod Lower
pub mod Take
pub mod Loop
use attribute_graph.Common.{
  ℕ, zero, suc, ◌+◌, ◌≤◌, ◌≡◌, ◌⊎◌, inl, inr, refl, sym, ap, ◌∙◌, subst, true, false, not, ◌&&◌,
  ◌||◌, Option, none, some, List, [], ◌∷◌, ◌++◌, if◌then◌else◌, eqb, ◌==◌, sort, contains,
  IsDistinct, is_some, length, length-append, arith, eq_of_==, ==-cases, ==-refl, ==-comm,
  Option-cases, List-cases, Bool-cases,
}
use mathlib.Core.Option
use attribute_graph.Common.HashSet.{HashSet, contains-append, contains-nil}
use attribute_graph.Common.HashMap
use attribute_graph.Common.HashMap.{HashMap, get-insert, contains-keys}
use attribute_graph.Common.Distinct.{length-le_of_contains}
use attribute_graph.Common.Sort.{contains-sort, IsDistinct-sort}
use attribute_graph.Identity.{NodeId, node_id_key}
use attribute_graph.Dependency.{sorted_ids}
use attribute_graph.Node.{Node}
use attribute_graph.Graph.State.{AttributeGraph, Outcome, returned}
use attribute_graph.Graph.Commit.{successors, ids_at}
use attribute_graph.Graph.Propagate.{dependents_at}
use attribute_graph.Graph.Invariant.{dependencies, dependencies_at, here, IsTidy, IsWellFormed}
use attribute_graph.Graph.Query.{Ordering, insert_sorted, lower_degree, lower_degrees, order_loop}
use attribute_graph.Graph.Query.Remaining.{
  remaining, remaining-snoc, remaining_zero, contains-snoc, contains-insert_sorted,
  IsDistinct-insert_sorted, IsDistinct-snoc,
}

-- Each node of the list has its dependencies before it, there or among the first.
unfoldable pub IsDependencyFirst : AttributeGraph → List NodeId → List NodeId → Type 0
IsDependencyFirst g before [] = Unit {0}
IsDependencyFirst g before (x ∷ rest) =
    ((d : NodeId) → contains (dependencies g x) d ≡ true → contains before d ≡ true)
    × IsDependencyFirst g (before ++ x ∷ []) rest

contains-cons :
    (x : NodeId) (xs : List NodeId) (d : NodeId) → contains (x ∷ xs) d ≡ ((x == d) || contains xs d)
unfolding contains
contains-cons x xs d = refl

pub IsDependencyFirst-snoc :
    (g : AttributeGraph) (before xs : List NodeId) (a : NodeId)
    → IsDependencyFirst g before xs
    → ((d : NodeId) → contains (dependencies g a) d ≡ true → contains (before ++ xs) d ≡ true)
    → IsDependencyFirst g before (xs ++ a ∷ [])
unfolding IsDependencyFirst
IsDependencyFirst-snoc g before [] a h new =
    (λ d m. ground (arith, new d, contains-append before [] d, contains-nil d), tt)
IsDependencyFirst-snoc g before (x ∷ xs) a h new = (
  h.0,
  IsDependencyFirst-snoc g (before ++ x ∷ []) xs a h.1 λ d m. ground (
    arith,
    new d m,
    contains-append (before ++ x ∷ []) xs d,
    contains-snoc before x d,
    contains-append before (x ∷ xs) d,
    contains-cons x xs d,
  ),
)

pub IsDependencyFirst-closed :
    (g : AttributeGraph) (before xs : List NodeId)
    → IsDependencyFirst g before xs
    → (x d : NodeId) → contains xs x ≡ true
    → contains (dependencies g x) d ≡ true
    → contains (before ++ xs) d ≡ true
unfolding IsDependencyFirst contains
IsDependencyFirst-closed g before [] h x d m e = cc
IsDependencyFirst-closed g before (y ∷ ys) h x d m e = elim (==-cases y x) [
  | inl (same, t) ↦ ground (arith, h.0 d (rw same e), contains-append before (y ∷ ys) d)
  | inr t ↦ ground (
    arith,
    IsDependencyFirst-closed g (before ++ y ∷ []) ys h.1 x d (ground arith) e,
    contains-append (before ++ y ∷ []) ys d,
    contains-snoc before y d,
    contains-append before (y ∷ ys) d,
  )
]

module _ (g : AttributeGraph) where
  abbrev pub left_at : List NodeId → NodeId → ℕ
  left_at order x = remaining order (dependencies g x)

  -- The loop with the dependents `todo` of the last node of the order still to be lowered.
  pub record IsOrdering (todo : List NodeId) (s : Ordering) : Type 0 where
    pub degree :
        (x : NodeId)
        → HashMap.get s.in_degree x ≡ (
            if is_some (HashMap.get g.nodes x)
            then some (left_at s.order x + (if contains todo x then 1 else 0))
            else none)
    pub ready :
        (x : NodeId)
        → contains s.ready x ≡ (
            is_some (HashMap.get g.nodes x)
            && not (contains s.order x)
            && eqb (left_at s.order x) 0
            && not (contains todo x))
    pub distinct : IsDistinct s.ready × IsDistinct s.order
    pub known : (x : NodeId) → contains s.order x ≡ true → is_some (HashMap.get g.nodes x) ≡ true
    pub first : IsDependencyFirst g [] s.order

  -- What the dependents still to be lowered are known for.
  abbrev pub IsTodo : List NodeId → List NodeId → Type 0
  IsTodo order todo =
      IsDistinct todo
      × ((x : NodeId) → contains todo x ≡ true → is_some (HashMap.get g.nodes x) ≡ true)
      × ((x : NodeId) → contains todo x ≡ true → contains order x ≡ false)
