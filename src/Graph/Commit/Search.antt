-- ===== src/Graph/Commit/Search.antt =====
-- The search of `has_path`.
use attribute_graph.Common.{
  ℕ, zero, suc, ◌+◌, ◌≤◌, ◌≡◌, ◌↔◌, inl, inr, refl, ap, Bool, true, false, ◌||◌, some, List, [],
  ◌∷◌, ◌++◌, if◌then◌else◌, ◌==◌, contains, arith, length, length-append, Bool-cases, ==-refl,
  ==-comm, eq_of_==, ==-cases,
}
use mathlib.Core.Logic.{∥∥₁_elim}
use mathlib.Core.HLevel.{⊥_prop}
use attribute_graph.Common.HashSet
use attribute_graph.Common.HashSet.{HashSet, contains-insert, contains-append}
use attribute_graph.Common.HashMap
use attribute_graph.Identity.{NodeId, node_id_key}
use attribute_graph.Graph.State.{AttributeGraph, returned}
use attribute_graph.Graph.Propagate.{edge_count, total_length}
use attribute_graph.Graph.Commit.{ids_at, successors, search_path, has_path}
use attribute_graph.Graph.Invariant.{Reaches, here, step, IsEdge}

-- The edges that leave nodes outside `seen`.
unfoldable pub unexplored : HashMap.HashMap NodeId (HashSet NodeId) → HashSet NodeId → ℕ
unexplored [] seen = 0
unexplored ((x, ids) ∷ m) seen = (if contains seen x then 0 else length ids) + unexplored m seen

pub unexplored-nil :
    (m : HashMap.HashMap NodeId (HashSet NodeId))
    → unexplored m [] ≡ total_length (HashMap.values m)
unfolding unexplored HashMap.values contains
unexplored-nil [] = refl
unexplored-nil ((x, ids) ∷ m) = ap (λ n. length ids + n) (unexplored-nil m)

unexplored-insert_le :
    (m : HashMap.HashMap NodeId (HashSet NodeId)) (seen : HashSet NodeId) (x : NodeId)
    → unexplored m (HashSet.insert seen x) ≤ unexplored m seen
unfolding unexplored
unexplored-insert_le [] seen x = omega arith
unexplored-insert_le ((y, ids) ∷ m) seen x =
    ground (arith, unexplored-insert_le m seen x, contains-insert seen x y)

pub unexplored-insert :
    (m : HashMap.HashMap NodeId (HashSet NodeId)) (seen : HashSet NodeId) (x : NodeId)
    → contains seen x ≡ false
    → unexplored m (HashSet.insert seen x) + length (ids_at (HashMap.get m x)) ≤ unexplored m seen
unfolding unexplored HashMap.get
unexplored-insert [] seen x h = omega arith
unexplored-insert ((y, ids) ∷ m) seen x h = ground (
  arith,
  unexplored-insert m seen x,
  unexplored-insert_le m seen x,
  contains-insert seen x y,
  eq_of_== y x,
  eq_of_== x y,
  ==-comm x y,
)

module _ (g : AttributeGraph) (to : NodeId) where
  -- The search ends within the fuel: a round takes one entry off the stack, and a node puts its edges
  -- there once.
  search_path_returns :
      (fuel : ℕ) (stack : List NodeId) (seen : HashSet NodeId)
      → unexplored g.dependents seen + length stack ≤ fuel
      → (found : Bool) × (search_path g to fuel stack seen ≡ some found)
  unfolding search_path successors
  search_path_returns zero [] seen h = (false, refl)
  search_path_returns (suc fuel) [] seen h = (false, refl)
  search_path_returns zero (x ∷ stack) seen h = absurd (omega arith)
  search_path_returns (suc fuel) (x ∷ stack) seen h = elim (Bool-cases (x == to)) [
    | inl hit ↦ (true, ground arith)
    | inr miss ↦ elim (Bool-cases (contains seen x)) [
      | inl old ↦
          let (found, e) = search_path_returns fuel stack seen (omega arith) in
          (found, ground arith)
      | inr new ↦
          let (found, e) =
            search_path_returns fuel (successors g x ++ stack) (HashSet.insert seen x) (
              omega (
                arith,
                unexplored-insert g.dependents seen x new,
                length-append (successors g x) stack,
              )) in
          (found, ground arith)
    ]
  ]

  search_path_sound :
      (from : NodeId) (fuel : ℕ) (stack : List NodeId) (seen : HashSet NodeId)
      → ((x : NodeId) → contains stack x ≡ true → Reaches g from x)
      → search_path g to fuel stack seen ≡ some true
      → Reaches g from to
  unfolding search_path contains
  search_path_sound from zero [] seen h e = cc
  search_path_sound from zero (x ∷ stack) seen h e = cc
  search_path_sound from (suc fuel) [] seen h e = cc
  search_path_sound from (suc fuel) (x ∷ stack) seen h e = elim (Bool-cases (x == to)) [
    | inl hit ↦ rw (← eq_of_== x to hit) (h x (rw ==-refl))
    | inr miss ↦ elim (Bool-cases (contains seen x)) [
      | inl old ↦
          search_path_sound from fuel stack seen (λ y m. h y (ground arith))
            (rw (miss, old, search_path) at e)
      | inr new ↦
          search_path_sound from fuel (successors g x ++ stack) (HashSet.insert seen x)
            (λ y m. elim (Bool-cases (contains (successors g x) y)) [
              | inl edge ↦ step (h x (rw ==-refl)) edge
              | inr other ↦ h y (ground (arith, contains-append (successors g x) stack y))
            ])
            (rw (miss, new, search_path) at e)
    ]
  ]

  -- What the loop keeps while it has not met `to`.
  record Frontier (from : NodeId) (stack : List NodeId) (seen : HashSet NodeId) : Type 0 where
    source : (contains seen from || contains stack from) ≡ true
    closed :
        (u v : NodeId)
        → contains seen u ≡ true
        → IsEdge g u v
        → (contains seen v || contains stack v) ≡ true
    missed : contains seen to ≡ false

  Frontier-old :
      (from x : NodeId) (stack : List NodeId) (seen : HashSet NodeId)
      → contains seen x ≡ true
      → Frontier from (x ∷ stack) seen
      → Frontier from stack seen
  unfolding contains
  Frontier-old from x stack seen old f = record {
    source = ground (arith, f.source, eq_of_== x from);
    closed = λ u v m e. ground (arith, f.closed u v m e, eq_of_== x v);
    missed = f.missed;
  }

  Frontier-new :
      (from x : NodeId) (stack : List NodeId) (seen : HashSet NodeId)
      → (x == to) ≡ false
      → Frontier from (x ∷ stack) seen
      → Frontier from (successors g x ++ stack) (HashSet.insert seen x)
  unfolding contains
  Frontier-new from x stack seen miss f = record {
    source =
        ground (
          arith,
          f.source,
          contains-insert seen x from,
          contains-append (successors g x) stack from,
        );
    closed = λ u v m e. elim (==-cases x u) [
      | inl (same, t) ↦
          let here : IsEdge g x v = rw (← same) at e in
          ground (arith, contains-append (successors g x) stack v, here)
      | inr t ↦ ground (
        arith,
        f.closed u v,
        contains-insert seen x u,
        contains-insert seen x v,
        contains-append (successors g x) stack v,
      )
    ];
    missed = ground (arith, f.missed, contains-insert seen x to);
  }

  -- With an empty stack, what is reachable has been seen.
  Frontier-nil :
      {from : NodeId} {seen : HashSet NodeId}
      → Frontier from [] seen
      → {y : NodeId} → Reaches g from y
      → contains seen y ≡ true
  unfolding contains
  Frontier-nil f here = ground (arith, f.source)
  Frontier-nil f (step {y} {z} r e) = ground (arith, f.closed y z (Frontier-nil f r) e)

  search_path_complete :
      (from : NodeId) (fuel : ℕ) (stack : List NodeId) (seen : HashSet NodeId)
      → Frontier from stack seen
      → search_path g to fuel stack seen ≡ some false
      → ¬ Reaches g from to
  unfolding search_path
  search_path_complete from zero [] seen f e r = cc (Frontier-nil f r, f.missed)
  search_path_complete from zero (x ∷ stack) seen f e r = cc
  search_path_complete from (suc fuel) [] seen f e r = cc (Frontier-nil f r, f.missed)
  search_path_complete from (suc fuel) (x ∷ stack) seen f e r = elim (Bool-cases (x == to)) [
    | inl hit ↦ cc (rw (hit, search_path) at e)
    | inr miss ↦ elim (Bool-cases (contains seen x)) [
      | inl old ↦
          search_path_complete from fuel stack seen (Frontier-old from x stack seen old f)
            (rw (miss, old, search_path) at e) r
      | inr new ↦
          search_path_complete from fuel (successors g x ++ stack) (HashSet.insert seen x)
            (Frontier-new from x stack seen miss f) (rw (miss, new, search_path) at e) r
    ]
  ]

-- `has_path` always answers.
pub has_path_returns :
    (g : AttributeGraph) (from to : NodeId) → (found : Bool) × (has_path g from to ≡ returned found)
unfolding has_path edge_count
has_path_returns g from to =
    let (found, e) =
      search_path_returns g to (edge_count g + 1) (from ∷ []) []
        (omega (arith, unexplored-nil g.dependents)) in
    (found, ground arith)

module _ (g : AttributeGraph) (from to : NodeId) where
  pub has_path_sound : has_path g from to ≡ returned true → Reaches g from to
  unfolding has_path edge_count
  has_path_sound h =
      search_path_sound g to from (edge_count g + 1) (from ∷ []) []
        (λ x m. rw (← eq_of_== from x (unfold contains in ground arith)) here) (ground arith)

  Frontier-start : Frontier g to from (from ∷ []) []
  unfolding contains
  Frontier-start = record { source = rw ==-refl; closed = λ u v m e. cc; missed = refl }

  pub has_path_complete : has_path g from to ≡ returned false → ¬ Reaches g from to
  unfolding has_path edge_count
  has_path_complete h =
      search_path_complete g to from (edge_count g + 1) (from ∷ []) [] Frontier-start (ground arith)

  has_path_decides :
      (found : Bool) → has_path g from to ≡ returned found → (found ≡ true) ↔ ∥ Reaches g from to ∥₁
  has_path_decides true h = (λ _. ∣ has_path_sound h ∣₁, λ _. refl)
  has_path_decides false h = (λ e. cc, λ r. absurd (∥∥₁_elim r ⊥_prop (has_path_complete h)))

-- `has_path` answers on every graph, and it answers `true` exactly when a walk along the edges leads
-- from the one node to the other.
pub has_path_correct :
    (g : AttributeGraph) (from to : NodeId)
    → (found : Bool) × (has_path g from to ≡ returned found)
      × ((found ≡ true) ↔ ∥ Reaches g from to ∥₁)
has_path_correct g from to =
    let (found, e) = has_path_returns g from to in (found, e, has_path_decides g from to found e)
