-- ===== src/Graph/Mutate/Detach.antt =====
-- What removing a node leaves of the nodes and edges.
use attribute_graph.Common.{
  ◌≡◌, refl, sym, ap, ◌∙◌, Bool, true, false, not, ◌&&◌, ◌||◌, Option, none, some, List, [], ◌∷◌,
  if◌then◌else◌, ◌==◌, contains, is_some, arith, ==-refl, some_injective,
}
use mathlib.Core.Option
use attribute_graph.Common.HashSet
use attribute_graph.Common.HashSet.{HashSet, contains-remove, contains-retain, contains-nil}
use attribute_graph.Common.HashMap
use attribute_graph.Common.HashMap.{HashMap, get-modify, get-remove}
use attribute_graph.Identity.{NodeId, node_id_key}
use attribute_graph.Dependency.{edge, edge_key}
use attribute_graph.Node.{Node}
use attribute_graph.Graph.State.{AttributeGraph}
use attribute_graph.Graph.Commit.{successors, ids_at}
use attribute_graph.Graph.Mutate.{forget_dependent, forget_dependency, drop_dependency}
use attribute_graph.Graph.Invariant.{dependencies, dependencies_at, IsShaped, IsTidy, IsWellFormed}
use attribute_graph.Graph.Guards.{is_source}
use attribute_graph.Graph.Invariant.Core.{Reaches-map}

-- A node but for its dependencies.
abbrev pub bare : Node → Node
bare n = record n { active_dependencies = [] }

module _ (id : NodeId) where
  remove-ids_at :
      (o : Option (HashSet NodeId)) (b : Bool) (y : NodeId)
      → contains (ids_at (if b then Option.map (λ ids. HashSet.remove ids id) o else o)) y
        ≡ (contains (ids_at o) y && not (b && (y == id)))
  unfolding contains
  remove-ids_at none true y = refl
  remove-ids_at none false y = refl
  remove-ids_at (some ids) true y = ground (arith, contains-remove ids id y)
  remove-ids_at (some ids) false y = ground arith

  pub forget_dependent-ids_at :
      (ds : List NodeId) (m : HashMap NodeId (HashSet NodeId)) (x y : NodeId)
      → contains (ids_at (HashMap.get (forget_dependent id ds m) x)) y
        ≡ (contains (ids_at (HashMap.get m x)) y && not (contains ds x && (y == id)))
  unfolding forget_dependent contains
  forget_dependent-ids_at [] m x y = ground arith
  forget_dependent-ids_at (d ∷ ds) m x y = ground (
    arith,
    forget_dependent-ids_at ds (HashMap.modify m d (λ ids. HashSet.remove ids id)) x y,
    ap (λ (o : Option (HashSet NodeId)). contains (ids_at o) y)
        (get-modify m d (λ ids. HashSet.remove ids id) x),
    remove-ids_at (HashMap.get m x) (d == x) y,
  )

  pub is_some-forget_dependent :
      (ds : List NodeId) (m : HashMap NodeId (HashSet NodeId)) (x : NodeId)
      → is_some (HashMap.get (forget_dependent id ds m) x) ≡ is_some (HashMap.get m x)
  unfolding forget_dependent
  is_some-forget_dependent [] m x = refl
  is_some-forget_dependent (d ∷ ds) m x = ground (
    arith,
    is_some-forget_dependent ds (HashMap.modify m d (λ ids. HashSet.remove ids id)) x,
    get-modify m d (λ ids. HashSet.remove ids id) x,
  )

  drop-dependencies_at :
      (o : Option Node) (b : Bool) (z : NodeId)
      → contains (dependencies_at (if b then Option.map (drop_dependency id) o else o)) z
        ≡ (contains (dependencies_at o) z && not (b && (z == id)))
  unfolding contains
  drop-dependencies_at none true z = refl
  drop-dependencies_at none false z = refl
  drop-dependencies_at (some n) true z = ground (arith, contains-remove n.active_dependencies id z)
  drop-dependencies_at (some n) false z = ground arith

  pub forget_dependency-dependencies_at :
      (ds : List NodeId) (m : HashMap NodeId Node) (x z : NodeId)
      → contains (dependencies_at (HashMap.get (forget_dependency id ds m) x)) z
        ≡ (contains (dependencies_at (HashMap.get m x)) z && not (contains ds x && (z == id)))
  unfolding forget_dependency contains
  forget_dependency-dependencies_at [] m x z = ground arith
  forget_dependency-dependencies_at (d ∷ ds) m x z = ground (
    arith,
    forget_dependency-dependencies_at ds (HashMap.modify m d (drop_dependency id)) x z,
    ap (λ (o : Option Node). contains (dependencies_at o) z)
        (get-modify m d (drop_dependency id) x),
    drop-dependencies_at (HashMap.get m x) (d == x) z,
  )

  bare-drop :
      (o : Option Node) (b : Bool)
      → Option.map bare (if b then Option.map (drop_dependency id) o else o) ≡ Option.map bare o
  bare-drop none true = refl
  bare-drop none false = refl
  bare-drop (some n) true = refl
  bare-drop (some n) false = refl

  pub forget_dependency-bare :
      (ds : List NodeId) (m : HashMap NodeId Node) (x : NodeId)
      → Option.map bare (HashMap.get (forget_dependency id ds m) x)
        ≡ Option.map bare (HashMap.get m x)
  unfolding forget_dependency
  forget_dependency-bare [] m x = refl
  forget_dependency-bare (d ∷ ds) m x =
      forget_dependency-bare ds (HashMap.modify m d (drop_dependency id)) x
      ∙ ap (Option.map bare) (get-modify m d (drop_dependency id) x)
      ∙ bare-drop (HashMap.get m x) (d == x)

-- What a graph `h` without the node `id` has in common with `g`.
pub record Without (id : NodeId) (g h : AttributeGraph) : Type 0 where
  pub owner : (h.id ≡ g.id) × (h.next_node_id ≡ g.next_node_id)
  pub nodes :
      (x : NodeId)
      → Option.map bare (HashMap.get h.nodes x)
        ≡ (if id == x then none else Option.map bare (HashMap.get g.nodes x))
  pub keyed :
      (x : NodeId)
      → is_some (HashMap.get h.dependents x)
        ≡ (not (id == x) && is_some (HashMap.get g.dependents x))
  pub edges :
      (x y : NodeId)
      → contains (successors h x) y ≡ (contains (successors g x) y && not ((id == x) || (id == y)))
  pub reads :
      (y x : NodeId)
      → contains (dependencies h y) x
        ≡ (contains (dependencies g y) x && not ((id == x) || (id == y)))
  pub tidy : IsTidy g → IsTidy h
  pub pending :
      (x y : NodeId)
      → contains h.pending_edges (edge x y)
        ≡ (contains g.pending_edges (edge x y) && not ((id == x) || (id == y)))

nil_of_contains : (l : List NodeId) → ((z : NodeId) → contains l z ≡ false) → l ≡ []
unfolding contains
nil_of_contains [] h = refl
nil_of_contains (x ∷ xs) h = absurd (ground (arith, h x, ==-refl x))

origin_at :
    (o : Option Node) (b : Bool) (n : Node)
    → Option.map bare (some n) ≡ (if b then none else Option.map bare o)
    → (n0 : Node) × (o ≡ some n0) × (bare n ≡ bare n0)
origin_at none true n e = cc
origin_at none false n e = cc
origin_at (some n0) true n e = cc
origin_at (some n0) false n e = (n0, refl, some_injective e)

pub present_at :
    (o o' : Option Node) (b : Bool)
    → Option.map bare o ≡ (if b then none else Option.map bare o')
    → is_some o ≡ (not b && is_some o')
present_at o o' b e = ground arith

module _ {id : NodeId} {g h : AttributeGraph} (w : Without id g h) where
  origin :
      (x : NodeId) (n : Node)
      → HashMap.get h.nodes x ≡ some n
      → (n0 : Node) × (HashMap.get g.nodes x ≡ some n0) × (bare n ≡ bare n0)
  origin x n e =
      origin_at (HashMap.get g.nodes x) (id == x) n (ap (Option.map bare) (sym e) ∙ w.nodes x)

  IsShaped-left :
      (x : NodeId) (n : Node) → HashMap.get h.nodes x ≡ some n → IsWellFormed g → IsShaped n
  IsShaped-left x n e wf =
      let (n0, found, same) = origin x n e in
      let shape = wf.shaped x n0 found in
      let kind = ap (λ (k : Node). is_source k.kind) same in
      (
        λ s. (
          nil_of_contains n.active_dependencies λ z. ground (
            arith,
            ap (λ (o : Option Node). contains (dependencies_at o) z) e,
            ap (λ (o : Option Node). contains (dependencies_at o) z) found,
            ap (λ (l : List NodeId). contains l z) (shape.0 (sym kind ∙ s)).0,
            contains-nil z,
            w.reads x z,
          ),
          ap (λ (k : Node). is_some k.value) same ∙ (shape.0 (sym kind ∙ s)).1,
        ),
        λ d. ap (λ (k : Node). is_some k.rule) same ∙ shape.1 (sym kind ∙ d),
      )

  pub Without-IsWellFormed : IsWellFormed g → IsWellFormed h
  Without-IsWellFormed wf = record {
    named = λ x n e.
        let (n0, found, same) = origin x n e in
        let names = wf.named x n0 found in
        (ap (λ (k : Node). k.id) same ∙ names.0, names.1 ∙ sym w.owner.0, rw w.owner.1 names.2);
    shaped = λ x n e. IsShaped-left x n e wf;
    keyed = λ x. ground (
      arith,
      w.keyed x,
      wf.keyed x,
      present_at (HashMap.get h.nodes x) (HashMap.get g.nodes x) (id == x) (w.nodes x),
    );
    mirrored = λ x y. ground (arith, w.edges x y, w.reads y x, wf.mirrored x y);
    pending = λ x y p. ground (arith, w.pending x y, w.edges x y, wf.pending x y);
    acyclic = λ x y r.
        ground (
          arith,
          w.edges y x,
          wf.acyclic x y (Reaches-map (λ u v e. ground (arith, w.edges u v)) r),
        );
    tidy = w.tidy wf.tidy;
  }
