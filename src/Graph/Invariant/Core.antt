-- ===== src/Graph/Invariant/Core.antt =====
-- What well-formedness depends on, and writes that it does not see.
use attribute_graph.Common.{
  ◌≤◌, ◌≡◌, ◌⊎◌, inl, inr, refl, sym, ap, ◌∙◌, subst, Bool, true, false, Option, none, some,
  if◌then◌else◌, ◌==◌, contains, is_some, arith, Option-cases,
}
use mathlib.Core.Option
use attribute_graph.Common.HashSet.{HashSet}
use attribute_graph.Common.HashMap
use attribute_graph.Common.HashMap.{HashMap, get-modify, keys-modify}
use attribute_graph.Identity.{NodeId, node_id_key}
use attribute_graph.Dependency.{edge_key}
use attribute_graph.Node.{Node}
use attribute_graph.Graph.State.{AttributeGraph}
use attribute_graph.Graph.Guards.{is_source}
use attribute_graph.Graph.Commit.{successors, ids_at}
use attribute_graph.Graph.Invariant.{
  dependencies, dependencies_at, IsEdge, Reaches, here, step, IsShaped, IsWellFormed,
}

-- Walks depend on `dependents` alone.
pub Reaches-of :
    {g h : AttributeGraph}
    → h.dependents ≡ g.dependents
    → {x y : NodeId} → Reaches h x y
    → Reaches g x y
unfolding successors
Reaches-of e here = here
Reaches-of {g} {h} e (step {y} {z} r t) = step (Reaches-of e r) (
    subst (λ (d : HashMap NodeId (HashSet NodeId)). contains (ids_at (HashMap.get d y)) z ≡ true) e
      t)

pub Reaches-map :
    {g h : AttributeGraph}
    → ((y z : NodeId) → IsEdge h y z → IsEdge g y z)
    → {x y : NodeId} → Reaches h x y
    → Reaches g x y
Reaches-map f here = here
Reaches-map f (step {y} {z} r t) = step (Reaches-map f r) (f y z t)

-- The parts of a graph that well-formedness reads.
pub record SameCore (g h : AttributeGraph) : Type 0 where
  pub nodes : h.nodes ≡ g.nodes
  pub dependents : h.dependents ≡ g.dependents
  pub pending : h.pending_edges ≡ g.pending_edges
  pub id : h.id ≡ g.id
  pub next : g.next_node_id ≤ h.next_node_id

pub SameCore-IsWellFormed : {g h : AttributeGraph} → SameCore g h → IsWellFormed g → IsWellFormed h
unfolding successors
SameCore-IsWellFormed {g} {h} c wf = record {
  named = λ x n e.
      let names = wf.named x n (rw c.nodes at e) in
      (names.0, names.1 ∙ sym c.id, omega (arith, names.2, c.next));
  shaped = λ x n e. wf.shaped x n (rw c.nodes at e);
  keyed = λ x. rw (c.nodes, c.dependents) (wf.keyed x);
  mirrored = λ x y. rw (c.nodes, c.dependents) (wf.mirrored x y);
  pending = λ x y e. rw c.dependents (wf.pending x y (rw c.pending at e));
  acyclic = λ x y r. rw c.dependents (wf.acyclic x y (Reaches-of c.dependents r));
  tidy = record {
    nodes = rw c.nodes wf.tidy.nodes;
    dependents = rw c.dependents wf.tidy.dependents;
    reads = λ x. rw c.nodes (wf.tidy.reads x);
    edges = λ x. rw c.dependents (wf.tidy.edges x);
  };
}

-- A write to a node's value and state.
pub record KeepsLinks (f : Node → Node) : Type 0 where
  pub id : (n : Node) → (f n).id ≡ n.id
  pub kind : (n : Node) → (f n).kind ≡ n.kind
  pub rule : (n : Node) → (f n).rule ≡ n.rule
  pub dependencies : (n : Node) → (f n).active_dependencies ≡ n.active_dependencies
  pub value : (n : Node) → is_some n.value ≡ true → is_some (f n).value ≡ true

module _ (g : AttributeGraph) (d : NodeId) (f : Node → Node) (keeps : KeepsLinks f) where
  abbrev written : AttributeGraph
  written = record g { nodes = HashMap.modify g.nodes d f }

  dependencies-written : (x : NodeId) → dependencies written x ≡ dependencies g x
  dependencies-written x = rw (get-modify g.nodes d f x) (split (HashMap.get g.nodes x) (d == x))
    where
      split :
          (o : Option Node) (b : Bool)
          → dependencies_at (if b then Option.map f o else o) ≡ dependencies_at o
      split none true = refl
      split none false = refl
      split (some n) true = keeps.dependencies n
      split (some n) false = refl

  is_some-written :
      (x : NodeId) → is_some (HashMap.get written.nodes x) ≡ is_some (HashMap.get g.nodes x)
  is_some-written x = ground (arith, get-modify g.nodes d f x)

  origin-written :
      (x : NodeId) (n : Node)
      → HashMap.get written.nodes x ≡ some n
      → (n0 : Node) × (HashMap.get g.nodes x ≡ some n0) × ((n ≡ n0) ⊎ (n ≡ f n0))
  origin-written x n e = elim (Option-cases (HashMap.get g.nodes x)) [
    | inl absent ↦ absurd (ground (arith, get-modify g.nodes d f x))
    | inr (n0, found) ↦ (n0, found, ground (arith, get-modify g.nodes d f x))
  ]

  IsShaped-written : (n : Node) → IsShaped n → IsShaped (f n)
  IsShaped-written n s = (
    λ e. (
      keeps.dependencies n ∙ (s.0 (sym (ap is_source (keeps.kind n)) ∙ e)).0,
      keeps.value n (s.0 (sym (ap is_source (keeps.kind n)) ∙ e)).1,
    ),
    λ e. ap is_some (keeps.rule n) ∙ s.1 (sym (ap is_source (keeps.kind n)) ∙ e),
  )

  pub KeepsLinks-IsWellFormed : IsWellFormed g → IsWellFormed written
  unfolding successors
  KeepsLinks-IsWellFormed wf = record {
    named = λ x n e.
        let (n0, found, cases) = origin-written x n e in
        let names = wf.named x n0 found in
        elim cases [
          | inl same ↦ (ap (λ (k : Node). k.id) same ∙ names.0, names.1, names.2)
          | inr same ↦ (ap (λ (k : Node). k.id) same ∙ keeps.id n0 ∙ names.0, names.1, names.2)
        ];
    shaped = λ x n e.
        let (n0, found, cases) = origin-written x n e in
        elim cases [
          | inl same ↦ rw same (wf.shaped x n0 found)
          | inr same ↦ subst IsShaped (sym same) (IsShaped-written n0 (wf.shaped x n0 found))
        ];
    keyed = λ x. wf.keyed x ∙ sym (is_some-written x);
    mirrored = λ x y. rw (dependencies-written y) (wf.mirrored x y);
    pending = wf.pending;
    acyclic = λ x y r. wf.acyclic x y (Reaches-of refl r);
    tidy = record {
      nodes = rw (keys-modify g.nodes d f) wf.tidy.nodes;
      dependents = wf.tidy.dependents;
      reads = λ x. rw (dependencies-written x) (wf.tidy.reads x);
      edges = wf.tidy.edges;
    };
  }

-- The ends of an edge are nodes.
pub ends_present :
    (g : AttributeGraph) (x y : NodeId)
    → IsWellFormed g
    → IsEdge g x y
    → (is_some (HashMap.get g.nodes x) ≡ true) × (is_some (HashMap.get g.nodes y) ≡ true)
unfolding successors contains
ends_present g x y wf e = (
  sym (wf.keyed x) ∙ of_ids (HashMap.get g.dependents x) e,
  of_reads (HashMap.get g.nodes y) (sym (wf.mirrored x y) ∙ e),
)
  where
    of_ids : (o : Option (HashSet NodeId)) → contains (ids_at o) y ≡ true → is_some o ≡ true
    of_ids none m = cc
    of_ids (some s) m = refl

    of_reads : (o : Option Node) → contains (dependencies_at o) x ≡ true → is_some o ≡ true
    of_reads none m = cc
    of_reads (some n) m = refl
