-- ===== src/Graph/Propagate/Marks.antt =====
-- What marking may do to a graph: it changes the states of nodes, and only edges become pending.
use attribute_graph.Common.{
  ◌≡◌, inl, inr, refl, sym, ap, ◌∙◌, Bool, true, false, ◌||◌, Option, none, some, if◌then◌else◌,
  ◌==◌, contains, is_some, arith, eq_of_==, Option-cases, some_injective,
}
use mathlib.Core.Option
use mathlib.Core.Path.{subst}
use attribute_graph.Common.HashSet
use attribute_graph.Common.HashSet.{HashSet, contains-insert, contains-remove, contains-retain}
use attribute_graph.Common.HashMap
use attribute_graph.Common.HashMap.{HashMap, get-modify, keys-modify}
use attribute_graph.Identity.{NodeId, node_id_key}
use attribute_graph.Dependency.{Edge, edge, edge_key, edge_key_lem}
use attribute_graph.Node.{Node, clean}
use attribute_graph.Graph.State.{AttributeGraph, Frame, frame}
use attribute_graph.Graph.Propagate.{set_state}
use attribute_graph.Graph.Commit.{successors, ids_at}
use attribute_graph.Graph.Invariant.{
  dependencies, dependencies_at, IsEdge, Reaches, here, step, IsShaped, IsWellFormed,
}

-- A node but for its state.
abbrev pub content : Option Node → Option Node
content = Option.map (set_state clean)

pub record Marks (g g' : AttributeGraph) : Type 0 where
  pub framed : frame g' ≡ frame g
  pub linked : g'.dependents ≡ g.dependents
  pub listed : HashMap.keys g'.nodes ≡ HashMap.keys g.nodes
  pub kept : (x : NodeId) → content (HashMap.get g'.nodes x) ≡ content (HashMap.get g.nodes x)
  pub marked :
      (x z : NodeId)
      → contains g'.pending_edges (edge x z) ≡ true
      → (contains g.pending_edges (edge x z) || contains (successors g x) z) ≡ true

pub Marks-refl : (g : AttributeGraph) → Marks g g
Marks-refl g = record {
  framed = refl;
  linked = refl;
  listed = refl;
  kept = λ x. refl;
  marked = λ x z h. rw h;
}

pub Marks-trans : {g h k : AttributeGraph} → Marks g h → Marks h k → Marks g k
unfolding successors
Marks-trans {g} {h} {k} a b = record {
  framed = b.framed ∙ a.framed;
  linked = b.linked ∙ a.linked;
  listed = b.listed ∙ a.listed;
  kept = λ x. b.kept x ∙ a.kept x;
  marked = λ x z m.
      let same =
        ap (λ (d : HashMap NodeId (HashSet NodeId)). contains (ids_at (HashMap.get d x)) z)
          a.linked in
      ground (arith, b.marked x z m, a.marked x z, same);
}

pub Marks-modify :
    (g : AttributeGraph) (d : NodeId) (f : Node → Node)
    → ((n : Node) → set_state clean (f n) ≡ set_state clean n)
    → Marks g (record g { nodes = HashMap.modify g.nodes d f })
Marks-modify g d f same = record {
  framed = refl;
  linked = refl;
  listed = keys-modify g.nodes d f;
  kept = λ x. rw (get-modify g.nodes d f x) (split (HashMap.get g.nodes x) (d == x));
  marked = λ x z h. rw h;
}
  where
    split : (o : Option Node) (b : Bool) → content (if b then Option.map f o else o) ≡ content o
    split none true = refl
    split none false = refl
    split (some n) true = ap some (same n)
    split (some n) false = refl

pub Marks-insert :
    (g : AttributeGraph) (a b : NodeId)
    → IsEdge g a b
    → Marks g (record g { pending_edges = HashSet.insert g.pending_edges (edge a b) })
Marks-insert g a b e = record {
  framed = refl;
  linked = refl;
  listed = refl;
  kept = λ x. refl;
  marked = λ x z h. ground (
    arith,
    contains-insert g.pending_edges (edge a b) (edge x z),
    edge_key_lem a b x z,
    moved x z,
  );
}
  where
    moved : (x z : NodeId) → (a == x) ≡ true → (b == z) ≡ true → IsEdge g x z
    moved x z s t = rw (← eq_of_== a x s, ← eq_of_== b z t) e

pub Marks-remove :
    (g : AttributeGraph) (p : Edge → Bool)
    → Marks g (record g { pending_edges = HashSet.retain p g.pending_edges })
Marks-remove g p = record {
  framed = refl;
  linked = refl;
  listed = refl;
  kept = λ x. refl;
  marked = λ x z h. ground (arith, contains-retain p g.pending_edges (edge x z));
}

module _ {g g' : AttributeGraph} (m : Marks g g') where
  pub successors-marked : (x : NodeId) → successors g' x ≡ successors g x
  unfolding successors
  successors-marked x =
      ap (λ (d : HashMap NodeId (HashSet NodeId)). ids_at (HashMap.get d x)) m.linked

  pub dependencies-marked : (x : NodeId) → dependencies g' x ≡ dependencies g x
  dependencies-marked x =
      sym (unmarked (HashMap.get g'.nodes x))
      ∙ ap dependencies_at (m.kept x)
      ∙ unmarked (HashMap.get g.nodes x)
    where
      unmarked : (o : Option Node) → dependencies_at (content o) ≡ dependencies_at o
      unmarked none = refl
      unmarked (some n) = refl

  pub is_some-marked :
      (x : NodeId) → is_some (HashMap.get g'.nodes x) ≡ is_some (HashMap.get g.nodes x)
  is_some-marked x =
      sym (unmarked (HashMap.get g'.nodes x))
      ∙ ap is_some (m.kept x)
      ∙ unmarked (HashMap.get g.nodes x)
    where
      unmarked : (o : Option Node) → is_some (content o) ≡ is_some o
      unmarked none = refl
      unmarked (some n) = refl

  -- A node of the marked graph stands in the unmarked one, in some state.
  pub node-marked :
      (x : NodeId) (n : Node)
      → HashMap.get g'.nodes x ≡ some n
      → (n0 : Node) × (HashMap.get g.nodes x ≡ some n0) × (set_state clean n ≡ set_state clean n0)
  node-marked x n e = elim (Option-cases (HashMap.get g.nodes x)) [
    | inl absent ↦ absurd (cc (rw (e, absent) at (m.kept x)))
    | inr (n0, found) ↦ (n0, found, some_injective (rw (e, found) at (m.kept x)))
  ]

  IsEdge-marked : (x z : NodeId) → IsEdge g' x z → IsEdge g x z
  IsEdge-marked x z e = rw successors-marked at e

  Reaches-marked : {x z : NodeId} → Reaches g' x z → Reaches g x z
  Reaches-marked here = here
  Reaches-marked (step {y} {z} r e) = step (Reaches-marked r) (IsEdge-marked y z e)

  same_id : g'.id ≡ g.id
  same_id = ap (λ (f : Frame). f.id) m.framed

  same_next : g'.next_node_id ≡ g.next_node_id
  same_next = ap (λ (f : Frame). f.next_node_id) m.framed

  -- Marking keeps a graph well-formed.
  pub Marks-IsWellFormed : IsWellFormed g → IsWellFormed g'
  Marks-IsWellFormed wf = record {
    named = λ x n e.
        let (n0, found, same) = node-marked x n e in
        let ids = wf.named x n0 found in
        (ap (λ (k : Node). k.id) same ∙ ids.0, ids.1 ∙ sym same_id, rw same_next ids.2);
    shaped = λ x n e.
        let (n0, found, same) = node-marked x n e in
        subst IsShaped (sym same) (wf.shaped x n0 found);
    keyed = λ x. rw (m.linked, is_some-marked x) (wf.keyed x);
    mirrored = λ x z. rw (successors-marked x, dependencies-marked z) (wf.mirrored x z);
    pending = λ x z p. rw (successors-marked x) (ground (arith, m.marked x z p, wf.pending x z));
    acyclic = λ x z r. rw (successors-marked z) (wf.acyclic x z (Reaches-marked r));
    tidy = record {
      nodes = rw m.listed wf.tidy.nodes;
      dependents = rw m.linked wf.tidy.dependents;
      reads = λ x. rw (dependencies-marked x) (wf.tidy.reads x);
      edges = λ x. rw (successors-marked x) (wf.tidy.edges x);
    };
  }
