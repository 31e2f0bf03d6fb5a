-- ===== src/Graph/Mutate/Owners.antt =====
-- Which nodes the subgraphs own, and what adding and removing a node does to that.
use attribute_graph.Common.{
  ◌≡◌, refl, ap, ◌∙◌, Bool, true, false, not, ◌&&◌, ◌||◌, Option, none, some, List, [],
  if◌then◌else◌, ◌==◌, contains, arith, ==-comm, eq_of_==, is_some, sym, Option-cases, inl, inr,
}
use mathlib.Core.Option
use attribute_graph.Common.HashSet.{contains-insert, contains-remove, contains-nil}
use attribute_graph.Common.HashMap
use attribute_graph.Common.HashMap.{get-modify}
use attribute_graph.Identity.{NodeId, SubgraphId, node_id_key, subgraph_id_key}
use attribute_graph.Subgraph.{Subgraph}
use attribute_graph.Node.{Node}
use attribute_graph.Graph.State.{AttributeGraph, returned}
use attribute_graph.Graph.Mutate.{
  disown_node, own_node, release_from_subgraph, detach_dependents, detach_node, forget_dependent,
  register_node, current_subgraph,
}

abbrev nodes_of : Option Subgraph → List NodeId
nodes_of none = []
nodes_of (some s) = s.nodes

-- The nodes that a subgraph lists as its own.
abbrev pub owned : AttributeGraph → SubgraphId → List NodeId
owned g s = nodes_of (HashMap.get g.subgraphs s)

-- A subgraph but for its nodes.
abbrev pub unowned : Subgraph → Subgraph
unowned s = record s { nodes = [] }

abbrev pub is_owner : Option SubgraphId → SubgraphId → Bool
is_owner none s = false
is_owner (some owner) s = owner == s

-- The owner no longer lists the node; the subgraphs of `h` are else those of `g`.
pub record Disowned (owner : Option SubgraphId) (id : NodeId) (g h : AttributeGraph) : Type 0 where
  pub others :
      (s : SubgraphId)
      → Option.map unowned (HashMap.get h.subgraphs s)
        ≡ Option.map unowned (HashMap.get g.subgraphs s)
  pub nodes :
      (s : SubgraphId) (x : NodeId)
      → contains (owned h s) x ≡ (contains (owned g s) x && not (is_owner owner s && (id == x)))

-- The owner lists the node as well; the subgraphs of `h` are else those of `g`.
pub record Owned (owner : Option SubgraphId) (id : NodeId) (g h : AttributeGraph) : Type 0 where
  pub others :
      (s : SubgraphId)
      → Option.map unowned (HashMap.get h.subgraphs s)
        ≡ Option.map unowned (HashMap.get g.subgraphs s)
  pub nodes :
      (s : SubgraphId) (x : NodeId)
      → contains (owned h s) x ≡ (contains (owned g s) x || (is_owner owner s && (id == x)))

unowned-if :
    (f : Subgraph → Subgraph)
    → ((s : Subgraph) → unowned (f s) ≡ unowned s)
    → (b : Bool) (o : Option Subgraph)
    → Option.map unowned (if b then Option.map f o else o) ≡ Option.map unowned o
unowned-if f same false o = refl
unowned-if f same true none = refl
unowned-if f same true (some s) = ap some (same s)

disowned-if :
    (id x : NodeId) (b : Bool) (o : Option Subgraph)
    → contains (nodes_of (if b then Option.map (disown_node id) o else o)) x
      ≡ (contains (nodes_of o) x && not (b && (id == x)))
disowned-if id x false none = ground (arith, contains-nil x)
disowned-if id x true none = ground (arith, contains-nil x)
disowned-if id x false (some s) = ground arith
disowned-if id x true (some s) = ground (arith, contains-remove s.nodes id x, ==-comm x id)

owned-if :
    (id x : NodeId) (b : Bool) (o : Option Subgraph)
    → (b ≡ true → is_some o ≡ true)
    → contains (nodes_of (if b then Option.map (own_node id) o else o)) x
      ≡ (contains (nodes_of o) x || (b && (id == x)))
owned-if id x true none h = cc (h refl)
owned-if id x false none h = ground arith
owned-if id x false (some s) h = ground arith
owned-if id x true (some s) h = ground (arith, contains-insert s.nodes id x)

-- Only the subgraphs matter.
pub Disowned-same :
    {owner : Option SubgraphId} {id : NodeId} {g g' h h' : AttributeGraph}
    → g'.subgraphs ≡ g.subgraphs
    → h'.subgraphs ≡ h.subgraphs
    → Disowned owner id g h
    → Disowned owner id g' h'
Disowned-same a b w = record {
  others = λ s. rw (a, b) (w.others s);
  nodes = λ s x. rw (a, b) (w.nodes s x);
}

pub Owned-same :
    {owner : Option SubgraphId} {id : NodeId} {g g' h h' : AttributeGraph}
    → g'.subgraphs ≡ g.subgraphs
    → h'.subgraphs ≡ h.subgraphs
    → Owned owner id g h
    → Owned owner id g' h'
Owned-same a b w = record {
  others = λ s. rw (a, b) (w.others s);
  nodes = λ s x. rw (a, b) (w.nodes s x);
}

detach_dependents_subgraphs :
    (id : NodeId) (g : AttributeGraph) → (detach_dependents id g).subgraphs ≡ g.subgraphs
detach_dependents_subgraphs id g = elim (Option-cases (HashMap.get g.dependents id)) [
  | inl none_left ↦ rw (none_left, detach_dependents) refl
  | inr (ids, found) ↦ rw (found, detach_dependents) refl
]

release-Disowned :
    (id : NodeId) (owner : Option SubgraphId) (g : AttributeGraph)
    → Disowned owner id g (release_from_subgraph id owner g)
release-Disowned id none g = record { others = λ s. refl; nodes = λ s x. ground arith }
release-Disowned id (some owner) g = record {
  others = λ s.
      ap (Option.map unowned) (get-modify g.subgraphs owner (disown_node id) s)
      ∙ unowned-if (disown_node id) (λ t. refl) (owner == s) (HashMap.get g.subgraphs s);
  nodes = λ s x.
      ap (λ (o : Option Subgraph). contains (nodes_of o) x)
        (get-modify g.subgraphs owner (disown_node id) s)
      ∙ disowned-if id x (owner == s) (HashMap.get g.subgraphs s);
}

-- The steps behind the release leave the subgraphs alone.
pub detach_node-Disowned :
    (node : Node) (id : NodeId) (g : AttributeGraph)
    → Disowned node.subgraph id g (detach_node node id g)
unfolding detach_node
detach_node-Disowned node id g =
    let taken = record g { nodes = HashMap.remove g.nodes id } in
    let released = release-Disowned id node.subgraph taken in
    Disowned-same refl
      (detach_dependents_subgraphs id (record (release_from_subgraph id node.subgraph taken) {
        dependents =
            forget_dependent id node.active_dependencies
              (release_from_subgraph id node.subgraph taken).dependents;
      }))
      released

detach_dependents_stack :
    (id : NodeId) (g : AttributeGraph)
    → (detach_dependents id g).construction_subgraphs ≡ g.construction_subgraphs
detach_dependents_stack id g = elim (Option-cases (HashMap.get g.dependents id)) [
  | inl none_left ↦ rw (none_left, detach_dependents) refl
  | inr (ids, found) ↦ rw (found, detach_dependents) refl
]

release_stack :
    (id : NodeId) (owner : Option SubgraphId) (g : AttributeGraph)
    → (release_from_subgraph id owner g).construction_subgraphs ≡ g.construction_subgraphs
release_stack id none g = refl
release_stack id (some owner) g = refl

pub detach_node_stack :
    (node : Node) (id : NodeId) (g : AttributeGraph)
    → (detach_node node id g).construction_subgraphs ≡ g.construction_subgraphs
unfolding detach_node
detach_node_stack node id g =
    let taken = record g { nodes = HashMap.remove g.nodes id } in
    detach_dependents_stack id (record (release_from_subgraph id node.subgraph taken) {
      dependents =
          forget_dependent id node.active_dependencies
            (release_from_subgraph id node.subgraph taken).dependents;
    })
    ∙ release_stack id node.subgraph taken

pub register_node-Owned :
    (id : NodeId) (g : AttributeGraph) (s : Option SubgraphId)
    → (register_node id g).0 ≡ returned s
    → Owned (current_subgraph g) id g (register_node id g).1
unfolding register_node
register_node-Owned id g s e = elim (Option-cases (current_subgraph g)) [
  | inl outside ↦
      rw (outside, register_node) (record { others = λ s'. refl; nodes = λ s' x. ground arith })
  | inr (top, inside) ↦ elim (Option-cases (HashMap.get g.subgraphs top)) [
    | inl missing ↦ cc (rw (inside, register_node, missing) at e)
    | inr (owner, found) ↦
        rw (inside, register_node, found)
          (record {
            others = λ s'.
                ap (Option.map unowned) (get-modify g.subgraphs top (own_node id) s')
                ∙ unowned-if (own_node id) (λ t. refl) (top == s') (HashMap.get g.subgraphs s');
            nodes = λ s' x.
                ap (λ (o : Option Subgraph). contains (nodes_of o) x)
                  (get-modify g.subgraphs top (own_node id) s')
                ∙ owned-if id x (top == s') (HashMap.get g.subgraphs s') λ t.
                  ap (λ y. is_some (HashMap.get g.subgraphs y)) (sym (eq_of_== top s' t))
                  ∙ ap is_some found;
          })
  ]
]
