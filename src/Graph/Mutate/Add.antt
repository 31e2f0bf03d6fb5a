-- ===== src/Graph/Mutate/Add.antt =====
-- `add_source` and `add_derived`.
use attribute_graph.Common.{
  ◌+◌, ◌<◌, ◌≡◌, ◌⊎◌, inl, inr, refl, sym, ap, ◌∙◌, subst, Option, none, some, [], if◌then◌else◌,
  ◌==◌, arith, IsDistinct, Bool-cases, Option-cases, some_injective, eq_of_==, ==-cases, ltb,
}
use attribute_graph.Common.HashSet.{HashSet}
use attribute_graph.Common.HashMap
use attribute_graph.Common.HashMap.{HashMap, get-insert}
use attribute_graph.Common.Distinct.{IsDistinct-keys-insert}
use attribute_graph.Identity.{
  NodeId, SubgraphId, node_id_key, subgraph_id_key, u64_bound, checked_increment,
}
use attribute_graph.Dependency.{edge_key}
use attribute_graph.Node.{Node, source, derived, clean, dirty}
use attribute_graph.Value.{ValueStorage}
use attribute_graph.Rule.{RuleDescriptor}
use attribute_graph.Graph.State.{
  AttributeGraph, returned, panicked, Action, pure, update, continue_rule, continue_returned,
  returned_injective, ◌>>=◌, ◌>>◌,
}
use attribute_graph.Graph.Commit.{successors}
use attribute_graph.Graph.Mutate.{
  next_id, current_subgraph, register_node, insert_node, source_node, derived_node, add_source,
  add_derived,
}
use attribute_graph.Graph.Mutate.Owners.{Owned, Owned-same, register_node-Owned}
use mathlib.Core.List
use mathlib.Core.List.{List, ◌∷◌}
use attribute_graph.Graph.Invariant.{dependencies, IsShaped, IsWellFormed}
use attribute_graph.Graph.Invariant.Core.{SameCore-IsWellFormed, Reaches-map}

module _ (g : AttributeGraph) (id : NodeId) (node : Node) (wf : IsWellFormed g)
    (fresh : HashMap.get g.nodes id ≡ none) where
  abbrev grown : AttributeGraph
  grown = insert_node id node g

  no_entry : HashMap.get g.dependents id ≡ none
  no_entry = ground (arith, wf.keyed id)

  default-keys :
      (o : Option (HashSet NodeId))
      → IsDistinct (HashMap.keys g.dependents)
      → IsDistinct (
          HashMap.keys
            (elim o [ none ↦ HashMap.insert g.dependents id [] | some _ ↦ g.dependents ]))
  default-keys none h = IsDistinct-keys-insert g.dependents id [] h
  default-keys (some s) h = h

  nodes-grown :
      (x : NodeId)
      → HashMap.get grown.nodes x ≡ (if id == x then some node else HashMap.get g.nodes x)
  nodes-grown x = get-insert g.nodes id node x

  dependents-grown :
      (x : NodeId)
      → HashMap.get grown.dependents x ≡ (if id == x then some [] else HashMap.get g.dependents x)
  dependents-grown x = ground (arith, no_entry, get-insert g.dependents id [] x)

  successors-grown : (x : NodeId) → successors grown x ≡ successors g x
  unfolding successors
  successors-grown x = ground (arith, dependents-grown x, no_entry, eq_of_== id x)

  dependencies-grown :
      node.active_dependencies ≡ [] → (x : NodeId) → dependencies grown x ≡ dependencies g x
  dependencies-grown bare x = elim (==-cases id x) [
    | inl (same, t) ↦ rw (nodes-grown x, t, ← same, fresh) bare
    | inr t ↦ rw (nodes-grown x, t)
  ]

  pub insert_node-IsWellFormed :
      node.id ≡ id
      → id.graph ≡ g.id
      → id.local < g.next_node_id
      → node.active_dependencies ≡ []
      → IsShaped node
      → IsWellFormed grown
  insert_node-IsWellFormed named owned below bare shaped = record {
    named = λ x n e. elim (==-cases id x) [
      | inl (same, t) ↦ rw (← same) (
        ap (λ (k : Node). k.id) (sym (some_injective (rw (nodes-grown x, t) at e))) ∙ named,
        owned,
        below,
      )
      | inr t ↦ wf.named x n (rw (nodes-grown x, t) at e)
    ];
    shaped = λ x n e. elim (==-cases id x) [
      | inl (same, t) ↦ subst IsShaped (some_injective (rw (nodes-grown x, t) at e)) shaped
      | inr t ↦ wf.shaped x n (rw (nodes-grown x, t) at e)
    ];
    keyed = λ x. ground (arith, nodes-grown x, dependents-grown x, wf.keyed x);
    mirrored = λ x y. rw (successors-grown x, dependencies-grown bare y) (wf.mirrored x y);
    pending = λ x y p. rw (successors-grown x) (wf.pending x y p);
    acyclic = λ x y r.
        rw (successors-grown y)
          (wf.acyclic x y (Reaches-map (λ u v e. rw (successors-grown u) at e) r));
    tidy = record {
      nodes = IsDistinct-keys-insert g.nodes id node wf.tidy.nodes;
      dependents = default-keys (HashMap.get g.dependents id) wf.tidy.dependents;
      reads = λ x. rw (dependencies-grown bare x) (wf.tidy.reads x);
      edges = λ x. rw (successors-grown x) (wf.tidy.edges x);
    };
  }

-- The next id is fresh.
next_id-fresh :
    (g : AttributeGraph)
    → IsWellFormed g
    → HashMap.get g.nodes (record { graph = g.id; local = g.next_node_id }) ≡ none
next_id-fresh g wf =
    elim (Option-cases (HashMap.get g.nodes (record { graph = g.id; local = g.next_node_id }))) [
      | inl absent ↦ absent
      | inr (n, found) ↦
          absurd
            (omega (arith, (wf.named (record { graph = g.id; local = g.next_node_id }) n found).2))
    ]

-- What registering writes.
record Registered (id : NodeId) (g h : AttributeGraph) : Type 0 where
  nodes : h.nodes ≡ g.nodes
  dependents : h.dependents ≡ g.dependents
  pending : h.pending_edges ≡ g.pending_edges
  owner : h.id ≡ g.id
  next : h.next_node_id ≡ g.next_node_id

register_node-Registered :
    (id : NodeId) (g : AttributeGraph) → Registered id g (register_node id g).1
unfolding register_node
register_node-Registered id g = record {
  nodes = ground arith;
  dependents = ground arith;
  pending = ground arith;
  owner = ground arith;
  next = ground arith;
}

-- A registered node is owned by the subgraph under construction.
register_node-owner :
    (id : NodeId) (g : AttributeGraph) (s : Option SubgraphId)
    → (register_node id g).0 ≡ returned s
    → s ≡ current_subgraph g
unfolding register_node
register_node-owner id g s e = ground arith

current_subgraph-head? :
    (g : AttributeGraph) → current_subgraph g ≡ List.head? g.construction_subgraphs
unfolding current_subgraph
current_subgraph-head? g = top g.construction_subgraphs
  where
    top : (l : List SubgraphId) → (elim l [ [] ↦ none | t ∷ _ ↦ some t ]) ≡ List.head? l
    top [] = refl
    top (t ∷ _) = refl

-- Both methods that add a node; `make` builds it from its id and its owner.
abbrev pub add_node : (NodeId → Option SubgraphId → Node) → Action NodeId
add_node make = do
  id ← next_id
  subgraph ← register_node id
  update (insert_node id (make id subgraph))
  pure id

abbrev pub fresh_id : AttributeGraph → NodeId
fresh_id g = record { graph = g.id; local = g.next_node_id }

-- The counter overflows, or the next id is handed out.
next_id_cases :
    (g : AttributeGraph)
    → (next_id g ≡ (panicked, g))
      ⊎ (next_id g ≡ (returned (fresh_id g), record g { next_node_id = g.next_node_id + 1 }))
unfolding next_id checked_increment
next_id_cases g = elim (Bool-cases (ltb (g.next_node_id + 1) u64_bound)) [
  | inl fits ↦ ground arith
  | inr full ↦ ground arith
]

pub record IsNew (make : NodeId → Option SubgraphId → Node) : Type 0 where
  pub named : (id : NodeId) (s : Option SubgraphId) → (make id s).id ≡ id
  pub bare : (id : NodeId) (s : Option SubgraphId) → (make id s).active_dependencies ≡ []
  pub shaped : (id : NodeId) (s : Option SubgraphId) → IsShaped (make id s)

module _ (g : AttributeGraph) (wf : IsWellFormed g) (make : NodeId → Option SubgraphId → Node)
    (new : IsNew make) where
  abbrev counted : AttributeGraph
  counted = record g { next_node_id = g.next_node_id + 1 }

  abbrev registered : AttributeGraph
  registered = (register_node (fresh_id g) counted).1

  reg : Registered (fresh_id g) counted registered
  reg = register_node-Registered (fresh_id g) counted

  registered-IsWellFormed : IsWellFormed registered
  registered-IsWellFormed =
      SameCore-IsWellFormed
        (record {
          nodes = reg.nodes;
          dependents = reg.dependents;
          pending = reg.pending;
          id = reg.owner;
          next = omega (arith, reg.next);
        })
        wf

  inserted-IsWellFormed :
      (s : Option SubgraphId)
      → IsWellFormed (insert_node (fresh_id g) (make (fresh_id g) s) registered)
  inserted-IsWellFormed s =
      insert_node-IsWellFormed registered (fresh_id g) (make (fresh_id g) s) registered-IsWellFormed
        (ap (λ m. HashMap.get m (fresh_id g)) reg.nodes ∙ next_id-fresh g wf)
        (new.named (fresh_id g) s) (sym reg.owner) (omega (arith, reg.next))
        (new.bare (fresh_id g) s) (new.shaped (fresh_id g) s)

  pub add_node-IsWellFormed : IsWellFormed (add_node make g).1
  add_node-IsWellFormed = elim (next_id_cases g) [
    | inl full ↦ rw full wf
    | inr next ↦ rw next (
        continue_rule IsWellFormed (register_node (fresh_id g) counted).0 _ registered
          registered-IsWellFormed (λ s e. inserted-IsWellFormed s))
  ]

  -- What a returned id tells of the graph: it is the next id, its node is the only change, and the
  -- subgraph under construction owns it.
  pub add_node-returned :
      (id : NodeId)
      → (add_node make g).0 ≡ returned id
      → (HashMap.get g.nodes id ≡ none)
        × ((x : NodeId)
            → HashMap.get (add_node make g).1.nodes x ≡ (
                if id == x
                then some (make id (List.head? g.construction_subgraphs))
                else HashMap.get g.nodes x))
        × Owned (List.head? g.construction_subgraphs) id g (add_node make g).1
  add_node-returned id e = elim (next_id_cases g) [
    | inl full ↦ cc (rw full at e)
    | inr next ↦
        let (s, registers, ends) =
          continue_returned (register_node (fresh_id g) counted).0 _ registered id (rw next at e) in
        let same = returned_injective ends in
        let owner : s ≡ List.head? g.construction_subgraphs =
          register_node-owner (fresh_id g) counted s registers ∙ current_subgraph-head? counted in
        rw (next, ← same)
          (
            next_id-fresh g wf,
            λ x.
                rw (registers, ← owner)
                  (get-insert registered.nodes (fresh_id g) (make (fresh_id g) s) x
                    ∙ rw reg.nodes refl),
            rw (registers, ← current_subgraph-head? counted)
                (Owned-same refl refl (register_node-Owned (fresh_id g) counted s registers)),
          )
  ]

source-IsNew : (value : ValueStorage) → IsNew (λ id s. source_node id s value)
source-IsNew value = record {
  named = λ id s. refl;
  bare = λ id s. refl;
  shaped = λ id s. (λ _. (refl, refl), λ e. cc);
}

derived-IsNew : (rule : RuleDescriptor) → IsNew (λ id s. derived_node id s rule)
derived-IsNew rule = record {
  named = λ id s. refl;
  bare = λ id s. refl;
  shaped = λ id s. (λ e. cc, λ _. refl);
}

-- Adding a source or a derived node keeps a well-formed graph well-formed. If an id is returned, the
-- graph had no node under it before, and afterwards its nodes are the old ones with, under that id, a
-- clean source that holds the value or a dirty derived node with the rule. The node names the subgraph on
-- top of the construction stack as its owner, which lists it; the subgraphs are the old ones else.
pub add-IsWellFormed :
    (g : AttributeGraph) (value : ValueStorage) (rule : RuleDescriptor)
    → IsWellFormed g
    → IsWellFormed (add_source value g).1
      × IsWellFormed (add_derived rule g).1
      × ((id : NodeId)
          → (add_source value g).0 ≡ returned id
          → (HashMap.get g.nodes id ≡ none)
            × ((x : NodeId)
                → HashMap.get (add_source value g).1.nodes x ≡ (
                    if id == x
                    then some (record {
                      id = id;
                      subgraph = List.head? g.construction_subgraphs;
                      kind = source;
                      state = clean;
                      value = some value;
                      active_dependencies = [];
                      rule = none;
                    })
                    else HashMap.get g.nodes x))
            × Owned (List.head? g.construction_subgraphs) id g (add_source value g).1)
      × ((id : NodeId)
          → (add_derived rule g).0 ≡ returned id
          → (HashMap.get g.nodes id ≡ none)
            × ((x : NodeId)
                → HashMap.get (add_derived rule g).1.nodes x ≡ (
                    if id == x
                    then some (record {
                      id = id;
                      subgraph = List.head? g.construction_subgraphs;
                      kind = derived;
                      state = dirty;
                      value = none;
                      active_dependencies = [];
                      rule = some rule;
                    })
                    else HashMap.get g.nodes x))
            × Owned (List.head? g.construction_subgraphs) id g (add_derived rule g).1)
unfolding add_source add_derived
add-IsWellFormed g value rule wf = (
  add_node-IsWellFormed g wf _ (source-IsNew value),
  add_node-IsWellFormed g wf _ (derived-IsNew rule),
  add_node-returned g wf _ (source-IsNew value),
  add_node-returned g wf _ (derived-IsNew rule),
)
