-- ===== src/Graph/Mutate/Remove.antt =====
-- Removing a node.
use attribute_graph.Common.{
  ◌≡◌, inl, inr, refl, sym, ap, ◌∙◌, Bool, true, false, not, ◌&&◌, ◌||◌, Option, none, some, List,
  [], ◌∷◌, if◌then◌else◌, ◌==◌, contains, is_some, arith, IsDistinct, Option-cases, ==-comm,
  ==-cases, eq_of_==,
}
use mathlib.Core.Option
use attribute_graph.Common.HashSet
use attribute_graph.Common.HashSet.{HashSet, contains-retain, contains-nil}
use attribute_graph.Common.HashMap
use attribute_graph.Common.HashMap.{HashMap, get-remove, get-modify, keys-modify}
use attribute_graph.Common.Distinct.{IsDistinct-remove, IsDistinct-keys-remove}
use attribute_graph.Identity.{NodeId, SubgraphId, node_id_key}
use attribute_graph.Dependency.{Edge, edge, edge_key}
use attribute_graph.Node.{Node}
use attribute_graph.Graph.State.{AttributeGraph}
use attribute_graph.Graph.Commit.{successors, ids_at}
use attribute_graph.Graph.Mutate.{
  release_from_subgraph, forget_dependent, forget_dependency, touches, detach_dependents,
  drop_dependency, detach_node,
}
use attribute_graph.Graph.Mutate.Detach.{
  bare, Without, forget_dependent-ids_at, is_some-forget_dependent,
  forget_dependency-dependencies_at, forget_dependency-bare,
}
use attribute_graph.Graph.Invariant.{dependencies, dependencies_at, here, IsTidy, IsWellFormed}
use attribute_graph.Graph.Invariant.Tidy.{IsTidyMap, forget-IsTidyMap, remove-IsTidyMap}

ids_at-if :
    (b : Bool) (o : Option (HashSet NodeId)) (y : NodeId)
    → contains (ids_at (if b then none else o)) y ≡ (not b && contains (ids_at o) y)
unfolding contains
ids_at-if true o y = refl
ids_at-if false o y = refl

dependencies_at-if :
    (b : Bool) (o : Option Node) (y : NodeId)
    → contains (dependencies_at (if b then none else o)) y
      ≡ (not b && contains (dependencies_at o) y)
unfolding contains
dependencies_at-if true o y = refl
dependencies_at-if false o y = refl

bare-if :
    (b : Bool) (o : Option Node)
    → Option.map bare (if b then none else o) ≡ (if b then none else Option.map bare o)
bare-if true o = refl
bare-if false o = refl

forget_dependent-IsTidyMap :
    (id : NodeId) (ds : List NodeId) (m : HashMap NodeId (HashSet NodeId))
    → IsTidyMap m
    → IsTidyMap (forget_dependent id ds m)
unfolding forget_dependent
forget_dependent-IsTidyMap id [] m t = t
forget_dependent-IsTidyMap id (d ∷ ds) m t =
    forget_dependent-IsTidyMap id ds (HashMap.modify m d (λ ids. HashSet.remove ids id))
      (forget-IsTidyMap m d id t)

keys-forget_dependency :
    (id : NodeId) (ds : List NodeId) (m : HashMap NodeId Node)
    → HashMap.keys (forget_dependency id ds m) ≡ HashMap.keys m
unfolding forget_dependency
keys-forget_dependency id [] m = refl
keys-forget_dependency id (d ∷ ds) m =
    keys-forget_dependency id ds (HashMap.modify m d (drop_dependency id))
    ∙ keys-modify m d (drop_dependency id)

forget_dependency-distinct :
    (id : NodeId) (ds : List NodeId) (m : HashMap NodeId Node)
    → ((x : NodeId) → IsDistinct (dependencies_at (HashMap.get m x)))
    → (x : NodeId) → IsDistinct (dependencies_at (HashMap.get (forget_dependency id ds m) x))
unfolding forget_dependency
forget_dependency-distinct id [] m h = h
forget_dependency-distinct id (d ∷ ds) m h =
    forget_dependency-distinct id ds (HashMap.modify m d (drop_dependency id))
      λ x. rw (get-modify m d (drop_dependency id) x) (drop (HashMap.get m x) (d == x) (h x))
  where
    drop :
        (o : Option Node) (b : Bool)
        → IsDistinct (dependencies_at o)
        → IsDistinct (dependencies_at (if b then Option.map (drop_dependency id) o else o))
    drop none true k = tt
    drop none false k = tt
    drop (some n) true k = IsDistinct-remove n.active_dependencies id k
    drop (some n) false k = k

detach_dependents_fields :
    (id : NodeId) (g : AttributeGraph) (ds : HashSet NodeId)
    → HashMap.get g.dependents id ≡ some ds
    → (detach_dependents id g) ≡ record g {
      dependents = HashMap.remove g.dependents id;
      nodes = forget_dependency id ds g.nodes;
    }
detach_dependents_fields id g ds e = rw (e, detach_dependents) refl

release_dependents :
    (id : NodeId) (o : Option SubgraphId) (g : AttributeGraph)
    → ((release_from_subgraph id o g).id ≡ g.id)
      × ((release_from_subgraph id o g).next_node_id ≡ g.next_node_id)
      × ((release_from_subgraph id o g).nodes ≡ g.nodes)
      × ((release_from_subgraph id o g).dependents ≡ g.dependents)
      × ((release_from_subgraph id o g).pending_edges ≡ g.pending_edges)
release_dependents id none g = (refl, refl, refl, refl, refl)
release_dependents id (some s) g = (refl, refl, refl, refl, refl)

module _ (g : AttributeGraph) (id : NodeId) (node : Node) where
  abbrev undepended : HashMap NodeId (HashSet NodeId)
  undepended = forget_dependent id node.active_dependencies g.dependents

  abbrev left : AttributeGraph
  left = detach_node node id g

  left_fields :
      (ds : HashSet NodeId)
      → HashMap.get undepended id ≡ some ds
      → (left.id ≡ g.id)
        × (left.next_node_id ≡ g.next_node_id)
        × (left.nodes ≡ forget_dependency id ds (HashMap.remove g.nodes id))
        × (left.dependents ≡ HashMap.remove undepended id)
        × (left.pending_edges ≡ HashSet.retain (λ e. not (touches id e)) g.pending_edges)
  unfolding detach_node
  left_fields ds e =
      let g1 =
        release_from_subgraph id node.subgraph (record g { nodes = HashMap.remove g.nodes id }) in
      let r =
        release_dependents id node.subgraph (record g { nodes = HashMap.remove g.nodes id }) in
      let g2 = record g1 {
        dependents = forget_dependent id node.active_dependencies g1.dependents;
      } in
      let d = detach_dependents_fields id g2 ds (
        ap
          (λ (m : HashMap NodeId (HashSet NodeId)).
            HashMap.get (forget_dependent id node.active_dependencies m) id)
          r.3
        ∙ e) in
      (
        ap (λ (k : AttributeGraph). k.id) d ∙ r.0,
        ap (λ (k : AttributeGraph). k.next_node_id) d ∙ r.1,
        ap (λ (k : AttributeGraph). k.nodes) d ∙ ap (forget_dependency id ds) r.2,
        ap (λ (k : AttributeGraph). k.dependents) d
            ∙ ap
                (λ (m : HashMap NodeId (HashSet NodeId)).
                  HashMap.remove (forget_dependent id node.active_dependencies m) id)
                r.3,
        ap
              (λ (k : AttributeGraph).
                HashSet.retain (λ (e : Edge). not (touches id e)) k.pending_edges)
              d
            ∙ ap (HashSet.retain (λ (e : Edge). not (touches id e))) r.4,
      )

  module _ (wf : IsWellFormed g) (found : HashMap.get g.nodes id ≡ some node) where
    removed-distinct :
        IsTidy g
        → (x : NodeId) → IsDistinct (dependencies_at (HashMap.get (HashMap.remove g.nodes id) x))
    removed-distinct t x = elim (==-cases id x) [
      | inl (same, b) ↦ rw (get-remove g.nodes id x, b) tt
      | inr b ↦ rw (get-remove g.nodes id x, b) (t.reads x)
    ]

    unlooped : contains (successors g id) id ≡ false
    unlooped = wf.acyclic id id here

    own_reads : (x : NodeId) → contains node.active_dependencies x ≡ contains (successors g x) id
    own_reads x =
        sym (ap (λ (o : Option Node). contains (dependencies_at o) x) found)
        ∙ sym (wf.mirrored x id)

    dependents_found : (ds : HashSet NodeId) × (HashMap.get undepended id ≡ some ds)
    dependents_found = elim (Option-cases (HashMap.get undepended id)) [
      | inl absent ↦ absurd (
          ground (
            arith,
            is_some-forget_dependent id node.active_dependencies g.dependents id,
            wf.keyed id,
          ))
      | inr present ↦ present
    ]

    abbrev ds : HashSet NodeId
    ds = dependents_found.0

    abbrev fields :
        (left.id ≡ g.id)
        × (left.next_node_id ≡ g.next_node_id)
        × (left.nodes ≡ forget_dependency id ds (HashMap.remove g.nodes id))
        × (left.dependents ≡ HashMap.remove undepended id)
        × (left.pending_edges ≡ HashSet.retain (λ e. not (touches id e)) g.pending_edges)
    fields = left_fields ds dependents_found.1

    undepended-edges :
        (x y : NodeId)
        → contains (ids_at (HashMap.get undepended x)) y
          ≡ (contains (successors g x) y && not (id == y))
    unfolding successors
    undepended-edges x y = ground (
      arith,
      forget_dependent-ids_at id node.active_dependencies g.dependents x y,
      own_reads x,
      ==-comm id y,
      ap (λ (z : NodeId). contains (ids_at (HashMap.get g.dependents x)) z) {x = id} {y = y},
      eq_of_== id y,
    )

    ds-edges : (y : NodeId) → contains ds y ≡ (contains (successors g id) y && not (id == y))
    ds-edges y =
        sym (ap (λ (o : Option (HashSet NodeId)). contains (ids_at o) y) dependents_found.1)
        ∙ undepended-edges id y

    left-successors :
        ((x : NodeId) → IsDistinct (ids_at (HashMap.get (HashMap.remove undepended id) x)))
        → (x : NodeId) → IsDistinct (successors left x)
    unfolding successors
    left-successors h x = rw fields.3 (h x)

    left-edges :
        (x y : NodeId)
        → contains (successors left x) y
          ≡ (contains (successors g x) y && not ((id == x) || (id == y)))
    unfolding successors
    left-edges x y = ground (
      arith,
      ap (λ (m : HashMap NodeId (HashSet NodeId)). contains (ids_at (HashMap.get m x)) y) fields.3,
      ap (λ (o : Option (HashSet NodeId)). contains (ids_at o) y) (get-remove undepended id x),
      ids_at-if (id == x) (HashMap.get undepended x) y,
      undepended-edges x y,
    )

    left-reads :
        (y x : NodeId)
        → contains (dependencies left y) x
          ≡ (contains (dependencies g y) x && not ((id == x) || (id == y)))
    left-reads y x = ground (
      arith,
      ap (λ (m : HashMap NodeId Node). contains (dependencies_at (HashMap.get m y)) x) fields.2,
      forget_dependency-dependencies_at id ds (HashMap.remove g.nodes id) y x,
      ap (λ (o : Option Node). contains (dependencies_at o) x) (get-remove g.nodes id y),
      dependencies_at-if (id == y) (HashMap.get g.nodes y) x,
      ds-edges y,
      wf.mirrored id y,
      ap (λ (z : NodeId). contains (dependencies g y) z) {x = x} {y = id},
      eq_of_== x id,
      ==-comm id x,
    )

    left-IsTidy : IsTidy g → IsTidy left
    unfolding HashMap.get successors
    left-IsTidy t =
        let map = remove-IsTidyMap undepended id (
          forget_dependent-IsTidyMap id node.active_dependencies g.dependents
            (record { keys = t.dependents; sets = t.edges })) in
        record {
          nodes =
              rw (fields.2, keys-forget_dependency id ds (HashMap.remove g.nodes id))
                (IsDistinct-keys-remove g.nodes id t.nodes);
          dependents = rw fields.3 map.keys;
          reads = λ x.
              rw fields.2 (
                forget_dependency-distinct id ds (HashMap.remove g.nodes id) (removed-distinct t)
                  x);
          edges = left-successors map.sets;
        }

    pub detach_node-Without : Without id g left
    detach_node-Without = record {
      owner = (fields.0, fields.1);
      nodes = λ x.
          ap (λ (m : HashMap NodeId Node). Option.map bare (HashMap.get m x)) fields.2
          ∙ forget_dependency-bare id ds (HashMap.remove g.nodes id) x
          ∙ ap (Option.map bare) (get-remove g.nodes id x)
          ∙ bare-if (id == x) (HashMap.get g.nodes x);
      keyed = λ x. ground (
        arith,
        ap (λ (m : HashMap NodeId (HashSet NodeId)). is_some (HashMap.get m x)) fields.3,
        get-remove undepended id x,
        is_some-forget_dependent id node.active_dependencies g.dependents x,
      );
      edges = left-edges;
      tidy = left-IsTidy;
      reads = left-reads;
      pending = λ x y. ground (
        arith,
        ap (λ (s : HashSet Edge). contains s (edge x y)) fields.4,
        contains-retain (λ e. not (touches id e)) g.pending_edges (edge x y),
        ==-comm id x,
        ==-comm id y,
      );
    }
