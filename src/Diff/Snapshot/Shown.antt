-- ===== src/Diff/Snapshot/Shown.antt =====
-- What a snapshot has to show of a graph, field by field, from the graph's fields.
use attribute_graph.Common.{
  ◌≡◌, refl, Option, none, some, List, String, Key, contains, sort, IsSorted,
}
use mathlib.Core.Option
use attribute_graph.Common.HashMap
use attribute_graph.Common.HashSet.{HashSet}
use attribute_graph.Common.BTreeMap.{BTreeMap}
use attribute_graph.Common.Sort.{contains-sort, sort-IsSorted}
use attribute_graph.Identity.{NodeId, SubgraphId, node_id_key, subgraph_id_key}
use attribute_graph.Value.{ValueStorage}
use attribute_graph.Value.Bytes.{Endian, Text}
use attribute_graph.Dependency.{sorted_ids}
use attribute_graph.Node.{Node, value_type, active_dependencies}
use attribute_graph.Rule.{RuleDescriptor}
use attribute_graph.Subgraph
use attribute_graph.Graph.State.{AttributeGraph}
use attribute_graph.Graph.Commit.{successors, ids_at}
use attribute_graph.Graph.Propagate.{dependents_at}
use attribute_graph.Diff.Snapshot.{
  ValueSummary, SubgraphSnapshot, NodeSnapshot, bytes_hex, render_value, summary_from_storage,
}
use attribute_graph.Diff.Snapshot.Entries.{kept_node, kept_subgraph}

-- Both are absent, or both are there and related.
abbrev pub Matches : {A B : Type 0} → (A → B → Type 0) → Option A → Option B → Type 0
Matches R none none = Unit {0}
Matches R (some a) none = ⊥
Matches R none (some b) = ⊥
Matches R (some a) (some b) = R a b

pub Matches-map :
    {A B : Type 0} (R : A → B → Type 0) (f : A → B)
    → ((a : A) → R a (f a))
    → (o : Option A) → Matches R o (Option.map f o)
Matches-map R f h none = tt
Matches-map R f h (some a) = h a

-- A list that has a set's members in ascending order.
abbrev pub IsListing : {A : Type 0} ⦃k : Key A⦄ → HashSet A → List A → Type 0
IsListing {A} s l = IsSorted l × ((x : A) → contains l x ≡ contains s x)

sort-IsListing : {A : Type 0} ⦃k : Key A⦄ (s : HashSet A) → IsListing s (sort s)
sort-IsListing s = (sort-IsSorted s, contains-sort s)

sorted_ids-IsListing : (o : Option (HashSet NodeId)) → IsListing (ids_at o) (sorted_ids o)
unfolding sorted_ids
sorted_ids-IsListing none = (tt, λ x. refl)
sorted_ids-IsListing (some ids) = sort-IsListing ids

dependents_at-IsListing :
    (g : AttributeGraph) (id : NodeId) → IsListing (successors g id) (dependents_at g id)
unfolding dependents_at successors
dependents_at-IsListing g id = sorted_ids-IsListing (HashMap.get g.dependents id)

module _ (target : Endian) (debug : Text → String) where
  pub record ShowsValue (value : ValueStorage) (s : ValueSummary) : Type 0 where
    pub value_type : s.value_type ≡ value.value_type.name
    pub rendered : s.rendered ≡ render_value target debug value
    pub bytes_hex : s.bytes_hex ≡ bytes_hex value.bytes
    pub comparison : s.comparison ≡ value.comparison

  module _ (g : AttributeGraph) (node_labels : BTreeMap NodeId String)
      (subgraph_labels : BTreeMap SubgraphId String) where
    pub record ShowsNode (key : NodeId) (node : Node) (n : NodeSnapshot) : Type 0 where
      pub id : n.id ≡ key
      pub label : n.label ≡ HashMap.get node_labels key
      pub subgraph_id : n.subgraph_id ≡ node.subgraph
      pub kind : n.kind ≡ node.kind
      pub state : n.state ≡ node.state
      pub value_type : n.value_type ≡ Option.map (λ t. t.name) (value_type node)
      pub debug_name : n.debug_name ≡ Option.map (λ (r : RuleDescriptor). r.debug_name) node.rule
      pub cached_value : Matches ShowsValue node.value n.cached_value
      pub dependencies : IsListing node.active_dependencies n.dependencies
      pub dependents : IsListing (successors g key) n.dependents

    pub record ShowsSubgraph (key : SubgraphId) (subgraph : Subgraph.Subgraph)
        (s : SubgraphSnapshot) : Type 0 where
      pub id : s.id ≡ key
      pub label : s.label ≡ HashMap.get subgraph_labels key
      pub parent : s.parent ≡ subgraph.parent
      pub children : IsListing subgraph.children s.children
      pub nodes : IsListing subgraph.nodes s.nodes

    pub kept_node-ShowsNode :
        (id : NodeId) (node : Node)
        → ShowsNode id node (kept_node target debug g node_labels subgraph_labels id node)
    unfolding active_dependencies sorted_ids summary_from_storage
    kept_node-ShowsNode id node = record {
      id = refl;
      label = refl;
      subgraph_id = refl;
      kind = refl;
      state = refl;
      value_type = refl;
      debug_name = refl;
      cached_value = Matches-map ShowsValue (summary_from_storage target debug) shown node.value;
      dependencies = sort-IsListing node.active_dependencies;
      dependents = dependents_at-IsListing g id;
    }
      where
        shown : (v : ValueStorage) → ShowsValue v (summary_from_storage target debug v)
        shown v = record { value_type = refl; rendered = refl; bytes_hex = refl; comparison = refl }

    pub kept_subgraph-ShowsSubgraph :
        (id : SubgraphId) (subgraph : Subgraph.Subgraph)
        → ShowsSubgraph id subgraph
            (kept_subgraph target debug g node_labels subgraph_labels id subgraph)
    unfolding Subgraph.children Subgraph.nodes
    kept_subgraph-ShowsSubgraph id subgraph = record {
      id = refl;
      label = refl;
      parent = refl;
      children = sort-IsListing subgraph.children;
      nodes = sort-IsListing subgraph.nodes;
    }
