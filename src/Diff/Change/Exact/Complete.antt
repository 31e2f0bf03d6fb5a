-- ===== src/Diff/Change/Exact/Complete.antt =====
-- Each change is one that `between` lists.
use attribute_graph.Common.{
  ◌≡◌, ◌≢◌, ◌↔◌, inl, inr, refl, sym, ◌∙◌, subst, Bool, true, false, Option, none, some, List, [],
  ◌∷◌, ◌++◌, Key, if◌then◌else◌, some_injective,
}
use mathlib.Core.Option
use mathlib.Core.List.Memᴰ
use mathlib.Core.List.{Memᴰ}
use attribute_graph.Common.HashMap
use attribute_graph.Common.BTreeMap.{BTreeMap, mem_of_get}
use attribute_graph.Identity.{NodeId, node_id_key, subgraph_id_key}
use attribute_graph.Dependency.{Edge, edge_key, EdgeState}
use attribute_graph.Node.{NodeState}
use attribute_graph.Diff.Snapshot.{GraphSnapshot, NodeSnapshot, ValueSummary}
use attribute_graph.Diff.Change.{
  GraphChange, subgraph_added, subgraph_removed, node_added, node_removed, node_state_changed,
  node_value_changed, edge_added, edge_removed, edge_state_changed, node_state_eqb, edge_state_eqb,
  cached_value_eqb, diff_node, for_entries, removed_node, removed_subgraph, added_subgraph,
  changed_node, changed_edge, added_edge, changes_between, between,
}
use attribute_graph.Diff.Change.Exact.{
  node_state_eqb_iff, edge_state_eqb_iff, cached_value_eqb_iff, IsIndexed, IsChange,
}
use attribute_graph.Diff.Change.Exact.Sound.{changes_sound}

module _ {K V : Type 0} ⦃k : Key K⦄ (body : K → V → List GraphChange) {c : GraphChange} where
  mem_of_entry :
      (m : BTreeMap K V) (key : K) (value : V)
      → Memᴰ (key, value) m
      → Memᴰ c (body key value)
      → Memᴰ c (for_entries body m)
  unfolding for_entries
  mem_of_entry [] key value at e = absurd (Memᴰ.not-nil at)
  mem_of_entry ((j, w) ∷ m) key value at e = elim (Memᴰ.cases_cons at) [
    | inl same ↦
        Memᴰ.append_left (for_entries body m) (subst (λ (p : K × V). Memᴰ c (body p.0 p.1)) same e)
    | inr later ↦ Memᴰ.append_right (body j w) (mem_of_entry m key value later e)
  ]

changed : {A : Type 0} (b : Bool) → ¬ A → (b ≡ true → A) → b ≡ false
changed true n f = absurd (n (f refl))
changed false n f = refl

origin_of_map :
    {A B : Type 0} (f : A → B) (o : Option A) {y : B}
    → Option.map f o ≡ some y
    → (x : A) × (o ≡ some x) × (f x ≡ y)
origin_of_map f none e = cc
origin_of_map f (some x) e = (x, refl, some_injective e)

in_states :
    (id : NodeId) (m n : NodeSnapshot) {old new : NodeState}
    → n.id ≡ id
    → m.state ≡ old
    → n.state ≡ new
    → old ≢ new
    → Memᴰ (node_state_changed id old new) (diff_node m n)
unfolding diff_node
in_states id m n named was is other =
    let differ =
      changed (node_state_eqb m.state n.state) (λ e. other (sym was ∙ e ∙ is))
        (node_state_eqb_iff m.state n.state).0 in
    Memᴰ.append_left
      {s = if node_state_eqb m.state n.state
        then []
        else node_state_changed n.id m.state n.state ∷ []}
      _ (rw differ (Memᴰ.head (same named was is)))
  where
    same :
        {id : NodeId} {old new : NodeState}
        → n.id ≡ id
        → m.state ≡ old
        → n.state ≡ new
        → node_state_changed id old new ≡ node_state_changed n.id m.state n.state
    same p q r = cc

in_values :
    (id : NodeId) (m n : NodeSnapshot) {old new : Option ValueSummary}
    → n.id ≡ id
    → m.cached_value ≡ old
    → n.cached_value ≡ new
    → old ≢ new
    → Memᴰ (node_value_changed id old new) (diff_node m n)
unfolding diff_node
in_values id m n named was is other =
    let differ =
      changed (cached_value_eqb m.cached_value n.cached_value) (λ e. other (sym was ∙ e ∙ is))
        (cached_value_eqb_iff m.cached_value n.cached_value).0 in
    Memᴰ.append_right _
      {t = if cached_value_eqb m.cached_value n.cached_value
        then []
        else node_value_changed n.id m.cached_value n.cached_value ∷ []}
      (rw differ (Memᴰ.head (same named was is)))
  where
    same :
        {id : NodeId} {old new : Option ValueSummary}
        → n.id ≡ id
        → m.cached_value ≡ old
        → n.cached_value ≡ new
        → node_value_changed id old new ≡ node_value_changed n.id m.cached_value n.cached_value
    same p q r = cc

module _ (b a : GraphSnapshot) (ib : IsIndexed b) (ia : IsIndexed a) where
  module _ {c : GraphChange} where
    in_removed_nodes :
        Memᴰ c (for_entries (removed_node b a) b.nodes) → Memᴰ c (changes_between b a)
    unfolding changes_between
    in_removed_nodes m = Memᴰ.append_left _ m

    in_removed_subgraphs :
        Memᴰ c (for_entries (removed_subgraph b a) b.subgraphs) → Memᴰ c (changes_between b a)
    unfolding changes_between
    in_removed_subgraphs m =
        Memᴰ.append_right (for_entries (removed_node b a) b.nodes) (Memᴰ.append_left _ m)

    in_added_subgraphs :
        Memᴰ c (for_entries (added_subgraph b a) a.subgraphs) → Memᴰ c (changes_between b a)
    unfolding changes_between
    in_added_subgraphs m =
        Memᴰ.append_right (for_entries (removed_node b a) b.nodes) (
          Memᴰ.append_right (for_entries (removed_subgraph b a) b.subgraphs) (Memᴰ.append_left _ m))

    after_subgraphs :
        Memᴰ c (
          for_entries (changed_node b a) a.nodes
          ++ (for_entries (changed_edge b a) b.edges ++ for_entries (added_edge b a) a.edges))
        → Memᴰ c (changes_between b a)
    unfolding changes_between
    after_subgraphs m = Memᴰ.append_right (for_entries (removed_node b a) b.nodes) (
        Memᴰ.append_right (for_entries (removed_subgraph b a) b.subgraphs)
          (Memᴰ.append_right (for_entries (added_subgraph b a) a.subgraphs) m))

    in_node :
        (id : NodeId) (n : NodeSnapshot)
        → HashMap.get a.nodes id ≡ some n
        → Memᴰ c (changed_node b a id n)
        → Memᴰ c (changes_between b a)
    in_node id n found m = after_subgraphs (
        Memᴰ.append_left _
          (mem_of_entry (changed_node b a) a.nodes id n (mem_of_get a.nodes id n found) m))

    in_edge :
        (e : Edge) (s : EdgeState)
        → HashMap.get b.edges e ≡ some s
        → Memᴰ c (changed_edge b a e s)
        → Memᴰ c (changes_between b a)
    in_edge e s found m = after_subgraphs (
        Memᴰ.append_right (for_entries (changed_node b a) a.nodes) (
          Memᴰ.append_left _
            (mem_of_entry (changed_edge b a) b.edges e s (mem_of_get b.edges e s found) m)))

    in_new_edge :
        (e : Edge) (s : EdgeState)
        → HashMap.get a.edges e ≡ some s
        → Memᴰ c (added_edge b a e s)
        → Memᴰ c (changes_between b a)
    in_new_edge e s found m = after_subgraphs (
        Memᴰ.append_right (for_entries (changed_node b a) a.nodes) (
          Memᴰ.append_right (for_entries (changed_edge b a) b.edges)
            (mem_of_entry (added_edge b a) a.edges e s (mem_of_get a.edges e s found) m)))

  pub changes_complete : (c : GraphChange) → IsChange b a c → Memᴰ c (changes_between b a)
  unfolding IsChange removed_node removed_subgraph added_subgraph changed_node changed_edge
      added_edge HashMap.contains_key
  changes_complete (node_removed n) (found, gone) = in_removed_nodes (
      mem_of_entry (removed_node b a) b.nodes n.id n (mem_of_get b.nodes n.id n found)
        (rw gone (Memᴰ.head refl)))
  changes_complete (subgraph_removed s) (found, gone) = in_removed_subgraphs (
      mem_of_entry (removed_subgraph b a) b.subgraphs s.id s (mem_of_get b.subgraphs s.id s found)
        (rw gone (Memᴰ.head refl)))
  changes_complete (subgraph_added s) (gone, found) = in_added_subgraphs (
      mem_of_entry (added_subgraph b a) a.subgraphs s.id s (mem_of_get a.subgraphs s.id s found)
        (rw gone (Memᴰ.head refl)))
  changes_complete (node_added n) (gone, found) =
      in_node n.id n found (rw (gone, changed_node) (Memᴰ.head refl))
  changes_complete (node_state_changed id old new) (before, after, other) =
      let (m, was, old_state) =
        origin_of_map (λ (n : NodeSnapshot). n.state) (HashMap.get b.nodes id) before in
      let (n, found, new_state) =
        origin_of_map (λ (n : NodeSnapshot). n.state) (HashMap.get a.nodes id) after in
      in_node id n found (
        rw (was, changed_node)
          (in_states id m n (ia.node_ids id n found) old_state new_state other))
  changes_complete (node_value_changed id old new) (before, after, other) =
      let (m, was, old_value) =
        origin_of_map (λ (n : NodeSnapshot). n.cached_value) (HashMap.get b.nodes id) before in
      let (n, found, new_value) =
        origin_of_map (λ (n : NodeSnapshot). n.cached_value) (HashMap.get a.nodes id) after in
      in_node id n found (
        rw (was, changed_node)
          (in_values id m n (ia.node_ids id n found) old_value new_value other))
  changes_complete (edge_added e s) (gone, found) = in_new_edge e s found (rw gone (Memᴰ.head refl))
  changes_complete (edge_removed e s) (found, gone) =
      in_edge e s found (rw (gone, changed_edge) (Memᴰ.head refl))
  changes_complete (edge_state_changed e old new) (before, after, other) = in_edge e old before (
      rw
        (after, changed_edge, changed (edge_state_eqb old new) other (edge_state_eqb_iff old new).0)
        (Memᴰ.head refl))

-- Between two snapshots whose maps are in order, with each entry under its id, `between` lists a change
-- exactly when it is one: a node, subgraph or edge that only one of the two has, or a node or edge of both
-- that differs in its state, or a node in its cached value.
pub changes_exact :
    (b a : GraphSnapshot)
    → IsIndexed b
    → IsIndexed a
    → (c : GraphChange) → Memᴰ c (between b a).changes ↔ IsChange b a c
unfolding between
changes_exact b a ib ia c = (changes_sound b a ib ia, changes_complete b a ib ia c)
