-- ===== src/Diff/Change/Exact/Sound.antt =====
-- Each change that `between` lists is one.
use attribute_graph.Common.{
  ◌≡◌, inl, inr, refl, sym, ap, subst, Bool, true, false, not, Option, none, some, List, [], ◌∷◌,
  Key, if◌then◌else◌, is_some, Option-cases,
}
use mathlib.Core.Option
use mathlib.Core.List.Memᴰ
use mathlib.Core.List.{Memᴰ}
use attribute_graph.Common.HashMap
use attribute_graph.Common.BTreeMap.{BTreeMap, get_of_mem}
use attribute_graph.Identity.{NodeId, SubgraphId, node_id_key, subgraph_id_key}
use attribute_graph.Dependency.{Edge, edge_key, EdgeState}
use attribute_graph.Diff.Snapshot.{GraphSnapshot, NodeSnapshot, SubgraphSnapshot}
use attribute_graph.Diff.Change.{
  GraphChange, subgraph_added, subgraph_removed, node_added, node_removed, node_state_changed,
  node_value_changed, edge_added, edge_state_changed, node_state_eqb, edge_state_eqb,
  cached_value_eqb, diff_node, for_entries, removed_node, removed_subgraph, added_subgraph,
  changed_node, changed_edge, added_edge, changes_between,
}
use attribute_graph.Diff.Change.Exact.{
  node_state_eqb_iff, edge_state_eqb_iff, cached_value_eqb_iff, IsIndexed, IsChange,
}

module _ {K V : Type 0} ⦃k : Key K⦄ (body : K → V → List GraphChange) {c : GraphChange} where
  entry_of_mem :
      (m : BTreeMap K V)
      → Memᴰ c (for_entries body m)
      → (key : K) × (value : V) × Memᴰ (key, value) m × Memᴰ c (body key value)
  unfolding for_entries
  entry_of_mem [] e = absurd (Memᴰ.not-nil e)
  entry_of_mem ((j, w) ∷ m) e = elim (Memᴰ.append_cases (body j w) e) [
    | inl now ↦ (j, w, Memᴰ.head refl, now)
    | inr later ↦
        let (key, value, at, within) = entry_of_mem m later in (key, value, Memᴰ.tail at, within)
  ]

mem_unless :
    {c : GraphChange} (x : GraphChange) (b : Bool)
    → Memᴰ c (if b then [] else x ∷ [])
    → (b ≡ false) × (x ≡ c)
mem_unless x true e = absurd (Memᴰ.not-nil e)
mem_unless x false e = (refl, sym (Memᴰ.eq_of_singleton e))

mem_when_not :
    {c : GraphChange} (x : GraphChange) (b : Bool)
    → Memᴰ c (if not b then x ∷ [] else [])
    → (b ≡ false) × (x ≡ c)
mem_when_not x true e = absurd (Memᴰ.not-nil e)
mem_when_not x false e = (refl, sym (Memᴰ.eq_of_singleton e))

pub at_own :
    {K V : Type 0} ⦃k : Key K⦄ (m : BTreeMap K V) {o : Option V} {i j : K}
    → i ≡ j
    → HashMap.get m j ≡ o
    → HashMap.get m i ≡ o
at_own m {o = o} same e = subst (λ z. HashMap.get m z ≡ o) (sym same) e

absent_of_not : {A : Type 0} (o : Option A) → is_some o ≡ false → o ≡ none
absent_of_not none e = refl
absent_of_not (some x) e = cc

not_false : {A : Type 0} (b : Bool) → b ≡ false → (A → b ≡ true) → ¬ A
not_false b e f a = cc (f a)

module _ (b a : GraphSnapshot) (ib : IsIndexed b) (ia : IsIndexed a) {c : GraphChange} where
  of_removed_node :
      (id : NodeId) (n : NodeSnapshot)
      → Memᴰ (id, n) b.nodes
      → Memᴰ c (removed_node b a id n)
      → IsChange b a c
  unfolding removed_node HashMap.contains_key IsChange
  of_removed_node id n at e =
      let found = get_of_mem b.nodes id n ib.nodes at in
      let (gone, same) = mem_unless (node_removed n) (is_some (HashMap.get a.nodes id)) e in
      subst (IsChange b a) same (
        at_own b.nodes (ib.node_ids id n found) found,
        at_own a.nodes (ib.node_ids id n found) (absent_of_not (HashMap.get a.nodes id) gone),
      )

  of_removed_subgraph :
      (id : SubgraphId) (n : SubgraphSnapshot)
      → Memᴰ (id, n) b.subgraphs
      → Memᴰ c (removed_subgraph b a id n)
      → IsChange b a c
  unfolding removed_subgraph HashMap.contains_key IsChange
  of_removed_subgraph id n at e =
      let found = get_of_mem b.subgraphs id n ib.subgraphs at in
      let (gone, same) = mem_unless (subgraph_removed n) (is_some (HashMap.get a.subgraphs id)) e in
      subst (IsChange b a) same (
        at_own b.subgraphs (ib.subgraph_ids id n found) found,
        at_own a.subgraphs (ib.subgraph_ids id n found)
            (absent_of_not (HashMap.get a.subgraphs id) gone),
      )

  of_added_subgraph :
      (id : SubgraphId) (n : SubgraphSnapshot)
      → Memᴰ (id, n) a.subgraphs
      → Memᴰ c (added_subgraph b a id n)
      → IsChange b a c
  unfolding added_subgraph HashMap.contains_key IsChange
  of_added_subgraph id n at e =
      let found = get_of_mem a.subgraphs id n ia.subgraphs at in
      let (gone, same) = mem_unless (subgraph_added n) (is_some (HashMap.get b.subgraphs id)) e in
      subst (IsChange b a) same (
        at_own b.subgraphs (ia.subgraph_ids id n found)
            (absent_of_not (HashMap.get b.subgraphs id) gone),
        at_own a.subgraphs (ia.subgraph_ids id n found) found,
      )

  of_diff_node :
      (id : NodeId) (m n : NodeSnapshot)
      → HashMap.get b.nodes id ≡ some m
      → HashMap.get a.nodes id ≡ some n
      → n.id ≡ id
      → Memᴰ c (diff_node m n)
      → IsChange b a c
  unfolding diff_node IsChange
  of_diff_node id m n old new named e = elim (Memᴰ.append_cases _ e) [
    | inl state ↦
        let (other, same) =
          mem_unless (node_state_changed n.id m.state n.state) (node_state_eqb m.state n.state)
            state in
        subst (IsChange b a) same (
          ap (Option.map (λ (n : NodeSnapshot). n.state)) (at_own b.nodes named old),
          ap (Option.map (λ (n : NodeSnapshot). n.state)) (at_own a.nodes named new),
          not_false (node_state_eqb m.state n.state) other (node_state_eqb_iff m.state n.state).1,
        )
    | inr value ↦
        let (other, same) =
          mem_unless (node_value_changed n.id m.cached_value n.cached_value)
            (cached_value_eqb m.cached_value n.cached_value) value in
        subst (IsChange b a) same (
          ap (Option.map (λ (n : NodeSnapshot). n.cached_value)) (at_own b.nodes named old),
          ap (Option.map (λ (n : NodeSnapshot). n.cached_value)) (at_own a.nodes named new),
          not_false (cached_value_eqb m.cached_value n.cached_value) other
              (cached_value_eqb_iff m.cached_value n.cached_value).1,
        )
  ]

  of_changed_node :
      (id : NodeId) (n : NodeSnapshot)
      → Memᴰ (id, n) a.nodes
      → Memᴰ c (changed_node b a id n)
      → IsChange b a c
  unfolding changed_node IsChange
  of_changed_node id n at e =
      let found = get_of_mem a.nodes id n ia.nodes at in
      elim (Option-cases (HashMap.get b.nodes id)) [
        | inl absent ↦ fresh absent found (ia.node_ids id n found) (rw (absent, changed_node) at e)
        | inr (m, old) ↦
            of_diff_node id m n old found (ia.node_ids id n found) (rw (old, changed_node) at e)
      ]
    where
      fresh :
          HashMap.get b.nodes id ≡ none
          → HashMap.get a.nodes id ≡ some n
          → n.id ≡ id
          → Memᴰ c (node_added n ∷ [])
          → IsChange b a c
      fresh absent found named e =
          subst (IsChange b a) (sym (Memᴰ.eq_of_singleton e))
            (at_own b.nodes named absent, at_own a.nodes named found)

  of_changed_edge :
      (edge : Edge) (s : EdgeState)
      → Memᴰ (edge, s) b.edges
      → Memᴰ c (changed_edge b a edge s)
      → IsChange b a c
  unfolding changed_edge IsChange
  of_changed_edge edge s at e =
      let found = get_of_mem b.edges edge s ib.edges at in
      elim (Option-cases (HashMap.get a.edges edge)) [
        | inl absent ↦
            subst (IsChange b a) (sym (Memᴰ.eq_of_singleton (rw (absent, changed_edge) at e)))
              (found, absent)
        | inr (t, new) ↦
            let (other, same) =
              mem_when_not (edge_state_changed edge s t) (edge_state_eqb s t)
                (rw (new, changed_edge) at e) in
            subst (IsChange b a) same
              (found, new, not_false (edge_state_eqb s t) other (edge_state_eqb_iff s t).1)
      ]

  of_added_edge :
      (edge : Edge) (s : EdgeState)
      → Memᴰ (edge, s) a.edges
      → Memᴰ c (added_edge b a edge s)
      → IsChange b a c
  unfolding added_edge HashMap.contains_key IsChange
  of_added_edge edge s at e =
      let (gone, same) = mem_unless (edge_added edge s) (is_some (HashMap.get b.edges edge)) e in
      subst (IsChange b a) same
        (absent_of_not (HashMap.get b.edges edge) gone, get_of_mem a.edges edge s ia.edges at)

  pub changes_sound : Memᴰ c (changes_between b a) → IsChange b a c
  unfolding changes_between
  changes_sound e = elim (Memᴰ.append_cases (for_entries (removed_node b a) b.nodes) e) [
    | inl m ↦
        let (id, n, at, within) = entry_of_mem (removed_node b a) b.nodes m in
        of_removed_node id n at within
    | inr e2 ↦ elim (Memᴰ.append_cases (for_entries (removed_subgraph b a) b.subgraphs) e2) [
      | inl m ↦
          let (id, n, at, within) = entry_of_mem (removed_subgraph b a) b.subgraphs m in
          of_removed_subgraph id n at within
      | inr e3 ↦ elim (Memᴰ.append_cases (for_entries (added_subgraph b a) a.subgraphs) e3) [
        | inl m ↦
            let (id, n, at, within) = entry_of_mem (added_subgraph b a) a.subgraphs m in
            of_added_subgraph id n at within
        | inr e4 ↦ elim (Memᴰ.append_cases (for_entries (changed_node b a) a.nodes) e4) [
          | inl m ↦
              let (id, n, at, within) = entry_of_mem (changed_node b a) a.nodes m in
              of_changed_node id n at within
          | inr e5 ↦ elim (Memᴰ.append_cases (for_entries (changed_edge b a) b.edges) e5) [
            | inl m ↦
                let (edge, t, at, within) = entry_of_mem (changed_edge b a) b.edges m in
                of_changed_edge edge t at within
            | inr m ↦
                let (edge, t, at, within) = entry_of_mem (added_edge b a) a.edges m in
                of_added_edge edge t at within
          ]
        ]
      ]
    ]
  ]
