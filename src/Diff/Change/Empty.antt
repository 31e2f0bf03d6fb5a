-- ===== src/Diff/Change/Empty.antt =====
-- When nothing has changed between two snapshots.
use attribute_graph.Common.{
  ◌≡◌, ◌≢◌, ◌↔◌, inl, inr, refl, sym, ap, ◌∙◌, Bool, true, Option, none, some, is_some, arith,
  List-cases, Bool-cases,
}
use mathlib.Core.Option
use mathlib.Core.List.Memᴰ
use mathlib.Core.List.{Memᴰ}
use attribute_graph.Common.HashMap
use attribute_graph.Identity.{NodeId, SubgraphId, node_id_key, subgraph_id_key}
use attribute_graph.Dependency.{Edge, edge_key}
use attribute_graph.Diff.Snapshot.{GraphSnapshot, NodeSnapshot}
use attribute_graph.Diff.Change.{
  GraphChange, GraphDiff, subgraph_added, subgraph_removed, node_added, node_removed,
  node_state_changed, node_value_changed, edge_added, edge_removed, edge_state_changed,
  node_state_eqb, edge_state_eqb, cached_value_eqb, between, is_empty,
}
use attribute_graph.Diff.Change.Exact.{
  node_state_eqb_iff, edge_state_eqb_iff, cached_value_eqb_iff, IsIndexed, state_at, cached_at,
  IsChange,
}
use attribute_graph.Diff.Change.Exact.Complete.{changes_exact}
use attribute_graph.Diff.Change.Exact.Sound.{at_own}

-- Two snapshots agree on what a diff looks at: which nodes and subgraphs there are, the nodes' states and
-- cached values, and the edges with their states.
pub record IsSameView (b a : GraphSnapshot) : Type 0 where
  pub states : (id : NodeId) → state_at b id ≡ state_at a id
  pub values : (id : NodeId) → cached_at b id ≡ cached_at a id
  pub subgraphs :
      (id : SubgraphId)
      → is_some (HashMap.get b.subgraphs id) ≡ is_some (HashMap.get a.subgraphs id)
  pub edges : (e : Edge) → HashMap.get b.edges e ≡ HashMap.get a.edges e

-- Two options agree when neither stands alone and they do not differ.
agree :
    {A : Type 0} (eq : A → A → Bool)
    → ((x y : A) → (eq x y ≡ true) ↔ (x ≡ y))
    → (o p : Option A) → is_some o ≡ is_some p
    → ((x y : A) → o ≡ some x → p ≡ some y → ¬ (x ≢ y))
    → o ≡ p
agree eq iff none none s h = refl
agree eq iff none (some y) s h = cc
agree eq iff (some x) none s h = cc
agree eq iff (some x) (some y) s h = elim (Bool-cases (eq x y)) [
  | inl same ↦ ap some ((iff x y).0 same)
  | inr other ↦ absurd (h x y refl refl λ e. cc ((iff x y).1 e, other))
]

is_some-map : {A B : Type 0} (f : A → B) (o : Option A) → is_some (Option.map f o) ≡ is_some o
is_some-map f none = refl
is_some-map f (some x) = refl

-- That both or neither are there.
both :
    {A : Type 0} (o p : Option A)
    → ((x : A) → o ≡ some x → ¬ (p ≡ none))
    → ((x : A) → p ≡ some x → ¬ (o ≡ none))
    → is_some o ≡ is_some p
both none none f g = refl
both none (some y) f g = absurd (g y refl refl)
both (some x) none f g = absurd (f x refl refl)
both (some x) (some y) f g = refl

module _ (b a : GraphSnapshot) (ib : IsIndexed b) (ia : IsIndexed a) where
  IsUnchanged : Type 0
  IsUnchanged = (c : GraphChange) → ¬ IsChange b a c

  view_of_unchanged : IsUnchanged → IsSameView b a
  unfolding IsUnchanged IsChange
  view_of_unchanged h =
      let present : (id : NodeId)
          → is_some (HashMap.get b.nodes id) ≡ is_some (HashMap.get a.nodes id) =
        λ id.
          both (HashMap.get b.nodes id) (HashMap.get a.nodes id)
            (λ n found gone. h (node_removed n) (
              at_own b.nodes (ib.node_ids id n found) found,
              at_own a.nodes (ib.node_ids id n found) gone,
            ))
            (λ n found gone. h (node_added n) (
              at_own b.nodes (ia.node_ids id n found) gone,
              at_own a.nodes (ia.node_ids id n found) found,
            )) in
      record {
        states = λ id.
            agree node_state_eqb node_state_eqb_iff (state_at b id) (state_at a id)
              (is_some-map (λ (n : NodeSnapshot). n.state) (HashMap.get b.nodes id)
                ∙ present id
                ∙ sym (is_some-map (λ (n : NodeSnapshot). n.state) (HashMap.get a.nodes id)))
              λ old new before after other.
                h (node_state_changed id old new) (before, after, other);
        values = λ id.
            agree cached_value_eqb cached_value_eqb_iff (cached_at b id) (cached_at a id)
              (is_some-map (λ (n : NodeSnapshot). n.cached_value) (HashMap.get b.nodes id)
                ∙ present id
                ∙ sym (is_some-map (λ (n : NodeSnapshot). n.cached_value) (HashMap.get a.nodes id)))
              λ old new before after other.
                h (node_value_changed id old new) (before, after, other);
        subgraphs = λ id.
            both (HashMap.get b.subgraphs id) (HashMap.get a.subgraphs id)
              (λ s found gone. h (subgraph_removed s) (
                at_own b.subgraphs (ib.subgraph_ids id s found) found,
                at_own a.subgraphs (ib.subgraph_ids id s found) gone,
              ))
              (λ s found gone. h (subgraph_added s) (
                at_own b.subgraphs (ia.subgraph_ids id s found) gone,
                at_own a.subgraphs (ia.subgraph_ids id s found) found,
              ));
        edges = λ e.
            agree edge_state_eqb edge_state_eqb_iff (HashMap.get b.edges e) (HashMap.get a.edges e)
              (both (HashMap.get b.edges e) (HashMap.get a.edges e)
                (λ s found gone. h (edge_removed e s) (found, gone))
                (λ s found gone. h (edge_added e s) (gone, found)))
              λ old new before after other. h (edge_state_changed e old new) (before, after, other);
      }

  unchanged_of_view : IsSameView b a → IsUnchanged
  unfolding IsUnchanged IsChange
  unchanged_of_view v (subgraph_added s) (gone, found) = ground (arith, v.subgraphs s.id)
  unchanged_of_view v (subgraph_removed s) (found, gone) = ground (arith, v.subgraphs s.id)
  unchanged_of_view v (node_added n) (gone, found) = ground (arith, v.states n.id)
  unchanged_of_view v (node_removed n) (found, gone) = ground (arith, v.states n.id)
  unchanged_of_view v (node_state_changed id old new) (before, after, other) =
      ground (arith, v.states id)
  unchanged_of_view v (node_value_changed id old new) (before, after, other) =
      ground (arith, v.values id)
  unchanged_of_view v (edge_added e s) (gone, found) = ground (arith, v.edges e)
  unchanged_of_view v (edge_removed e s) (found, gone) = ground (arith, v.edges e)
  unchanged_of_view v (edge_state_changed e old new) (before, after, other) =
      ground (arith, v.edges e)

no_members : (diff : GraphDiff) → is_empty diff ≡ true → (c : GraphChange) → ¬ Memᴰ c diff.changes
unfolding is_empty
no_members diff e c m = elim (List-cases diff.changes) [
  | inl none_left ↦ Memᴰ.not-nil (rw none_left at m)
  | inr (d, rest, found) ↦ cc (rw found at e)
]

empty_of_no_members :
    (diff : GraphDiff) → ((c : GraphChange) → ¬ Memᴰ c diff.changes) → is_empty diff ≡ true
unfolding is_empty
empty_of_no_members diff h = elim (List-cases diff.changes) [
  | inl none_left ↦ rw none_left refl
  | inr (d, rest, found) ↦ absurd (h d (rw found (Memᴰ.head refl)))
]

-- Between two snapshots whose maps are in order, with each entry under its id, the diff is empty exactly when
-- they have the same nodes, subgraphs and edges, and each
-- node the same state and cached value, and each edge the same state.
pub is_empty-between :
    (b a : GraphSnapshot)
    → IsIndexed b
    → IsIndexed a
    → (is_empty (between b a) ≡ true) ↔ IsSameView b a
unfolding IsUnchanged
is_empty-between b a ib ia = (
  λ e.
      view_of_unchanged b a ib ia
        λ c change. no_members (between b a) e c ((changes_exact b a ib ia c).1 change),
  λ v.
      empty_of_no_members (between b a)
        λ c m. unchanged_of_view b a ib ia v c ((changes_exact b a ib ia c).0 m),
)
