-- ===== src/Diff/Change/Exact.antt =====
-- Differences between snapshots, independently of how they are computed.
pub mod Sound
pub mod Complete
use attribute_graph.Common.{
  ◌≡◌, ◌≢◌, ◌↔◌, ◌⊎◌, inl, inr, refl, sym, ap, ◌∙◌, subst, Bool, true, false, not, ◌&&◌, Option,
  none, some, List, [], ◌∷◌, ◌++◌, Key, String, if◌then◌else◌, is_some, arith, Option-cases,
  Bool-cases,
}
use mathlib.Core.Option
use mathlib.Core.List.Memᴰ
use mathlib.Core.List.{Memᴰ}
use text.Mathlib.TextEquality.{eq_iff}
use attribute_graph.Common.HashMap
use attribute_graph.Common.BTreeMap.{BTreeMap, IsAscending, get_of_mem, mem_of_get}
use attribute_graph.Identity.{NodeId, SubgraphId, node_id_key, subgraph_id_key}
use attribute_graph.Value.{ValueComparison}
use attribute_graph.Dependency.{Edge, edge_key, EdgeState}
use attribute_graph.Node.{NodeState}
use attribute_graph.Diff.Snapshot.{GraphSnapshot, NodeSnapshot, SubgraphSnapshot, ValueSummary}
use attribute_graph.Diff.Change.{
  GraphChange, subgraph_added, subgraph_removed, node_added, node_removed, node_state_changed,
  node_value_changed, edge_added, edge_removed, edge_state_changed, node_state_eqb, edge_state_eqb,
  comparison_eqb, summary_eqb, cached_value_eqb, diff_node, for_entries, removed_node,
  removed_subgraph, added_subgraph, changed_node, changed_edge, added_edge, changes_between,
  between,
}

pub node_state_eqb_iff : (a b : NodeState) → (node_state_eqb a b ≡ true) ↔ (a ≡ b)
unfolding node_state_eqb
node_state_eqb_iff a b = ground arith

pub edge_state_eqb_iff : (a b : EdgeState) → (edge_state_eqb a b ≡ true) ↔ (a ≡ b)
unfolding edge_state_eqb
edge_state_eqb_iff a b = ground arith

comparison_eqb_iff : (a b : ValueComparison) → (comparison_eqb a b ≡ true) ↔ (a ≡ b)
unfolding comparison_eqb
comparison_eqb_iff a b = ground arith

summary_eqb_iff : (a b : ValueSummary) → (summary_eqb a b ≡ true) ↔ (a ≡ b)
unfolding summary_eqb
summary_eqb_iff a b = ground (
  arith,
  eq_iff a.value_type b.value_type,
  eq_iff a.rendered b.rendered,
  eq_iff a.bytes_hex b.bytes_hex,
  comparison_eqb_iff a.comparison b.comparison,
)

pub cached_value_eqb_iff : (a b : Option ValueSummary) → (cached_value_eqb a b ≡ true) ↔ (a ≡ b)
unfolding cached_value_eqb
cached_value_eqb_iff none none = ground arith
cached_value_eqb_iff none (some b) = ground arith
cached_value_eqb_iff (some a) none = ground arith
cached_value_eqb_iff (some a) (some b) = ground (arith, summary_eqb_iff a b)

-- What a snapshot that was captured is known for: its maps ascend, and each entry stands under its id.
pub record IsIndexed (s : GraphSnapshot) : Type 0 where
  pub nodes : IsAscending s.nodes
  pub subgraphs : IsAscending s.subgraphs
  pub edges : IsAscending s.edges
  pub node_ids : (id : NodeId) (n : NodeSnapshot) → HashMap.get s.nodes id ≡ some n → n.id ≡ id
  pub subgraph_ids :
      (id : SubgraphId) (n : SubgraphSnapshot) → HashMap.get s.subgraphs id ≡ some n → n.id ≡ id

abbrev pub state_at : GraphSnapshot → NodeId → Option NodeState
state_at s id = Option.map (λ (n : NodeSnapshot). n.state) (HashMap.get s.nodes id)

abbrev pub cached_at : GraphSnapshot → NodeId → Option (Option ValueSummary)
cached_at s id = Option.map (λ (n : NodeSnapshot). n.cached_value) (HashMap.get s.nodes id)

-- When a change is one from the snapshot `b` to the snapshot `a`.
unfoldable pub IsChange : GraphSnapshot → GraphSnapshot → GraphChange → Type 0
IsChange b a (subgraph_added s) =
    (HashMap.get b.subgraphs s.id ≡ none) × (HashMap.get a.subgraphs s.id ≡ some s)
IsChange b a (subgraph_removed s) =
    (HashMap.get b.subgraphs s.id ≡ some s) × (HashMap.get a.subgraphs s.id ≡ none)
IsChange b a (node_added n) =
    (HashMap.get b.nodes n.id ≡ none) × (HashMap.get a.nodes n.id ≡ some n)
IsChange b a (node_removed n) =
    (HashMap.get b.nodes n.id ≡ some n) × (HashMap.get a.nodes n.id ≡ none)
IsChange b a (node_state_changed id old new) =
    (state_at b id ≡ some old) × (state_at a id ≡ some new) × (old ≢ new)
IsChange b a (node_value_changed id old new) =
    (cached_at b id ≡ some old) × (cached_at a id ≡ some new) × (old ≢ new)
IsChange b a (edge_added e s) = (HashMap.get b.edges e ≡ none) × (HashMap.get a.edges e ≡ some s)
IsChange b a (edge_removed e s) = (HashMap.get b.edges e ≡ some s) × (HashMap.get a.edges e ≡ none)
IsChange b a (edge_state_changed e old new) =
    (HashMap.get b.edges e ≡ some old) × (HashMap.get a.edges e ≡ some new) × (old ≢ new)
