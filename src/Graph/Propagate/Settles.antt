-- ===== src/Graph/Propagate/Settles.antt =====
-- What `mark_unchanged` may do to a graph.
pub mod Rounds
use attribute_graph.Common.{
  ℕ, zero, suc, ◌+◌, ◌≤◌, ◌≡◌, ◌⊎◌, inl, inr, refl, sym, ap, ◌∙◌, subst, Bool, true, false, not,
  ◌&&◌, ◌||◌, Option, none, some, List, [], ◌∷◌, ◌++◌, if◌then◌else◌, ◌==◌, contains, arith,
  eq_of_==, ==-cases, ==-refl, ==-comm, length, length-append, Bool-cases, Option-cases, List-cases,
  some_injective,
}
use mathlib.Core.Option
use attribute_graph.Common.HashSet
use attribute_graph.Common.HashSet.{HashSet, contains-remove}
use attribute_graph.Common.HashMap
use attribute_graph.Common.HashMap.{get-modify}
use attribute_graph.Identity.{NodeId, node_id_key}
use attribute_graph.Dependency.{Edge, edge, edge_key}
use attribute_graph.Node.{Node, NodeState, clean, dirty, maybe_dirty}
use attribute_graph.Graph.State.{AttributeGraph, Outcome, returned}
use attribute_graph.Graph.Commit.{successors}
use attribute_graph.Graph.Commit.Search.{unexplored, unexplored-nil, unexplored-insert}
use attribute_graph.Graph.Propagate.{
  set_state, dependents_at, edge_count, Walk, any_into, has_inbound_pending, settle_state,
  settle_dependent, settle_dependents, settle_round, settle, mark_unchanged,
}
use attribute_graph.Graph.Propagate.Invalidates.{length-dependents_at}

any_into-member :
    (es : List Edge) (e : Edge) (x : NodeId)
    → contains es e ≡ true
    → (e.dependent == x) ≡ true
    → any_into es x ≡ true
unfolding any_into contains
any_into-member [] e x m t = cc
any_into-member (f ∷ es) e x m t = elim (==-cases f e) [
  | inl (same, b) ↦ ground (arith, ap (λ (e : Edge). e.dependent == x) same)
  | inr b ↦ ground (arith, any_into-member es e x)
]

any_into-fewer :
    (es fs : List Edge) (x : NodeId)
    → ((e : Edge) → contains fs e ≡ true → contains es e ≡ true)
    → any_into es x ≡ false
    → any_into fs x ≡ false
unfolding any_into contains
any_into-fewer es [] x fewer h = refl
any_into-fewer es (f ∷ fs) x fewer h = ground (
  arith,
  any_into-fewer es fs x (λ e m. fewer e (ground arith)) h,
  any_into-member es f x (fewer f (ground (arith, ==-refl f))),
)

-- What settling has done to a node: nothing, or a node that might have been dirty is clean, and nothing is
-- pending into it.
abbrev pub IsSettled : AttributeGraph → AttributeGraph → NodeId → Type 0
IsSettled g h x =
    (HashMap.get h.nodes x ≡ HashMap.get g.nodes x)
    ⊎ ((node : Node) × (HashMap.get g.nodes x ≡ some node)
        × (node.state ≡ maybe_dirty)
        × (HashMap.get h.nodes x ≡ some (record node { state = clean }))
        × (has_inbound_pending h x ≡ false))

pub record Settles (g h : AttributeGraph) : Type 0 where
  pub linked : h.dependents ≡ g.dependents
  pub fewer : (e : Edge) → contains h.pending_edges e ≡ true → contains g.pending_edges e ≡ true
  pub settled : (x : NodeId) → IsSettled g h x

pub Settles-refl : (g : AttributeGraph) → Settles g g
Settles-refl g = record { linked = refl; fewer = λ e m. m; settled = λ x. inl refl }

inbound-fewer :
    (g h : AttributeGraph) (x : NodeId)
    → Settles g h
    → has_inbound_pending g x ≡ false
    → has_inbound_pending h x ≡ false
unfolding has_inbound_pending
inbound-fewer g h x s = any_into-fewer g.pending_edges h.pending_edges x s.fewer

pub Settles-trans : (g h k : AttributeGraph) → Settles g h → Settles h k → Settles g k
Settles-trans g h k s t = record {
  linked = t.linked ∙ s.linked;
  fewer = λ e m. s.fewer e (t.fewer e m);
  settled = λ x. both x (s.settled x) (t.settled x);
}
  where
    both : (x : NodeId) → IsSettled g h x → IsSettled h k x → IsSettled g k x
    both x (inl p) (inl q) = inl (q ∙ p)
    both x (inl p) (inr (n, found, was, is, free)) = inr (n, sym p ∙ found, was, is, free)
    both x (inr (n, found, was, is, free)) (inl q) =
        inr (n, found, was, q ∙ is, inbound-fewer h k x t free)
    both x (inr (n, found, was, is, free)) (inr (m, found', was', is', free')) =
        absurd (cc (ap (λ (n : Node). n.state) (some_injective (sym is ∙ found')), was'))
