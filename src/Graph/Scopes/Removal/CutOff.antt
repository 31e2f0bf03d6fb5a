-- ===== src/Graph/Scopes/Removal/CutOff.antt =====
-- The dependents that `remove_subgraph` reports as dirtied.
use attribute_graph.Common.{
  ◌≡◌, ◌∙◌, ◌↔◌, inl, inr, ap, sym, true, false, not, ◌&&◌, List, [], ◌∷◌, sort, dedup, contains,
  arith, Bool-cases, ==-refl, eq_of_==,
}
use attribute_graph.Common.HashSet
use attribute_graph.Common.HashSet.{HashSet, contains-retain, contains-append}
use attribute_graph.Common.Sort.{contains-sort, contains-dedup}
use attribute_graph.Identity.{NodeId, node_id_key}
use attribute_graph.Graph.State.{AttributeGraph}
use attribute_graph.Graph.Commit.{successors}
use attribute_graph.Graph.Scopes.{dependents_outside}

-- A node outside that depends on one of the nodes.
abbrev pub IsCutOff : AttributeGraph → List NodeId → NodeId → Type 0
IsCutOff g nodes x =
    (contains nodes x ≡ false)
    × (n : NodeId) × (contains nodes n ≡ true)
    × (contains (successors g n) x ≡ true)

dependents_outside_sound :
    (g : AttributeGraph) (removed nodes : List NodeId) (x : NodeId)
    → contains (dependents_outside g removed nodes) x ≡ true
    → (contains removed x ≡ false)
      × (n : NodeId) × (contains nodes n ≡ true)
      × (contains (successors g n) x ≡ true)
unfolding dependents_outside contains
dependents_outside_sound g removed [] x m = cc
dependents_outside_sound g removed (node ∷ rest) x m =
    elim (Bool-cases (contains (dependents_outside g removed rest) x)) [
      | inl later ↦
          let (outside, n, m', e) = dependents_outside_sound g removed rest x later in
          (outside, n, ground arith, e)
      | inr none_later ↦
          let here : (not (contains removed x) && contains (successors g node) x) ≡ true = ground (
            arith,
            contains-append (HashSet.retain (λ d. not (contains removed d)) (successors g node))
                (dependents_outside g removed rest) x,
            contains-retain (λ d. not (contains removed d)) (successors g node) x,
          ) in
          (ground arith, node, ground (arith, ==-refl node), ground arith)
    ]

dependents_outside_complete :
    (g : AttributeGraph) (removed nodes : List NodeId) (x n : NodeId)
    → contains removed x ≡ false
    → contains nodes n ≡ true
    → contains (successors g n) x ≡ true
    → contains (dependents_outside g removed nodes) x ≡ true
unfolding dependents_outside contains
dependents_outside_complete g removed [] x n o m e = cc
dependents_outside_complete g removed (node ∷ rest) x n o m e = ground (
  arith,
  contains-append (HashSet.retain (λ d. not (contains removed d)) (successors g node))
      (dependents_outside g removed rest) x,
  contains-retain (λ d. not (contains removed d)) (successors g node) x,
  dependents_outside_complete g removed rest x n o,
  eq_of_== node n,
  ap (λ (c : NodeId). contains (successors g c) x) {x = node} {y = n},
)

-- The reported dependents are the nodes outside that depend on a removed node.
pub dependents_outside_lem :
    (g : AttributeGraph) (removed : HashSet NodeId) (x : NodeId)
    → (contains (dedup (sort (dependents_outside g removed removed))) x ≡ true)
      ↔ IsCutOff g (sort removed) x
dependents_outside_lem g removed x =
    let listed =
      contains-dedup (sort (dependents_outside g removed removed)) x
      ∙ contains-sort (dependents_outside g removed removed) x in
    (
      λ m.
          let (outside, n, m', e) = dependents_outside_sound g removed removed x (sym listed ∙ m) in
          (contains-sort removed x ∙ outside, n, contains-sort removed n ∙ m', e),
      λ (outside, n, m', e).
          listed
          ∙ dependents_outside_complete g removed removed x n
              (sym (contains-sort removed x) ∙ outside) (sym (contains-sort removed n) ∙ m') e,
    )
