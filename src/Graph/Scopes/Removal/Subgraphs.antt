-- ===== src/Graph/Scopes/Removal/Subgraphs.antt =====
-- The walk over the subgraphs that are to go, and the loop that takes them out.
use attribute_graph.Common.{
  ◌≡◌, refl, ap, ◌∙◌, inl, inr, Bool, true, false, ◌||◌, ℕ, zero, suc, Option, none, List, [], ◌∷◌,
  ◌++◌, if◌then◌else◌, ◌==◌, contains, sort, arith, Option-cases, ==-refl, Bool-cases,
}
use mathlib.Core.Option
use attribute_graph.Common.HashSet.{contains-append}
use attribute_graph.Common.HashMap
use attribute_graph.Common.HashMap.{HashMap, get-modify, get-remove}
use attribute_graph.Identity.{SubgraphId, node_id_key, subgraph_id_key}
use attribute_graph.Subgraph.{Subgraph}
use attribute_graph.Graph.State.{AttributeGraph, returned, returned_injective}
use attribute_graph.Graph.Scopes.{
  postorder_loop, subgraph_postorder, remove_subgraphs, detach_subgraph, drop_child, visits,
}

abbrev ids_of : List (SubgraphId × Bool) → List SubgraphId
ids_of [] = []
ids_of ((id, seen) ∷ rest) = id ∷ ids_of rest

contains-ids_of :
    (s t : List (SubgraphId × Bool)) (x : SubgraphId)
    → contains (ids_of (s ++ t)) x ≡ (contains (ids_of s) x || contains (ids_of t) x)
unfolding contains
contains-ids_of [] t x = refl
contains-ids_of ((id, seen) ∷ rest) t x = ground (arith, contains-ids_of rest t x)

-- What is listed or on the stack is listed in the end.
postorder_loop-contains :
    (g : AttributeGraph) (fuel : ℕ) (stack : List (SubgraphId × Bool))
    (order result : List SubgraphId) (x : SubgraphId)
    → postorder_loop g fuel stack order ≡ returned result
    → (contains order x || contains (ids_of stack) x) ≡ true
    → contains result x ≡ true
unfolding postorder_loop contains
postorder_loop-contains g zero [] order result x e m =
    ground (arith, ap (λ l. contains l x) (returned_injective e))
postorder_loop-contains g (suc fuel) [] order result x e m =
    ground (arith, ap (λ l. contains l x) (returned_injective e))
postorder_loop-contains g zero (_ ∷ _) order result x e m = cc
postorder_loop-contains g (suc fuel) ((id, true) ∷ rest) order result x e m =
    postorder_loop-contains g fuel rest (order ++ id ∷ []) result x e
      (ground (arith, contains-append order (id ∷ []) x))
postorder_loop-contains g (suc fuel) ((id, false) ∷ rest) order result x e m =
    elim (Option-cases (HashMap.get g.subgraphs id)) [
      | inl absent ↦ cc (rw absent at e)
      | inr (s, found) ↦
          postorder_loop-contains g fuel (visits (sort s.children) ++ (id, true) ∷ rest) order
            result x (rw found at e)
            (ground (arith, contains-ids_of (visits (sort s.children)) ((id, true) ∷ rest) x))
    ]

pub subgraph_postorder-contains :
    (g : AttributeGraph) (root : SubgraphId) (postorder : List SubgraphId)
    → subgraph_postorder g root ≡ returned postorder
    → contains postorder root ≡ true
unfolding subgraph_postorder contains
subgraph_postorder-contains g root postorder e =
    postorder_loop-contains g _ ((root, false) ∷ []) [] postorder root e
      (ground (arith, ==-refl root))

none-if :
    (f : Subgraph → Subgraph) (b : Bool) (o : Option Subgraph)
    → o ≡ none
    → (if b then Option.map f o else o) ≡ none
none-if f true o e = rw e refl
none-if f false o e = e

detached :
    (id x : SubgraphId) (s : Subgraph) (g : AttributeGraph)
    → HashMap.get (HashMap.remove g.subgraphs id) x ≡ none
    → HashMap.get (detach_subgraph id s g).subgraphs x ≡ none
detached id x s g e = elim (Option-cases s.parent) [
  | inl root ↦ rw root e
  | inr (parent, below) ↦ rw below (
      get-modify (HashMap.remove g.subgraphs id) parent (drop_child id) x
      ∙ none-if (drop_child id) (parent == x) (HashMap.get (HashMap.remove g.subgraphs id) x) e)
]

remove_subgraphs-absent :
    (ids : List SubgraphId) (g : AttributeGraph) (x : SubgraphId)
    → HashMap.get g.subgraphs x ≡ none
    → HashMap.get (remove_subgraphs ids g).1.subgraphs x ≡ none
unfolding remove_subgraphs
remove_subgraphs-absent [] g x e = e
remove_subgraphs-absent (id ∷ rest) g x e = elim (Option-cases (HashMap.get g.subgraphs id)) [
  | inl absent ↦ rw absent e
  | inr (s, found) ↦ rw found (
      remove_subgraphs-absent rest (detach_subgraph id s g) x
        (detached id x s g (ground (arith, get-remove g.subgraphs id x))))
]

-- When the loop returns, it has taken out all it was given.
pub remove_subgraphs-gone :
    (ids : List SubgraphId) (g : AttributeGraph) (x : SubgraphId)
    → (remove_subgraphs ids g).0 ≡ returned tt
    → contains ids x ≡ true
    → HashMap.get (remove_subgraphs ids g).1.subgraphs x ≡ none
unfolding remove_subgraphs contains
remove_subgraphs-gone [] g x e m = cc
remove_subgraphs-gone (id ∷ rest) g x e m = elim (Option-cases (HashMap.get g.subgraphs id)) [
  | inl absent ↦ cc (rw absent at e)
  | inr (s, found) ↦ elim (Bool-cases (contains rest x)) [
    | inl later ↦
        rw found (remove_subgraphs-gone rest (detach_subgraph id s g) x (rw found at e) later)
    | inr no_later ↦ rw found (
        remove_subgraphs-absent rest (detach_subgraph id s g) x
          (detached id x s g (ground (arith, get-remove g.subgraphs id x))))
  ]
]
