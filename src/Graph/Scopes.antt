-- ===== src/Graph/Scopes.antt =====
-- src/graph/subgraphs.rs: ownership subgraphs, how they are built and how they are removed.
pub mod Building
pub mod Construction
pub mod Removal
use attribute_graph.Common.{
  ℕ, zero, suc, ◌*◌, Bool, true, false, not, Option, none, some, List, [], ◌∷◌, ◌++◌, if◌then◌else◌,
  contains, sort, dedup,
}
use mathlib.Core.List.{reverse}
use attribute_graph.Common.HashSet
use attribute_graph.Common.HashSet.{HashSet}
use attribute_graph.Common.HashMap
use attribute_graph.Identity.{NodeId, SubgraphId, node_id_key, subgraph_id_key, checked_increment}
use attribute_graph.Error.{subgraph_in_use}
use attribute_graph.Rule
use attribute_graph.Rule.{DestroyFn, RuleHandle}
use attribute_graph.Node.{Node}
use attribute_graph.Subgraph.{Subgraph, SubgraphRemoval}
use attribute_graph.Graph.State.{
  AttributeGraph, Outcome, returned, failed, panicked, out_of_fuel, expect, Action, pure, observe,
  gets, fail, update, ◌>>=◌, ◌>>◌, and_then,
}
use attribute_graph.Graph.Guards.{ensure_subgraph}
use attribute_graph.Graph.Commit.{successors}
use attribute_graph.Graph.Mutate.{remove_node}
use attribute_graph.Graph.Query.{topological_order}

unfoldable pub next_subgraph_id : Action SubgraphId
next_subgraph_id g = elim (checked_increment g.next_subgraph_id) [
  | none ↦ (panicked, g)
  | some next ↦ (
    returned (record { graph = g.id; local = g.next_subgraph_id }),
    record g { next_subgraph_id = next },
  )
]

abbrev ensure_parent : Option SubgraphId → AttributeGraph → Outcome Unit
ensure_parent none g = returned tt
ensure_parent (some parent) g = ensure_subgraph g parent

abbrev empty_subgraph : SubgraphId → Option SubgraphId → Subgraph
empty_subgraph id parent = record { id = id; parent = parent; children = []; nodes = [] }

abbrev add_child : SubgraphId → Subgraph → Subgraph
add_child id s = record s { children = HashSet.insert s.children id }

abbrev link_parent : SubgraphId → Option SubgraphId → Action Unit
link_parent id none g = (returned tt, g)
link_parent id (some parent) g = elim (HashMap.get g.subgraphs parent) [
  | none ↦ (panicked, g)
  | some _ ↦
      (returned tt, record g { subgraphs = HashMap.modify g.subgraphs parent (add_child id) })
]

unfoldable pub create_subgraph : Option SubgraphId → Action SubgraphId
create_subgraph parent = do
  observe (ensure_parent parent)
  id ← next_subgraph_id
  update (λ g. record g { subgraphs = HashMap.insert g.subgraphs id (empty_subgraph id parent) })
  link_parent id parent
  pure id

abbrev pop_construction : List SubgraphId → List SubgraphId
pop_construction [] = []
pop_construction (_ ∷ rest) = rest

-- The pop happens on every way out of the closure.
abbrev build_inside : {R : Type 0} → SubgraphId → Action R → Action R
build_inside id build g =
    let (outcome, g') =
      build (record g { construction_subgraphs = id ∷ g.construction_subgraphs }) in
    (outcome, record g' { construction_subgraphs = pop_construction g'.construction_subgraphs })

-- The closure is any action; an error among its results is a value of `R` to `with_subgraph`.
unfoldable pub with_subgraph : {R : Type 0} → SubgraphId → Action R → Action R
with_subgraph id build = do observe (λ g. ensure_subgraph g id); build_inside id build

unfoldable pub subgraphs : AttributeGraph → List SubgraphId
subgraphs g = sort (HashMap.keys g.subgraphs)

abbrev visits : List SubgraphId → List (SubgraphId × Bool)
visits [] = []
visits (child ∷ rest) = (child, false) ∷ visits rest

-- The children are sorted in descending order and pushed one after the other, so that the smallest is
-- on top: in this list the ascending order stands in front.
unfoldable pub postorder_loop :
    AttributeGraph → ℕ → List (SubgraphId × Bool) → List SubgraphId → Outcome (List SubgraphId)
postorder_loop g zero stack order = elim stack [ [] ↦ returned order | _ ∷ _ ↦ out_of_fuel ]
postorder_loop g (suc fuel) stack order = elim stack [
  | [] ↦ returned order
  | (id, true) ∷ rest ↦ postorder_loop g fuel rest (order ++ id ∷ [])
  | (id, false) ∷ rest ↦
      and_then (expect (HashMap.get g.subgraphs id))
        λ s. postorder_loop g fuel (visits (sort s.children) ++ (id, true) ∷ rest) order
]

-- A subgraph is popped twice.
unfoldable pub subgraph_postorder : AttributeGraph → SubgraphId → Outcome (List SubgraphId)
subgraph_postorder g root = postorder_loop g (2 * HashMap.len g.subgraphs) ((root, false) ∷ []) []

-- `iter().rev().find(..)` on the construction stack: the innermost first.
unfoldable pub find_active : List SubgraphId → List SubgraphId → Option SubgraphId
find_active [] set = none
find_active (active ∷ rest) set = if contains set active then some active else find_active rest set

-- The nodes that the collected subgraphs own.
unfoldable pub owned_nodes : AttributeGraph → List SubgraphId → Outcome (List NodeId)
owned_nodes g [] = returned []
owned_nodes g (id ∷ rest) =
    let others = owned_nodes g rest in
    and_then (expect (HashMap.get g.subgraphs id))
      λ s. and_then others λ ids. returned (s.nodes ++ ids)

unfoldable pub dependents_outside : AttributeGraph → HashSet NodeId → List NodeId → List NodeId
dependents_outside g removed [] = []
dependents_outside g removed (node ∷ rest) =
    HashSet.retain (λ d. not (contains removed d)) (successors g node)
    ++ dependents_outside g removed rest

unfoldable pub remove_nodes : List NodeId → Action (List Node)
remove_nodes [] = pure []
remove_nodes (id ∷ rest) = do
  removed ← remove_node id
  node ← observe (λ _. expect removed)
  nodes ← remove_nodes rest
  pure (node ∷ nodes)

abbrev drop_child : SubgraphId → Subgraph → Subgraph
drop_child id s = record s { children = HashSet.remove s.children id }

abbrev detach_subgraph : SubgraphId → Subgraph → AttributeGraph → AttributeGraph
detach_subgraph id s g =
    let rest = HashMap.remove g.subgraphs id in
    record g {
      subgraphs = elim s.parent [
        | none ↦ rest
        | some parent ↦ HashMap.modify rest parent (drop_child id)
      ];
    }

unfoldable pub remove_subgraphs : List SubgraphId → Action Unit
remove_subgraphs [] = pure tt
remove_subgraphs (id ∷ rest) = do
  removed ← observe (λ g. expect (HashMap.get g.subgraphs id))
  update (detach_subgraph id removed)
  remove_subgraphs rest

-- The host's destroy callbacks, in the order of the drops.
unfoldable pub drop_nodes : List Node → List (DestroyFn × RuleHandle)
drop_nodes [] = []
drop_nodes (node ∷ rest) =
    elim node.rule [ none ↦ [] | some rule ↦ Rule.drop rule ] ++ drop_nodes rest

-- The removal, and the calls of the destroy callbacks, which are made when all else is done.
unfoldable pub remove_subgraph :
    SubgraphId → Action (SubgraphRemoval × List (DestroyFn × RuleHandle))
remove_subgraph id = do
  observe (λ g. ensure_subgraph g id)
  postorder ← observe (λ g. subgraph_postorder g id)
  in_use ← gets (λ g. find_active g.construction_subgraphs postorder)
  observe (λ _. elim in_use [ none ↦ returned tt | some active ↦ failed (subgraph_in_use active) ])
  owned ← observe (λ g. owned_nodes g postorder)
  let removed = HashSet.from_list owned
  dirtied ← gets (λ g. dedup (sort (dependents_outside g removed removed)))
  order ← observe topological_order
  nodes ← remove_nodes (reverse (HashSet.retain (contains removed) order))
  remove_subgraphs postorder
  pure (
    record { subgraphs = sort postorder; nodes = sort removed; dirtied_dependents = dirtied },
    drop_nodes nodes,
  )

-- The cleanup that each way of failing calls for, behind the build of the new subgraph.
abbrev finish_build : {R : Type 0} → SubgraphId → Outcome R → Action (SubgraphId × R)
finish_build id (returned value) = pure (id, value)
finish_build id (failed error) = do remove_subgraph id; fail error
finish_build id panicked = λ g. let (outcome, g') = remove_subgraph id g in (panicked, g')
finish_build id out_of_fuel = λ g. (out_of_fuel, g)

unfoldable pub build_subgraph :
    {R : Type 0} → Option SubgraphId → (SubgraphId → Action R) → Action (SubgraphId × R)
build_subgraph parent build = do
  id ← create_subgraph parent
  λ g. let (outcome, g') = with_subgraph id (build id) g in finish_build id outcome g'
