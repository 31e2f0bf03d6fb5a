-- ===== src/Graph/Scopes/Construction.antt =====
-- Construction scopes.
use attribute_graph.Common.{◌≡◌, refl, ap, List, ◌∷◌, arith}
use attribute_graph.Identity.{SubgraphId}
use attribute_graph.Graph.State.{AttributeGraph, Action, continue_rule}
use attribute_graph.Graph.Guards.{ensure_subgraph}
use attribute_graph.Graph.Invariant.{IsWellFormed, Keeps}
use attribute_graph.Graph.Invariant.Core.{SameCore-IsWellFormed}
use attribute_graph.Graph.Scopes.{with_subgraph, build_inside, pop_construction}

-- What a closure that runs inside a scope owes: it keeps well-formedness, and leaves the construction
-- stack as it found it.
pub record Builds {R : Type 0} (build : Action R) : Type 0 where
  pub well_formed : Keeps IsWellFormed build
  pub balanced :
      (g : AttributeGraph) → (build g).1.construction_subgraphs ≡ g.construction_subgraphs

stack-IsWellFormed :
    (g : AttributeGraph) (stack : List SubgraphId)
    → IsWellFormed g
    → IsWellFormed (record g { construction_subgraphs = stack })
stack-IsWellFormed g stack =
    SameCore-IsWellFormed
      (record { nodes = refl; dependents = refl; pending = refl; id = refl; next = omega arith })

build_inside-Builds :
    {R : Type 0} (id : SubgraphId) (build : Action R)
    → Builds build
    → Builds (build_inside id build)
build_inside-Builds id build b = record {
  well_formed = λ g wf.
      stack-IsWellFormed
        (build (record g { construction_subgraphs = id ∷ g.construction_subgraphs })).1 _
        (b.well_formed (record g { construction_subgraphs = id ∷ g.construction_subgraphs })
          (stack-IsWellFormed g (id ∷ g.construction_subgraphs) wf));
  balanced = λ g.
      ap pop_construction
        (b.balanced (record g { construction_subgraphs = id ∷ g.construction_subgraphs }));
}

-- For a closure that keeps well-formed graphs well-formed and leaves the construction stack as it finds
-- it, `with_subgraph` does so too, on every way out of the closure, an error or a panic included.
pub with_subgraph-Builds :
    {R : Type 0} (id : SubgraphId) (build : Action R)
    → Builds build
    → Builds (with_subgraph id build)
unfolding with_subgraph
with_subgraph-Builds id build b = record {
  well_formed = λ g wf.
      continue_rule IsWellFormed (ensure_subgraph g id) _ g wf
        λ _ _. (build_inside-Builds id build b).well_formed g wf;
  balanced = λ g.
      continue_rule (λ k. k.construction_subgraphs ≡ g.construction_subgraphs)
        (ensure_subgraph g id) _ g refl λ _ _. (build_inside-Builds id build b).balanced g;
}
