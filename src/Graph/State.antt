-- ===== src/Graph/State.antt =====
-- `AttributeGraph` and its methods' shape. A `&self` method is a function into `Outcome`, a
-- `&mut self` method an `Action`: the graph comes back beside the outcome, also after an error or a
-- panic. `out_of_fuel` is no outcome of the program. A stack has its top at the head of the list.
use attribute_graph.Common.{ℕ, ◌≡◌, ◌⊎◌, inl, inr, refl, Option, none, some, List, []}
use attribute_graph.Common.HashSet.{HashSet}
use attribute_graph.Common.HashMap.{HashMap}
use attribute_graph.Identity.{GraphId, NodeId, SubgraphId}
use attribute_graph.Error.{GraphError}
use attribute_graph.Dependency.{Edge}
use attribute_graph.Node.{Node}
use attribute_graph.Subgraph.{Subgraph}

pub record AttributeGraph : Type 0 where
  pub id : GraphId
  pub nodes : HashMap NodeId Node
  pub subgraphs : HashMap SubgraphId Subgraph
  pub dependents : HashMap NodeId (HashSet NodeId)
  pub pending_edges : HashSet Edge
  pub evaluation_stack : List NodeId
  pub construction_subgraphs : List SubgraphId
  pub next_node_id : ℕ
  pub next_subgraph_id : ℕ

-- `AttributeGraph::default`, with the id that `next_graph_id` returned.
abbrev pub empty_graph : GraphId → AttributeGraph
empty_graph id = record {
  id = id;
  nodes = [];
  subgraphs = [];
  dependents = [];
  pending_edges = [];
  evaluation_stack = [];
  construction_subgraphs = [];
  next_node_id = 0;
  next_subgraph_id = 0;
}

-- What the evaluation methods never write: all but the nodes, the edges and the pending edges.
pub record Frame : Type 0 where
  pub id : GraphId
  pub subgraphs : HashMap SubgraphId Subgraph
  pub evaluation_stack : List NodeId
  pub construction_subgraphs : List SubgraphId
  pub next_node_id : ℕ
  pub next_subgraph_id : ℕ

abbrev pub frame : AttributeGraph → Frame
frame g = record {
  id = g.id;
  subgraphs = g.subgraphs;
  evaluation_stack = g.evaluation_stack;
  construction_subgraphs = g.construction_subgraphs;
  next_node_id = g.next_node_id;
  next_subgraph_id = g.next_subgraph_id;
}

pub data Outcome (A : Type 0) : Type 0 where
  returned : A → Outcome A
  failed : GraphError → Outcome A
  panicked : Outcome A
  out_of_fuel : Outcome A

abbrev pub Action : Type 0 → Type 0
Action A = AttributeGraph → Outcome A × AttributeGraph

module _ {A : Type 0} where
  -- `Option::expect` and `Option::ok_or`
  abbrev pub expect : Option A → Outcome A
  expect none = panicked
  expect (some a) = returned a

  abbrev pub ok_or : Option A → GraphError → Outcome A
  ok_or none e = failed e
  ok_or (some a) e = returned a

  abbrev pub pure : A → Action A
  pure a g = (returned a, g)

  abbrev pub observe : (AttributeGraph → Outcome A) → Action A
  observe f g = (f g, g)

  abbrev pub gets : (AttributeGraph → A) → Action A
  gets f g = (returned (f g), g)

  abbrev pub fail : GraphError → Action A
  fail e g = (failed e, g)

  -- `Result::expect`
  abbrev pub expect_ok : Outcome A → Outcome A
  expect_ok (failed _) = panicked
  expect_ok other = other

abbrev pub update : (AttributeGraph → AttributeGraph) → Action (Unit {0})
update f g = (returned tt, f g)

module _ {A B : Type 0} where
  -- The `?` operator in a `&self` method.
  abbrev pub and_then : Outcome A → (A → Outcome B) → Outcome B
  and_then (returned a) f = f a
  and_then (failed e) f = failed e
  and_then panicked f = panicked
  and_then out_of_fuel f = out_of_fuel

  abbrev pub continue : Outcome A → (A → Action B) → Action B
  continue (returned a) f g = f a g
  continue (failed e) f g = (failed e, g)
  continue panicked f g = (panicked, g)
  continue out_of_fuel f g = (out_of_fuel, g)

  infixl 5 ◌>>=◌ ◌>>◌
  abbrev pub ◌>>=◌ : Action A → (A → Action B) → Action B
  ◌>>=◌ m f g = let (outcome, g') = m g in continue outcome f g'

  abbrev pub ◌>>◌ : Action A → Action B → Action B
  m >> n = m >>= λ _. n

-- A split on whether a computed outcome is a return.
pub Outcome-cases :
    {A : Type 0} (o : Outcome A) → ((a : A) × (o ≡ returned a)) ⊎ ((a : A) → o ≡ returned a → ⊥)
Outcome-cases (returned a) = inl (a, refl)
Outcome-cases (failed e) = inr (λ a h. cc)
Outcome-cases panicked = inr (λ a h. cc)
Outcome-cases out_of_fuel = inr (λ a h. cc)

-- Past a step that returns, an action is the rest of it; past one that does not, nothing runs.
pub bind-returned :
    {A B : Type 0} (o : Outcome A) (a : A) (f : A → Action B) (g : AttributeGraph)
    → o ≡ returned a
    → continue o f g ≡ f a g
bind-returned o a f g h = rw h

pub bind-stopped :
    {A B : Type 0} (o : Outcome A) (f : A → Action B) (g : AttributeGraph)
    → ((a : A) → o ≡ returned a → ⊥)
    → ((continue o f g).1 ≡ g) × ((b : B) → (continue o f g).0 ≡ returned b → ⊥)
bind-stopped (returned a) f g h = absurd (h a refl)
bind-stopped (failed e) f g h = (refl, λ b k. cc)
bind-stopped panicked f g h = (refl, λ b k. cc)
bind-stopped out_of_fuel f g h = (refl, λ b k. cc)

-- What holds before a step and after each way on holds after the whole.
pub continue_rule {ℓ} :
    {A B : Type 0} (P : AttributeGraph → Type ℓ) (o : Outcome A) (f : A → Action B)
    (g : AttributeGraph)
    → P g
    → ((a : A) → o ≡ returned a → P (f a g).1)
    → P (continue o f g).1
continue_rule P (returned a) f g p h = h a refl
continue_rule P (failed e) f g p h = p
continue_rule P panicked f g p h = p
continue_rule P out_of_fuel f g p h = p

-- A sequence that returns has a first step that returns.
pub continue_returned :
    {A B : Type 0} (o : Outcome A) (f : A → Action B) (g : AttributeGraph) (b : B)
    → (continue o f g).0 ≡ returned b
    → (a : A) × (o ≡ returned a) × ((f a g).0 ≡ returned b)
continue_returned (returned a) f g b h = (a, refl, h)
continue_returned (failed e) f g b h = cc
continue_returned panicked f g b h = cc
continue_returned out_of_fuel f g b h = cc

pub returned_injective : {A : Type 0} {a b : A} → returned a ≡ returned b → a ≡ b
returned_injective e = cc
