-- ===== src/Identity.antt =====
-- src/identity.rs: the identities of graphs, nodes and subgraphs, and the process-wide counter that
-- numbers graphs. A `u64` is a number below `u64_bound`.
pub mod Fresh
pub mod Display
use attribute_graph.Common.{
  ℕ, ◌+◌, ◌^◌, ◌≡◌, ap, Bool, true, false, Option, none, some, if◌then◌else◌, ltb, eqb, Key,
  nat_key, pair_key, key_by, pair_beq, pair_lt, arith,
}

abbrev pub u64_bound : ℕ
u64_bound = 18446744073709551616

-- `u64::checked_add(1)`
unfoldable pub checked_increment : ℕ → Option ℕ
checked_increment n = if ltb (n + 1) u64_bound then some (n + 1) else none

abbrev pub GraphId : Type 0
GraphId = ℕ

pub record NodeId : Type 0 where
  pub graph : GraphId
  pub local : ℕ

pub record SubgraphId : Type 0 where
  pub graph : GraphId
  pub local : ℕ

abbrev node_id_fields : NodeId → ℕ × ℕ
node_id_fields id = (id.graph, id.local)

abbrev subgraph_id_fields : SubgraphId → ℕ × ℕ
subgraph_id_fields id = (id.graph, id.local)

node_id_injective : (a b : NodeId) → node_id_fields a ≡ node_id_fields b → a ≡ b
node_id_injective a b e =
    ap (λ (p : ℕ × ℕ). let id : NodeId = record { graph = p.0; local = p.1 } in id) e

subgraph_id_injective : (a b : SubgraphId) → subgraph_id_fields a ≡ subgraph_id_fields b → a ≡ b
subgraph_id_injective a b e =
    ap (λ (p : ℕ × ℕ). let id : SubgraphId = record { graph = p.0; local = p.1 } in id) e

instance unfoldable pub node_id_key : Key NodeId
unfolding node_id_injective pair_beq pair_lt
node_id_key = key_by node_id_fields node_id_injective (pair_key nat_key nat_key)

instance unfoldable pub subgraph_id_key : Key SubgraphId
unfolding subgraph_id_injective pair_beq pair_lt
subgraph_id_key = key_by subgraph_id_fields subgraph_id_injective (pair_key nat_key nat_key)

-- `next_graph_id`, from the value of `NEXT_GRAPH_ID` to the id and the new value. The update is one
-- atomic step, so calls of several threads are calls in some order. `none` is the panic.
unfoldable pub next_graph_id : ℕ → Option (GraphId × ℕ)
unfolding checked_increment
next_graph_id counter = elim (checked_increment counter) [
  | none ↦ none
  | some next ↦ some (counter, next)
]
