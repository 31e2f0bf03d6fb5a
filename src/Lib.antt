-- ===== src/Lib.antt =====
-- attribute-graph: a graph of cached values. Sources hold values that the host writes; derived nodes
-- compute theirs by a rule, whose reads are recorded as dependencies; a write marks what may be out of
-- date, and a read brings up to date what it needs. Beside it stands a visualizer, which keeps snapshots of
-- a graph, compares them and renders them. This library models the crates under src/ and diff/src/ of the
-- repository; its files and the code:
--
--   Identity   src/identity.rs: ids and the counter `next_graph_id`
--   Value      src/value.rs: `TypeDescriptor`, `ValueStorage`, the change test; Value.Bytes and
--              Value.Convert are the conversions of bool, i64 and String (two's complement, UTF-8)
--   Error      src/error.rs: `GraphError`
--   Rule       src/rule.rs: `RuleDescriptor`, and what a host's callback can do
--   Dependency src/dependency.rs
--   Node       src/node.rs
--   Subgraph   src/subgraph.rs
--   Attribute  src/attribute.rs and the typed methods of src/graph.rs
--   Graph      src/graph.rs, by methods: State (the fields of `AttributeGraph`), Guards (`ensure_*`),
--              Propagate (`mark_changed`, `mark_unchanged`, `mark_clean`), Commit (`has_path`,
--              `commit_dependencies`), Evaluate (`read_value`, `update_node`, the validation and
--              recomputation), Mutate (`add_source`, `add_derived`, `set_source_value`, `remove_node`),
--              Query (listings and `topological_order`), and Scopes, which is src/graph/subgraphs.rs.
--              Invariant states when a graph is well-formed; modules below a component prove.
--   Diff       diff/src: Snapshot (snapshot.rs), Change (change.rs), Timeline (timeline.rs), Render
--              (render.rs: Names is what the formats share, Text, Mermaid and Dot are the formats, Scopes is
--              the walk over nested subgraphs), and Args, the command line of main.rs.
--   Examples   a small graph and the theorems at examples.
--   Common     Boolean tests, keys with a decidable order, HashSet, HashMap, BTreeMap and sorting, and what
--              `format!` does with numbers and texts.
--
-- A method with `&mut self` is a function from the graph to an outcome and the graph: a value, a
-- `GraphError`, a panic, or the end of the fuel. A method with `&self` is a function to the outcome or to
-- the value. After an error or a panic the graph is the one that the method left behind.
--
-- HashSet and HashMap are lists without repetitions of entries. Their iteration order, which Rust leaves
-- open, is the order of insertion; the code sorts wherever the order can be seen, save for which of
-- several errors `commit_dependencies` reports.
--
-- A rule's callback is host code. It reaches the graph through `EvaluationContext` alone, so it is a tree:
-- a read, whose answer chooses the rest, a write of the output, a return or an unwinding panic. That it is
-- a function of the answers it gets is the contract of src/rule.rs; the theorems hold for every tree. A
-- panic of a nested read is one of the answers, since a rule may catch it and go on.
--
-- Numbers: a u64 is a natural number below 2^64, and the checked increments panic at the bound.
--
-- Loops run on fuel. `has_path` and `mark_unchanged` have as many rounds as there are edges, and one: a
-- node puts its edges on the work list once. `mark_changed` has as many as there are edges and nodes: the
-- direct dependents are queued at first, and then each node once at most. `topological_order` has as many
-- as there are nodes, and `subgraph_postorder` twice the number of subgraphs. Validation nests through
-- the rules' reads, as deep as the fuel that `read_value` and `update_node` take; rules that recurse
-- without end have no bound in the code either.
--
-- A function of the visualizer that writes to an output is one that gives what it writes. `{:?}` of a text
-- escapes by tables of Unicode that are not part of the repository: it is a parameter. The walk over nested
-- subgraphs has as many levels as the snapshot has subgraphs; in a snapshot where subgraphs contain each
-- other in a circle the code has no bound either. Readers of the DOT language are not part of the repository:
-- the theorem about `dot_escape` takes one as a parameter, with what the language's documentation says.
--
-- Not modelled: the accessors that only return a field, and of diff/src/main.rs the built-in scenarios, whose
-- rules hold raw pointers, and the printing. Memory safety of the host's handles is the host's.
pub mod Common
pub mod Identity
pub mod Value
pub mod Error
pub mod Rule
pub mod Dependency
pub mod Node
pub mod Subgraph
pub mod Graph
pub mod Attribute
pub mod Diff
pub mod Examples
