-- ===== src/Graph.antt =====
-- src/graph.rs and src/graph/subgraphs.rs: the runtime. `State` holds the struct and the way its methods
-- are written here; the other modules hold the methods by what they do.
pub mod State
pub mod Guards
pub mod Propagate
pub mod Commit
pub mod Invariant
pub mod Evaluate
pub mod Mutate
pub mod Query
pub mod Scopes
