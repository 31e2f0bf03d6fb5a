-- ===== src/Diff.antt =====
-- The crate under diff/: snapshots of a graph, what changed between two, and how that is shown.
pub mod Snapshot
pub mod Change
pub mod Timeline
pub mod Render
pub mod Args
