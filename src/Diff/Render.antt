-- ===== src/Diff/Render.antt =====
-- diff/src/render.rs: snapshots, diffs and sessions as text, as Mermaid flowcharts and as Graphviz graphs. A
-- function that writes to an output is one that gives what it writes.
pub mod Names
pub mod Text
pub mod Scopes
pub mod Mermaid
pub mod Dot
pub mod Quotes
