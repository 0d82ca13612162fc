-- ===== src/Graph.antt =====
-- internal/graph: nodes and edges over the key-value engine.
pub mod Store
pub mod Search
