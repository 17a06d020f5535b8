-- ===== src/Graph.antt =====
-- `graph/analyzer.py`.
pub mod Calls
pub mod Cycles
pub mod Depth
pub mod Measures
