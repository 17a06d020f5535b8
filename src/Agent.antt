-- ===== src/Agent.antt =====
-- `agent/query_strategy.py`.
pub mod Budget
pub mod Quality
pub mod Fallback
pub mod Strategy
