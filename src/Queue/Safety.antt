-- ===== src/Queue/Safety.antt =====
-- The abstract queue: its invariant, its steps, and what they keep.
pub mod Invariant
pub mod Rewrite
pub mod Writes
pub mod Handlers
pub mod Removal
pub mod Acknowledge
pub mod Arrival
pub mod Publication
pub mod Steps
pub mod Refinement
