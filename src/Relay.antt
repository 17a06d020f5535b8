-- ===== src/Relay.antt =====
-- Relay sync batches: backend/cga_relay/storage.py.
pub mod Paths
pub mod Payload
pub mod Storage
