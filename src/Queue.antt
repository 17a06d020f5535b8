-- ===== src/Queue.antt =====
-- The indexing queue: backend/queue/models.py and backend/queue/streams.py.
pub mod Job
pub mod Status
pub mod History
pub mod Redis
pub mod Watch
pub mod Ack
pub mod Publish
pub mod Claim
pub mod Finish
pub mod Quarantine
pub mod Recover
pub mod Fencing
pub mod Safety
pub mod Rounds
pub mod Consume
