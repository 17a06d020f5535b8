-- ===== src/Schedules.antt =====
-- Scheduled tasks: `src/backend/schedules/models.py` and `src/backend/schedules/service.py`.
pub mod Task
pub mod Table
pub mod Compact
pub mod Browser
pub mod Workflow
pub mod Collect
pub mod Execute
