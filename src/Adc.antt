-- ===== src/Adc.antt =====
-- The ADC service, `src/backend/adc/service.py`: releases of architecture documents, and the numbered
-- revisions in which each project amends, overrides or exempts them.
pub mod Documents
pub mod Effective
pub mod Store
pub mod Releases
pub mod Revise
