-- ===== src/Tests.antt =====
-- The theorems at concrete inputs, and runs of the definitions.
mod Queue
mod Relay
mod Adc
mod Auth
mod Policy
mod Schedules
mod Graph
mod Agent
