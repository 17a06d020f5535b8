-- ===== src/Policy.antt =====
-- The Azure policy monitor, `extensions/azure-policy-monitor/src/policy_monitor`: the comparison of two
-- snapshots of the deployed policies.
pub mod Snapshot
pub mod Findings
pub mod Changes
pub mod Diff
