-- ===== src/Execution.antt =====
-- dagster-cloud/dagster_cloud/execution
pub mod RunLauncher
