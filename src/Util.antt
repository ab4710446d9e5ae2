-- ===== src/Util.antt =====
-- dagster-cloud/dagster_cloud/util/__init__.py
pub mod Diff
pub mod Env
