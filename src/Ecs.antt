-- ===== src/Ecs.antt =====
-- dagster-cloud/dagster_cloud/workspace/ecs
pub mod Client
pub mod Services
