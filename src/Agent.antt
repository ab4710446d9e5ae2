-- ===== src/Agent.antt =====
-- dagster-cloud/dagster_cloud/agent/dagster_cloud_agent.py
pub mod Api
pub mod State
pub mod Locations
pub mod Iteration
pub mod Workspace
pub mod MainLoop
pub mod Handler
