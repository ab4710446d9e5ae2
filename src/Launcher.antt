-- ===== src/Launcher.antt =====
-- dagster-cloud/dagster_cloud/workspace/user_code_launcher/user_code_launcher.py
pub mod Types
pub mod Backend
pub mod Metadata
pub mod Multipex
pub mod Endpoints
pub mod Upload
pub mod Round
pub mod CleanUp
pub mod Wait
pub mod ProcessLauncher
pub mod Names
pub mod RunMonitoring
pub mod Settings
pub mod Reconcile
