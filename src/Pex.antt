-- ===== src/Pex.antt =====
-- dagster-cloud/dagster_cloud/pex/grpc
pub mod Registry
pub mod Manager
pub mod Proxy
