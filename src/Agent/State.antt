-- ===== src/Agent/State.antt =====
-- The state of the agent, and what it calls: the GraphQL API of Dagster Cloud, the clock, the
-- thread pool, and the user code launcher. Times are counted in microseconds.
use dagster_cloud.Prelude.{ℕ, String, Bool, Option, List}
use dagster_cloud.Exec.{Error, Result, Exec}
use dagster_cloud.Dict.{Dict}
use dagster_cloud.Launcher.Types.{
  DeploymentAndLocation, CodeDeploymentMetadata, UserCodeLauncherEntry,
}
use dagster_cloud.Agent.Api.{JsonRequest, Deserialize}

-- (deployment_name, location_name, is_branch_deployment)
abbrev pub LocationKey : Type 0
LocationKey = String × (String × Bool)

-- DagsterCloudApiFutureContext: a future is known by its number
pub record FutureContext : Type 0 where
  pub future : ℕ
  pub timeout : ℕ

pub record Agent (W : Type 0) : Type 0 where
  pub iteration : ℕ
  pub request_ids_to_future_context : Dict String FutureContext
  pub pending_requests : List JsonRequest
  pub locations_with_pending_requests : List LocationKey
  pub ready_requests : List JsonRequest
  pub location_query_times : Dict LocationKey ℕ
  pub pending_requests_limit : ℕ
  pub active_deployments : List (String × Bool)
  pub last_workspace_check_time : Option ℕ
  pub world : W

pub record WorkspaceEntry : Type 0 where
  pub location_name : String
  -- what deserialize_as makes of serializedDeploymentMetadata
  pub deployment_metadata : Result CodeDeploymentMetadata
  pub has_outdated_data : Bool
  pub metadata_timestamp : ℕ

pub record DeploymentResult : Type 0 where
  pub deployment_name : String
  pub is_branch_deployment : Bool
  pub workspace_entries : List WorkspaceEntry

-- Each call may raise, except for the clock and the observations, and changes the world in
-- whatever way.
pub record Cloud (W : Type 0) : Type 0 where
  pub now : W → ℕ × W
  pub deserialize : Deserialize
  -- popUserCloudAgentRequests, for the branch deployments or for one deployment
  pub pop_branch_requests : Exec W (List JsonRequest)
  pub pop_requests : String → Exec W (List JsonRequest)
  -- DagsterCloudUserCodeLauncher.has_grpc_endpoint
  pub has_grpc_endpoint : DeploymentAndLocation → W → Bool × W
  -- the thread pool: `self._executor.submit(self._process_api_request, …)`, and its futures
  pub submit : JsonRequest → ℕ → Exec W ℕ
  pub done : ℕ → W → Bool × W
  pub result : ℕ → Exec W (Option Error)
  -- WORKSPACE_ENTRIES_QUERY
  pub query_workspace_entries : List String → Bool → Exec W (List DeploymentResult)
  -- DagsterCloudUserCodeLauncher.update_grpc_metadata, update_run_worker_monitoring_deployments
  pub update_grpc_metadata : Dict DeploymentAndLocation UserCodeLauncherEntry → Exec W (Unit {0})
  pub update_run_worker_monitoring_deployments : List String → Exec W (Unit {0})
  pub add_upload_metadata : Dict DeploymentAndLocation UserCodeLauncherEntry → Exec W (Unit {0})

-- The settings of the instance and of its user code launcher that the agent reads.
pub record Settings : Type 0 where
  pub deployment_names : List String
  pub includes_branch_deployments : Bool
  pub include_all_serverless_deployments : Bool
  pub server_ttl_enabled_for_full_deployments : Bool
  pub full_deployment_ttl_seconds : ℕ
  pub branch_deployment_ttl_seconds : ℕ
  pub server_ttl_max_servers : ℕ
