-- ===== src/Agent/Handler.antt =====
-- The handling of a request in a thread of the agent: `_handle_api_request`,
-- `_process_api_request` and `_upload_outdated_workspace_entries`.
pub mod Silence
pub mod Answers
use Prim.Native.String.{◌++◌}
use dagster_cloud.Prelude.{
  ℕ, String, Bool, true, false, not, ◌&&◌, Option, none, some, List, [], ◌∷◌, ◌==◌, string_eq,
  bool_eq, pair_eq, if◌then◌else◌,
}
use dagster_cloud.Exec.{
  Error, raised, Result, ok, err, Exec, pure, raise, gets, modify, catch, ◌>>=◌, ◌>>◌,
}
use dagster_cloud.Dict.{Dict, lookup, put}
use dagster_cloud.Launcher.Types.{
  DeploymentAndLocation, CodeDeploymentMetadata, UserCodeLauncherEntry, ServerEndpoint,
}
use dagster_cloud.Launcher.Upload.{result}
use dagster_cloud.Agent.Api.{
  DagsterCloudApi, DagsterCloudApiRequest, RequestArgs, PipelineRun, JsonRequest, pipeline_run,
  is_member, get_location_origin, missing_attribute, check_for_workspace_updates, load_repositories,
  get_external_execution_plan, get_subset_external_pipeline_result, get_external_partition_config,
  get_external_partition_tags, get_external_partition_names,
  get_external_partition_set_execution_param_data, get_external_schedule_execution_data,
  get_external_sensor_execution_data, get_external_notebook_data, launch_run, terminate_run,
  ping_location,
}
use dagster_cloud.Agent.State.{Agent, Cloud, LocationKey, WorkspaceEntry, DeploymentResult}
use dagster_cloud.Agent.Workspace.{to_entry}
use dagster_cloud.Agent.Iteration.{truthy, name_or, on_world, observe}

-- DagsterCloudApiSuccess, DagsterCloudApiUnknownCommandResponse, DagsterCloudApiErrorResponse,
-- DagsterCloudApiGrpcResponse
pub data ApiResponse : Type 0 where
  success : ApiResponse
  unknown_command : String → ApiResponse
  error_response : List Error → ApiResponse
  grpc_response : String → ApiResponse

-- DagsterCloudApiThreadTelemetry
pub record ThreadTelemetry : Type 0 where
  pub submitted_to_executor_timestamp : ℕ
  pub thread_start_run_timestamp : ℕ
  pub thread_end_handle_api_request_timestamp : ℕ

-- DagsterCloudUploadApiResponse
pub record UploadApiResponse : Type 0 where
  pub request_id : String
  pub request_api : String
  pub response : ApiResponse
  pub thread_telemetry : ThreadTelemetry

-- The agent's instance, and what the handling calls: the user code launcher, the clients of the
-- code servers, and the instance and the run launcher of a deployment.
pub record Services (W : Type 0) : Type 0 where
  pub agent_display_name : String
  pub dagster_cloud_api_agent_label : Option String
  pub instance_uuid : String
  pub agent_replicas_enabled : Bool
  pub get_grpc_endpoint : DeploymentAndLocation → Exec W ServerEndpoint
  -- the query of the client that the request is for, with the instance_ref of a deployment where
  -- the arguments get one
  pub query : ServerEndpoint → DagsterCloudApiRequest → Option String → Exec W String
  -- external_notebook_data, and `decode` of its response
  pub external_notebook_data : ServerEndpoint → DagsterCloudApiRequest → Exec W String
  pub report_engine_event : String → String → PipelineRun → Exec W (Unit {0})
  pub add_run_tags : String → String → List (String × String) → Exec W (Unit {0})
  pub launch_run_from_grpc_client : String → PipelineRun → ServerEndpoint → Exec W (Unit {0})
  pub launch_run : String → PipelineRun → Exec W (Unit {0})
  pub report_run_canceling : String → PipelineRun → Exec W (Unit {0})
  pub terminate : String → String → Exec W (Unit {0})
  -- upload_api_response
  pub upload_api_response : String → UploadApiResponse → Exec W (Unit {0})

abbrev pub run_of : RequestArgs → Result PipelineRun
run_of (pipeline_run run) = ok run
run_of _ = err missing_attribute

abbrev pub first_deployment : List DeploymentResult → Result DeploymentResult
first_deployment [] = err (raised "IndexError")
first_deployment (d ∷ ds) = ok d

abbrev pub location_of_run : Option String → Result String
location_of_run none = err missing_attribute
location_of_run (some location_name) = ok location_name

-- the tags of a run that the agent launches
abbrev pub agent_tags : Option String → String → List (String × String)
agent_tags label uuid =
    if truthy label
    then ("dagster/agent_label", name_or label) ∷ ("dagster/agent_id", uuid) ∷ []
    else ("dagster/agent_id", uuid) ∷ []

-- run.tags.get("dagster/isolation") == "disabled"
abbrev pub is_isolation_disabled : Option String → Bool
is_isolation_disabled none = false
is_isolation_disabled (some value) = value == "disabled"

module _ {W : Type 0} (c : Cloud W) where
  -- for entry in entries: the entries with outdated data are to be uploaded, and count as queried
  unfoldable pub outdated_entries :
      String
      → Bool
      → ℕ
      → List WorkspaceEntry
      → Dict DeploymentAndLocation UserCodeLauncherEntry
      → Exec (Agent W) (Dict DeploymentAndLocation UserCodeLauncherEntry)
  outdated_entries deployment_name is_branch_deployment now [] upload_metadata =
      pure upload_metadata
  outdated_entries deployment_name is_branch_deployment now (entry ∷ entries) upload_metadata = do
    deployment_metadata ← result entry.deployment_metadata
    if entry.has_outdated_data
        then (do
          modify (λ s. record s {
            location_query_times =
                put (deployment_name, (entry.location_name, is_branch_deployment)) now
                  s.location_query_times;
          })
          outdated_entries deployment_name is_branch_deployment now entries (
              put (deployment_name, entry.location_name) (to_entry entry deployment_metadata)
                upload_metadata))
        else outdated_entries deployment_name is_branch_deployment now entries upload_metadata

  unfoldable pub upload_outdated_workspace_entries : String → Bool → Exec (Agent W) (Unit {0})
  upload_outdated_workspace_entries deployment_name is_branch_deployment = do
    deployments ← on_world (c.query_workspace_entries (deployment_name ∷ []) false)
    deployment ← result (first_deployment deployments)
    now ← observe c.now
    upload_metadata ←
        outdated_entries deployment_name is_branch_deployment now deployment.workspace_entries []
    on_world (c.add_upload_metadata upload_metadata)

module _ {W : Type 0} (c : Cloud W) (services : Services W) where
  -- `_get_grpc_client`, then a query of the client
  unfoldable pub ask_server :
      DagsterCloudApiRequest → DeploymentAndLocation → Option String → Exec (Agent W) ApiResponse
  ask_server request key instance_ref = do
    client ← on_world (services.get_grpc_endpoint key)
    response ← on_world (services.query client request instance_ref)
    pure (grpc_response response)

  unfoldable pub ask_notebook :
      DagsterCloudApiRequest → DeploymentAndLocation → Exec (Agent W) ApiResponse
  ask_notebook request key = do
    client ← on_world (services.get_grpc_endpoint key)
    response ← on_world (services.external_notebook_data client request)
    pure (grpc_response response)

  -- the run without an isolated environment
  unfoldable pub launch_in_server : String → PipelineRun → Exec (Agent W) (Unit {0})
  launch_in_server deployment_name run = do
    on_world (
        services.report_engine_event deployment_name
          ("Launching " ++ (run.run_id ++ " without an isolated run environment.")) run)
    location_name ← result (location_of_run run.origin_location_name)
    client ← on_world (services.get_grpc_endpoint (deployment_name, location_name))
    on_world (services.launch_run_from_grpc_client deployment_name run client)

  unfoldable pub handle_launch_run : DagsterCloudApiRequest → String → Exec (Agent W) ApiResponse
  handle_launch_run request deployment_name = do
    run ← result (run_of request.request_args)
    on_world (
        services.report_engine_event deployment_name
          (services.agent_display_name ++ (" is launching run " ++ run.run_id)) run)
    on_world (
        services.add_run_tags deployment_name run.run_id
          (agent_tags services.dagster_cloud_api_agent_label services.instance_uuid))
    if is_isolation_disabled (lookup "dagster/isolation" run.tags)
        then launch_in_server deployment_name run
        else on_world (services.launch_run deployment_name run)
    pure success

  unfoldable pub handle_terminate_run : DagsterCloudApiRequest → String → Exec (Agent W) ApiResponse
  handle_terminate_run request deployment_name = do
    run ← result (run_of request.request_args)
    if services.agent_replicas_enabled
        then (do
          on_world (
              services.report_engine_event deployment_name
                (services.agent_display_name ++ " received request to mark run as canceling") run)
          on_world (services.report_run_canceling deployment_name run))
        else (do
          on_world (
              services.report_engine_event deployment_name
                (services.agent_display_name ++ " received request to terminate run") run)
          on_world (services.terminate deployment_name run.run_id))
    pure success

  unfoldable pub handle_check : String → Bool → Exec (Agent W) ApiResponse
  handle_check deployment_name is_branch_deployment = do
    upload_outdated_workspace_entries c deployment_name is_branch_deployment
    pure success

  -- the branches of `_handle_api_request`; `key` is of the location of the request
  unfoldable pub handle_api :
      DagsterCloudApi
      → DagsterCloudApiRequest
      → String
      → Bool
      → DeploymentAndLocation
      → Exec (Agent W) ApiResponse
  handle_api ping_location request d branch key = pure success
  handle_api check_for_workspace_updates request d branch key = handle_check d branch
  handle_api get_external_execution_plan request d branch key = ask_server request key (some d)
  handle_api get_subset_external_pipeline_result request d branch key = ask_server request key none
  handle_api get_external_partition_config request d branch key = ask_server request key none
  handle_api get_external_partition_tags request d branch key = ask_server request key none
  handle_api get_external_partition_names request d branch key = ask_server request key none
  handle_api get_external_partition_set_execution_param_data request d branch key =
      ask_server request key none
  handle_api get_external_schedule_execution_data request d branch key =
      ask_server request key (some d)
  handle_api get_external_sensor_execution_data request d branch key =
      ask_server request key (some d)
  handle_api get_external_notebook_data request d branch key = ask_notebook request key
  handle_api launch_run request d branch key = handle_launch_run request d
  handle_api terminate_run request d branch key = handle_terminate_run request d
  handle_api _ request d branch key = raise (raised "Unhandled value")

  -- _handle_api_request
  unfoldable pub handle_api_request :
      DagsterCloudApiRequest → String → Bool → Exec (Agent W) ApiResponse
  handle_api_request request deployment_name is_branch_deployment = do
    location ← result (get_location_origin request.request_api request.request_args)
    handle_api request.request_api request deployment_name is_branch_deployment
        (deployment_name, name_or location)

  abbrev pub Answer : Type 0
  Answer = ApiResponse × Option Error

  unfoldable pub try_to_handle : JsonRequest → Exec (Agent W) Answer
  try_to_handle q = do
    request ← result (c.deserialize q.request_body)
    response ← handle_api_request request q.deployment_name q.is_branch_deployment
    pure (response, none)

  -- the response to a request, and the error
  unfoldable pub answer : JsonRequest → Exec (Agent W) Answer
  answer q =
      if is_member q.request_api
      then catch (try_to_handle q) (λ e. pure (error_response (e ∷ []), some e))
      else pure (unknown_command q.request_api, none)

  -- _process_api_request
  unfoldable pub process_api_request : JsonRequest → ℕ → Exec (Agent W) (Option Error)
  process_api_request q submitted = do
    started ← observe c.now
    (response, error_info) ← answer q
    finished ← observe c.now
    on_world (
        services.upload_api_response q.deployment_name (record {
          request_id = q.request_id;
          request_api = q.request_api;
          response = response;
          thread_telemetry = record {
            submitted_to_executor_timestamp = submitted;
            thread_start_run_timestamp = started;
            thread_end_handle_api_request_timestamp = finished;
          };
        }))
    pure error_info
