-- ===== src/Launcher/Upload.antt =====
-- The upload of a location's data, or of its error, to Dagster Cloud.
pub mod Frame
use dagster_cloud.Prelude.{
  String, Bool, true, false, not, Option, none, some, List, [], ◌∷◌, if◌then◌else◌, concat,
}
use dagster_cloud.Exec.{
  Error, raised, check_error, Result, ok, err, Exec, pure, raise, catch, ◌>>=◌, ◌>>◌, for_each,
}
use dagster_cloud.Launcher.Types.{
  DeploymentAndLocation, CodeDeploymentMetadata, ServerEndpoint, ServerOrError, running, failed,
  Servers, present,
}
use dagster_cloud.Launcher.Backend.{
  Backend, JobSelector, UploadRepositoryData, UploadLocationData, UploadWorkspaceEntry,
  ExternalJobResponse, ListRepositoriesResponse, UploadWorkspaceResponse,
}
use dagster_cloud.Launcher.Multipex.{on_world}
use dagster_cloud.Launcher.Endpoints.{get_grpc_endpoint}

-- The outcome of a future: its result, or the exception that it holds.
unfoldable pub attempt : {S A : Type 0} → Exec S A → Exec S (Result A)
attempt m = catch (do a ← m; pure (ok a)) (λ e. pure (err e))

-- future.result()
unfoldable pub result : {S A : Type 0} → Result A → Exec S A
result (ok a) = pure a
result (err e) = raise e

abbrev text_or : Option String → String
text_or none = ""
text_or (some s) = s

module _ {W : Type 0} (b : Backend W) (defer_job_snapshots : Bool) where
  unfoldable pub upload_job_snapshot : String → JobSelector → Exec (Servers W) (Unit {0})
  upload_job_snapshot deployment_name job_selector = do
    endpoint ← get_grpc_endpoint (deployment_name, job_selector.location_name)
    response ← on_world (b.external_job endpoint job_selector)
    if not (present response.serialized_job_data)
        then raise (raised "Error fetching job data in code server")
        else on_world (b.post_job_snapshot deployment_name (text_or response.serialized_job_data))

  -- The futures of the thread pool, all of which run whatever the others do.
  unfoldable pub submit_all :
      String → List JobSelector → Exec (Servers W) (List (Result (Unit {0})))
  submit_all deployment_name [] = pure []
  submit_all deployment_name (job_selector ∷ rest) = do
    future ← attempt (upload_job_snapshot deployment_name job_selector)
    futures ← submit_all deployment_name rest
    pure (future ∷ futures)

  unfoldable pub upload_missing :
      String → UploadWorkspaceEntry → Option (List JobSelector) → Exec (Servers W) (Unit {0})
  upload_missing deployment_name workspace_entry none = raise check_error
  upload_missing deployment_name workspace_entry (some missing) = do
    futures ← submit_all deployment_name missing
    for_each futures result
    response ← on_world (b.post_workspace_entry deployment_name workspace_entry)
    if response.updated then pure tt else raise check_error

  -- _update_workspace_entry
  unfoldable pub update_workspace_entry :
      String → UploadWorkspaceEntry → Exec (Servers W) (Unit {0})
  update_workspace_entry deployment_name workspace_entry = do
    response ← on_world (b.post_workspace_entry deployment_name workspace_entry)
    if response.updated
        then pure tt
        else upload_missing deployment_name workspace_entry response.missing_job_snapshots

  unfoldable pub upload_repository_datas :
      ServerEndpoint
      → String
      → List (String × String)
      → Exec (Servers W) (List UploadRepositoryData)
  upload_repository_datas client location_name [] = pure []
  upload_repository_datas client location_name ((repository_name, code_pointer) ∷ rest) = do
    chunks ←
        on_world
          (b.streaming_external_repository client location_name repository_name defer_job_snapshots)
    datas ← upload_repository_datas client location_name rest
    pure (
        record {
          repository_name = repository_name;
          code_pointer = code_pointer;
          serialized_repository_data = concat chunks;
        }
        ∷ datas)

  -- _get_upload_location_data
  unfoldable pub get_upload_location_data :
      DeploymentAndLocation → Exec (Servers W) UploadLocationData
  get_upload_location_data key = do
    client ← get_grpc_endpoint key
    response ← on_world (b.list_repositories client)
    datas ← upload_repository_datas client key.1 response.repository_code_pointer_dict
    image ← on_world (b.get_current_image client)
    pure (record {
      upload_repository_datas = datas;
      container_image = image;
      executable_path = response.executable_path;
    })

  -- _update_location_error
  unfoldable pub update_location_error :
      DeploymentAndLocation → Error → CodeDeploymentMetadata → Exec (Servers W) (Unit {0})
  update_location_error key error_info metadata = update_workspace_entry key.0 (record {
    location_name = key.1;
    deployment_metadata = metadata;
    upload_location_data = none;
    serialized_error_info = some error_info;
  })

  unfoldable pub load_location :
      DeploymentAndLocation → CodeDeploymentMetadata → Exec (Servers W) (Unit {0})
  load_location key metadata = do
    location_data ← get_upload_location_data key
    update_workspace_entry key.0 (record {
      location_name = key.1;
      deployment_metadata = metadata;
      upload_location_data = some location_data;
      serialized_error_info = none;
    })

  unfoldable pub write_location :
      DeploymentAndLocation → ServerOrError → CodeDeploymentMetadata → Exec (Servers W) (Unit {0})
  write_location key (failed e) metadata = update_location_error key e metadata
  write_location key (running server) metadata =
      catch (load_location key metadata) (λ e. update_location_error key e metadata)

  -- _update_location_data
  unfoldable pub update_location_data :
      DeploymentAndLocation → ServerOrError → CodeDeploymentMetadata → Exec (Servers W) (Unit {0})
  update_location_data key server_or_error metadata =
      catch (write_location key server_or_error metadata) (λ _. pure tt)
