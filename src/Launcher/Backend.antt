-- ===== src/Launcher/Backend.antt =====
-- What user_code_launcher.py calls and does not define: the abstract methods that a subclass
-- implements, the clients of the code servers and of Dagster Cloud, and functions of dagster.
use dagster_cloud.Prelude.{
  ℕ, String, ◌≡◌, Bool, Option, none, some, List, contains, IsDistinct, string_eq, pair_eq,
}
use dagster_cloud.Exec.{Error, Exec}
use dagster_cloud.Dict.{Dict, lookup}
use dagster_cloud.Launcher.Types.{
  DeploymentAndLocation, CodeDeploymentMetadata, UserCodeLauncherEntry, ServerEndpoint,
  DagsterCloudGrpcServer, PexServerHandle,
}

pub record JobSelector : Type 0 where
  pub location_name : String
  pub repository_name : String
  pub job_name : String

pub record ExternalJobResponse : Type 0 where
  pub serialized_job_data : Option String
  pub serialized_error : Option String

pub record ListRepositoriesResponse : Type 0 where
  pub repository_code_pointer_dict : List (String × String)
  pub executable_path : Option String

pub record UploadRepositoryData : Type 0 where
  pub repository_name : String
  pub code_pointer : String
  pub serialized_repository_data : String

pub record UploadLocationData : Type 0 where
  pub upload_repository_datas : List UploadRepositoryData
  pub container_image : Option String
  pub executable_path : Option String

pub record UploadWorkspaceEntry : Type 0 where
  pub location_name : String
  pub deployment_metadata : CodeDeploymentMetadata
  pub upload_location_data : Option UploadLocationData
  pub serialized_error_info : Option Error

pub record UploadWorkspaceResponse : Type 0 where
  pub updated : Bool
  pub missing_job_snapshots : Option (List JobSelector)

-- Each operation may raise, and changes the world in whatever way.
pub record Backend (W : Type 0) : Type 0 where
  -- the methods that the subclasses implement
  pub requires_images : Bool
  pub get_standalone_handles : DeploymentAndLocation → Exec W (List ℕ)
  pub get_multipex_handles : DeploymentAndLocation → Exec W (List ℕ)
  pub start_new_server_spinup :
      DeploymentAndLocation → CodeDeploymentMetadata → Exec W DagsterCloudGrpcServer
  pub wait_for_new_multipex_server : DeploymentAndLocation → ServerEndpoint → Exec W (Unit {0})
  pub wait_for_new_server_ready :
      DeploymentAndLocation → CodeDeploymentMetadata → ℕ → ServerEndpoint → Exec W (Unit {0})
  pub remove_server_handle : ℕ → Exec W (Unit {0})
  -- MultiPexGrpcClient, pex/grpc/client.py
  pub ping : ServerEndpoint → Exec W (Unit {0})
  pub get_pex_servers : ServerEndpoint → DeploymentAndLocation → Exec W (List PexServerHandle)
  pub create_pex_server :
      ServerEndpoint → PexServerHandle → CodeDeploymentMetadata → Exec W (Unit {0})
  pub shutdown_pex_server : ServerEndpoint → PexServerHandle → Exec W (Unit {0})
  -- DagsterGrpcClient, of dagster
  pub list_repositories : ServerEndpoint → Exec W ListRepositoriesResponse
  pub streaming_external_repository : ServerEndpoint → String → String → Bool → Exec W (List String)
  pub get_current_image : ServerEndpoint → Exec W (Option String)
  pub external_job : ServerEndpoint → JobSelector → Exec W ExternalJobResponse
  -- the POST requests to Dagster Cloud
  pub post_workspace_entry : String → UploadWorkspaceEntry → Exec W UploadWorkspaceResponse
  pub post_job_snapshot : String → String → Exec W (Unit {0})

-- The functions of Python and dagster that the code relies on, with what they are known to do.
pub record Runtime : Type 0 where
  -- the order in which a set is iterated
  pub iterate : List DeploymentAndLocation → List DeploymentAndLocation
  pub contains-iterate :
      (k : DeploymentAndLocation) (l : List DeploymentAndLocation)
      → contains k (iterate l) ≡ contains k l
  pub iterate-IsDistinct : (l : List DeploymentAndLocation) → IsDistinct l → IsDistinct (iterate l)
  -- dagster._utils.merge_dicts: the second dictionary wins
  pub merge_dicts :
      Dict DeploymentAndLocation UserCodeLauncherEntry
      → Dict DeploymentAndLocation UserCodeLauncherEntry
      → Dict DeploymentAndLocation UserCodeLauncherEntry
  pub lookup-merge_dicts :
      (k : DeploymentAndLocation) (a b : Dict DeploymentAndLocation UserCodeLauncherEntry)
      → lookup k (merge_dicts a b)
        ≡ elim (lookup k b) [ none ↦ lookup k a | some entry ↦ some entry ]
  -- dagster._serdes.utils.create_snapshot_id
  pub create_snapshot_id : UserCodeLauncherEntry → String
