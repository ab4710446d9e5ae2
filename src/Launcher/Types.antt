-- ===== src/Launcher/Types.antt =====
-- The values that user_code_launcher.py and pex/grpc/types.py pass around. Times are counted in
-- microseconds. A server handle, the type variable `ServerHandle`, is a number, as the process
-- identifiers of process.py are.
use dagster_cloud.Prelude.{
  ℕ, ◌/◌, String, Bool, true, false, not, Option, none, some, List, ◌==◌, string_eq, is_some,
}
use dagster_cloud.Exec.{Error}
use dagster_cloud.Dict.{Dict}

-- DeploymentAndLocation: (deployment_name, location_name)
abbrev pub DeploymentAndLocation : Type 0
DeploymentAndLocation = String × String

-- The fields of the imported CodeDeploymentMetadata that the code reads: the pex tag stands for its
-- PexMetadata, and the container context and the code's coordinates are serialized.
pub record CodeDeploymentMetadata : Type 0 where
  pub image : Option String
  pub pex_metadata : Option String
  pub container_context : String
  pub code : String

pub record UserCodeLauncherEntry : Type 0 where
  pub code_deployment_metadata : CodeDeploymentMetadata
  pub update_timestamp : ℕ
  pub sandbox_saved_timestamp : Option ℕ

pub record ServerEndpoint : Type 0 where
  pub host : String
  pub port : Option ℕ
  pub socket : Option String
  pub metadata : Option (List (String × String))

pub record DagsterCloudGrpcServer : Type 0 where
  pub server_handle : ℕ
  pub server_endpoint : ServerEndpoint
  pub code_deployment_metadata : CodeDeploymentMetadata

-- Union[DagsterCloudGrpcServer, SerializableErrorInfo]
pub data ServerOrError : Type 0 where
  running : DagsterCloudGrpcServer → ServerOrError
  failed : Error → ServerOrError

pub record PexServerHandle : Type 0 where
  pub deployment_name : String
  pub location_name : String
  pub metadata_update_timestamp : ℕ

-- int(timestamp)
abbrev pub seconds : ℕ → ℕ
seconds t = t / 1000000

-- The truth value of an optional text.
abbrev pub present : Option String → Bool
present none = false
present (some s) = not (s == "")

abbrev pub has_pex : CodeDeploymentMetadata → Bool
has_pex m = is_some m.pex_metadata

abbrev pub is_error : Option ServerOrError → Bool
is_error (some (failed e)) = true
is_error _ = false

-- What `_reconcile` owns of the launcher: no other thread writes it. `world` is all that the
-- operations of the subclasses and of the remote services read and change.
pub record Servers (W : Type 0) : Type 0 where
  pub grpc_servers : Dict DeploymentAndLocation ServerOrError
  pub multipex_servers : Dict DeploymentAndLocation DagsterCloudGrpcServer
  pub actual_entries : Dict DeploymentAndLocation UserCodeLauncherEntry
  pub world : W
