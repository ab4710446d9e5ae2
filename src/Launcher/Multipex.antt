-- ===== src/Launcher/Multipex.antt =====
-- The choice, creation and use of multipex servers, as actions of the launcher's servers.
pub mod Frame
use dagster_cloud.Prelude.{
  ℕ, String, Bool, true, false, not, ◌&&◌, Option, none, some, List, [], ◌∷◌, Eq, ◌==◌, string_eq,
  pair_eq, if◌then◌else◌, str,
}
use dagster_cloud.Exec.{
  Error, raised, key_error, assertion_error, Exec, pure, raise, gets, modify, ◌>>=◌, ◌>>◌, zoom,
  for_each,
}
use dagster_cloud.Dict.{Dict, lookup, put}
use dagster_cloud.Launcher.Types.{
  DeploymentAndLocation, CodeDeploymentMetadata, UserCodeLauncherEntry, ServerEndpoint,
  DagsterCloudGrpcServer, PexServerHandle, Servers, seconds, present, has_pex,
}
use dagster_cloud.Launcher.Backend.{Backend}

abbrev image_beq : Option String → Option String → Bool
image_beq none none = true
image_beq (some a) (some b) = a == b
image_beq _ _ = false

-- `server` can host code with this metadata
abbrev pub satisfies : DagsterCloudGrpcServer → CodeDeploymentMetadata → Bool
satisfies server metadata =
    image_beq server.code_deployment_metadata.image metadata.image
    && server.code_deployment_metadata.container_context == metadata.container_context

abbrev pub candidate :
    CodeDeploymentMetadata → Option DagsterCloudGrpcServer → Option DagsterCloudGrpcServer
candidate metadata none = none
candidate metadata (some server) = if satisfies server metadata then some server else none

-- _get_multipex_server
unfoldable pub get_multipex_server :
    Dict DeploymentAndLocation DagsterCloudGrpcServer
    → DeploymentAndLocation
    → CodeDeploymentMetadata
    → Option DagsterCloudGrpcServer
get_multipex_server multipex_servers key metadata =
    if has_pex metadata then candidate metadata (lookup key multipex_servers) else none

-- ServerEndpoint.with_metadata
abbrev with_metadata : ServerEndpoint → List (String × String) → ServerEndpoint
with_metadata endpoint pairs = record endpoint { metadata = some pairs }

-- d[k]
unfoldable pub get_item : {S V : Type 0} → Option V → Exec S V
get_item none = raise key_error
get_item (some v) = pure v

-- assert value
unfoldable pub assert_some : {S V : Type 0} → Option V → Exec S V
assert_some none = raise assertion_error
assert_some (some v) = pure v

module _ {W : Type 0} where
  -- An action of the world outside.
  unfoldable pub on_world : {A : Type 0} → Exec W A → Exec (Servers W) A
  on_world m = zoom (λ s. s.world) (λ w s. record s { world = w }) m

module _ {W : Type 0} (b : Backend W) where
  -- _check_for_image
  unfoldable pub check_for_image : CodeDeploymentMetadata → Exec (Servers W) (Unit {0})
  check_for_image metadata =
      if b.requires_images && not (present metadata.image)
      then raise (raised "Your agent's configuration requires you to specify an image.")
      else if not b.requires_images && present metadata.image
      then raise (raised "Your agent's configuration cannot load locations that specify an image.")
      else pure tt

  -- _create_multipex_server
  unfoldable pub create_multipex_server :
      DeploymentAndLocation → CodeDeploymentMetadata → Exec (Servers W) DagsterCloudGrpcServer
  create_multipex_server key metadata = do
    server ← on_world (b.start_new_server_spinup key metadata)
    modify (λ s. record s { multipex_servers = put key server s.multipex_servers })
    pure server

  -- _create_pex_server
  unfoldable pub create_pex_server :
      DeploymentAndLocation
      → UserCodeLauncherEntry
      → DagsterCloudGrpcServer
      → Exec (Servers W) (Unit {0})
  create_pex_server key entry server = on_world (
      b.create_pex_server server.server_endpoint
        (record {
          deployment_name = key.0;
          location_name = key.1;
          metadata_update_timestamp = seconds entry.update_timestamp;
        })
        entry.code_deployment_metadata)

  -- the server that routes to the pex server of this location
  abbrev pub pex_server :
      DeploymentAndLocation
      → UserCodeLauncherEntry
      → DagsterCloudGrpcServer
      → DagsterCloudGrpcServer
  pex_server key entry server = record {
    server_handle = server.server_handle;
    server_endpoint = with_metadata server.server_endpoint (
        ("has_pex", "1")
        ∷ ("deployment", key.0)
        ∷ ("location", key.1)
        ∷ ("timestamp", str (seconds entry.update_timestamp))
        ∷ []);
    code_deployment_metadata = entry.code_deployment_metadata;
  }

  -- _start_new_dagster_server
  unfoldable pub start_new_dagster_server :
      DeploymentAndLocation → UserCodeLauncherEntry → Exec (Servers W) DagsterCloudGrpcServer
  start_new_dagster_server key entry =
      let metadata = entry.code_deployment_metadata in
      if has_pex metadata
      then (do
        found ← gets (λ s. get_multipex_server s.multipex_servers key metadata)
        server ← assert_some found
        create_pex_server key entry server
        pure (pex_server key entry server))
      else on_world (b.start_new_server_spinup key metadata)

  -- _get_existing_pex_servers
  unfoldable pub get_existing_pex_servers :
      DeploymentAndLocation → Exec (Servers W) (List PexServerHandle)
  get_existing_pex_servers key = do
    server ← gets (λ s. lookup key s.multipex_servers)
    elim server [
      | none ↦ pure []
      | some found ↦ on_world (b.get_pex_servers found.server_endpoint key)
    ]

  -- _remove_server
  unfoldable pub remove_server : DeploymentAndLocation → Exec (Servers W) (Unit {0})
  remove_server key = do
    standalone ← on_world (b.get_standalone_handles key)
    for_each standalone (λ h. on_world (b.remove_server_handle h))
    multipex ← on_world (b.get_multipex_handles key)
    for_each multipex (λ h. on_world (b.remove_server_handle h))
