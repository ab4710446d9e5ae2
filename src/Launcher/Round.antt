-- ===== src/Launcher/Round.antt =====
-- The loops of `_reconcile`, one function for the body of each. What a body writes before an
-- exception that is caught stays written, so the local dictionaries are part of the state.
use dagster_cloud.Prelude.{
  ℕ, Bool, Option, none, some, List, [], if◌then◌else◌, string_eq, nat_eq, pair_eq, contains,
  discard,
}
use dagster_cloud.Exec.{Exec, pure, gets, modify, catch, ◌>>=◌, ◌>>◌, zoom}
use dagster_cloud.Dict.{Dict, lookup, put, remove}
use dagster_cloud.Launcher.Types.{
  DeploymentAndLocation, CodeDeploymentMetadata, DagsterCloudGrpcServer, ServerOrError, running,
  failed, PexServerHandle, Servers, has_pex, is_error,
}
use dagster_cloud.Launcher.Backend.{Backend}
use dagster_cloud.Launcher.Metadata.{Entries}
use dagster_cloud.Launcher.Multipex.{
  get_multipex_server, create_multipex_server, start_new_dagster_server, get_existing_pex_servers,
  check_for_image, get_item, assert_some, on_world,
}
use dagster_cloud.Launcher.Upload.{update_location_data}

pub record Round (W : Type 0) : Type 0 where
  pub servers : Servers W
  pub existing_standalone : Dict DeploymentAndLocation (List ℕ)
  pub existing_multipex : Dict DeploymentAndLocation (List ℕ)
  pub existing_pex : Dict DeploymentAndLocation (List PexServerHandle)
  pub new_servers : Dict DeploymentAndLocation ServerOrError
  pub new_multipex : Dict DeploymentAndLocation DagsterCloudGrpcServer
  pub uploads : List DeploymentAndLocation

abbrev pub begin_round : {W : Type 0} → Servers W → List DeploymentAndLocation → Round W
begin_round s upload_locations = record {
  servers = s;
  existing_standalone = [];
  existing_multipex = [];
  existing_pex = [];
  new_servers = [];
  new_multipex = [];
  uploads = upload_locations;
}

abbrev pub list_or_empty : {A : Type 0} → Option (List A) → List A
list_or_empty none = []
list_or_empty (some xs) = xs

module _ {W : Type 0} where
  unfoldable pub on_servers : {A : Type 0} → Exec (Servers W) A → Exec (Round W) A
  on_servers m = zoom (λ s. s.servers) (λ t s. record s { servers = t }) m

  unfoldable pub set_new_server : DeploymentAndLocation → ServerOrError → Exec (Round W) (Unit {0})
  set_new_server key value = modify (λ s. record s { new_servers = put key value s.new_servers })

  -- del self._multipex_servers[to_update_key]
  unfoldable pub forget_multipex : DeploymentAndLocation → Exec (Round W) (Unit {0})
  forget_multipex key = do
    server ← gets (λ s. lookup key s.servers.multipex_servers)
    get_item server
    modify (λ s. record s {
      servers = record s.servers { multipex_servers = remove key s.servers.multipex_servers };
    })

module _ {W : Type 0} (b : Backend W) where
  -- The multipex server that is running for the metadata, if its ping is answered.
  unfoldable pub find_running_multipex :
      DeploymentAndLocation
      → CodeDeploymentMetadata
      → Exec (Round W) (Option DagsterCloudGrpcServer)
  find_running_multipex key metadata = do
    found ← gets (λ s. get_multipex_server s.servers.multipex_servers key metadata)
    elim found [
      | none ↦ pure none
      | some server ↦
          catch (do on_servers (on_world (b.ping server.server_endpoint)); pure (some server))
            (λ _. pure none)
    ]

  unfoldable pub ensure_multipex :
      DeploymentAndLocation
      → CodeDeploymentMetadata
      → Option DagsterCloudGrpcServer
      → Exec (Round W) (Unit {0})
  ensure_multipex key metadata (some server) = pure tt
  ensure_multipex key metadata none = do
    server ← on_servers (create_multipex_server b key metadata)
    found ← gets (λ s. get_multipex_server s.servers.multipex_servers key metadata)
    assert_some found
    modify (λ s. record s { new_multipex = put key server s.new_multipex })

module _ {W : Type 0} (b : Backend W) (desired_entries : Entries) where
  -- for to_update_key in to_update_keys: the multipex servers
  unfoldable pub prepare_multipex : DeploymentAndLocation → Exec (Round W) (Unit {0})
  prepare_multipex key = do
    entry ← get_item (lookup key desired_entries)
    handles ← on_servers (on_world (b.get_multipex_handles key))
    modify (λ s. record s { existing_multipex = put key handles s.existing_multipex })
    let metadata = entry.code_deployment_metadata
    if has_pex metadata
        then catch
            (do
              server ← find_running_multipex b key metadata
              ensure_multipex b key metadata server)
            (λ e. set_new_server key (failed e))
        else pure tt

module _ {W : Type 0} (b : Backend W) where
  -- for to_update_key, multipex_server in new_multipex_servers.items()
  unfoldable pub await_multipex :
      DeploymentAndLocation × DagsterCloudGrpcServer → Exec (Round W) (Unit {0})
  await_multipex (key, server) =
      catch (on_servers (on_world (b.wait_for_new_multipex_server key server.server_endpoint)))
        (λ e. do set_new_server key (failed e); forget_multipex key)

module _ {W : Type 0} (b : Backend W) (desired_entries : Entries) where
  unfoldable pub spin_up : DeploymentAndLocation → Exec (Round W) (Unit {0})
  spin_up key = do
    entry ← get_item (lookup key desired_entries)
    standalone ← on_servers (on_world (b.get_standalone_handles key))
    modify (λ s. record s { existing_standalone = put key standalone s.existing_standalone })
    pex ← on_servers (get_existing_pex_servers b key)
    modify (λ s. record s { existing_pex = put key pex s.existing_pex })
    on_servers (check_for_image b entry.code_deployment_metadata)
    server ← on_servers (start_new_dagster_server b key entry)
    set_new_server key (running server)

  -- for to_update_key in to_update_keys: the dagster servers
  unfoldable pub start_server : DeploymentAndLocation → Exec (Round W) (Unit {0})
  start_server key = do
    planned ← gets (λ s. lookup key s.new_servers)
    if is_error planned then pure tt else catch (spin_up key) (λ e. set_new_server key (failed e))

module _ {W : Type 0} (b : Backend W) where
  unfoldable pub wait_until_ready :
      DeploymentAndLocation → CodeDeploymentMetadata → ServerOrError → Exec (Round W) ServerOrError
  wait_until_ready key metadata (failed e) = pure (failed e)
  wait_until_ready key metadata (running server) =
      catch
        (do
          on_servers (
              on_world (
                b.wait_for_new_server_ready key metadata server.server_handle
                  server.server_endpoint))
          pure (running server))
        (λ e. pure (failed e))

module _ {W : Type 0} (b : Backend W) (defer_job_snapshots : Bool) where
  unfoldable pub upload_if_requested :
      DeploymentAndLocation → CodeDeploymentMetadata → ServerOrError → Exec (Round W) (Unit {0})
  upload_if_requested key metadata server_or_error = do
    uploads ← gets (λ s. s.uploads)
    if contains key uploads
        then (do
          modify (λ s. record s { uploads = discard key s.uploads })
          on_servers (update_location_data b defer_job_snapshots key server_or_error metadata))
        else pure tt

module _ {W : Type 0} (b : Backend W) (defer_job_snapshots : Bool) (desired_entries : Entries) where
  -- for to_update_key in to_update_keys: wait for the servers, and publish them
  unfoldable pub publish_server : DeploymentAndLocation → Exec (Round W) (Unit {0})
  publish_server key = do
    entry ← get_item (lookup key desired_entries)
    planned ← gets (λ s. lookup key s.new_servers)
    server_or_error ← get_item planned
    ready ← wait_until_ready b key entry.code_deployment_metadata server_or_error
    modify (λ s. record s {
      servers = record s.servers { grpc_servers = put key ready s.servers.grpc_servers };
    })
    upload_if_requested b defer_job_snapshots key entry.code_deployment_metadata ready
