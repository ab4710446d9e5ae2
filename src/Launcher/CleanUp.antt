-- ===== src/Launcher/CleanUp.antt =====
-- The loops of `_reconcile` that remove what is no longer used, and the last uploads.
use dagster_cloud.Prelude.{
  ℕ, Bool, false, not, ◌&&◌, Option, none, some, List, [], ◌∷◌, ◌==◌, if◌then◌else◌, string_eq,
  nat_eq, pair_eq,
}
use dagster_cloud.Exec.{Exec, pure, gets, modify, catch, ◌>>=◌, ◌>>◌, for_each}
use dagster_cloud.Dict.{lookup, put, remove}
use dagster_cloud.Launcher.Types.{
  DeploymentAndLocation, ServerEndpoint, DagsterCloudGrpcServer, PexServerHandle,
}
use dagster_cloud.Launcher.Backend.{Backend}
use dagster_cloud.Launcher.Metadata.{Entries}
use dagster_cloud.Launcher.Multipex.{
  get_multipex_server, remove_server, get_item, assert_some, on_world,
}
use dagster_cloud.Launcher.Upload.{update_location_data}
use dagster_cloud.Launcher.Round.{Round, list_or_empty, on_servers}

-- the handle is there, is true, and is not this one
abbrev pub is_other : Option DagsterCloudGrpcServer → ℕ → Bool
is_other none handle = false
is_other (some current) handle =
    not (current.server_handle == 0) && not (current.server_handle == handle)

module _ {W : Type 0} (b : Backend W) where
  -- try: self._remove_server_handle(handle); except Exception: (log)
  unfoldable pub try_remove : ℕ → Exec (Round W) (Unit {0})
  try_remove handle = catch (on_servers (on_world (b.remove_server_handle handle))) (λ _. pure tt)

  unfoldable pub try_remove_other : Option DagsterCloudGrpcServer → ℕ → Exec (Round W) (Unit {0})
  try_remove_other current handle = if is_other current handle then try_remove handle else pure tt

  -- _remove_pex_server_handle, its exceptions caught
  unfoldable pub try_shutdown_pex : ServerEndpoint → PexServerHandle → Exec (Round W) (Unit {0})
  try_shutdown_pex endpoint handle =
      catch (on_servers (on_world (b.shutdown_pex_server endpoint handle))) (λ _. pure tt)

  unfoldable pub shutdown_pex_servers :
      Option DagsterCloudGrpcServer → List PexServerHandle → Exec (Round W) (Unit {0})
  shutdown_pex_servers current [] = pure tt
  shutdown_pex_servers current (handle ∷ handles) = do
    server ← assert_some current
    for_each (handle ∷ handles) (try_shutdown_pex server.server_endpoint)

module _ {W : Type 0} (b : Backend W) (desired_entries : Entries) where
  -- for to_update_key in to_update_keys: remove the old servers of the location
  unfoldable pub clean_up : DeploymentAndLocation → Exec (Round W) (Unit {0})
  clean_up key = do
    standalone ← gets (λ s. list_or_empty (lookup key s.existing_standalone))
    for_each standalone (try_remove b)
    multipex ← gets (λ s. list_or_empty (lookup key s.existing_multipex))
    entry ← get_item (lookup key desired_entries)
    current ←
        gets
          (λ s. get_multipex_server s.servers.multipex_servers key entry.code_deployment_metadata)
    for_each multipex (try_remove_other b current)
    pex ← gets (λ s. list_or_empty (lookup key s.existing_pex))
    shutdown_pex_servers b current pex
    modify (λ s. record s {
      servers = record s.servers { actual_entries = put key entry s.servers.actual_entries };
    })

module _ {W : Type 0} where
  -- del self._grpc_servers[to_remove_key]
  unfoldable pub forget_grpc_server : DeploymentAndLocation → Exec (Round W) (Unit {0})
  forget_grpc_server key = do
    server ← gets (λ s. lookup key s.servers.grpc_servers)
    get_item server
    modify (λ s. record s {
      servers = record s.servers { grpc_servers = remove key s.servers.grpc_servers };
    })

  -- del self._actual_entries[to_remove_key]
  unfoldable pub forget_actual_entry : DeploymentAndLocation → Exec (Round W) (Unit {0})
  forget_actual_entry key = do
    entry ← gets (λ s. lookup key s.servers.actual_entries)
    get_item entry
    modify (λ s. record s {
      servers = record s.servers { actual_entries = remove key s.servers.actual_entries };
    })

module _ {W : Type 0} (b : Backend W) where
  -- for to_remove_key in diff.to_remove
  unfoldable pub remove_location : DeploymentAndLocation → Exec (Round W) (Unit {0})
  remove_location key = do
    catch (on_servers (remove_server b key)) (λ _. pure tt)
    forget_grpc_server key
    forget_actual_entry key

  -- for location in upload_locations
  unfoldable pub upload_remaining : Bool → DeploymentAndLocation → Exec (Round W) (Unit {0})
  upload_remaining defer_job_snapshots key = do
    found ← gets (λ s. lookup key s.servers.grpc_servers)
    server_or_error ← get_item found
    actual ← gets (λ s. lookup key s.servers.actual_entries)
    entry ← get_item actual
    on_servers (
        update_location_data b defer_job_snapshots key server_or_error
          entry.code_deployment_metadata)
