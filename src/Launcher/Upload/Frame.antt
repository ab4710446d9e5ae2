-- ===== src/Launcher/Upload/Frame.antt =====
-- An upload changes nothing of the launcher, and its failures stay with it.
use dagster_cloud.Prelude.{◌≡◌, refl, String, Bool, Option, none, some, List, [], ◌∷◌}
use dagster_cloud.Exec.{Error, Result, ok, err, Exec, pure, catch, recover, zoom}
use dagster_cloud.Exec.Keeps.{Keeps, Keeps-pure, Keeps-bind, keeps_rules}
use dagster_cloud.Launcher.Types.{
  DeploymentAndLocation, CodeDeploymentMetadata, ServerEndpoint, ServerOrError, running, failed,
  Servers,
}
use dagster_cloud.Launcher.Backend.{Backend, JobSelector, UploadWorkspaceEntry}
use dagster_cloud.Launcher.Multipex.{on_world}
use dagster_cloud.Launcher.Endpoints.{get_grpc_endpoint, endpoint_of}
use dagster_cloud.Launcher.Upload.{
  attempt, result, upload_job_snapshot, submit_all, upload_missing, update_workspace_entry,
  upload_repository_datas, get_upload_location_data, update_location_error, load_location,
  write_location, update_location_data,
}

-- `t` is `s` but for the world.
pub record SameServers {W : Type 0} (s t : Servers W) : Type 0 where
  pub same_grpc : t.grpc_servers ≡ s.grpc_servers
  pub same_multipex : t.multipex_servers ≡ s.multipex_servers
  pub same_actual : t.actual_entries ≡ s.actual_entries

module _ {W : Type 0} (s : Servers W) where
  pub on_world-Keeps : {A : Type 0} (m : Exec W A) → Keeps (SameServers s) (on_world m)
  unfolding on_world zoom
  on_world-Keeps m = record {
    at = λ t h. record {
      same_grpc = h.same_grpc;
      same_multipex = h.same_multipex;
      same_actual = h.same_actual;
    };
  }

  endpoint_of-Keeps :
      (o : Option ServerOrError) → Keeps (SameServers s) (endpoint_of {S = Servers W} o)
  endpoint_of-Keeps none = search keeps_rules
  endpoint_of-Keeps (some (failed e)) = search keeps_rules
  endpoint_of-Keeps (some (running server)) = search keeps_rules

  ruleset frame_rules = (keeps_rules, on_world-Keeps, endpoint_of-Keeps)

  get_grpc_endpoint-Keeps :
      (k : DeploymentAndLocation) → Keeps (SameServers s) (get_grpc_endpoint {W = W} k)
  unfolding get_grpc_endpoint
  get_grpc_endpoint-Keeps k = search frame_rules

  result-Keeps : {A : Type 0} (x : Result A) → Keeps (SameServers s) (result {S = Servers W} x)
  unfolding result
  result-Keeps (ok a) = search keeps_rules
  result-Keeps (err e) = search keeps_rules

  attempt-Keeps :
      {A : Type 0} (m : Exec (Servers W) A)
      → Keeps (SameServers s) m
      → Keeps (SameServers s) (attempt m)
  unfolding attempt
  attempt-Keeps m k = search keeps_rules

module _ {W : Type 0} (b : Backend W) (defer_job_snapshots : Bool) (s : Servers W) where
  upload_job_snapshot-Keeps :
      (d : String) (j : JobSelector)
      → Keeps (SameServers s) (upload_job_snapshot b defer_job_snapshots d j)
  unfolding upload_job_snapshot
  upload_job_snapshot-Keeps d j = search (frame_rules, get_grpc_endpoint-Keeps)

  submit_all-Keeps :
      (d : String) (js : List JobSelector)
      → Keeps (SameServers s) (submit_all b defer_job_snapshots d js)
  unfolding submit_all
  submit_all-Keeps d [] = search keeps_rules
  submit_all-Keeps d (j ∷ js) =
      Keeps-bind _ _ (search (attempt-Keeps, upload_job_snapshot-Keeps))
        (λ future. Keeps-bind _ _ (submit_all-Keeps d js) (λ futures. Keeps-pure _))

  upload_missing-Keeps :
      (d : String) (w : UploadWorkspaceEntry) (o : Option (List JobSelector))
      → Keeps (SameServers s) (upload_missing b defer_job_snapshots d w o)
  unfolding upload_missing
  upload_missing-Keeps d w none = search keeps_rules
  upload_missing-Keeps d w (some js) = search (frame_rules, submit_all-Keeps, result-Keeps)

  update_workspace_entry-Keeps :
      (d : String) (w : UploadWorkspaceEntry)
      → Keeps (SameServers s) (update_workspace_entry b defer_job_snapshots d w)
  unfolding update_workspace_entry
  update_workspace_entry-Keeps d w = search (frame_rules, upload_missing-Keeps)

  upload_repository_datas-Keeps :
      (c : ServerEndpoint) (l : String) (ps : List (String × String))
      → Keeps (SameServers s) (upload_repository_datas b defer_job_snapshots c l ps)
  unfolding upload_repository_datas
  upload_repository_datas-Keeps c l [] = search keeps_rules
  upload_repository_datas-Keeps c l ((n, p) ∷ ps) =
      Keeps-bind _ _ (on_world-Keeps s _)
        (λ chunks. Keeps-bind _ _ (upload_repository_datas-Keeps c l ps) (λ datas. Keeps-pure _))

  get_upload_location_data-Keeps :
      (k : DeploymentAndLocation)
      → Keeps (SameServers s) (get_upload_location_data b defer_job_snapshots k)
  unfolding get_upload_location_data
  get_upload_location_data-Keeps k =
      search (frame_rules, get_grpc_endpoint-Keeps, upload_repository_datas-Keeps)

  update_location_error-Keeps :
      (k : DeploymentAndLocation) (e : Error) (m : CodeDeploymentMetadata)
      → Keeps (SameServers s) (update_location_error b defer_job_snapshots k e m)
  unfolding update_location_error
  update_location_error-Keeps k e m = search (update_workspace_entry-Keeps)

  load_location-Keeps :
      (k : DeploymentAndLocation) (m : CodeDeploymentMetadata)
      → Keeps (SameServers s) (load_location b defer_job_snapshots k m)
  unfolding load_location
  load_location-Keeps k m =
      search (keeps_rules, get_upload_location_data-Keeps, update_workspace_entry-Keeps)

  write_location-Keeps :
      (k : DeploymentAndLocation) (x : ServerOrError) (m : CodeDeploymentMetadata)
      → Keeps (SameServers s) (write_location b defer_job_snapshots k x m)
  unfolding write_location
  write_location-Keeps k (failed e) m = update_location_error-Keeps k e m
  write_location-Keeps k (running x) m =
      search (keeps_rules, load_location-Keeps, update_location_error-Keeps)

  recovered :
      (x : Result (Unit {0}) × Servers W)
      → SameServers s x.1
      → (t : Servers W) × (recover x (λ _. pure tt) ≡ (ok tt, t)) × SameServers s t
  unfolding pure
  recovered (ok tt, t) h = (t, refl, h)
  recovered (err e, t) h = (t, refl, h)

  -- The upload of a location returns, whatever fails on the way, and changes nothing of the
  -- launcher's servers and entries.
  pub update_location_data_lem :
      (k : DeploymentAndLocation) (x : ServerOrError) (m : CodeDeploymentMetadata)
      → (t : Servers W) × (update_location_data b defer_job_snapshots k x m s ≡ (ok tt, t))
        × SameServers s t
  unfolding update_location_data catch
  update_location_data_lem k x m = recovered (write_location b defer_job_snapshots k x m s) (
      (write_location-Keeps k x m).at s
        (record { same_grpc = refl; same_multipex = refl; same_actual = refl }))
