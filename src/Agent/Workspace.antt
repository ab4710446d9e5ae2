-- ===== src/Agent/Workspace.antt =====
-- `_query_for_workspace_updates` and `_check_update_workspace`.
pub mod Requeue
use dagster_cloud.Prelude.{
  ℕ, ◌+◌, ◌*◌, String, Bool, true, false, not, ◌&&◌, ◌||◌, Option, none, some, List, [], ◌∷◌, ◌++◌,
  map, ltb, ◌==◌, if◌then◌else◌, string_eq, bool_eq, pair_eq, contains, add, union,
}
use dagster_cloud.Exec.{Error, Result, ok, err, Exec, pure, gets, modify, ◌>>=◌, ◌>>◌}
use dagster_cloud.Dict.{Dict, put}
use dagster_cloud.Launcher.Types.{
  DeploymentAndLocation, CodeDeploymentMetadata, UserCodeLauncherEntry,
}
use dagster_cloud.Launcher.Upload.{result}
use dagster_cloud.Agent.Api.{JsonRequest, get_location_from_request}
use dagster_cloud.Agent.State.{
  Agent, Cloud, Settings, LocationKey, DeploymentResult, WorkspaceEntry,
}
use dagster_cloud.Agent.Locations.{Candidate, has_ttl, get_locations_with_ttl_to_query}
use dagster_cloud.Agent.Iteration.{on_world, observe, append_ready, extend_pending}

-- What the answer to the query is turned into.
pub record Workspace : Type 0 where
  pub deployment_map : Dict DeploymentAndLocation UserCodeLauncherEntry
  pub all_locations : List DeploymentAndLocation

abbrev pub empty_workspace : Workspace
empty_workspace = record { deployment_map = []; all_locations = [] }

abbrev pub to_entry : WorkspaceEntry → CodeDeploymentMetadata → UserCodeLauncherEntry
to_entry entry deployment_metadata = record {
  code_deployment_metadata = deployment_metadata;
  update_timestamp = entry.metadata_timestamp;
  sandbox_saved_timestamp = none;
}

module _ (settings : Settings) (locations_with_ttl_to_query : List DeploymentAndLocation) where
  -- Without a time to live every location counts, with one only those to query.
  abbrev pub is_wanted : Bool → DeploymentAndLocation → Bool
  is_wanted is_branch_deployment key =
      not (has_ttl settings is_branch_deployment) || contains key locations_with_ttl_to_query

  abbrev pub add_entry :
      String → Bool → WorkspaceEntry → CodeDeploymentMetadata → Workspace → Workspace
  add_entry deployment_name is_branch entry deployment_metadata w =
      let key : DeploymentAndLocation = (deployment_name, entry.location_name) in
      record w {
        all_locations = add key w.all_locations;
        deployment_map =
            if is_wanted is_branch key
            then put key (to_entry entry deployment_metadata) w.deployment_map
            else w.deployment_map;
      }

  module _ {W : Type 0} where
    -- for entry in entries
    unfoldable pub add_entries :
        String → Bool → List WorkspaceEntry → Workspace → Exec (Agent W) Workspace
    add_entries deployment_name is_branch [] w = pure w
    add_entries deployment_name is_branch (entry ∷ entries) w = do
      deployment_metadata ← result entry.deployment_metadata
      add_entries deployment_name is_branch entries
          (add_entry deployment_name is_branch entry deployment_metadata w)

    -- for deployment_result in result["data"]["deployments"]
    unfoldable pub add_deployments : List DeploymentResult → Workspace → Exec (Agent W) Workspace
    add_deployments [] w = pure w
    add_deployments (d ∷ ds) w = do
      modify (λ s. record s {
        active_deployments = add (d.deployment_name, d.is_branch_deployment) s.active_deployments;
      })
      w' ← add_entries d.deployment_name d.is_branch_deployment d.workspace_entries w
      add_deployments ds w'

-- _active_production_deployment_names
unfoldable pub active_production_deployment_names : List (String × Bool) → List String
active_production_deployment_names [] = []
active_production_deployment_names ((name, is_branch) ∷ rest) =
    let names = active_production_deployment_names rest in if is_branch then names else name ∷ names

abbrev is_nonempty : {A : Type 0} → List A → Bool
is_nonempty [] = false
is_nonempty (x ∷ xs) = true

-- {key[0] for key in locations_with_ttl_to_query}
unfoldable pub deployment_names_of : List DeploymentAndLocation → List String
deployment_names_of [] = []
deployment_names_of (key ∷ keys) = add key.0 (deployment_names_of keys)

-- (deployment_name, location_name) not in all_locations; no key has the name None
abbrev pub is_listed : String → Option String → List DeploymentAndLocation → Bool
is_listed deployment_name none all_locations = false
is_listed deployment_name (some name) all_locations = contains (deployment_name, name) all_locations

-- CHECK_WORKSPACE_INTERVAL_SECONDS = 5
abbrev pub checked_recently : Option ℕ → ℕ → Bool
checked_recently none now = false
checked_recently (some last) now = ltb now (last + 5 * 1000000)

module _ {W : Type 0} (c : Cloud W) where
  unfoldable pub query_deployments :
      Settings → List DeploymentAndLocation → List String → Exec (Agent W) Workspace
  query_deployments settings locations deployments_to_query =
      if is_nonempty deployments_to_query || settings.include_all_serverless_deployments
      then (do
        results ← on_world (
            c.query_workspace_entries deployments_to_query
              settings.include_all_serverless_deployments)
        add_deployments settings locations results empty_workspace)
      else pure empty_workspace

  unfoldable pub requeue : List DeploymentAndLocation → JsonRequest → Exec (Agent W) (Unit {0})
  requeue all_locations q = do
    location ← result (get_location_from_request c.deserialize q)
    if is_listed q.deployment_name location all_locations
        then extend_pending (q ∷ [])
        else append_ready q

  -- for json_request in pending_requests_copy
  unfoldable pub requeue_all :
      List DeploymentAndLocation → List JsonRequest → Exec (Agent W) (Unit {0})
  requeue_all all_locations [] = pure tt
  requeue_all all_locations (q ∷ qs) = do requeue all_locations q; requeue_all all_locations qs

module _ {W : Type 0} (c : Cloud W) (iterate : List Candidate → List Candidate) where
  -- _query_for_workspace_updates
  unfoldable pub query_for_workspace_updates : Settings → Exec (Agent W) (Unit {0})
  query_for_workspace_updates settings = do
    now ← observe c.now
    locations ← gets (λ s.
        get_locations_with_ttl_to_query iterate settings s.locations_with_pending_requests
          s.location_query_times now)
    modify (λ s. record s { active_deployments = [] })
    w ←
        query_deployments c settings locations
          (union (deployment_names_of locations) settings.deployment_names)
    on_world (c.update_grpc_metadata w.deployment_map)
    active ← gets (λ s. s.active_deployments)
    on_world
        (c.update_run_worker_monitoring_deployments (active_production_deployment_names active))
    pending ← gets (λ s. s.pending_requests)
    modify (λ s. record s { pending_requests = [] })
    requeue_all c w.all_locations pending

  -- _check_update_workspace
  unfoldable pub check_update_workspace : Settings → Exec (Agent W) (Unit {0})
  check_update_workspace settings = do
    now ← observe c.now
    last ← gets (λ s. s.last_workspace_check_time)
    if checked_recently last now then pure tt else (do
      modify (λ s. record s { last_workspace_check_time = some now })
      query_for_workspace_updates settings)
