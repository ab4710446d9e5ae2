-- ===== src/Examples/AgentRuns.antt =====
-- Runs of the agent's queues.
use dagster_cloud.Prelude.{
  ℕ, ◌+◌, String, ◌≡◌, refl, false, none, List, [], ◌∷◌, ◌++◌, ◌==◌, if◌then◌else◌, string_eq,
  contains,
}
use dagster_cloud.Exec.{raised, Result, ok, err, pure, zoom, gets, modify, ◌>>=◌}
use dagster_cloud.Dict.{lookup}
use dagster_cloud.Launcher.Upload.{result}
use dagster_cloud.Exec.Triple.{Post}
use dagster_cloud.Agent.Api.{
  is_member, get_location_origin, JsonRequest, ping_location, location_name, Deserialize,
  get_location_from_request,
}
use dagster_cloud.Agent.State.{Agent, Cloud, Settings}
use dagster_cloud.Agent.Iteration.{
  sort_request, must_wait, wait_for_location, note_query, observe, on_world, append_ready,
  sort_requests, run_iteration,
}
use dagster_cloud.Agent.Iteration.Queues.{Splits, AllNamed, sort_requests-Splits}
use dagster_cloud.Agent.Iteration.Malformed.{Stuck, run_iteration_malformed}
use dagster_cloud.Agent.Workspace.{requeue_all}
use dagster_cloud.Agent.Workspace.Requeue.{Requeued, Interrupted, requeue_all_lem}

-- a body names its location, but for one that cannot be read
abbrev deserialize : Deserialize
deserialize body =
    if body == "garbage"
    then err (raised "DeserializationError")
    else ok (record {
      request_id = body;
      request_api = ping_location;
      request_args = location_name body;
    })

abbrev ping : String → JsonRequest
ping body = record {
  request_id = body;
  request_api = "PING_LOCATION";
  request_body = body;
  deployment_name = "prod";
  is_branch_deployment = false;
}

-- the world counts the calls that submit a request; no location has a server
abbrev cloud : Cloud ℕ
cloud = record {
  now = λ n. (1000, n);
  deserialize = deserialize;
  pop_branch_requests = pure [];
  pop_requests = λ d. pure [];
  has_grpc_endpoint = λ k n. (false, n);
  submit = λ q t n. (ok n, n + 1);
  done = λ f n. (false, n);
  result = λ f. pure none;
  query_workspace_entries = λ ds b. pure [];
  update_grpc_metadata = λ d. pure tt;
  update_run_worker_monitoring_deployments = λ ds. pure tt;
  add_upload_metadata = λ d. pure tt;
}

abbrev settings : Settings
settings = record {
  deployment_names = "prod" ∷ [];
  includes_branch_deployments = false;
  include_all_serverless_deployments = false;
  server_ttl_enabled_for_full_deployments = false;
  full_deployment_ttl_seconds = 0;
  branch_deployment_ttl_seconds = 0;
  server_ttl_max_servers = 0;
}

abbrev agent : List JsonRequest → Agent ℕ
agent pending = record {
  iteration = 0;
  request_ids_to_future_context = [];
  pending_requests = pending;
  locations_with_pending_requests = [];
  ready_requests = [];
  location_query_times = [];
  pending_requests_limit = 100;
  active_deployments = [];
  last_workspace_check_time = none;
  world = 0;
}

abbrev sorted : Result (List JsonRequest) × Agent ℕ
sorted = sort_requests cloud (ping "etl" ∷ []) [] (agent (ping "etl" ∷ []))

abbrev waiting : List JsonRequest
waiting = ping "etl" ∷ []

sort_requests-Splits_example :
    (moved : List JsonRequest) × (sorted.1.ready_requests ≡ (agent waiting).ready_requests ++ moved)
    × Splits waiting waiting moved
    × AllNamed cloud waiting
unfolding sort_requests sort_request must_wait wait_for_location note_query observe on_world zoom
    gets modify pure ◌>>=◌ result get_location_from_request is_member get_location_origin lookup
    contains append_ready
sort_requests-Splits_example =
    sort_requests-Splits cloud waiting waiting (agent waiting) sorted.1 refl

run_iteration_malformed_example :
    Post
      (λ _ _. ⊥)
      (λ _. Stuck cloud (ping "etl" ∷ ping "garbage" ∷ []) [] [])
      (run_iteration cloud settings (agent (ping "etl" ∷ ping "garbage" ∷ [])))
unfolding get_location_from_request is_member get_location_origin
run_iteration_malformed_example =
    run_iteration_malformed cloud settings (agent (ping "etl" ∷ ping "garbage" ∷ [])) refl

requeue_all_lem_example :
    Post
      (λ _. Requeued cloud (("prod", "etl") ∷ []) (ping "etl" ∷ ping "ml" ∷ []) [] [])
      (λ _. Interrupted cloud (("prod", "etl") ∷ []) (ping "etl" ∷ ping "ml" ∷ []) [] [])
      (requeue_all cloud (("prod", "etl") ∷ []) (ping "etl" ∷ ping "ml" ∷ []) (agent []))
requeue_all_lem_example =
    requeue_all_lem cloud (("prod", "etl") ∷ []) (ping "etl" ∷ ping "ml" ∷ []) [] (agent []) refl
      refl
