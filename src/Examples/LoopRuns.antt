-- ===== src/Examples/LoopRuns.antt =====
-- Runs of the main loop of the agent, of its threads, and of the run monitoring.
use dagster_cloud.Prelude.{
  ℕ, ◌≤◌, ◌<◌, ◌≡◌, ◌⊎◌, refl, true, false, none, some, List, [], ◌∷◌, ◌++◌, map, arith, contains,
  string_eq, pair_eq, bool_eq, length, pair_beq,
}
use dagster_cloud.Exec.{raised, ok, err, pure, raise, for_each}
use dagster_cloud.Exec.Triple.{Post}
use dagster_cloud.Launcher.RunMonitoring.{
  Monitoring, Instances, WorkerStatus, run_worker_monitoring_thread_iteration,
  get_cloud_run_worker_statuses, statuses_of,
}
use dagster_cloud.Launcher.RunMonitoring.Statuses.{
  Kept, Replaced, Failed, run_worker_monitoring_thread_iteration_lem,
}
use dagster_cloud.Agent.Api.{JsonRequest}
use dagster_cloud.Agent.State.{Agent, Cloud, Settings}
use dagster_cloud.Agent.Locations.{pending_candidates, get_locations_with_ttl_to_query}
use dagster_cloud.Agent.Locations.Pending.{
  get_locations_with_ttl_to_query-pending, get_locations_with_ttl_to_query-bounded,
}
use dagster_cloud.Agent.MainLoop.{
  AgentLoop, Identity, Reports, heartbeats_for, note_error, run_loop_round, first,
}
use dagster_cloud.Agent.MainLoop.Errors.{
  errors_of, newest_first, for_each-note_error, run_loop_round-IsBounded,
}
use dagster_cloud.Agent.MainLoop.Heartbeats.{
  heartbeat_of, heartbeats_for-get_cloud_run_worker_statuses,
}
use dagster_cloud.Agent.Handler.{UploadApiResponse, Services, process_api_request}
use dagster_cloud.Agent.Handler.Silence.{IsLogged}
use dagster_cloud.Agent.Handler.Answers.{Uploaded, process_api_request-Uploaded}
use dagster_cloud.Examples.{endpoint}

-- one run for each deployment, and none for a deployment that does not exist
abbrev instances : Instances ℕ
instances = record {
  supports_check_run_worker_health = λ d. pure true;
  get_runs = λ d. pure ("run-1" ∷ []);
  check_run_worker_health = λ d run. pure (WorkerStatus.running, none);
}

abbrev monitoring : Monitoring ℕ
monitoring = record { deployments_to_check = "prod" ∷ []; statuses_dict = []; world = 0 }

run_worker_monitoring_thread_iteration_lem_example :
    Post
      (λ _ s'.
        Replaced instances monitoring s'
        ⊎ (Kept instances monitoring s' × Failed instances ("prod" ∷ [])))
      (λ _ _. ⊥)
      (run_worker_monitoring_thread_iteration instances monitoring)
run_worker_monitoring_thread_iteration_lem_example =
    run_worker_monitoring_thread_iteration_lem instances monitoring

-- The world is the responses so far. Every query and post of the loop fails.
abbrev Log : Type 0
Log = List UploadApiResponse

abbrev cloud : Cloud Log
cloud = record {
  now = λ w. (1000, w);
  deserialize = λ body. err (raised "DeserializationError");
  pop_branch_requests = raise (raised "no connection");
  pop_requests = λ d. raise (raised "no connection");
  has_grpc_endpoint = λ k w. (false, w);
  submit = λ q t. pure 1;
  done = λ f w. (false, w);
  result = λ f. pure none;
  query_workspace_entries = λ ds b. raise (raised "no connection");
  update_grpc_metadata = λ d. pure tt;
  update_run_worker_monitoring_deployments = λ ds. pure tt;
  add_upload_metadata = λ d. pure tt;
}

abbrev reports : Reports Log
reports = record {
  get_cloud_run_worker_statuses = λ names. pure [];
  get_grpc_server_heartbeats = pure [];
  add_agent_heartbeats = λ heartbeats. raise (raised "no connection");
  existing_deployments = λ names. pure names;
}

abbrev settings : Settings
settings = record {
  deployment_names = "prod" ∷ [];
  includes_branch_deployments = true;
  include_all_serverless_deployments = false;
  server_ttl_enabled_for_full_deployments = true;
  full_deployment_ttl_seconds = 60;
  branch_deployment_ttl_seconds = 60;
  server_ttl_max_servers = 1;
}

abbrev identity : Identity
identity = record {
  agent_id = "agent-1";
  agent_label = none;
  agent_type = none;
  version = "1!0+dev";
  agent_image_tag = some "latest";
}

abbrev agent : Agent Log
agent = record {
  iteration = 0;
  request_ids_to_future_context = [];
  pending_requests = [];
  locations_with_pending_requests = [];
  ready_requests = [];
  location_query_times = [];
  pending_requests_limit = 100;
  active_deployments = ("prod", false) ∷ [];
  last_workspace_check_time = none;
  world = [];
}

abbrev looping : AgentLoop Log
looping = record { agent = agent; errors = (raised "older", 1) ∷ []; last_heartbeat_time = none }

for_each-note_error_example :
    Post
      (λ _ s'.
        errors_of s' ≡ first 25 (newest_first (raised "a" ∷ raised "b" ∷ []) (errors_of looping)))
      (λ _ _. ⊥)
      (for_each (raised "a" ∷ raised "b" ∷ []) (note_error cloud reports) looping)
for_each-note_error_example =
    for_each-note_error cloud reports (raised "a" ∷ raised "b" ∷ []) looping (omega arith)

run_loop_round-IsBounded_example :
    Post
      (λ _ s'. length s'.errors ≤ 25)
      (λ _ _. ⊥)
      (run_loop_round cloud reports (λ xs. xs) settings identity looping)
run_loop_round-IsBounded_example =
    run_loop_round-IsBounded cloud reports (λ xs. xs) settings identity looping (omega arith)

heartbeats_for-get_cloud_run_worker_statuses_example :
    heartbeats_for identity 5 looping.errors
      (get_cloud_run_worker_statuses true true [] ("prod" ∷ []) [])
      []
      ("prod" ∷ [])
      looping
    ≡ (
      ok (map (heartbeat_of identity 5 looping.errors [] (statuses_of true true [])) ("prod" ∷ [])),
      looping,
    )
heartbeats_for-get_cloud_run_worker_statuses_example =
    heartbeats_for-get_cloud_run_worker_statuses identity 5 looping.errors [] true true []
      ("prod" ∷ []) looping

abbrev services : Services Log
services = record {
  agent_display_name = "Agent 1";
  dagster_cloud_api_agent_label = none;
  instance_uuid = "1";
  agent_replicas_enabled = false;
  get_grpc_endpoint = λ key. pure endpoint;
  query = λ e q ref. pure "{}";
  external_notebook_data = λ e q. pure "{}";
  report_engine_event = λ d m run. pure tt;
  add_run_tags = λ d id tags. pure tt;
  launch_run_from_grpc_client = λ d run e. pure tt;
  launch_run = λ d run. pure tt;
  report_run_canceling = λ d run. pure tt;
  terminate = λ d id. pure tt;
  upload_api_response = λ d r w. (ok tt, w ++ r ∷ []);
}

services-IsLogged : IsLogged cloud services (λ w. w) (λ e. ⊥)
unfolding pure raise
services-IsLogged = record {
  now = λ w. refl;
  entries = λ ds b w. refl;
  uploads = λ d w. refl;
  endpoint = λ key w. refl;
  query = λ e q o w. refl;
  notebook = λ e q w. refl;
  report = λ d m run w. refl;
  tag = λ d id tags w. refl;
  launch_here = λ d run e w. refl;
  launch = λ d run w. refl;
  cancel = λ d run w. refl;
  stop = λ d id w. refl;
  upload = λ d r w. refl;
}

-- a request that cannot be read
abbrev unreadable : JsonRequest
unreadable = record {
  request_id = "1";
  request_api = "PING_LOCATION";
  request_body = "garbage";
  deployment_name = "prod";
  is_branch_deployment = false;
}

process_api_request-Uploaded_example :
    Post
      (Uploaded cloud services (λ w. w) (λ e. ⊥) services-IsLogged [] unreadable)
      (λ _ _. ⊥)
      (process_api_request cloud services unreadable 7 agent)
process_api_request-Uploaded_example =
    process_api_request-Uploaded cloud services (λ w. w) (λ e. ⊥) services-IsLogged [] unreadable 7
      agent refl

-- the location asked for last does not displace the one with a pending request
get_locations_with_ttl_to_query-pending_example :
    contains
      ("prod", "etl")
      (get_locations_with_ttl_to_query
        (λ xs. xs)
        settings
        (("prod", ("etl", false)) ∷ [])
        ((("prod", ("ml", false)), 9) ∷ [])
        10)
    ≡ true
unfolding contains pair_beq
get_locations_with_ttl_to_query-pending_example =
    get_locations_with_ttl_to_query-pending (λ xs. xs) settings (("prod", ("etl", false)) ∷ [])
      ((("prod", ("ml", false)), 9) ∷ []) 10 ("prod", ("etl", false))
      (record { same = λ x xs. refl; number = λ p xs. refl }) (omega arith, tt) refl refl

get_locations_with_ttl_to_query-bounded_example :
    (length (
        get_locations_with_ttl_to_query
          (λ xs. xs)
          settings
          (("prod", ("etl", false)) ∷ [])
          ((("prod", ("ml", false)), 9) ∷ [])
          10)
      ≤ 1)
    ⊎ ((1 < length (pending_candidates settings (("prod", ("etl", false)) ∷ [])))
        × (get_locations_with_ttl_to_query
              (λ xs. xs)
              settings
              (("prod", ("etl", false)) ∷ [])
              ((("prod", ("ml", false)), 9) ∷ [])
              10
            ≡ map (λ x. x.0) (pending_candidates settings (("prod", ("etl", false)) ∷ []))))
get_locations_with_ttl_to_query-bounded_example =
    get_locations_with_ttl_to_query-bounded (λ xs. xs) settings (("prod", ("etl", false)) ∷ [])
      ((("prod", ("ml", false)), 9) ∷ []) 10
