-- ===== src/Examples/ServiceRuns.antt =====
-- Runs of the waits for services and runs, and of the secrets.
use dagster_cloud.Prelude.{
  add, contains, ◌+◌, ℕ, ◌≡◌, String, refl, ap, sym, ◌∙◌, beq_refl, true, false, none, some, Option,
  List, [], ◌∷◌, arith, str, keep, string_eq,
}
use dagster_cloud.Exec.{zoom, modify, Result, raised, ok, err, pure, raise, ◌>>=◌, ◌>>◌}
use dagster_cloud.Exec.Triple.{Post}
use dagster_cloud.Dict.{Dict, lookup}
use dagster_cloud.Ecs.Client.{EcsApi, failures, wait_for_service}
use dagster_cloud.Ecs.Client.Waits.{IsTimed, wait_for_service-Ended}
use dagster_cloud.Ecs.Services.{Control, wait_for_operation}
use dagster_cloud.Ecs.Services.Deletion.{wait_for_operation_endless}
use dagster_cloud.Execution.RunLauncher.{
  on_world, Run, System, RunLauncher, launch_run, terminate, join,
}
use dagster_cloud.Execution.RunLauncher.Joins.{join-Ended}
use dagster_cloud.Execution.RunLauncher.Pids.{IsTagging, terminate-launch_run}
use dagster_cloud.Secrets.{Secret, get_secrets_for_environment, is_scoped}
use dagster_cloud.Secrets.Scopes.{last_value, is_global, get_secrets_for_environment_lem}

-- The world is the time. Every call but a sleep takes none, and ECS does not find the service.
abbrev ecs : EcsApi ℕ
ecs = record {
  timeout = 300000000;
  grace_period = 10000000;
  now = λ w. w;
  sleep = λ w. (ok tt, w + 10000000);
  describe_services = λ name w. (ok (failures "MISSING"), w);
  has_text = λ message. false;
  list_running_tasks = λ name. pure [];
  list_stopped_tasks = λ name. pure [];
  describe_task = λ tasks. raise (raised "no task");
  describe_task_definition = λ arn. pure [];
  get_log_events = λ name. pure [];
}

ecs-IsTimed : IsTimed ecs
unfolding pure raise
ecs-IsTimed = record {
  sleep = λ w. omega arith;
  describe_services = λ name w. omega arith;
  list_running_tasks = λ name w. omega arith;
  list_stopped_tasks = λ name w. omega arith;
  describe_task = λ tasks w. omega arith;
  describe_task_definition = λ arn w. omega arith;
  get_log_events = λ name w. omega arith;
}

wait_for_service-Ended_example :
    Post (λ r _. r ≡ some tt) (λ _ _. Unit {0}) (wait_for_service ecs "service" "dagster" 31 31 5)
wait_for_service-Ended_example =
    wait_for_service-Ended ecs ecs-IsTimed "service" "dagster" 30 5 (omega arith)

abbrev run : Run
run = record { run_id = "run-1"; is_finished = false; tags = ("process/pid", str 12) ∷ [] }

-- a run that never finishes; the world is the time
abbrev system : System ℕ
system = record {
  is_windows = false;
  launch_process = λ run_id. pure 12;
  signal = λ pid. pure tt;
  interrupt = λ pid. pure tt;
  sleep = λ time w. (ok tt, w + time);
  get_run_by_id = λ run_id. pure (some run);
  add_run_tags = λ run_id tag value. pure tt;
  report_run_canceling = λ run. pure tt;
}

abbrev launcher : RunLauncher ℕ
launcher = record { run_ids = "run-1" ∷ []; world = 0 }

-- thirty seconds are reached with twelve sleeps
join-Ended_example :
    Post
      (λ r s'. (r ≡ some tt) × (s'.run_ids ≡ "run-1" ∷ []))
      (λ _ s'. s'.run_ids ≡ "run-1" ∷ [])
      (join system 30000000 13 launcher)
join-Ended_example = join-Ended system 30000000 12 launcher (omega arith)

-- Runs whose tags are kept: the world is the tags, the newest first.
abbrev find_run : Dict String String → Option Run
find_run tags = some (record { run_id = "run-1"; is_finished = false; tags = tags })

abbrev keeping : System (Dict String String)
keeping = record {
  is_windows = false;
  launch_process = λ run_id. pure 12;
  signal = λ pid. pure tt;
  interrupt = λ pid. pure tt;
  sleep = λ time. pure tt;
  get_run_by_id = λ run_id tags. (ok (find_run tags), tags);
  add_run_tags = λ run_id key value tags. (ok tt, (key, value) ∷ tags);
  report_run_canceling = λ run. pure tt;
}

abbrev tags_of : Result (Option Run) → Dict String String
tags_of (ok (some found)) = found.tags
tags_of (ok none) = []
tags_of (err e) = []

tagged_lem :
    (run_id key value : String) (v w u : Dict String String) (found : Run)
    → keeping.add_run_tags run_id key value v ≡ (ok tt, w)
    → keeping.get_run_by_id run_id w ≡ (ok (some found), u)
    → lookup key found.tags ≡ some value
unfolding lookup
tagged_lem run_id key value v w u found h k =
    let added : (key, value) ∷ v ≡ w = ap (λ r. r.1) h in
    let read : w ≡ found.tags = ap (λ r. tags_of r.0) k in
    rw (sym (added ∙ read)) (ground (arith, beq_refl key))

keeping-IsTagging : IsTagging keeping
keeping-IsTagging = record { tagged = tagged_lem }

terminate-launch_run_example :
    terminate keeping "run-1" (("process/pid", str 12) ∷ [])
    ≡ (do
      keeping.report_run_canceling
          (record { run_id = "run-1"; is_finished = false; tags = ("process/pid", str 12) ∷ [] })
      keeping.interrupt 12
      pure true)
        (("process/pid", str 12) ∷ [])
unfolding launch_run pure ◌>>=◌ on_world zoom modify add contains
terminate-launch_run_example =
    terminate-launch_run keeping "run-1" 12 (record { run_ids = []; world = [] })
      (record { run_ids = "run-1" ∷ []; world = ("process/pid", str 12) ∷ [] }) []
      (("process/pid", str 12) ∷ [])
      (record { run_id = "run-1"; is_finished = false; tags = ("process/pid", str 12) ∷ [] })
      keeping-IsTagging refl refl refl refl refl

abbrev secrets : List Secret
secrets =
    record { secret_name = "TOKEN"; secret_value = "scoped"; location_names = "etl" ∷ [] }
    ∷ record { secret_name = "TOKEN"; secret_value = "global"; location_names = [] }
    ∷ []

get_secrets_for_environment_lem_example :
    (environment : Dict String String) × (get_secrets_for_environment
        (λ name (n : ℕ). (ok secrets, n))
        (some "etl")
        0
      ≡ (ok environment, 0))
    × (lookup "TOKEN" environment
        ≡ last_value "TOKEN"
            (keep is_scoped secrets)
            (last_value "TOKEN" (keep is_global secrets) none))
get_secrets_for_environment_lem_example =
    get_secrets_for_environment_lem (λ name (n : ℕ). (ok secrets, n)) (some "etl") "TOKEN" secrets 0
      0 refl

abbrev control : Control ℕ
control = record {
  describe_task_definition = λ family. pure none;
  task_definitions_match = λ config arn. false;
  register = λ config. pure "arn";
  taggable = pure true;
  create_registry = λ name tags. pure "registry";
  create = λ params. pure "service";
  stop_tasks = λ name. pure tt;
  delete = λ name. pure tt;
  list_discovery_services = pure [];
  list_instances = λ id. pure [];
  deregister_instance = λ id instance. pure "operation";
  get_operation = λ id. pure "PENDING";
  sleep = λ w. (ok tt, w + 2000000);
  delete_discovery_service = λ id. pure tt;
  run = λ arn. pure "task";
  wait_until_stopped = λ arn. pure tt;
  exit_code = λ arn. pure none;
}

wait_for_operation_endless_example :
    (w' : ℕ) × (wait_for_operation control 100 "operation" 0 ≡ (ok none, w'))
unfolding pure
wait_for_operation_endless_example =
    wait_for_operation_endless control "operation" "PENDING" refl refl (λ w. (w, refl))
      (λ w. (w + 2000000, refl)) 100 0
