-- ===== src/Ecs/Client.antt =====
-- The waits for services and tasks in dagster-cloud/dagster_cloud/workspace/ecs/client.py. The
-- calls of boto3 are a parameter, as is the clock, in microseconds. The loops run on fuel: `none`
-- is a loop that ran out of it.
pub mod Waits
use Prim.Native.String.{◌++◌}
use dagster_cloud.Prelude.{
  ℕ, zero, suc, ◌+◌, ◌*◌, String, Bool, true, false, not, ◌&&◌, ◌||◌, Option, none, some, List, [],
  ◌∷◌, ltb, ◌==◌, string_eq, if◌then◌else◌, contains, keep, map, concat,
}
use dagster_cloud.Prelude.Split.{split}
use dagster_cloud.Exec.{Error, raised, Exec, pure, raise, gets, catch, ◌>>=◌, ◌>>◌, for_each}

pub record Container : Type 0 where
  pub name : String
  pub last_status : String

pub record Task : Type 0 where
  pub task_definition_arn : String
  pub last_status : String
  pub stopped_reason : String
  pub containers : List Container
  -- the exit code of the first container
  pub exit_code : Option ℕ

pub record ContainerDefinition : Type 0 where
  pub name : String
  pub essential : Bool
  pub awslogs_stream_prefix : String

-- The answer of describe_services: the messages of the events of the first service, or the
-- failures, or neither.
pub data Described : Type 0 where
  services : List String → Described
  failures : String → Described
  nothing : Described

pub record EcsApi (W : Type 0) : Type 0 where
  -- the number of seconds, in microseconds, of `self.timeout` and `self.grace_period`
  pub timeout : ℕ
  pub grace_period : ℕ
  pub now : W → ℕ
  -- time.sleep(10)
  pub sleep : Exec W (Unit {0})
  pub describe_services : String → Exec W Described
  -- has_text message: "has started 1 tasks" in message
  pub has_text : String → Bool
  pub list_running_tasks : String → Exec W (List String)
  pub list_stopped_tasks : String → Exec W (List String)
  -- describe_tasks of one task, or of a list of them, and its first task
  pub describe_task : List String → Exec W Task
  pub describe_task_definition : String → Exec W (List ContainerDefinition)
  pub get_log_events : String → Exec W (List String)

abbrev pub last_part : List String → String
last_part [] = ""
last_part (part ∷ []) = part
last_part (part ∷ next ∷ parts) = last_part (next ∷ parts)

unfoldable pub find_container : String → List ContainerDefinition → Option ContainerDefinition
find_container container_name [] = none
find_container container_name (d ∷ definitions) =
    let rest = find_container container_name definitions in
    if d.name == container_name then some d else rest

-- the containers that must run do
unfoldable pub all_running : List ContainerDefinition → List Container → Bool
all_running definitions [] = true
all_running definitions (c ∷ containers) =
    let rest = all_running definitions containers in
    (not (contains c.name (map (λ d. d.name) (keep (λ d. d.essential) definitions)))
      || c.last_status == "RUNNING")
    && rest

unfoldable pub has_started : (String → Bool) → List String → Bool
has_started has_text [] = false
has_started has_text (message ∷ messages) =
    let rest = has_started has_text messages in has_text message || rest

-- EcsServiceError: the task and its logs, or why it stopped
abbrev pub service_error : String → List String → Error
service_error task_arn logs =
    raised ("ECS service failed because task " ++ (task_arn ++ (" failed: " ++ concat logs)))

module _ {W : Type 0} (ecs : EcsApi W) where
  abbrev pub container_or_raise : Option ContainerDefinition → Exec W ContainerDefinition
  container_or_raise none = raise (raised "Could not find container with name")
  container_or_raise (some definition) = pure definition

  -- get_task_logs
  unfoldable pub get_task_logs : String → String → Exec W (List String)
  get_task_logs task_arn container_name = do
    task ← ecs.describe_task (task_arn ∷ [])
    definitions ← ecs.describe_task_definition task.task_definition_arn
    definition ← container_or_raise (find_container container_name definitions)
    ecs.get_log_events (
        definition.awslogs_stream_prefix
        ++ ("/" ++ (definition.name ++ ("/" ++ last_part (split b'/' task_arn)))))

  -- raises the logs of a task that stopped, or why it stopped
  unfoldable pub report_stopped : String → List String → Exec W (Option (Unit {0}))
  report_stopped task_arn [] = do
    task ← ecs.describe_task (task_arn ∷ [])
    raise (service_error task_arn (task.stopped_reason ∷ []))
  report_stopped task_arn (line ∷ lines) = raise (service_error task_arn (line ∷ lines))

  unfoldable pub raise_stopped : String → String → Exec W (Option (Unit {0}))
  raise_stopped task_arn container_name = do
    logs ← catch (get_task_logs task_arn container_name) (λ e. pure [])
    report_stopped task_arn logs

  unfoldable pub is_up : List String → Exec W Bool
  is_up [] = pure false
  is_up (task_arn ∷ tasks) = do
    task ← ecs.describe_task (task_arn ∷ tasks)
    definitions ← ecs.describe_task_definition task.task_definition_arn
    pure (task.last_status == "RUNNING" && all_running definitions task.containers)

  module _ (service_name container_name : String) where
    unfoldable pub check_task : List String → List String → Exec W Bool
    check_task running [] = is_up running
    check_task running (task_arn ∷ tasks) = do raise_stopped task_arn container_name; pure false

    -- `_wait_for_task`, a loop of at most 300 seconds
    unfoldable pub wait_for_task : ℕ → ℕ → Exec W (Option (Unit {0}))
    wait_for_task zero start_time = pure none
    wait_for_task (suc fuel) start_time = do
      now ← gets ecs.now
      if ltb now (start_time + 300000000)
          then (do
            running ← ecs.list_running_tasks service_name
            stopped ← ecs.list_stopped_tasks service_name
            up ← check_task running stopped
            if up then pure (some tt) else (do ecs.sleep; wait_for_task fuel start_time))
          else raise (raised "Timed out waiting for tasks to start for service")

    -- wait_for_service; `again` is the next round
    unfoldable pub check_service :
        ℕ → ℕ → Exec W (Option (Unit {0})) → Described → Exec W (Option (Unit {0}))
    check_service fuel start_time again (services messages) =
        if has_started ecs.has_text messages
        then (do start ← gets ecs.now; wait_for_task fuel start)
        else again
    check_service fuel start_time again (failures reasons) = do
      now ← gets ecs.now
      if ltb now (start_time + ecs.grace_period)
          then raise (raised ("ECS DescribeServices API returned failures: " ++ reasons))
          else again
    check_service fuel start_time again nothing =
        raise (raised "ECS DescribeServices API returned an empty response")

    unfoldable pub service_loop : ℕ → ℕ → ℕ → Exec W (Option (Unit {0}))
    service_loop task_fuel zero start_time = pure none
    service_loop task_fuel (suc fuel) start_time = do
      now ← gets ecs.now
      if ltb now (start_time + ecs.timeout)
          then (do
            described ← ecs.describe_services service_name
            check_service task_fuel start_time
                (do ecs.sleep; service_loop task_fuel fuel start_time) described)
          else raise (raised "the messages of the service")

    unfoldable pub wait_for_service : ℕ → ℕ → Exec W (Option (Unit {0}))
    wait_for_service task_fuel fuel = do
      start_time ← gets ecs.now
      service_loop task_fuel fuel start_time
