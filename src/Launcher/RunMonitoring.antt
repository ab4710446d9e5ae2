-- ===== src/Launcher/RunMonitoring.antt =====
-- dagster-cloud/dagster_cloud/execution/monitoring/__init__.py, and what the user code launcher
-- makes of its results. The instances and their run launchers are a parameter.
pub mod Reports
pub mod Statuses
use dagster_cloud.Prelude.{
  String, Bool, true, false, not, ◌||◌, Option, none, some, List, [], ◌∷◌, ◌==◌, string_eq,
  if◌then◌else◌, add,
}
use dagster_cloud.Exec.{
  Error, check_error, Exec, pure, raise, gets, modify, catch, ◌>>=◌, ◌>>◌, zoom,
}
use dagster_cloud.Dict.{Dict, lookup, put}

-- WorkerStatus of dagster
pub data WorkerStatus : Type 0 where
  running not_found failed success unknown : WorkerStatus

pub record CloudRunWorkerStatus : Type 0 where
  pub run_id : String
  pub status_type : WorkerStatus
  pub message : Option String

pub record CloudRunWorkerStatuses : Type 0 where
  pub statuses : List CloudRunWorkerStatus
  pub run_worker_monitoring_supported : Bool
  pub run_worker_monitoring_thread_alive : Option Bool

abbrev pub Statuses : Type 0
Statuses = Dict String (List CloudRunWorkerStatus)

-- What the monitoring thread and the launcher share, under `_run_worker_monitoring_lock`.
pub record Monitoring (W : Type 0) : Type 0 where
  pub deployments_to_check : List String
  pub statuses_dict : Statuses
  pub world : W

-- The instance of a deployment, by its name.
pub record Instances (W : Type 0) : Type 0 where
  pub supports_check_run_worker_health : String → Exec W Bool
  -- the run ids of get_runs(PipelineRunsFilter(statuses=IN_PROGRESS_RUN_STATUSES))
  pub get_runs : String → Exec W (List String)
  pub check_run_worker_health : String → String → Exec W (WorkerStatus × Option String)

-- statuses_dict.clear(), and the assignments of the items
unfoldable pub put_all : Statuses → Statuses → Statuses
put_all [] statuses_dict = statuses_dict
put_all ((deployment_name, statuses) ∷ items) statuses_dict =
    put_all items (put deployment_name statuses statuses_dict)

module _ {W : Type 0} (i : Instances W) where
  -- check.invariant
  abbrev pub invariant : Bool → Exec W (Unit {0})
  invariant true = pure tt
  invariant false = raise check_error

  unfoldable pub check_runs : String → List String → Exec W (List CloudRunWorkerStatus)
  check_runs deployment_name [] = pure []
  check_runs deployment_name (run_id ∷ runs) = do
    (status, message) ← i.check_run_worker_health deployment_name run_id
    rest ← check_runs deployment_name runs
    pure (record { run_id = run_id; status_type = status; message = message } ∷ rest)

  unfoldable pub check_deployment : String → Exec W (List CloudRunWorkerStatus)
  check_deployment deployment_name = do
    supported ← i.supports_check_run_worker_health deployment_name
    invariant supported
    runs ← i.get_runs deployment_name
    check_runs deployment_name runs

  -- for deployment_name in deployment_names
  unfoldable pub check_deployments : List String → Statuses → Exec W Statuses
  check_deployments [] statuses = pure statuses
  check_deployments (deployment_name ∷ deployment_names) statuses = do
    checked ← check_deployment deployment_name
    check_deployments deployment_names (put deployment_name checked statuses)

  -- get_cloud_run_worker_statuses of monitoring/__init__.py
  unfoldable pub collect_statuses : List String → Exec W Statuses
  collect_statuses deployment_names = check_deployments deployment_names []

  unfoldable pub monitoring_step : Exec (Monitoring W) (Unit {0})
  monitoring_step = do
    deployments_to_check ← gets (λ s. s.deployments_to_check)
    statuses ←
        zoom (λ s. s.world) (λ w s. record s { world = w }) (collect_statuses deployments_to_check)
    modify (λ s. record s { statuses_dict = put_all statuses [] })

  unfoldable pub run_worker_monitoring_thread_iteration : Exec (Monitoring W) (Unit {0})
  run_worker_monitoring_thread_iteration = catch monitoring_step (λ e. pure tt)

-- set(members)
unfoldable pub to_set : List String → List String → List String
to_set [] members = members
to_set (x ∷ xs) members = to_set xs (add x members)

-- clear, and update
unfoldable pub update_run_worker_monitoring_deployments :
    {W : Type 0} → List String → Exec (Monitoring W) (Unit {0})
update_run_worker_monitoring_deployments deployment_names =
    modify (λ s. record s { deployments_to_check = to_set deployment_names [] })

abbrev pub unsupported : CloudRunWorkerStatuses
unsupported = record {
  statuses = [];
  run_worker_monitoring_supported = false;
  run_worker_monitoring_thread_alive = none;
}

abbrev pub list_of : Option (List CloudRunWorkerStatus) → List CloudRunWorkerStatus
list_of none = []
list_of (some statuses) = statuses

abbrev pub statuses_of : Bool → Bool → Statuses → String → CloudRunWorkerStatuses
statuses_of supports_check is_alive statuses_dict deployment_name =
    if supports_check
    then record {
      statuses = list_of (lookup deployment_name statuses_dict);
      run_worker_monitoring_supported = true;
      run_worker_monitoring_thread_alive = some is_alive;
    }
    else unsupported

-- get_cloud_run_worker_statuses of user_code_launcher.py
unfoldable pub get_cloud_run_worker_statuses :
    Bool
    → Bool
    → Statuses
    → List String
    → Dict String CloudRunWorkerStatuses
    → Dict String CloudRunWorkerStatuses
get_cloud_run_worker_statuses supports_check is_alive statuses_dict [] result = result
get_cloud_run_worker_statuses supports_check is_alive statuses_dict (deployment_name ∷ names)
      result =
    get_cloud_run_worker_statuses supports_check is_alive statuses_dict names (
      put deployment_name (statuses_of supports_check is_alive statuses_dict deployment_name)
        result)
