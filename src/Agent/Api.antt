-- ===== src/Agent/Api.antt =====
-- The requests of dagster-cloud/dagster_cloud/api/dagster_cloud_api.py, and the code location that
-- a request is for.
use dagster_cloud.Prelude.{
  String, Bool, Option, none, some, List, [], ◌∷◌, ◌==◌, if◌then◌else◌, string_eq,
}
use dagster_cloud.Exec.{Error, raised, Result, ok, err}

pub data DagsterCloudApi : Type 0 where
  check_for_workspace_updates load_repositories get_external_execution_plan : DagsterCloudApi
  get_subset_external_pipeline_result get_external_partition_config : DagsterCloudApi
  get_external_partition_tags get_external_partition_names : DagsterCloudApi
  get_external_partition_set_execution_param_data : DagsterCloudApi
  get_external_schedule_execution_data get_external_sensor_execution_data : DagsterCloudApi
  get_external_notebook_data launch_run check_run_health terminate_run launch_step : DagsterCloudApi
  check_step_health terminate_step ping_location : DagsterCloudApi

-- DagsterCloudApi.__members__
abbrev members : List (String × DagsterCloudApi)
members =
    ("CHECK_FOR_WORKSPACE_UPDATES", check_for_workspace_updates)
    ∷ ("LOAD_REPOSITORIES", load_repositories)
    ∷ ("GET_EXTERNAL_EXECUTION_PLAN", get_external_execution_plan)
    ∷ ("GET_SUBSET_EXTERNAL_PIPELINE_RESULT", get_subset_external_pipeline_result)
    ∷ ("GET_EXTERNAL_PARTITION_CONFIG", get_external_partition_config)
    ∷ ("GET_EXTERNAL_PARTITION_TAGS", get_external_partition_tags)
    ∷ ("GET_EXTERNAL_PARTITION_NAMES", get_external_partition_names)
    ∷ (
      "GET_EXTERNAL_PARTITION_SET_EXECUTION_PARAM_DATA",
      get_external_partition_set_execution_param_data,
    )
    ∷ ("GET_EXTERNAL_SCHEDULE_EXECUTION_DATA", get_external_schedule_execution_data)
    ∷ ("GET_EXTERNAL_SENSOR_EXECUTION_DATA", get_external_sensor_execution_data)
    ∷ ("GET_EXTERNAL_NOTEBOOK_DATA", get_external_notebook_data)
    ∷ ("LAUNCH_RUN", launch_run)
    ∷ ("CHECK_RUN_HEALTH", check_run_health)
    ∷ ("TERMINATE_RUN", terminate_run)
    ∷ ("LAUNCH_STEP", launch_step)
    ∷ ("CHECK_STEP_HEALTH", check_step_health)
    ∷ ("TERMINATE_STEP", terminate_step)
    ∷ ("PING_LOCATION", ping_location)
    ∷ []

is_key : String → List (String × DagsterCloudApi) → Bool
is_key name [] = Bool.false
is_key name ((key, api) ∷ rest) = if key == name then Bool.true else is_key name rest

-- request_api in DagsterCloudApi.__members__
unfoldable pub is_member : String → Bool
unfolding is_key
is_member name = is_key name members

-- PipelineRun, with the name of the location of its origin.
pub record PipelineRun : Type 0 where
  pub run_id : String
  pub tags : List (String × String)
  pub origin_location_name : Option String

-- The arguments of a request, by the attribute that leads to the location: a pipeline's origin, a
-- repository's origin, a location's origin, a location's name, or none of them; and a run.
pub data RequestArgs : Type 0 where
  pipeline_origin repository_origin repository_location_origin location_name : String → RequestArgs
  pipeline_run : PipelineRun → RequestArgs
  no_origin : RequestArgs

pub record DagsterCloudApiRequest : Type 0 where
  pub request_id : String
  pub request_api : DagsterCloudApi
  pub request_args : RequestArgs

-- A request as it is popped from the queue.
pub record JsonRequest : Type 0 where
  pub request_id : String
  pub request_api : String
  pub request_body : String
  pub deployment_name : String
  pub is_branch_deployment : Bool

-- The attributes of the arguments: reading one that is not there raises.
abbrev pub missing_attribute : Error
missing_attribute = raised "AttributeError"

abbrev pipeline_location : RequestArgs → Result (Option String)
pipeline_location (pipeline_origin l) = ok (some l)
pipeline_location _ = err missing_attribute

abbrev repository_location : RequestArgs → Result (Option String)
repository_location (repository_origin l) = ok (some l)
repository_location _ = err missing_attribute

abbrev notebook_location : RequestArgs → Result (Option String)
notebook_location (repository_location_origin l) = ok (some l)
notebook_location _ = err missing_attribute

abbrev pinged_location : RequestArgs → Result (Option String)
pinged_location (location_name l) = ok (some l)
pinged_location _ = err missing_attribute

-- _get_location_origin_from_request, and the location's name of what it returns
unfoldable pub get_location_origin : DagsterCloudApi → RequestArgs → Result (Option String)
get_location_origin get_external_execution_plan args = pipeline_location args
get_location_origin get_subset_external_pipeline_result args = pipeline_location args
get_location_origin get_external_partition_config args = repository_location args
get_location_origin get_external_partition_tags args = repository_location args
get_location_origin get_external_partition_names args = repository_location args
get_location_origin get_external_partition_set_execution_param_data args = repository_location args
get_location_origin get_external_schedule_execution_data args = repository_location args
get_location_origin get_external_sensor_execution_data args = repository_location args
get_location_origin get_external_notebook_data args = notebook_location args
get_location_origin ping_location args = pinged_location args
get_location_origin _ args = ok none

abbrev origin_of : Result DagsterCloudApiRequest → Result (Option String)
origin_of (ok request) = get_location_origin request.request_api request.request_args
origin_of (err e) = err e

-- deserialize_json_to_dagster_namedtuple, of dagster, on request bodies
abbrev pub Deserialize : Type 0
Deserialize = String → Result DagsterCloudApiRequest

-- _get_location_from_request
unfoldable pub get_location_from_request : Deserialize → JsonRequest → Result (Option String)
get_location_from_request deserialize q =
    if is_member q.request_api then origin_of (deserialize q.request_body) else ok none
