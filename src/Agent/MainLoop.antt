-- ===== src/Agent/MainLoop.antt =====
-- `run_loop` of dagster-cloud/dagster_cloud/agent/dagster_cloud_agent.py, the heartbeats of the
-- agent, and the errors that they carry. The loop is given as what it does before and in a round.
pub mod Errors
pub mod Heartbeats
use dagster_cloud.Prelude.{
  ℕ, zero, suc, ◌+◌, ◌*◌, String, Bool, true, false, not, ◌&&◌, ◌||◌, Option, none, some, List, [],
  ◌∷◌, map, ltb, string_eq, if◌then◌else◌, contains, difference,
}
use dagster_cloud.Exec.{
  Error, raised, Exec, pure, raise, gets, modify, catch, ◌>>=◌, ◌>>◌, for_each, zoom,
}
use dagster_cloud.Dict.{Dict, lookup}
use dagster_cloud.Launcher.Endpoints.{CloudCodeServerHeartbeat, or_empty}
use dagster_cloud.Launcher.Multipex.{get_item}
use dagster_cloud.Launcher.RunMonitoring.{CloudRunWorkerStatuses}
use dagster_cloud.Agent.State.{Agent, Cloud, Settings}
use dagster_cloud.Agent.Locations.{Candidate}
use dagster_cloud.Agent.Iteration.{truthy, name_or, active_deployment_names, run_iteration}
use dagster_cloud.Agent.Workspace.{check_update_workspace}

-- The agent with the fields that only the main loop uses. The deque of errors has the newest first.
pub record AgentLoop (W : Type 0) : Type 0 where
  pub agent : Agent W
  pub errors : List (Error × ℕ)
  pub last_heartbeat_time : Option ℕ

-- What identifies the agent.
pub record Identity : Type 0 where
  pub agent_id : String
  pub agent_label : Option String
  pub agent_type : Option String
  pub version : String
  -- the environment variable DAGSTER_CLOUD_AGENT_IMAGE_TAG
  pub agent_image_tag : Option String

pub record TimestampedError : Type 0 where
  pub timestamp : ℕ
  pub error : Error

pub record AgentHeartbeat : Type 0 where
  pub timestamp : ℕ
  pub identity : Identity
  pub errors : List TimestampedError
  pub metadata : Dict String String
  pub run_worker_statuses : CloudRunWorkerStatuses
  pub code_server_heartbeats : List CloudCodeServerHeartbeat

-- What the main loop calls: the user code launcher, and the GraphQL API. ADD_AGENT_HEARTBEATS_MUTATION
-- raises where its response has errors.
pub record Reports (W : Type 0) : Type 0 where
  pub get_cloud_run_worker_statuses : List String → Exec W (Dict String CloudRunWorkerStatuses)
  pub get_grpc_server_heartbeats : Exec W (Dict String (List CloudCodeServerHeartbeat))
  pub add_agent_heartbeats : List (String × AgentHeartbeat) → Exec W (Unit {0})
  -- DEPLOYMENTS_QUERY: the names of the deployments that exist
  pub existing_deployments : List String → Exec W (List String)

-- the first `n` members
unfoldable pub first {ℓ} : {A : Type ℓ} → ℕ → List A → List A
first zero xs = []
first (suc n) [] = []
first (suc n) (x ∷ xs) = x ∷ first n xs

-- AGENT_HEARTBEAT_ERROR_LIMIT = 25, AGENT_HEARTBEAT_INTERVAL_SECONDS = 30
abbrev pub error_limit : ℕ
error_limit = 25

abbrev pub heartbeat_interval : ℕ
heartbeat_interval = 30 * 1000000

-- deque.appendleft, with the limit
abbrev pub append_left : Error × ℕ → List (Error × ℕ) → List (Error × ℕ)
append_left error errors = first error_limit (error ∷ errors)

-- the metadata of a heartbeat: the version, and the tag of the image if there is one
abbrev pub metadata_of : String → Option String → Dict String String
metadata_of version tag =
    if truthy tag
    then ("version", version) ∷ ("image_tag", name_or tag) ∷ []
    else ("version", version) ∷ []

-- the interval is not over
abbrev pub sent_recently : Option ℕ → ℕ → Bool
sent_recently none now = false
sent_recently (some last) now = ltb now (last + heartbeat_interval)

module _ {W : Type 0} where
  unfoldable pub on_agent : {A : Type 0} → Exec (Agent W) A → Exec (AgentLoop W) A
  on_agent m = zoom (λ s. s.agent) (λ a s. record s { agent = a }) m

  unfoldable pub on_world : {A : Type 0} → Exec W A → Exec (AgentLoop W) A
  on_world m =
      zoom (λ s. s.agent.world) (λ w s. record s { agent = record s.agent { world = w } }) m

  unfoldable pub observe : {A : Type 0} → (W → A × W) → Exec (AgentLoop W) A
  observe f = on_world (λ w. let (a, w') = f w in pure a w')

  unfoldable pub heartbeats_for :
      Identity
      → ℕ
      → List (Error × ℕ)
      → Dict String CloudRunWorkerStatuses
      → Dict String (List CloudCodeServerHeartbeat)
      → List String
      → Exec (AgentLoop W) (List (String × AgentHeartbeat))
  heartbeats_for identity now errors run_worker_statuses code_server_heartbeats [] = pure []
  heartbeats_for identity now errors run_worker_statuses code_server_heartbeats
        (deployment_name ∷ names) =
      do
        statuses ← get_item (lookup deployment_name run_worker_statuses)
        rest ← heartbeats_for identity now errors run_worker_statuses code_server_heartbeats names
        pure (
            (
              deployment_name,
              record {
                timestamp = now;
                identity = identity;
                errors = map (λ e. record { timestamp = e.1; error = e.0 }) errors;
                metadata = metadata_of identity.version identity.agent_image_tag;
                run_worker_statuses = statuses;
                code_server_heartbeats = or_empty (lookup deployment_name code_server_heartbeats);
              },
            )
            ∷ rest)

module _ {W : Type 0} (c : Cloud W) (reports : Reports W) where
  unfoldable pub note_error : Error → Exec (AgentLoop W) (Unit {0})
  note_error error = do
    time ← observe c.now
    modify (λ s. record s { errors = append_left (error, time) s.errors })

  -- _check_add_heartbeat, after the interval
  unfoldable pub add_heartbeat : Identity → ℕ → Exec (AgentLoop W) (Unit {0})
  add_heartbeat identity now = do
    errors ← gets (λ s. s.errors)
    names ← gets (λ s. active_deployment_names s.agent)
    run_worker_statuses ← on_world (reports.get_cloud_run_worker_statuses names)
    code_server_heartbeats ← on_world reports.get_grpc_server_heartbeats
    heartbeats ← heartbeats_for identity now errors run_worker_statuses code_server_heartbeats names
    modify (λ s. record s { last_heartbeat_time = some now })
    on_world (reports.add_agent_heartbeats heartbeats)

  unfoldable pub check_add_heartbeat : Identity → Exec (AgentLoop W) (Unit {0})
  check_add_heartbeat identity = do
    now ← observe c.now
    last ← gets (λ s. s.last_heartbeat_time)
    if sent_recently last now then pure tt else add_heartbeat identity now

  -- _check_initial_deployment_names
  unfoldable pub check_initial_deployment_names : Settings → Exec (AgentLoop W) (Unit {0})
  check_initial_deployment_names settings = elim (settings.deployment_names) [
    | [] ↦ pure tt
    | name ∷ names ↦ (do
      existing ← on_world (reports.existing_deployments (name ∷ names))
      elim (difference (name ∷ names) existing) [
        | [] ↦ pure tt
        | missing ∷ others ↦ raise (raised "Agent is configured to serve an invalid deployment")
      ])
  ]

  module _ (iterate : List Candidate → List Candidate) (settings : Settings)
      (identity : Identity) where
    -- the errors that the iteration yields are noted, or the one that it raises
    unfoldable pub iterate_and_note : Exec (AgentLoop W) (Unit {0})
    iterate_and_note =
        catch (do errors ← on_agent (run_iteration c settings); for_each errors note_error)
          note_error

    -- a round of `while True`
    unfoldable pub run_loop_round : Exec (AgentLoop W) (Unit {0})
    run_loop_round = do
      iterate_and_note
      catch (check_add_heartbeat identity) (λ e. pure tt)
      catch (on_agent (check_update_workspace c iterate settings)) (λ e. pure tt)

    -- what comes before it
    unfoldable pub start_loop : Exec (AgentLoop W) (Unit {0})
    start_loop = do
      check_initial_deployment_names settings
      on_agent (check_update_workspace c iterate settings)
