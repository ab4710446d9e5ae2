-- ===== src/Agent/Iteration.antt =====
-- `run_iteration`: requests are popped into the pending queue, move to the ready queue once their
-- location has a server, and are submitted to the thread pool.
pub mod Queues
pub mod Malformed
use dagster_cloud.Prelude.{
  ℕ, ◌+◌, ◌*◌, String, Bool, true, false, not, ◌||◌, Option, none, some, List, [], ◌∷◌, ◌++◌, map,
  ltb, ◌==◌, if◌then◌else◌, string_eq, bool_eq, pair_eq, add, length,
}
use dagster_cloud.Exec.{
  Error, Result, ok, err, Exec, pure, raise, gets, modify, catch, ◌>>=◌, ◌>>◌, for_each, zoom,
}
use dagster_cloud.Dict.{Dict, put, remove}
use dagster_cloud.Launcher.Upload.{result}
use dagster_cloud.Agent.Api.{JsonRequest, get_location_from_request}
use dagster_cloud.Agent.State.{Agent, FutureContext, Cloud, Settings, LocationKey}

abbrev pub truthy : Option String → Bool
truthy none = false
truthy (some name) = not (name == "")

abbrev pub name_or : Option String → String
name_or none = ""
name_or (some name) = name

abbrev pub key_of : JsonRequest → String → LocationKey
key_of q location_name = (q.deployment_name, (location_name, q.is_branch_deployment))

module _ {W : Type 0} where
  unfoldable pub on_world : {A : Type 0} → Exec W A → Exec (Agent W) A
  on_world m = zoom (λ s. s.world) (λ w s. record s { world = w }) m

  -- a call that does not raise
  unfoldable pub observe : {A : Type 0} → (W → A × W) → Exec (Agent W) A
  observe f s = let (a, w) = f s.world in (ok a, record s { world = w })

  unfoldable pub extend_pending : List JsonRequest → Exec (Agent W) (Unit {0})
  extend_pending qs = modify (λ s. record s { pending_requests = s.pending_requests ++ qs })

  unfoldable pub append_ready : JsonRequest → Exec (Agent W) (Unit {0})
  append_ready q = modify (λ s. record s { ready_requests = s.ready_requests ++ q ∷ [] })

  abbrev pub active_deployment_names : Agent W → List String
  active_deployment_names s = map (λ d. d.0) s.active_deployments

module _ {W : Type 0} (c : Cloud W) where
  unfoldable pub pop_deployment : String → Exec (Agent W) (Unit {0})
  pop_deployment name = do
    json_requests ← on_world (c.pop_requests name)
    extend_pending json_requests

  unfoldable pub pop_branches : Bool → Exec (Agent W) (Unit {0})
  pop_branches true = do
    json_requests ← on_world c.pop_branch_requests
    extend_pending json_requests
  pop_branches false = pure tt

  -- pull requests from the queue, unless too many are waiting
  unfoldable pub pop_all : Settings → Exec (Agent W) (Unit {0})
  pop_all settings = do
    room ← gets (λ s. ltb (length s.pending_requests) s.pending_requests_limit)
    if room
        then (do
          pop_branches settings.includes_branch_deployments
          names ← gets active_deployment_names
          for_each names pop_deployment)
        else pure tt

  -- self._location_query_times[key] = time.time()
  unfoldable pub note_query : LocationKey → Exec (Agent W) (Unit {0})
  note_query key = do
    time ← observe c.now
    modify (λ s. record s { location_query_times = put key time s.location_query_times })

  unfoldable pub wait_for_location : LocationKey → Exec (Agent W) (Unit {0})
  wait_for_location key = modify (λ s. record s {
    locations_with_pending_requests = add key s.locations_with_pending_requests;
  })

  -- A request that names a location: true if it has to wait for a server.
  unfoldable pub must_wait : JsonRequest → Option String → Exec (Agent W) Bool
  must_wait q location =
      if truthy location
      then (do
        note_query (key_of q (name_or location))
        ready ← observe (c.has_grpc_endpoint (q.deployment_name, name_or location))
        if ready
            then pure false
            else (do wait_for_location (key_of q (name_or location)); pure true))
      else pure false

  unfoldable pub sort_request : JsonRequest → List JsonRequest → Exec (Agent W) (List JsonRequest)
  sort_request q invalid_requests = do
    location ← result (get_location_from_request c.deserialize q)
    waits ← must_wait q location
    if waits then pure (invalid_requests ++ q ∷ []) else (do append_ready q; pure invalid_requests)

  -- for json_request in self._pending_requests; returns the requests that wait
  unfoldable pub sort_requests :
      List JsonRequest → List JsonRequest → Exec (Agent W) (List JsonRequest)
  sort_requests [] invalid_requests = pure invalid_requests
  sort_requests (q ∷ qs) invalid_requests = do
    invalid_requests' ← sort_request q invalid_requests
    sort_requests qs invalid_requests'

  -- DEFAULT_TIMEOUT_SECONDS = 75
  unfoldable pub submit_request : JsonRequest → Exec (Agent W) (Unit {0})
  submit_request q = do
    submitted ← observe c.now
    future ← on_world (c.submit q submitted)
    created ← observe c.now
    modify (λ s. record s {
      request_ids_to_future_context =
          put q.request_id (record { future = future; timeout = created + 75 * 1000000 })
            s.request_ids_to_future_context;
    })

  -- future.done() or timed_out()
  unfoldable pub is_over : FutureContext → Exec (Agent W) Bool
  is_over context = do
    finished ← observe (c.done context.future)
    if finished then pure true else (do time ← observe c.now; pure (ltb context.timeout time))

  unfoldable pub take_result : String → FutureContext → Exec (Agent W) (Option Error)
  take_result request_id context = do
    response ← catch (on_world (c.result context.future)) (λ e. pure (some e))
    modify (λ s. record s {
      request_ids_to_future_context = remove request_id s.request_ids_to_future_context;
    })
    pure response

  abbrev pub yielded : Option Error → List Error → List Error
  yielded none errors = errors
  yielded (some e) errors = e ∷ errors

  unfoldable pub process_futures : List (String × FutureContext) → Exec (Agent W) (List Error)
  process_futures [] = pure []
  process_futures ((request_id, context) ∷ rest) = do
    over ← is_over context
    response ← (if over then take_result request_id context else pure none)
    errors ← process_futures rest
    pure (yielded response errors)

  -- run_iteration: the errors that it yields
  unfoldable pub run_iteration : Settings → Exec (Agent W) (List Error)
  run_iteration settings = do
    pop_all settings
    modify (λ s. record s { locations_with_pending_requests = [] })
    pending ← gets (λ s. s.pending_requests)
    invalid_requests ← sort_requests pending []
    modify (λ s. record s { pending_requests = invalid_requests })
    ready ← gets (λ s. s.ready_requests)
    for_each ready submit_request
    modify (λ s. record s { ready_requests = [] })
    futures ← gets (λ s. s.request_ids_to_future_context)
    errors ← process_futures futures
    modify (λ s. record s { iteration = s.iteration + 1 })
    pure errors
