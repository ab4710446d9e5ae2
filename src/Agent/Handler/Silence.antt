-- ===== src/Agent/Handler/Silence.antt =====
-- What the handling of a request leaves alone: the responses that were uploaded.
use dagster_cloud.Prelude.{
  ℕ, String, ◌≡◌, refl, ap, ◌∙◌, Bool, Option, none, some, List, [], ◌∷◌, ◌++◌, string_eq,
}
use dagster_cloud.Exec.{Error, raised, Result, ok, err, Exec, pure, raise, modify, ◌>>=◌, zoom}
use dagster_cloud.Exec.Keeps.{Keeps, Keeps-bind, Keeps-pure, Keeps-if, keeps_rules}
use dagster_cloud.Exec.Triple.{Post, Triple, Triple-pure, Triple-raise, Triple-bind, Triple-Keeps}
use dagster_cloud.Dict.{Dict}
use dagster_cloud.Launcher.Types.{DeploymentAndLocation, UserCodeLauncherEntry, ServerEndpoint}
use dagster_cloud.Launcher.Upload.{result}
use dagster_cloud.Agent.Api.{
  DagsterCloudApi, DagsterCloudApiRequest, PipelineRun, check_for_workspace_updates,
  load_repositories, get_external_execution_plan, get_subset_external_pipeline_result,
  get_external_partition_config, get_external_partition_tags, get_external_partition_names,
  get_external_partition_set_execution_param_data, get_external_schedule_execution_data,
  get_external_sensor_execution_data, get_external_notebook_data, launch_run, check_run_health,
  terminate_run, launch_step, check_step_health, terminate_step, ping_location,
}
use dagster_cloud.Agent.State.{Agent, Cloud, WorkspaceEntry}
use dagster_cloud.Agent.Iteration.{on_world, observe}
use dagster_cloud.Agent.Handler.{
  ApiResponse, success, unknown_command, error_response, grpc_response, UploadApiResponse, Services,
  outdated_entries, upload_outdated_workspace_entries, ask_server, ask_notebook, launch_in_server,
  handle_launch_run, handle_terminate_run, handle_check, handle_api, handle_api_request,
}

-- The responses that Dagster Cloud has got, as far as the world tells; nothing but the upload of a
-- response changes them. An upload raises the errors of `failed` only.
pub record IsLogged {W : Type 0} (c : Cloud W) (services : Services W)
    (responses : W → List UploadApiResponse) (failed : Error → Type 0) : Type 0 where
  pub now : (w : W) → responses (c.now w).1 ≡ responses w
  pub entries :
      (ds : List String) (b : Bool) (w : W)
      → responses (c.query_workspace_entries ds b w).1 ≡ responses w
  pub uploads :
      (d : Dict DeploymentAndLocation UserCodeLauncherEntry) (w : W)
      → responses (c.add_upload_metadata d w).1 ≡ responses w
  pub endpoint :
      (key : DeploymentAndLocation) (w : W)
      → responses (services.get_grpc_endpoint key w).1 ≡ responses w
  pub query :
      (e : ServerEndpoint) (q : DagsterCloudApiRequest) (o : Option String) (w : W)
      → responses (services.query e q o w).1 ≡ responses w
  pub notebook :
      (e : ServerEndpoint) (q : DagsterCloudApiRequest) (w : W)
      → responses (services.external_notebook_data e q w).1 ≡ responses w
  pub report :
      (d m : String) (run : PipelineRun) (w : W)
      → responses (services.report_engine_event d m run w).1 ≡ responses w
  pub tag :
      (d id : String) (tags : List (String × String)) (w : W)
      → responses (services.add_run_tags d id tags w).1 ≡ responses w
  pub launch_here :
      (d : String) (run : PipelineRun) (e : ServerEndpoint) (w : W)
      → responses (services.launch_run_from_grpc_client d run e w).1 ≡ responses w
  pub launch :
      (d : String) (run : PipelineRun) (w : W)
      → responses (services.launch_run d run w).1 ≡ responses w
  pub cancel :
      (d : String) (run : PipelineRun) (w : W)
      → responses (services.report_run_canceling d run w).1 ≡ responses w
  pub stop : (d id : String) (w : W) → responses (services.terminate d id w).1 ≡ responses w
  pub upload :
      (d : String) (r : UploadApiResponse) (w : W)
      → Post
          (λ _ w'. responses w' ≡ responses w ++ r ∷ [])
          (λ e _. failed e)
          (services.upload_api_response d r w)

module _ {W : Type 0} (responses : W → List UploadApiResponse) where
  abbrev pub Seen : List UploadApiResponse → Agent W → Type 0
  Seen l s = responses s.world ≡ l

  silent :
      {A : Type 0} (l : List UploadApiResponse) (m : Exec W A)
      → ((w : W) → responses (m w).1 ≡ responses w)
      → Keeps (Seen l) (on_world m)
  unfolding on_world zoom
  silent l m h = record { at = λ s seen. h s.world ∙ seen }

  observed :
      {A : Type 0} (l : List UploadApiResponse) (f : W → A × W)
      → ((w : W) → responses (f w).1 ≡ responses w)
      → Keeps (Seen l) (observe f)
  unfolding observe
  observed l f h = record { at = λ s seen. h s.world ∙ seen }

  pub observed-Triple :
      {A : Type 0} {E : Error → Agent W → Type 0} (l : List UploadApiResponse) (f : W → A × W)
      → ((w : W) → responses (f w).1 ≡ responses w)
      → Triple (Seen l) (observe f) (λ _. Seen l) E
  unfolding observe
  observed-Triple l f h = record { at = λ s seen. h s.world ∙ seen }

  written :
      (l : List UploadApiResponse) (f : Agent W → Agent W)
      → ((s : Agent W) → (f s).world ≡ s.world)
      → Keeps (Seen l) (modify f)
  unfolding modify
  written l f h = record { at = λ s seen. ap responses (h s) ∙ seen }

  pub result-silent :
      {A : Type 0} (l : List UploadApiResponse) (r : Result A) → Keeps (Seen l) (result r)
  unfolding result
  result-silent l (ok a) = search keeps_rules
  result-silent l (err e) = search keeps_rules

-- no error response
abbrev pub IsPlain : ApiResponse → Type 0
IsPlain (error_response errors) = ⊥
IsPlain _ = Unit

-- The error of an answer is the one that its response carries.
abbrev pub Agrees : ApiResponse → Option Error → Type 0
Agrees (error_response errors) error = (e : Error) × (errors ≡ e ∷ []) × (error ≡ some e)
Agrees _ error = error ≡ none

pub plain-Agrees : (response : ApiResponse) → IsPlain response → Agrees response none
plain-Agrees success h = refl
plain-Agrees (unknown_command api) h = refl
plain-Agrees (error_response errors) h = absurd h
plain-Agrees (grpc_response text) h = refl

module _ {W : Type 0} (c : Cloud W) (services : Services W) (responses : W → List UploadApiResponse)
    (failed : Error → Type 0) (logged : IsLogged c services responses failed)
    (l : List UploadApiResponse) where
  abbrev pub Quiet : {A : Type 0} → Exec (Agent W) A → Type 0
  Quiet m = Keeps (Seen responses l) m

  abbrev pub Plain : ApiResponse → Agent W → Type 0
  Plain response s = Seen responses l s × IsPlain response

  abbrev pub Handles : Exec (Agent W) ApiResponse → Type 0
  Handles m = Triple (Seen responses l) m Plain (λ _. Seen responses l)

  -- an action, then what needs its result
  bind-Handles :
      {A : Type 0} {m : Exec (Agent W) A} {f : A → Exec (Agent W) ApiResponse}
      → Quiet m
      → ((a : A) → Handles (f a))
      → Handles (m >>= f)
  bind-Handles q h = Triple-bind _ _ (Triple-Keeps q) h

  pure-Handles : (response : ApiResponse) → IsPlain response → Handles (pure response)
  pure-Handles response plain = Triple-pure _ (λ s seen. (seen, plain))

  outdated_entries-Quiet :
      (d : String) (branch : Bool) (now : ℕ) (entries : List WorkspaceEntry)
      (uploads : Dict DeploymentAndLocation UserCodeLauncherEntry)
      → Quiet (outdated_entries c d branch now entries uploads)
  unfolding outdated_entries
  outdated_entries-Quiet d branch now [] uploads = Keeps-pure uploads
  outdated_entries-Quiet d branch now (entry ∷ entries) uploads =
      Keeps-bind _ _ (result-silent responses l entry.deployment_metadata) (λ metadata.
        Keeps-if _ _ _
          (Keeps-bind _ _ (written responses l _ (λ s. refl))
            (λ _. outdated_entries-Quiet d branch now entries _))
          (outdated_entries-Quiet d branch now entries uploads))

  endpoint-Quiet : (key : DeploymentAndLocation) → Quiet (on_world (services.get_grpc_endpoint key))
  endpoint-Quiet key = silent responses l _ (logged.endpoint key)

  handle_check-Handles : (d : String) (branch : Bool) → Handles (handle_check c services d branch)
  unfolding handle_check upload_outdated_workspace_entries
  handle_check-Handles d branch =
      bind-Handles
        (Keeps-bind _ _ (silent responses l _ (logged.entries _ _)) (λ deployments.
          Keeps-bind _ _ (result-silent responses l _) (λ deployment.
            Keeps-bind _ _ (observed responses l c.now logged.now) (λ now.
              Keeps-bind _ _ (outdated_entries-Quiet d branch now _ _)
                (λ uploads. silent responses l _ (logged.uploads uploads))))))
        (λ _. pure-Handles _ tt)

  ask_server-Handles :
      (request : DagsterCloudApiRequest) (key : DeploymentAndLocation) (ref : Option String)
      → Handles (ask_server c services request key ref)
  unfolding ask_server
  ask_server-Handles request key ref = bind-Handles (endpoint-Quiet key) (λ client.
      bind-Handles (silent responses l _ (logged.query client request ref))
        (λ response. pure-Handles _ tt))

  ask_notebook-Handles :
      (request : DagsterCloudApiRequest) (key : DeploymentAndLocation)
      → Handles (ask_notebook c services request key)
  unfolding ask_notebook
  ask_notebook-Handles request key = bind-Handles (endpoint-Quiet key) (λ client.
      bind-Handles (silent responses l _ (logged.notebook client request))
        (λ response. pure-Handles _ tt))

  launch_in_server-Quiet :
      (d : String) (run : PipelineRun) → Quiet (launch_in_server c services d run)
  unfolding launch_in_server
  launch_in_server-Quiet d run = Keeps-bind _ _ (silent responses l _ (logged.report d _ run)) (λ _.
      Keeps-bind _ _ (result-silent responses l _) (λ location_name.
        Keeps-bind _ _ (endpoint-Quiet _)
          (λ client. silent responses l _ (logged.launch_here d run client))))

  handle_launch_run-Handles :
      (request : DagsterCloudApiRequest) (d : String)
      → Handles (handle_launch_run c services request d)
  unfolding handle_launch_run
  handle_launch_run-Handles request d = bind-Handles (result-silent responses l _) (λ run.
      bind-Handles (silent responses l _ (logged.report d _ run)) (λ _.
        bind-Handles (silent responses l _ (logged.tag d _ _)) (λ _.
          bind-Handles
            (Keeps-if _ _ _ (launch_in_server-Quiet d run)
              (silent responses l _ (logged.launch d run)))
            (λ _. pure-Handles _ tt))))

  handle_terminate_run-Handles :
      (request : DagsterCloudApiRequest) (d : String)
      → Handles (handle_terminate_run c services request d)
  unfolding handle_terminate_run
  handle_terminate_run-Handles request d = bind-Handles (result-silent responses l _) (λ run.
      bind-Handles
        (Keeps-if _ _ _
          (Keeps-bind _ _ (silent responses l _ (logged.report d _ run))
            (λ _. silent responses l _ (logged.cancel d run)))
          (Keeps-bind _ _ (silent responses l _ (logged.report d _ run))
            (λ _. silent responses l _ (logged.stop d run.run_id))))
        (λ _. pure-Handles _ tt))

  unhandled : Handles (raise (raised "Unhandled value"))
  unhandled = Triple-raise _ (λ s seen. seen)

  handle_api-Handles :
      (api : DagsterCloudApi) (request : DagsterCloudApiRequest) (d : String) (branch : Bool)
      (key : DeploymentAndLocation)
      → Handles (handle_api c services api request d branch key)
  unfolding handle_api
  handle_api-Handles ping_location request d branch key = pure-Handles _ tt
  handle_api-Handles check_for_workspace_updates request d branch key =
      handle_check-Handles d branch
  handle_api-Handles get_external_execution_plan request d branch key =
      ask_server-Handles request key (some d)
  handle_api-Handles get_subset_external_pipeline_result request d branch key =
      ask_server-Handles request key none
  handle_api-Handles get_external_partition_config request d branch key =
      ask_server-Handles request key none
  handle_api-Handles get_external_partition_tags request d branch key =
      ask_server-Handles request key none
  handle_api-Handles get_external_partition_names request d branch key =
      ask_server-Handles request key none
  handle_api-Handles get_external_partition_set_execution_param_data request d branch key =
      ask_server-Handles request key none
  handle_api-Handles get_external_schedule_execution_data request d branch key =
      ask_server-Handles request key (some d)
  handle_api-Handles get_external_sensor_execution_data request d branch key =
      ask_server-Handles request key (some d)
  handle_api-Handles get_external_notebook_data request d branch key =
      ask_notebook-Handles request key
  handle_api-Handles launch_run request d branch key = handle_launch_run-Handles request d
  handle_api-Handles terminate_run request d branch key = handle_terminate_run-Handles request d
  handle_api-Handles load_repositories request d branch key = unhandled
  handle_api-Handles check_run_health request d branch key = unhandled
  handle_api-Handles launch_step request d branch key = unhandled
  handle_api-Handles check_step_health request d branch key = unhandled
  handle_api-Handles terminate_step request d branch key = unhandled

  pub handle_api_request-Handles :
      (request : DagsterCloudApiRequest) (d : String) (branch : Bool)
      → Handles (handle_api_request c services request d branch)
  unfolding handle_api_request
  handle_api_request-Handles request d branch =
      bind-Handles (result-silent responses l _)
        (λ location. handle_api-Handles request.request_api request _ _ _)
