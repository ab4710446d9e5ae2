-- ===== src/Ecs/Services.antt =====
-- The services and task definitions in dagster-cloud/dagster_cloud/workspace/ecs/client.py. The calls
-- of boto3 are a parameter; the wait for a deregistration runs on fuel, and is `none` without.
pub mod Deletion
use dagster_cloud.Prelude.{
  ℕ, zero, suc, String, Bool, true, false, not, ◌&&◌, ◌||◌, Option, none, some, List, [], ◌∷◌, ◌==◌,
  string_eq, nat_eq, nat_beq, if◌then◌else◌, is_some,
}
use dagster_cloud.Exec.{Error, raised, Exec, pure, raise, catch, ◌>>=◌, ◌>>◌, for_each}
use dagster_cloud.Dict.{Dict}

-- The settings of a task definition, as DagsterEcsTaskDefinitionConfig holds them.
pub record TaskDefinitionConfig : Type 0 where
  pub family : String
  pub image : String
  pub container_name : String
  pub command : List String
  pub environment : Dict String String
  pub secrets : Dict String String
  pub task_role_arn : Option String
  pub cpu : Option String
  pub memory : Option String

-- What create_service sends.
pub record ServiceParams : Type 0 where
  pub service_name : String
  pub task_definition_arn : String
  pub service_registry_arn : Option String
  pub tags : Dict String String

pub record Control (W : Type 0) : Type 0 where
  -- describe_task_definition: the arn of a family's definition; a ClientError is `none`
  pub describe_task_definition : String → Exec W (Option String)
  -- task_definitions_match of dagster_aws
  pub task_definitions_match : TaskDefinitionConfig → String → Bool
  pub register : TaskDefinitionConfig → Exec W String
  pub taggable : Exec W Bool
  pub create_registry : String → Dict String String → Exec W String
  pub create : ServiceParams → Exec W String
  -- update_service with a desired count of 0, and delete_service
  pub stop_tasks : String → Exec W (Unit {0})
  pub delete : String → Exec W (Unit {0})
  -- the pages of services in the namespace, with their names and identifiers
  pub list_discovery_services : Exec W (List (List (String × String)))
  pub list_instances : String → Exec W (List String)
  -- deregister_instance: the identifier of the operation
  pub deregister_instance : String → String → Exec W String
  -- the status of an operation
  pub get_operation : String → Exec W String
  -- time.sleep(2)
  pub sleep : Exec W (Unit {0})
  pub delete_discovery_service : String → Exec W (Unit {0})
  -- run_task: the arn of the task; the wait until it stopped; the exit code of its container
  pub run : String → Exec W String
  pub wait_until_stopped : String → Exec W (Unit {0})
  pub exit_code : String → Exec W (Option ℕ)

abbrev pub find_in_page : String → List (String × String) → Option String
find_in_page service_name [] = none
find_in_page service_name ((name, id) ∷ services) =
    if name == service_name then some id else find_in_page service_name services

abbrev pub or_else : Option String → Option String → Option String
or_else none other = other
or_else (some id) other = some id

-- _get_service_discovery_id, of the pages of services
unfoldable pub find_in_pages : String → List (List (String × String)) → Option String
find_in_pages service_name [] = none
find_in_pages service_name (page ∷ pages) =
    or_else (find_in_page service_name page) (find_in_pages service_name pages)

abbrev pub is_empty : Dict String String → Bool
is_empty [] = true
is_empty (tag ∷ tags) = false

abbrev pub failed : Option ℕ → Bool
failed none = false
failed (some code) = not (nat_beq code 0)

abbrev pub has_gateway : List (Option String) → Bool
has_gateway [] = false
has_gateway (gateway ∷ routes) = is_some gateway || has_gateway routes

-- _assign_public_ip, of the NAT gateways of the routes of each route table
unfoldable pub assign_public_ip : List (List (Option String)) → String
assign_public_ip [] = "ENABLED"
assign_public_ip (routes ∷ tables) =
    let rest = assign_public_ip tables in if has_gateway routes then "DISABLED" else rest

module _ {W : Type 0} (control : Control W) where
  -- the arn of the definition if there is one that matches
  abbrev pub reusable : TaskDefinitionConfig → Option String → Option String
  reusable config none = none
  reusable config (some arn) = if control.task_definitions_match config arn then some arn else none

  abbrev pub register_or_reuse : TaskDefinitionConfig → Option String → Exec W String
  register_or_reuse config none = control.register config
  register_or_reuse config (some arn) = pure arn

  unfoldable pub register_task_definition : TaskDefinitionConfig → Exec W String
  register_task_definition config = do
    existing ← control.describe_task_definition config.family
    register_or_reuse config (reusable config existing)

  unfoldable pub create_service_registry :
      Bool → String → Dict String String → Exec W (Option String)
  create_service_registry false service_name tags = pure none
  create_service_registry true service_name tags = do
    arn ← control.create_registry service_name tags
    pure (some arn)

  -- the tags are sent only where the account can tag services
  unfoldable pub tags_to_send : Dict String String → Exec W (Dict String String)
  tags_to_send tags =
      if is_empty tags
      then pure []
      else (do taggable ← control.taggable; pure (if taggable then tags else []))

  unfoldable pub create_service :
      String → TaskDefinitionConfig → Dict String String → Bool → Exec W String
  create_service name config tags register_service_discovery = do
    task_definition_arn ← register_task_definition config
    service_registry_arn ← create_service_registry register_service_discovery name tags
    sent ← tags_to_send tags
    control.create (record {
      service_name = name;
      task_definition_arn = task_definition_arn;
      service_registry_arn = service_registry_arn;
      tags = sent;
    })

  unfoldable pub deregister : String → List String → Exec W (List String)
  deregister service_discovery_id [] = pure []
  deregister service_discovery_id (instance_id ∷ instances) = do
    operation_id ← control.deregister_instance service_discovery_id instance_id
    rest ← deregister service_discovery_id instances
    pure (operation_id ∷ rest)

  -- while status != "SUCCESS"
  unfoldable pub wait_for_operation : ℕ → String → Exec W (Option (Unit {0}))
  wait_for_operation zero operation_id = pure none
  wait_for_operation (suc fuel) operation_id = do
    status ← control.get_operation operation_id
    if status == "FAIL" then raise (raised "deregister operation failed") else (do
      control.sleep
      if status == "SUCCESS" then pure (some tt) else wait_for_operation fuel operation_id)

  abbrev pub when_over : {A : Type 0} → Option (Unit {0}) → Exec W (Option A) → Exec W (Option A)
  when_over none next = pure none
  when_over (some over) next = next

  unfoldable pub wait_for_operations : ℕ → List String → Exec W (Option (Unit {0}))
  wait_for_operations fuel [] = pure (some tt)
  wait_for_operations fuel (operation_id ∷ operation_ids) = do
    over ← wait_for_operation fuel operation_id
    when_over over (wait_for_operations fuel operation_ids)

  unfoldable pub delete_discovery : ℕ → Option String → Exec W (Option (Unit {0}))
  delete_discovery fuel none = pure (some tt)
  delete_discovery fuel (some service_discovery_id) = do
    instances ← control.list_instances service_discovery_id
    operation_ids ← deregister service_discovery_id instances
    over ← wait_for_operations fuel operation_ids
    when_over over (do control.delete_discovery_service service_discovery_id; pure (some tt))

  -- `service_name` is the name of the service, and `hostname` that of its host in the namespace
  unfoldable pub delete_service : ℕ → String → String → Exec W (Option (Unit {0}))
  delete_service fuel service_name hostname = do
    control.stop_tasks service_name
    control.delete service_name
    pages ← control.list_discovery_services
    delete_discovery fuel (find_in_pages hostname pages)

  -- the logs of a failed task are asked for without the name of its container, a TypeError
  unfoldable pub run_task : TaskDefinitionConfig → Exec W Bool
  run_task config = do
    task_definition_arn ← register_task_definition config
    task_arn ← control.run task_definition_arn
    control.wait_until_stopped task_arn
    code ← control.exit_code task_arn
    if failed code then raise (raised "TypeError") else pure true
