-- ===== src/Examples/ProcessRuns.antt =====
-- Runs of the process launcher, and names of resources.
use dagster_cloud.Prelude.{
  ◌+◌, ℕ, ◌≡◌, String, refl, true, not, ◌&&◌, none, some, List, [], ◌∷◌, arith, Bool, contains,
  string_eq, pair_eq, nat_eq, if◌then◌else◌, leb, ◌==◌,
}
use dagster_cloud.Prelude.Slices.{len, all_chars}
use dagster_cloud.Exec.{ok, err, assertion_error, pure, raise, user_code_unreachable, for_each}
use dagster_cloud.Exec.Triple.{Post}
use dagster_cloud.Dict.{lookup, has}
use dagster_cloud.Launcher.Types.{DeploymentAndLocation, Servers}
use dagster_cloud.Launcher.Multipex.{remove_server}
use dagster_cloud.Launcher.ProcessLauncher.{
  ProcessLauncher, System, multipex_entry, user_code_entry, start_new_server_spinup,
  remove_server_handle, cleanup_servers,
}
use dagster_cloud.Launcher.ProcessLauncher.Listed.{IsActive, Same, is_listed}
use dagster_cloud.Launcher.ProcessLauncher.Lifetime.{
  Operation, start, stop, pids_at, run_operation, run_operations-IsActive,
  start_new_server_spinup_lem, remove_server_handle_lem, process_backend,
}
use dagster_cloud.Launcher.ProcessLauncher.Removal.{
  Without, Partly, listed_at, remove_server-Without,
}
use dagster_cloud.Launcher.ProcessLauncher.Shutdown.{Works, IsEmptied, cleanup_servers-IsEmptied}
use dagster_cloud.Launcher.Names.{get_task_definition_family, unique_k8s_resource_name}
use dagster_cloud.Launcher.Names.Families.{family, get_task_definition_family_lem}
use dagster_cloud.Launcher.Names.Labels.{IsHex, IsDnsLabel, unique_k8s_resource_name-IsDnsLabel}
use dagster_cloud.Examples.{backend, code}

-- pids count up; the servers of the clients are gone
abbrev system : System ℕ
system = record {
  start_server = λ key m n. (ok (n, record { port = some (4000 + n); socket = none }), n + 1);
  start_multipex_server = λ m n. (ok (n, record { port = some (4000 + n); socket = none }), n + 1);
  start_heartbeat = λ client. pure 1;
  stop_heartbeat = λ thread. pure tt;
  terminate = λ pid. pure tt;
  shutdown_server = λ client. raise user_code_unreachable;
  wait = λ pid. pure tt;
  poll = λ pid. pure none;
  wait_for_process = λ pid. pure tt;
}

abbrev etl : DeploymentAndLocation
etl = ("prod", "etl")

abbrev fresh : ProcessLauncher ℕ
fresh = record { process_entries = []; active_pids = []; active_multipex_pids = []; world = 7 }

abbrev operations : List Operation
operations =
    start etl (code none "etl") ∷ start etl (code (some "files=source-1.pex") "etl") ∷ stop 7 ∷ []

run_operations-IsActive_example :
    Post (λ _. IsActive) (λ _ _. ⊥) (for_each operations (run_operation system) fresh)
run_operations-IsActive_example = run_operations-IsActive system operations 7

start_new_server_spinup_lem_example :
    Post
      (λ server s'.
        (contains server.server_handle (pids_at true etl s') ≡ true)
        × (has server.server_handle s'.process_entries ≡ true)
        × (server.code_deployment_metadata ≡ code (some "files=source-1.pex") "etl"))
      (λ _. Same fresh)
      (start_new_server_spinup system etl (code (some "files=source-1.pex") "etl") fresh)
start_new_server_spinup_lem_example =
    start_new_server_spinup_lem system etl (code (some "files=source-1.pex") "etl") fresh

-- two servers, of which one is a multipex server
abbrev busy : ProcessLauncher ℕ
busy = record {
  process_entries =
      (7, user_code_entry 7 (record { port = some 4007; socket = none }) 1)
      ∷ (8, multipex_entry 8 (record { port = some 4008; socket = none }))
      ∷ [];
  active_pids = (etl, 7 ∷ []) ∷ [];
  active_multipex_pids = (etl, 8 ∷ []) ∷ [];
  world = 9;
}

remove_server_handle_lem_example :
    Post
      (λ _ s'.
        (pid : ℕ)
        → (has pid s'.process_entries ≡ (not (7 == pid) && has pid busy.process_entries))
          × ((pex : Bool) (key : DeploymentAndLocation)
              → contains pid (pids_at pex key s')
                ≡ (not (7 == pid) && contains pid (pids_at pex key busy))))
      (λ _. Same busy)
      (remove_server_handle system 7 busy)
remove_server_handle_lem_example = remove_server_handle_lem system 7 busy

busy-IsActive : IsActive busy
unfolding lookup is_listed contains
busy-IsActive = record { distinct = (refl, (refl, tt)); listed = λ pid. ground arith }

system-Works : Works system
unfolding pure raise
system-Works = record {
  stop_heartbeat = λ thread w. tt;
  terminate = λ pid w. tt;
  wait = λ pid w. tt;
  poll = λ pid w. tt;
  wait_for_process = λ pid w. tt;
  shutdown_server = λ client w. refl;
}

cleanup_servers-IsEmptied_example :
    Post (λ over s'. (over ≡ true) × IsEmptied s') (λ _ _. ⊥) (cleanup_servers system true 3 busy)
cleanup_servers-IsEmptied_example =
    cleanup_servers-IsEmptied system system-Works true 3 busy busy-IsActive (omega arith)

abbrev servers : Servers (ProcessLauncher ℕ)
servers = record { grpc_servers = []; multipex_servers = []; actual_entries = []; world = busy }

remove_server-Without_example :
    Post
      (λ _ s'. Without (listed_at system backend etl busy) busy s'.world)
      (λ _ s'. Partly (listed_at system backend etl busy) busy s'.world)
      (remove_server (process_backend system backend) etl servers)
remove_server-Without_example = remove_server-Without system backend etl servers

get_task_definition_family_lem_example :
    get_task_definition_family (λ s. "0123456789abcdef") (λ s. s) "server" none "prod" "etl" ≡ (
      if leb (len "None") 64 && leb (len "prod") 64 && leb (len "server") 32
      then ok (family (λ s. "0123456789abcdef") "server" none "prod" "etl")
      else err assertion_error)
get_task_definition_family_lem_example =
    get_task_definition_family_lem (λ s. "0123456789abcdef") (λ s. s) "server" none "prod" "etl"

digits-IsHex : IsHex "0123456789abcdef"
unfolding len all_chars
digits-IsHex = record { enough = omega arith; chars = refl }

unique_k8s_resource_name-IsDnsLabel_example :
    (name : String) × (unique_k8s_resource_name (λ s. s) "0123456789abcdef" "prod" "9_my-etl"
      ≡ ok name)
    × IsDnsLabel name
unique_k8s_resource_name-IsDnsLabel_example =
    unique_k8s_resource_name-IsDnsLabel (λ s. s) "0123456789abcdef" "prod" "9_my-etl" digits-IsHex
