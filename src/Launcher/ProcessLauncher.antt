-- ===== src/Launcher/ProcessLauncher.antt =====
-- dagster-cloud/dagster_cloud/workspace/user_code_launcher/process.py: code servers that are
-- subprocesses, known by their pids. The processes, the clients and the heartbeat threads are a
-- parameter.
pub mod Listed
pub mod Lifetime
pub mod Removal
pub mod Shutdown
use dagster_cloud.Prelude.{
  ℕ, zero, suc, String, Bool, true, false, not, Option, none, some, List, [], ◌∷◌, map, string_eq,
  pair_eq, nat_eq, if◌then◌else◌, contains, add, discard,
}
use dagster_cloud.Exec.{
  Error, raised, check_error, user_code_unreachable, Exec, pure, raise, gets, modify, catch, ◌>>=◌,
  ◌>>◌, zoom,
}
use dagster_cloud.Dict.{Dict, lookup, put, remove}
use dagster_cloud.Launcher.Types.{
  DeploymentAndLocation, CodeDeploymentMetadata, ServerEndpoint, DagsterCloudGrpcServer, has_pex,
}
use dagster_cloud.Pex.Manager.{GrpcClient}

-- A process is known by its pid, a heartbeat thread with its shutdown event by a number.
pub data ProcessEntry : Type 0 where
  user_code_entry : ℕ → GrpcClient → ℕ → ProcessEntry
  multipex_entry : ℕ → GrpcClient → ProcessEntry

-- defaultdict(set)
abbrev pub Pids : Type 0
Pids = Dict DeploymentAndLocation (List ℕ)

pub record ProcessLauncher (W : Type 0) : Type 0 where
  pub process_entries : Dict ℕ ProcessEntry
  pub active_pids : Pids
  pub active_multipex_pids : Pids
  pub world : W

pub record System (W : Type 0) : Type 0 where
  -- GrpcServerProcess of dagster: the pid, and the port or the socket
  pub start_server : DeploymentAndLocation → CodeDeploymentMetadata → Exec W (ℕ × GrpcClient)
  -- MultipexServerProcess(metadata)
  pub start_multipex_server : CodeDeploymentMetadata → Exec W (ℕ × GrpcClient)
  pub start_heartbeat : GrpcClient → Exec W ℕ
  -- heartbeat_shutdown_event.set(), heartbeat_thread.join()
  pub stop_heartbeat : ℕ → Exec W (Unit {0})
  pub terminate : ℕ → Exec W (Unit {0})
  pub shutdown_server : GrpcClient → Exec W (Unit {0})
  -- GrpcServerProcess.wait
  pub wait : ℕ → Exec W (Unit {0})
  -- Popen.poll, and seven.wait_for_process
  pub poll : ℕ → Exec W (Option ℕ)
  pub wait_for_process : ℕ → Exec W (Unit {0})

abbrev pub pids_of : Option (List ℕ) → List ℕ
pids_of none = []
pids_of (some pids) = pids

-- d[key].add(pid)
unfoldable pub add_pid : DeploymentAndLocation → ℕ → Pids → Pids
add_pid key pid d = put key (add pid (pids_of (lookup key d))) d

-- for pids in d.values(): pids.remove(pid), where it is in
unfoldable pub remove_pid_from : ℕ → Pids → Pids
remove_pid_from pid [] = []
remove_pid_from pid ((key, pids) ∷ d) = (key, discard pid pids) ∷ remove_pid_from pid d

module _ {W : Type 0} where
  unfoldable pub on_world : {A : Type 0} → Exec W A → Exec (ProcessLauncher W) A
  on_world m = zoom (λ s. s.world) (λ w s. record s { world = w }) m

  unfoldable pub store_user_code :
      DeploymentAndLocation → ℕ → ProcessEntry → ProcessLauncher W → ProcessLauncher W
  store_user_code key pid entry s = record s {
    process_entries = put pid entry s.process_entries;
    active_pids = add_pid key pid s.active_pids;
  }

  unfoldable pub store_multipex :
      DeploymentAndLocation → ℕ → ProcessEntry → ProcessLauncher W → ProcessLauncher W
  store_multipex key pid entry s = record s {
    process_entries = put pid entry s.process_entries;
    active_multipex_pids = add_pid key pid s.active_multipex_pids;
  }

  unfoldable pub forget_pid : ℕ → ProcessLauncher W → ProcessLauncher W
  forget_pid pid s = record s {
    process_entries = remove pid s.process_entries;
    active_pids = remove_pid_from pid s.active_pids;
    active_multipex_pids = remove_pid_from pid s.active_multipex_pids;
  }

  -- _get_standalone_dagster_server_handles_for_location
  unfoldable pub get_standalone_handles : DeploymentAndLocation → Exec (ProcessLauncher W) (List ℕ)
  get_standalone_handles key = gets (λ s. pids_of (lookup key s.active_pids))

  -- _get_multipex_server_handles_for_location
  unfoldable pub get_multipex_handles : DeploymentAndLocation → Exec (ProcessLauncher W) (List ℕ)
  get_multipex_handles key = gets (λ s. pids_of (lookup key s.active_multipex_pids))

abbrev pub local_server : ℕ → GrpcClient → CodeDeploymentMetadata → DagsterCloudGrpcServer
local_server pid client metadata = record {
  server_handle = pid;
  server_endpoint = record {
    host = "localhost";
    port = client.port;
    socket = client.socket;
    metadata = none;
  };
  code_deployment_metadata = metadata;
}

module _ {W : Type 0} (system : System W) where
  unfoldable pub start_multipex :
      DeploymentAndLocation
      → CodeDeploymentMetadata
      → Exec (ProcessLauncher W) DagsterCloudGrpcServer
  start_multipex key metadata = do
    (pid, client) ← on_world (system.start_multipex_server metadata)
    modify (store_multipex key pid (multipex_entry pid client))
    pure (local_server pid client metadata)

  unfoldable pub start_user_code :
      DeploymentAndLocation
      → CodeDeploymentMetadata
      → Exec (ProcessLauncher W) DagsterCloudGrpcServer
  start_user_code key metadata = do
    (pid, client) ← on_world (system.start_server key metadata)
    thread ← on_world (system.start_heartbeat client)
    modify (store_user_code key pid (user_code_entry pid client thread))
    pure (local_server pid client metadata)

  unfoldable pub start_new_server_spinup :
      DeploymentAndLocation
      → CodeDeploymentMetadata
      → Exec (ProcessLauncher W) DagsterCloudGrpcServer
  start_new_server_spinup key metadata =
      if has_pex metadata then start_multipex key metadata else start_user_code key metadata

  unfoldable pub stop_process : Option ProcessEntry → Exec (ProcessLauncher W) (Unit {0})
  stop_process none = pure tt
  stop_process (some (user_code_entry process client thread)) =
      on_world (system.stop_heartbeat thread)
  stop_process (some (multipex_entry process client)) = on_world (system.terminate process)

  -- When the process cannot be stopped, its entry and its pid stay.
  unfoldable pub remove_pid : ℕ → Exec (ProcessLauncher W) (Unit {0})
  remove_pid pid = do
    process_entry ← gets (λ s. lookup pid s.process_entries)
    stop_process process_entry
    modify (forget_pid pid)

  unfoldable pub remove_server_handle : ℕ → Exec (ProcessLauncher W) (Unit {0})
  remove_server_handle server_handle = remove_pid server_handle

  -- except DagsterUserCodeUnreachableError: pass
  abbrev pub pass_unreachable : Error → Exec (ProcessLauncher W) (Unit {0})
  pass_unreachable user_code_unreachable = pure tt
  pass_unreachable (raised message) = raise (raised message)
  pass_unreachable Error.key_error = raise Error.key_error
  pass_unreachable Error.assertion_error = raise Error.assertion_error
  pass_unreachable Error.check_error = raise Error.check_error

  -- MultipexServerProcess.wait
  unfoldable pub wait_multipex : ℕ → Exec (ProcessLauncher W) (Unit {0})
  wait_multipex process = do
    exit_code ← on_world (system.poll process)
    elim exit_code [ none ↦ on_world (system.wait_for_process process) | some code ↦ pure tt ]

  unfoldable pub wait_for_entry : ProcessEntry → Exec (ProcessLauncher W) (Unit {0})
  wait_for_entry (user_code_entry process client thread) = do
    catch (on_world (system.shutdown_server client)) pass_unreachable
    on_world (system.wait process)
  wait_for_entry (multipex_entry process client) = do
    on_world (system.terminate process)
    wait_multipex process

  module _ (wait_for_processes : Bool) where
    unfoldable pub clean_up_entry : ℕ × ProcessEntry → Exec (ProcessLauncher W) (Unit {0})
    clean_up_entry (pid, process_entry) = do
      remove_pid pid
      if wait_for_processes then wait_for_entry process_entry else pure tt

    -- `_cleanup_servers`, a loop on fuel: whether it is over.
    unfoldable pub cleanup_servers : ℕ → Exec (ProcessLauncher W) Bool
    cleanup_servers zero = pure false
    cleanup_servers (suc fuel) = do
      entries ← gets (λ s. s.process_entries)
      elim entries [
        | [] ↦ pure true
        | first ∷ rest ↦ (do clean_up_entry first; cleanup_servers fuel)
      ]
