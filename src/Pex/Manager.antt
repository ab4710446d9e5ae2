-- ===== src/Pex/Manager.antt =====
-- dagster-cloud/dagster_cloud/pex/grpc/server/manager.py: the pex servers of one multipex server, by
-- the identifiers of their handles. The processes, their clients and the heartbeat threads are a
-- parameter, as is create_snapshot_id of dagster.
pub mod Table
use dagster_cloud.Prelude.{
  ℕ, String, Bool, true, false, ◌&&◌, Option, none, some, List, [], ◌∷◌, ◌==◌, string_eq,
  if◌then◌else◌, is_some, map,
}
use dagster_cloud.Exec.{
  Error, raised, check_error, user_code_unreachable, Result, Exec, pure, raise, gets, modify, catch,
  ◌>>=◌, ◌>>◌, for_each, zoom,
}
use dagster_cloud.Dict.{Dict, lookup, put, remove, has}
use dagster_cloud.Launcher.Types.{PexServerHandle, CodeDeploymentMetadata}
use dagster_cloud.Pex.Registry.{PexExecutable}

-- DagsterGrpcClient
pub record GrpcClient : Type 0 where
  pub port : Option ℕ
  pub socket : Option String

-- The heartbeat thread and its shutdown event are known by one number, the process by another.
pub record PexProcessEntry : Type 0 where
  pub pex_server_handle : PexServerHandle
  pub grpc_server_process : ℕ
  pub grpc_client : GrpcClient
  pub heartbeat_thread : ℕ

pub record Manager (W : Type 0) : Type 0 where
  pub pex_servers : Dict String PexProcessEntry
  pub world : W

pub record Processes (W : Type 0) : Type 0 where
  -- PexServerHandle.get_id
  pub get_id : PexServerHandle → String
  -- PexS3Registry.get_pex_executable
  pub get_pex_executable : String → Exec W PexExecutable
  -- GrpcServerProcess, and the client of its port or socket
  pub start_server : PexExecutable → CodeDeploymentMetadata → Exec W (ℕ × GrpcClient)
  pub start_heartbeat : GrpcClient → Exec W ℕ
  -- heartbeat_shutdown_event.set(), heartbeat_thread.join()
  pub stop_heartbeat : ℕ → Exec W (Unit {0})
  pub shutdown_server : GrpcClient → Exec W (Unit {0})
  pub wait : ℕ → Exec W (Unit {0})

abbrev pub servers_of : String → String → Dict String PexProcessEntry → List PexServerHandle
servers_of deployment_name location_name [] = []
servers_of deployment_name location_name ((id, server) ∷ rest) =
    let handle = server.pex_server_handle in
    let others = servers_of deployment_name location_name rest in
    if handle.deployment_name == deployment_name && handle.location_name == location_name
    then handle ∷ others
    else others

module _ {W : Type 0} where
  unfoldable pub on_world : {A : Type 0} → Exec W A → Exec (Manager W) A
  on_world m = zoom (λ s. s.world) (λ w s. record s { world = w }) m

  unfoldable pub get_pex_servers : String → String → Exec (Manager W) (List PexServerHandle)
  get_pex_servers deployment_name location_name =
      gets (λ s. servers_of deployment_name location_name s.pex_servers)

  abbrev pub client_of : Option PexProcessEntry → Exec (Manager W) GrpcClient
  client_of none = raise (raised "No server created with the given handle")
  client_of (some server) = pure server.grpc_client

  abbrev pub not_none : Option String → Exec (Manager W) String
  not_none none = raise check_error
  not_none (some tag) = pure tag

  -- except DagsterUserCodeUnreachableError: pass
  abbrev pub pass_unreachable : Error → Exec (Manager W) (Unit {0})
  pass_unreachable user_code_unreachable = pure tt
  pass_unreachable (raised message) = raise (raised message)
  pass_unreachable Error.key_error = raise Error.key_error
  pass_unreachable Error.assertion_error = raise Error.assertion_error
  pass_unreachable Error.check_error = raise Error.check_error

module _ {W : Type 0} (p : Processes W) where
  unfoldable pub get_pex_grpc_client : PexServerHandle → Exec (Manager W) GrpcClient
  get_pex_grpc_client server_handle = do
    server ← gets (λ s. lookup (p.get_id server_handle) s.pex_servers)
    client_of server

  unfoldable pub create_pex_server :
      PexServerHandle → CodeDeploymentMetadata → Exec (Manager W) (Unit {0})
  create_pex_server server_handle code_deployment_metadata = do
    pex_tag ← not_none code_deployment_metadata.pex_metadata
    pex_executable ← on_world (p.get_pex_executable pex_tag)
    (process, client) ← on_world (p.start_server pex_executable code_deployment_metadata)
    thread ← on_world (p.start_heartbeat client)
    modify (λ s. record s {
      pex_servers =
          put (p.get_id server_handle)
            (record {
              pex_server_handle = server_handle;
              grpc_server_process = process;
              grpc_client = client;
              heartbeat_thread = thread;
            })
            s.pex_servers;
    })

  unfoldable pub try_shutdown : GrpcClient → Exec (Manager W) (Unit {0})
  try_shutdown client = catch (on_world (p.shutdown_server client)) pass_unreachable

  unfoldable pub stop : Option PexProcessEntry → Exec (Manager W) (Unit {0})
  stop none = pure tt
  stop (some server) = do
    on_world (p.stop_heartbeat server.heartbeat_thread)
    try_shutdown server.grpc_client

  unfoldable pub shutdown_pex_server : PexServerHandle → Exec (Manager W) (Unit {0})
  shutdown_pex_server server_handle = do
    pex_server ← gets (λ s. lookup (p.get_id server_handle) s.pex_servers)
    modify (λ s. record s { pex_servers = remove (p.get_id server_handle) s.pex_servers })
    stop pex_server

  unfoldable pub stop_thread : String × PexProcessEntry → Exec (Manager W) (Unit {0})
  stop_thread (id, server) = on_world (p.stop_heartbeat server.heartbeat_thread)

  unfoldable pub stop_process : String × PexProcessEntry → Exec (Manager W) (Unit {0})
  stop_process (id, server) = do
    try_shutdown server.grpc_client
    on_world (p.wait server.grpc_server_process)

  -- __exit__
  unfoldable pub exit : Exec (Manager W) (Unit {0})
  exit = do
    servers ← gets (λ s. s.pex_servers)
    for_each servers stop_thread
    for_each servers stop_process
