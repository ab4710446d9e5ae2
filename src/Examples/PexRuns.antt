-- ===== src/Examples/PexRuns.antt =====
-- Runs of the multipex server.
use dagster_cloud.Prelude.{◌+◌, ℕ, String, ◌≡◌, refl, true, none, some, [], ◌∷◌, string_eq}
use dagster_cloud.Prelude.Split.{lacks, join}
use dagster_cloud.Exec.{raised, ok, err, pure, raise}
use dagster_cloud.Exec.Triple.{Post}
use dagster_cloud.Dict.{lookup}
use dagster_cloud.Launcher.Types.{DeploymentAndLocation, PexServerHandle, DagsterCloudGrpcServer}
use dagster_cloud.Launcher.Upload.{result}
use dagster_cloud.Pex.Registry.{Files, to_executable, get_pex_executable}
use dagster_cloud.Pex.Registry.Tags.{source_of, deps_of, get_pex_executable-join}
use dagster_cloud.Pex.Manager.{
  GrpcClient, PexProcessEntry, Manager, Processes, servers_of, on_world, create_pex_server,
  shutdown_pex_server,
}
use dagster_cloud.Pex.Manager.Table.{IsStarted}
use dagster_cloud.Pex.Proxy.{
  create, shutdown, list_servers, serve_all, get_handle_from_metadata, query,
}
use dagster_cloud.Pex.Proxy.Metadata.{metadata_of, handle_of, get_handle_from_metadata-pex_server}
use dagster_cloud.Pex.Proxy.Routing.{AllRouted, serve_all-AllRouted}
use dagster_cloud.Pex.Proxy.Queries.{
  metadata_for, query-create_pex_server, query-shutdown_pex_server,
}
use dagster_cloud.Launcher.Multipex.{pex_server}
use dagster_cloud.Examples.{backend, entry, endpoint, code}

-- Files which are all on the disk; the world counts the files marked as executable.
abbrev files : Files ℕ
files = record {
  exists = λ path w. true;
  s3_pex_disabled = λ w. true;
  download = λ name path. raise (raised "not found");
  make_executable = λ path n. (ok tt, n + 1);
}

get_pex_executable-join_example :
    (w : ℕ) × (get_pex_executable files "/tmp/pex-files" "files=deps-1.pex:source-1.pex" 0
      ≡ result
          (to_executable files "/tmp/pex-files" (
            source_of files "/tmp/pex-files" none ("deps-1.pex" ∷ "source-1.pex" ∷ []),
            deps_of files "/tmp/pex-files" ("deps-1.pex" ∷ "source-1.pex" ∷ []),
          ))
          w)
unfolding lacks join
get_pex_executable-join_example =
    get_pex_executable-join files "/tmp/pex-files" "deps-1.pex" ("source-1.pex" ∷ []) 0
      (refl, (refl, tt)) (λ f w h. refl) (λ path w. tt)

-- Processes are numbered from the world on.
abbrev processes : Processes ℕ
processes = record {
  get_id = λ h. h.location_name;
  get_pex_executable = λ tag. get_pex_executable files "/tmp/pex-files" tag;
  start_server = λ x m n. (ok (n, record { port = some (4000 + n); socket = none }), n + 1);
  start_heartbeat = λ client n. (ok n, n + 1);
  stop_heartbeat = λ n. pure tt;
  shutdown_server = λ client. raise (raised "unreachable");
  wait = λ n. pure tt;
}

abbrev etl : DeploymentAndLocation
etl = ("prod", "etl")

abbrev multipex : DagsterCloudGrpcServer
multipex = record {
  server_handle = 1;
  server_endpoint = endpoint;
  code_deployment_metadata = code none "multipex";
}

abbrev fresh : Manager ℕ
fresh = record { pex_servers = []; world = 0 }

abbrev handle : PexServerHandle
handle = handle_of etl (entry (some "files=source-1.pex") "etl")

get_handle_from_metadata-pex_server_example :
    get_handle_from_metadata
      (metadata_of (pex_server backend etl (entry none "etl") multipex).server_endpoint.metadata)
      fresh
    ≡ (ok (handle_of etl (entry none "etl")), fresh)
get_handle_from_metadata-pex_server_example =
    get_handle_from_metadata-pex_server backend etl (entry none "etl") multipex fresh

serve_all-AllRouted_example :
    Post
      (λ _ s.
        AllRouted processes "prod" "etl" s.pex_servers (servers_of "prod" "etl" s.pex_servers))
      (λ _ _. ⊥)
      (serve_all processes
        (create handle (code (some "files=source-1.pex") "etl")
          ∷ list_servers "prod" "etl"
          ∷ shutdown handle
          ∷ [])
        fresh)
serve_all-AllRouted_example =
    serve_all-AllRouted processes
      (create handle (code (some "files=source-1.pex") "etl")
        ∷ list_servers "prod" "etl"
        ∷ shutdown handle
        ∷ [])
      0 "prod" "etl"

-- the response names the port of the client that was asked
query-create_pex_server_example :
    Post
      (λ _ s'.
        (found : PexProcessEntry) × (lookup "etl" s'.pex_servers ≡ some found)
        × (found.pex_server_handle ≡ handle)
        × IsStarted processes (code (some "files=source-1.pex") "etl") found 0 s'.world
        × (query processes
              (λ (client : GrpcClient) (request : String). pure client.port)
              (metadata_for processes backend
                (λ (client : GrpcClient) (request : String). pure client.port)
                etl
                (entry (some "files=source-1.pex") "etl")
                multipex)
              "Ping"
              s'
            ≡ on_world (pure found.grpc_client.port) s'))
      (λ _ s'. s'.pex_servers ≡ [])
      (create_pex_server processes handle (code (some "files=source-1.pex") "etl") fresh)
query-create_pex_server_example =
    query-create_pex_server processes backend
      (λ (client : GrpcClient) (request : String). pure client.port) etl
      (entry (some "files=source-1.pex") "etl") multipex "Ping"
      (code (some "files=source-1.pex") "etl") fresh

abbrev busy : Manager ℕ
busy = record {
  pex_servers =
      (
        "etl",
        record {
          pex_server_handle = handle;
          grpc_server_process = 0;
          grpc_client = record { port = some 4000; socket = none };
          heartbeat_thread = 1;
        },
      )
      ∷ [];
  world = 2;
}

query-shutdown_pex_server_example :
    Post
      (λ _ s'.
        query processes
          (λ (client : GrpcClient) (request : String). pure client.port)
          (metadata_for processes backend
            (λ (client : GrpcClient) (request : String). pure client.port)
            etl
            (entry (some "files=source-1.pex") "etl")
            multipex)
          "Ping"
          s'
        ≡ (err (raised "No server created with the given handle"), s'))
      (λ _ s'.
        query processes
          (λ (client : GrpcClient) (request : String). pure client.port)
          (metadata_for processes backend
            (λ (client : GrpcClient) (request : String). pure client.port)
            etl
            (entry (some "files=source-1.pex") "etl")
            multipex)
          "Ping"
          s'
        ≡ (err (raised "No server created with the given handle"), s'))
      (shutdown_pex_server processes handle busy)
query-shutdown_pex_server_example =
    query-shutdown_pex_server processes backend
      (λ (client : GrpcClient) (request : String). pure client.port) etl
      (entry (some "files=source-1.pex") "etl") multipex "Ping" busy
