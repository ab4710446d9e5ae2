-- ===== src/Launcher/Endpoints.antt =====
-- The queries of the servers, under `_grpc_servers_lock`.
use dagster_cloud.Prelude.{
  String, Bool, Option, none, some, List, [], ◌∷◌, ◌++◌, map, string_eq, pair_eq,
}
use dagster_cloud.Exec.{Error, user_code_unreachable, Exec, pure, raise, gets, ◌>>=◌}
use dagster_cloud.Dict.{Dict, lookup, put, has}
use dagster_cloud.Launcher.Types.{
  DeploymentAndLocation, ServerEndpoint, ServerOrError, running, failed, Servers,
}

abbrev GrpcServers : Type 0
GrpcServers = Dict DeploymentAndLocation ServerOrError

unfoldable pub has_grpc_endpoint : GrpcServers → DeploymentAndLocation → Bool
has_grpc_endpoint grpc_servers key = has key grpc_servers

abbrev pub endpoint_of : {S : Type 0} → Option ServerOrError → Exec S ServerEndpoint
endpoint_of none = raise user_code_unreachable
endpoint_of (some (failed e)) = raise user_code_unreachable
endpoint_of (some (running server)) = pure server.server_endpoint

unfoldable pub get_grpc_endpoint :
    {W : Type 0} → DeploymentAndLocation → Exec (Servers W) ServerEndpoint
get_grpc_endpoint key = do server ← gets (λ s. lookup key s.grpc_servers); endpoint_of server

-- Union[ServerEndpoint, SerializableErrorInfo]
pub data EndpointOrError : Type 0 where
  endpoint : ServerEndpoint → EndpointOrError
  error : Error → EndpointOrError

abbrev to_endpoint : ServerOrError → EndpointOrError
to_endpoint (running server) = endpoint server.server_endpoint
to_endpoint (failed e) = error e

unfoldable pub get_grpc_endpoints : GrpcServers → Dict DeploymentAndLocation EndpointOrError
get_grpc_endpoints = map (λ e. (e.0, to_endpoint e.1))

-- CloudCodeServerStatus
pub data CloudCodeServerStatus : Type 0 where
  starting running_server failed_server : CloudCodeServerStatus

pub record CloudCodeServerHeartbeat : Type 0 where
  pub location_name : String
  pub server_status : CloudCodeServerStatus
  pub error : Option Error

unfoldable pub heartbeat : String → Option EndpointOrError → CloudCodeServerHeartbeat
heartbeat location none = record {
  location_name = location;
  server_status = starting;
  error = none;
}
heartbeat location (some (endpoint p)) = record {
  location_name = location;
  server_status = running_server;
  error = none;
}
heartbeat location (some (EndpointOrError.error e)) = record {
  location_name = location;
  server_status = failed_server;
  error = some e;
}

-- heartbeats[deployment_name].append(heartbeat), the list created where there is none
abbrev pub or_empty : {A : Type 0} → Option (List A) → List A
or_empty none = []
or_empty (some xs) = xs

unfoldable pub collect_heartbeats :
    GrpcServers
    → List DeploymentAndLocation
    → Dict String (List CloudCodeServerHeartbeat)
    → Dict String (List CloudCodeServerHeartbeat)
unfolding heartbeat get_grpc_endpoints
collect_heartbeats grpc_servers [] heartbeats = heartbeats
collect_heartbeats grpc_servers ((deployment_name, location_name) ∷ rest) heartbeats =
    collect_heartbeats grpc_servers rest (
      put deployment_name
        (or_empty (lookup deployment_name heartbeats)
          ++ heartbeat location_name
              (lookup (deployment_name, location_name) (get_grpc_endpoints grpc_servers))
            ∷ [])
        heartbeats)

-- get_grpc_server_heartbeats; `entry_keys` are the keys of the desired entries, in the order in
-- which the set of them is iterated
unfoldable pub get_grpc_server_heartbeats :
    GrpcServers → List DeploymentAndLocation → Dict String (List CloudCodeServerHeartbeat)
unfolding collect_heartbeats
get_grpc_server_heartbeats grpc_servers entry_keys = collect_heartbeats grpc_servers entry_keys []
