-- ===== src/Pex/Proxy.antt =====
-- dagster-cloud/dagster_cloud/pex/grpc/server/server.py: the requests that create, list and shut
-- down pex servers, and the proxy that sends a request on to the pex server that its metadata names.
pub mod Metadata
pub mod Routing
pub mod Queries
use Prim.Native.String.{◌++◌}
use dagster_cloud.Prelude.{
  ℕ, String, Bool, true, false, not, Option, none, some, List, [], ◌∷◌, string_eq, int,
  if◌then◌else◌,
}
use dagster_cloud.Exec.{Error, raised, Result, ok, err, Exec, pure, raise, gets, catch, ◌>>=◌, ◌>>◌}
use dagster_cloud.Dict.{Dict, lookup, put}
use dagster_cloud.Launcher.Types.{PexServerHandle, CodeDeploymentMetadata}
use dagster_cloud.Launcher.Upload.{attempt}
use dagster_cloud.Pex.Manager.{
  GrpcClient, Manager, Processes, on_world, get_pex_servers, get_pex_grpc_client, create_pex_server,
  shutdown_pex_server,
}

pub data ApiRequest : Type 0 where
  create : PexServerHandle → CodeDeploymentMetadata → ApiRequest
  list_servers : String → String → ApiRequest
  shutdown : PexServerHandle → ApiRequest

-- A response, or the serialized error.
pub data ApiReply : Type 0 where
  created : Result (Unit {0}) → ApiReply
  listed : Result (List PexServerHandle) → ApiReply
  shut_down : Result (Unit {0}) → ApiReply

module _ {W : Type 0} (p : Processes W) where
  -- CreatePexServer, GetPexServers, ShutdownPexServer
  unfoldable pub serve : ApiRequest → Exec (Manager W) ApiReply
  serve (create handle metadata) = do
    response ← attempt (create_pex_server p handle metadata)
    pure (created response)
  serve (list_servers deployment_name location_name) = do
    response ← attempt (get_pex_servers deployment_name location_name)
    pure (listed response)
  serve (shutdown handle) = do
    response ← attempt (shutdown_pex_server p handle)
    pure (shut_down response)

  unfoldable pub serve_all : List ApiRequest → Exec (Manager W) (List ApiReply)
  serve_all [] = pure []
  serve_all (request ∷ requests) = do
    reply ← serve request
    replies ← serve_all requests
    pure (reply ∷ replies)

-- d.update(pairs)
unfoldable pub update : Dict String String → List (String × String) → Dict String String
update d [] = d
update d ((k, v) ∷ pairs) = update (put k v d) pairs

-- dict(pairs): the last value of a key wins
unfoldable pub dict : List (String × String) → Dict String String
unfolding update
dict pairs = update [] pairs

abbrev missing : String → Error
missing key = raised ("missing `" ++ (key ++ "` in request metadata"))

abbrev pub required : {S : Type 0} → Option String → String → Exec S String
required none key = raise (missing key)
required (some value) key = pure value

abbrev pub to_int : {S : Type 0} → Option ℕ → Exec S ℕ
to_int none = raise (raised "ValueError")
to_int (some n) = pure n

-- _get_handle_from_metadata
unfoldable pub get_handle_from_metadata :
    {S : Type 0} → List (String × String) → Exec S PexServerHandle
get_handle_from_metadata invocation_metadata = do
  let metadict = dict invocation_metadata
  deployment ← required (lookup "deployment" metadict) "deployment"
  location ← required (lookup "location" metadict) "location"
  timestamp ← required (lookup "timestamp" metadict) "timestamp"
  time ← to_int (int timestamp)
  pure (record {
    deployment_name = deployment;
    location_name = location;
    metadata_update_timestamp = time;
  })

module _ {W Request Response : Type 0} (p : Processes W)
    (get_response : GrpcClient → Request → Exec W Response) where
  -- _query and _streaming_query
  unfoldable pub query : List (String × String) → Request → Exec (Manager W) Response
  query invocation_metadata request = do
    handle ← get_handle_from_metadata invocation_metadata
    client ← get_pex_grpc_client p handle
    on_world (get_response client request)
