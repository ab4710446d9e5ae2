-- ===== src/Pex/Proxy/Metadata.antt =====
-- The metadata that the launcher gives to the endpoint of a pex server, read back by the proxy.
use dagster_cloud.Prelude.{String, ◌≡◌, refl, List, [], Option, none, some, string_eq, int-str}
use dagster_cloud.Exec.{ok, pure, ◌>>=◌}
use dagster_cloud.Dict.{lookup, put}
use dagster_cloud.Launcher.Types.{
  DeploymentAndLocation, UserCodeLauncherEntry, DagsterCloudGrpcServer, PexServerHandle, seconds,
}
use dagster_cloud.Launcher.Backend.{Backend}
use dagster_cloud.Launcher.Multipex.{pex_server}
use dagster_cloud.Pex.Proxy.{dict, get_handle_from_metadata}

abbrev pub metadata_of : Option (List (String × String)) → List (String × String)
metadata_of none = []
metadata_of (some pairs) = pairs

-- The handle under which the launcher creates the pex server of an entry.
abbrev pub handle_of : DeploymentAndLocation → UserCodeLauncherEntry → PexServerHandle
handle_of key entry = record {
  deployment_name = key.0;
  location_name = key.1;
  metadata_update_timestamp = seconds entry.update_timestamp;
}

module _ {W S : Type 0} (b : Backend W) where
  -- The proxy reads, from the metadata of a request to the server that the launcher returns for a
  -- pex location, the handle under which the launcher has created its pex server.
  pub get_handle_from_metadata-pex_server :
      (key : DeploymentAndLocation) (entry : UserCodeLauncherEntry)
      (server : DagsterCloudGrpcServer) (s : S)
      → get_handle_from_metadata
          (metadata_of (pex_server b key entry server).server_endpoint.metadata)
          s
        ≡ (ok (handle_of key entry), s)
  unfolding get_handle_from_metadata dict put lookup ◌>>=◌ pure
  get_handle_from_metadata-pex_server key entry server s =
      rw (int-str (seconds entry.update_timestamp)) refl
