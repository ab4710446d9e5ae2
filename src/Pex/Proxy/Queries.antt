-- ===== src/Pex/Proxy/Queries.antt =====
-- The requests to a pex server through the proxy, from its creation to its shutdown.
use dagster_cloud.Prelude.{String, ◌≡◌, refl, ◌∙◌, none, some, List, arith, string_eq, beq_refl}
use dagster_cloud.Exec.{raised, err, Exec, pure, raise, gets, ◌>>=◌}
use dagster_cloud.Exec.Triple.{Post, Triple-conseq}
use dagster_cloud.Dict.{lookup, remove, lookup-put, lookup-remove}
use dagster_cloud.Launcher.Types.{
  CodeDeploymentMetadata, DeploymentAndLocation, UserCodeLauncherEntry, DagsterCloudGrpcServer,
}
use dagster_cloud.Launcher.Backend.{Backend}
use dagster_cloud.Launcher.Multipex.{pex_server}
use dagster_cloud.Pex.Manager.{
  GrpcClient, PexProcessEntry, Manager, Processes, on_world, get_pex_grpc_client, create_pex_server,
  shutdown_pex_server,
}
use dagster_cloud.Pex.Manager.Table.{
  IsStarted, create_pex_server-Triple, shutdown_pex_server-Triple,
}
use dagster_cloud.Pex.Proxy.{query}
use dagster_cloud.Pex.Proxy.Metadata.{metadata_of, handle_of, get_handle_from_metadata-pex_server}

module _ {W V Request Response : Type 0} (p : Processes W) (b : Backend V)
    (get_response : GrpcClient → Request → Exec W Response) where
  -- the metadata of a request to the server that the launcher returns for a pex location
  abbrev pub metadata_for :
      DeploymentAndLocation
      → UserCodeLauncherEntry
      → DagsterCloudGrpcServer
      → List (String × String)
  metadata_for key entry server =
      metadata_of (pex_server b key entry server).server_endpoint.metadata

  query_lem :
      (key : DeploymentAndLocation) (entry : UserCodeLauncherEntry)
      (server : DagsterCloudGrpcServer) (request : Request) (s : Manager W)
      → query p get_response (metadata_for key entry server) request s
        ≡ (do
          client ← get_pex_grpc_client p (handle_of key entry)
          on_world (get_response client request))
            s
  unfolding query ◌>>=◌
  query_lem key entry server request s =
      rw (get_handle_from_metadata-pex_server b key entry server s) refl

  module _ (key : DeploymentAndLocation) (entry : UserCodeLauncherEntry)
      (server : DagsterCloudGrpcServer) (request : Request) where
    abbrev ask : Exec (Manager W) Response
    ask = query p get_response (metadata_for key entry server) request

    ask-found :
        (s : Manager W) (found : PexProcessEntry)
        → lookup (p.get_id (handle_of key entry)) s.pex_servers ≡ some found
        → ask s ≡ on_world (get_response found.grpc_client request) s
    ask-found s found e =
        query_lem key entry server request s
        ∙ (unfold get_pex_grpc_client ◌>>=◌ gets pure in rw e refl)

    ask-missing :
        (s : Manager W)
        → lookup (p.get_id (handle_of key entry)) s.pex_servers ≡ none
        → ask s ≡ (err (raised "No server created with the given handle"), s)
    ask-missing s e =
        query_lem key entry server request s
        ∙ (unfold get_pex_grpc_client ◌>>=◌ gets raise in rw e refl)

    -- When the launcher's pex server of an entry is created, a request to the server that the
    -- launcher returns for it is answered by the client of the process that the creation started,
    -- from the pex that the metadata names. When the creation raises, the pex servers are as before.
    pub query-create_pex_server :
        (metadata : CodeDeploymentMetadata) (s : Manager W)
        → Post
            (λ _ s'.
              (found : PexProcessEntry) × (lookup (p.get_id (handle_of key entry)) s'.pex_servers
                ≡ some found)
              × (found.pex_server_handle ≡ handle_of key entry)
              × IsStarted p metadata found s.world s'.world
              × (query p get_response (metadata_for key entry server) request s'
                  ≡ on_world (get_response found.grpc_client request) s'))
            (λ _ s'. s'.pex_servers ≡ s.pex_servers)
            (create_pex_server p (handle_of key entry) metadata s)
    query-create_pex_server metadata s =
        (Triple-conseq
            (create_pex_server-Triple p s.pex_servers (handle_of key entry) metadata s.world)
            (λ _ s' (found, e, same, started).
              let id = p.get_id (handle_of key entry) in
              let there : lookup id s'.pex_servers ≡ some found =
                rw e (ground (arith, lookup-put id id found s.pex_servers, beq_refl id)) in
              (found, there, same, started, ask-found s' found there))
            (λ _ s' e. e)).at
          s (refl, refl)

    -- Once the pex server of an entry is shut down, be it that the shutdown raises, such a request
    -- is refused.
    pub query-shutdown_pex_server :
        (s : Manager W)
        → Post
            (λ _ s'.
              query p get_response (metadata_for key entry server) request s'
              ≡ (err (raised "No server created with the given handle"), s'))
            (λ _ s'.
              query p get_response (metadata_for key entry server) request s'
              ≡ (err (raised "No server created with the given handle"), s'))
            (shutdown_pex_server p (handle_of key entry) s)
    query-shutdown_pex_server s =
        let id = p.get_id (handle_of key entry) in
        let gone = λ (s' : Manager W) (e : s'.pex_servers ≡ remove id s.pex_servers).
          ask-missing s' (rw e (ground (arith, lookup-remove id id s.pex_servers, beq_refl id))) in
        (Triple-conseq (shutdown_pex_server-Triple p s.pex_servers (handle_of key entry))
            (λ _ s' e. gone s' e) (λ _ s' e. gone s' e)).at
          s refl
