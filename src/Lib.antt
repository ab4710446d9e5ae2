-- ===== src/Lib.antt =====
-- The agent of Dagster Cloud: the process that pops requests from the service, keeps the code
-- servers of the user's locations running, and uploads what they hold.
--
-- Two objects carry the logic. The agent (dagster-cloud/dagster_cloud/agent/dagster_cloud_agent.py)
-- runs iterations: it pops requests, sorts them by whether the location they name has a server,
-- submits the ready ones to a thread pool, and from time to time asks for the workspace and tells
-- the launcher which locations are wanted. The user code launcher
-- (dagster-cloud/dagster_cloud/workspace/user_code_launcher/user_code_launcher.py) keeps desired
-- entries under a lock, and on a thread of its own reconciles the running servers with them.
--
-- Prelude, Dict, Exec: lists, dictionaries as association lists, and the monad of methods that
--   write state and may raise, where what was written before an exception stays written. Exec.Keeps
--   and Exec.Triple are its invariants and its Hoare triples.
-- Util.Diff: diff_serializable_namedtuple_map of dagster-cloud/dagster_cloud/util/__init__.py.
-- Launcher.Types, Launcher.Backend: the values of the launcher, and what it calls without defining
--   it: the abstract methods of its subclasses, the clients of the code servers, the posts to
--   Dagster Cloud (Backend), and the functions of Python and dagster (Runtime).
-- Launcher.Metadata: add_upload_metadata, update_grpc_metadata and the start of reconcile, which run
--   under _metadata_lock. Its Calls are their orders of execution.
-- Launcher.Multipex, Endpoints, Upload: the methods of those names. Launcher.Round and
--   Launcher.CleanUp have one function for the body of each loop of _reconcile, over a record of
--   its local dictionaries; Launcher.Reconcile composes them as _reconcile and reconcile do.
--   Its children have an invariant for each loop.
-- Agent.Api: the requests and _get_location_from_request, with the deserialization as a parameter.
-- Agent.State: the attributes of DagsterCloudAgent, and what it calls (Cloud). Agent.Iteration is
--   run_iteration, Agent.Workspace is _check_update_workspace and _query_for_workspace_updates,
--   Agent.Locations is _get_locations_with_ttl_to_query.
--   Agent.Handler is what a thread does with a request (_handle_api_request,
--   _process_api_request), Agent.MainLoop the loop around the iterations, with its heartbeats.
-- Launcher.ProcessLauncher: dagster-cloud/dagster_cloud/workspace/user_code_launcher/process.py, an
--   implementation of Backend by tables of pids. Launcher.Names: the names and labels of resources in
--   the modules utils.py of dagster-cloud/dagster_cloud/workspace. Launcher.RunMonitoring:
--   dagster-cloud/dagster_cloud/execution/monitoring/__init__.py, and what the launcher makes of it.
-- Pex: dagster-cloud/dagster_cloud/pex/grpc/server, the multipex server, which runs the pex servers of
--   several locations. Pex.Registry is get_pex_executable, Pex.Manager the table of pex servers, and
--   Pex.Proxy the requests to it and through it.
-- Execution.RunLauncher: execution/cloud_run_launcher/process.py of dagster-cloud/dagster_cloud, runs
--   as subprocesses. Secrets: secrets/loader.py. Ecs.Client and Ecs.Services:
--   workspace/ecs/client.py, its waits, and the services and task definitions. Util.Env and
--   Launcher.Settings: the names of environment variables, and the settings of the launcher.
-- Examples: concrete runs.
--
-- A set is a list, and the order in which Python iterates it is a function of the Runtime. Times
-- are counted in microseconds. A server handle is a number. Every loop runs over a list,
-- but for those that run on fuel: the wait for a server (Launcher.Wait), where a round sleeps for a
-- second, so the timeout bounds the rounds; the clean-up of processes, where a round removes an
-- entry; the waits of the ECS client, where a round sleeps for ten seconds, but for the wait for a
-- deregistration, which no fuel need be enough for; and the wait for the runs, whose sleeps double
-- until they reach the timeout. The main loop of the agent is given by its round. Log messages,
-- compression and temporary files are not modelled. Not modelled, too, are the launchers for ECS,
-- Kubernetes and Docker, which are mostly calls of their clients, and the storages, which are
-- GraphQL queries.
pub mod Agent
pub mod Dict
pub mod Ecs
pub mod Examples
pub mod Exec
pub mod Execution
pub mod Launcher
pub mod Pex
pub mod Prelude
pub mod Secrets
pub mod Util
