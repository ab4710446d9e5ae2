-- ===== src/Examples.antt =====
-- Concrete runs of the launcher and the agent, with the code outside the repository instantiated.
pub mod LauncherRuns
pub mod AgentRuns
pub mod PexRuns
pub mod ProcessRuns
pub mod LoopRuns
pub mod ServiceRuns
use dagster_cloud.Prelude.{
  ℕ, ◌+◌, String, true, false, ◌≡◌, refl, ap, Option, none, some, List, [], ◌∷◌, arith, string_eq,
  pair_eq, pair_beq_iff, if◌then◌else◌,
}
use dagster_cloud.Dict.{Dict, lookup, put, lookup-put}
use dagster_cloud.Exec.{pure, ok}
use dagster_cloud.Launcher.Types.{
  DeploymentAndLocation, CodeDeploymentMetadata, UserCodeLauncherEntry, ServerEndpoint,
}
use dagster_cloud.Launcher.Backend.{Backend, Runtime}
use dagster_cloud.Launcher.Metadata.{Entries}

-- Dictionaries merged from the end, sets iterated in the order of their lists.
unfoldable pub merge : Entries → Entries → Entries
merge a [] = a
merge a ((k, entry) ∷ b) = put k entry (merge a b)

pub lookup-merge :
    (k : DeploymentAndLocation) (a b : Entries)
    → lookup k (merge a b) ≡ elim (lookup k b) [ none ↦ lookup k a | some entry ↦ some entry ]
unfolding merge lookup
lookup-merge k a [] = refl
lookup-merge k a ((x, entry) ∷ b) =
    ground (arith, lookup-put k x entry (merge a b), lookup-merge k a b)

abbrev pub runtime : Runtime
runtime = record {
  iterate = λ l. l;
  contains-iterate = λ k l. refl;
  iterate-IsDistinct = λ l h. h;
  merge_dicts = merge;
  lookup-merge_dicts = lookup-merge;
  create_snapshot_id = λ entry. entry.code_deployment_metadata.code;
}

abbrev pub code : Option String → String → CodeDeploymentMetadata
code pex name = record { image = none; pex_metadata = pex; container_context = ""; code = name }

abbrev pub entry : Option String → String → UserCodeLauncherEntry
entry pex name = record {
  code_deployment_metadata = code pex name;
  update_timestamp = 5000000;
  sandbox_saved_timestamp = none;
}

abbrev pub endpoint : ServerEndpoint
endpoint = record { host = "localhost"; port = some 4000; socket = none; metadata = none }

-- A backend over a count of its servers, which answers every call; the world is the count.
abbrev pub backend : Backend ℕ
backend = record {
  requires_images = false;
  get_standalone_handles = λ k. pure [];
  get_multipex_handles = λ k. pure [];
  start_new_server_spinup = λ k m n. (
    ok (record { server_handle = n + 1; server_endpoint = endpoint; code_deployment_metadata = m }),
    n + 1,
  );
  wait_for_new_multipex_server = λ k e. pure tt;
  wait_for_new_server_ready = λ k m h e. pure tt;
  remove_server_handle = λ h. pure tt;
  ping = λ e. pure tt;
  get_pex_servers = λ e k. pure [];
  create_pex_server = λ e h m. pure tt;
  shutdown_pex_server = λ e h. pure tt;
  list_repositories =
      λ e. pure (record { repository_code_pointer_dict = []; executable_path = none });
  streaming_external_repository = λ e x y z. pure [];
  get_current_image = λ e. pure none;
  external_job = λ e j. pure (record { serialized_job_data = none; serialized_error = none });
  post_workspace_entry = λ d u. pure (record { updated = true; missing_job_snapshots = none });
  post_job_snapshot = λ d s. pure tt;
}
