-- ===== src/Examples/LauncherRuns.antt =====
-- Runs of the reconciliation loop and of the launcher's metadata.
use dagster_cloud.Prelude.{
  ◌+◌, ℕ, ◌≡◌, refl, true, false, not, ◌&&◌, ◌||◌, none, some, [], ◌∷◌, arith, contains, string_eq,
  pair_eq, if◌then◌else◌, pair_beq,
}
use dagster_cloud.Exec.{Error, Result, ok, pure}
use dagster_cloud.Exec.Triple.{Post}
use dagster_cloud.Dict.{lookup, has}
use dagster_cloud.Util.Diff.{differs, diff_serializable_namedtuple_map, contains-diff}
use dagster_cloud.Launcher.Types.{DeploymentAndLocation, Servers, failed, running}
use dagster_cloud.Launcher.Metadata.{Entries, Metadata, init, update_grpc_metadata, take_snapshot}
use dagster_cloud.Launcher.Metadata.Uploads.{IsUploadable, update_grpc_metadata_lem}
use dagster_cloud.Launcher.Metadata.Calls.{
  adds, updates, snapshots, run_calls, run_calls-IsUploadable, upload_survives,
}
use dagster_cloud.Launcher.Wait.{
  Process, IsTimed, Finished, wait_for_server_process, wait_for_server_process-Finished,
}
use dagster_cloud.Launcher.Upload.{update_location_data}
use dagster_cloud.Launcher.Upload.Frame.{SameServers, update_location_data_lem}
use dagster_cloud.Launcher.Reconcile.{Launcher, reconcile_entries}
use dagster_cloud.Launcher.Reconcile.Whole.{Ready}
use dagster_cloud.Launcher.Reconcile.Rounds.{Rounds, reconcile_again-Reconciled}
use dagster_cloud.Launcher.Reconcile.Difference.{Sound, Converged, same_snapshot}
use dagster_cloud.Launcher.Reconcile.Convergence.{
  reconcile_entries-Converged, reconcile_entries-settled,
}
use dagster_cloud.Examples.{runtime, backend, entry, endpoint, code}

abbrev etl : DeploymentAndLocation
etl = ("prod", "etl")

abbrev ml : DeploymentAndLocation
ml = ("prod", "ml")

abbrev old : DeploymentAndLocation
old = ("prod", "old")

-- a location without and one with pex metadata are desired, and a third one runs
abbrev desired : Entries
desired = (etl, entry none "etl") ∷ (ml, entry (some "ml.pex") "ml") ∷ []

abbrev start : Servers ℕ
start = record {
  grpc_servers =
      (
        old,
        running (record {
          server_handle = 1;
          server_endpoint = endpoint;
          code_deployment_metadata = code none "old";
        }),
      )
      ∷ [];
  multipex_servers = [];
  actual_entries = (old, entry none "old") ∷ [];
  world = 1;
}

start-Sound : Sound desired (etl ∷ []) start
unfolding lookup contains
start-Sound = record {
  distinct = (refl, tt);
  published = λ k h. ground (arith, h);
  asked = λ k h. ground (arith, h);
  plain = λ k h. refl;
}

-- the state that the round leaves for this backend is settled, too
abbrev settled : Servers ℕ
settled = record {
  grpc_servers = (etl, failed (Error.raised "the process exited")) ∷ [];
  multipex_servers = [];
  actual_entries = (etl, entry none "etl") ∷ [];
  world = 2;
}

settled-Converged : Converged runtime ((etl, entry none "etl") ∷ []) settled
unfolding lookup contains differs
settled-Converged = record {
  distinct = (refl, tt);
  same_keys = λ k. refl;
  same_entries = λ k. same_snapshot runtime (lookup k settled.actual_entries);
  published = λ k h. ground (arith, h);
}

abbrev waiting : Metadata
waiting = record { desired_entries = (etl, entry none "etl") ∷ []; upload_locations = etl ∷ [] }

waiting-IsUploadable : IsUploadable waiting
unfolding lookup contains
waiting-IsUploadable = record { wanted = λ k h. ground (arith, h) }

reconcile_entries-Converged_example :
    Post
      (λ _ t. Converged runtime desired t)
      (λ _ _. ⊥)
      (reconcile_entries backend runtime false desired (etl ∷ []) start)
unfolding pure
reconcile_entries-Converged_example =
    reconcile_entries-Converged backend runtime false (λ k w. tt) desired (etl ∷ []) start
      start-Sound

reconcile_entries-settled_example :
    reconcile_entries backend runtime false ((etl, entry none "etl") ∷ []) [] settled
    ≡ (Result.ok tt, settled)
reconcile_entries-settled_example =
    reconcile_entries-settled backend runtime false ((etl, entry none "etl") ∷ []) settled
      settled-Converged

run_calls-IsUploadable_example :
    (m' : Metadata) × (run_calls runtime (adds desired ∷ updates [] ∷ snapshots ∷ []) init
      ≡ (ok tt, m'))
    × IsUploadable m'
run_calls-IsUploadable_example =
    run_calls-IsUploadable runtime (adds desired ∷ updates [] ∷ snapshots ∷ [])

upload_survives_example :
    (m' : Metadata) × (run_calls runtime (adds desired ∷ updates [] ∷ []) waiting ≡ (ok tt, m'))
    × (contains ml (take_snapshot m').0.upload_locations ≡ true)
    × (has ml (take_snapshot m').0.desired_entries ≡ true)
unfolding lookup pair_beq
upload_survives_example =
    upload_survives runtime (updates [] ∷ []) desired waiting ml waiting-IsUploadable refl refl

update_grpc_metadata_lem_example :
    (m' : Metadata) × (update_grpc_metadata runtime ((ml, entry (some "ml.pex") "ml") ∷ []) waiting
      ≡ (ok tt, m'))
    × (m'.upload_locations ≡ waiting.upload_locations)
    × ((k : DeploymentAndLocation)
        → lookup k m'.desired_entries ≡ (
            if has k ((ml, entry (some "ml.pex") "ml") ∷ [])
            then lookup k ((ml, entry (some "ml.pex") "ml") ∷ [])
            else if contains k waiting.upload_locations
            then lookup k waiting.desired_entries
            else none))
update_grpc_metadata_lem_example =
    update_grpc_metadata_lem runtime ((ml, entry (some "ml.pex") "ml") ∷ []) waiting
      waiting-IsUploadable

update_location_data_lem_example :
    (t : Servers ℕ) × (update_location_data backend false old
        (failed (Error.raised "no server"))
        (code none "old")
        start
      ≡ (ok tt, t))
    × SameServers start t
update_location_data_lem_example =
    update_location_data_lem backend false start old (failed (Error.raised "no server"))
      (code none "old")

contains-diff_example :
    (contains old
        (diff_serializable_namedtuple_map runtime.create_snapshot_id desired start.actual_entries
          []).to_add
      ≡ (not (has old start.actual_entries) && has old desired))
    × (contains old
          (diff_serializable_namedtuple_map runtime.create_snapshot_id desired start.actual_entries
            []).to_update
        ≡ ((differs runtime.create_snapshot_id
                (lookup old desired)
                (lookup old start.actual_entries)
              || contains old [])
            && (has old desired && has old start.actual_entries)))
    × (contains old
          (diff_serializable_namedtuple_map runtime.create_snapshot_id desired start.actual_entries
            []).to_remove
        ≡ (not (has old desired) && has old start.actual_entries))
contains-diff_example = contains-diff runtime.create_snapshot_id desired start.actual_entries [] old

abbrev launcher : Launcher ℕ
launcher = record {
  metadata = record { desired_entries = desired; upload_locations = etl ∷ [] };
  servers = start;
  reconcile_count = 3;
}

launcher-Ready : Ready launcher
launcher-Ready = record {
  uploadable = record { wanted = start-Sound.asked };
  distinct = start-Sound.distinct;
  published = start-Sound.published;
  plain = start-Sound.plain;
}

reconcile_again-Reconciled_example : Rounds backend runtime false 2 launcher
unfolding pure
reconcile_again-Reconciled_example =
    reconcile_again-Reconciled backend runtime false (λ k w. tt) 2 launcher launcher-Ready

-- a process that never answers; the world is the clock
abbrev silent : Process ℕ
silent = record {
  ping = λ t. (Result.err (Error.raised "UNAVAILABLE"), t + 200000);
  now = λ t. t;
  sleep = λ t. t + 1000000;
  additional_check = none;
  list_repositories = pure tt;
}

silent-IsTimed : IsTimed silent
silent-IsTimed = record {
  ping_later = λ t. ground arith;
  sleep_later = λ t. ground arith;
  check_later = λ check t h. cc;
}

wait_for_server_process-Finished_example :
    Finished silent 3000000 7 (wait_for_server_process silent 3000000 5 7)
wait_for_server_process-Finished_example =
    wait_for_server_process-Finished silent 3000000 silent-IsTimed 4 7 (ground arith)
