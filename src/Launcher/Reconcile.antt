-- ===== src/Launcher/Reconcile.antt =====
-- `_reconcile` and `reconcile`.
pub mod Outside
pub mod Preparation
pub mod MultipexLoops
pub mod AwaitLoop
pub mod StartLoop
pub mod PublishLoop
pub mod CleanUpLoop
pub mod RemoveLoop
pub mod Links
pub mod Chain
pub mod Difference
pub mod Convergence
pub mod Whole
pub mod Rounds
use dagster_cloud.Prelude.{
  ℕ, ◌+◌, Bool, true, false, not, ◌&&◌, Option, none, some, List, [], ◌∷◌, if◌then◌else◌, string_eq,
  pair_eq, union,
}
use dagster_cloud.Exec.{
  Error, key_error, Exec, pure, raise, gets, ◌>>=◌, ◌>>◌, for_each, Result, put_back,
}
use dagster_cloud.Dict.{Dict, keys, lookup, has}
use dagster_cloud.Util.Diff.{NamedtupleMapDiff, diff_serializable_namedtuple_map}
use dagster_cloud.Launcher.Types.{DeploymentAndLocation, UserCodeLauncherEntry, Servers}
use dagster_cloud.Launcher.Backend.{Backend, Runtime}
use dagster_cloud.Launcher.Metadata.{Entries, Metadata, take_snapshot}
use dagster_cloud.Launcher.Round.{
  Round, begin_round, prepare_multipex, await_multipex, start_server, publish_server,
}
use dagster_cloud.Launcher.CleanUp.{clean_up, remove_location, upload_remaining}

abbrev pub is_empty : {A : Type 0} → List A → Bool
is_empty [] = true
is_empty (x ∷ xs) = false

-- entries[key] for each of the keys, of which only a missing one has an effect
abbrev pub all_in : List DeploymentAndLocation → Entries → Bool
all_in [] entries = true
all_in (k ∷ ks) entries = has k entries && all_in ks entries

-- _deployments_and_locations_to_string, whose text is only logged
unfoldable pub deployments_and_locations_to_string :
    {S : Type 0} → List DeploymentAndLocation → Entries → Exec S (Unit {0})
deployments_and_locations_to_string ks entries =
    if all_in ks entries then pure tt else raise key_error

abbrev pub end_round : {W : Type 0} → Result (Unit {0}) × Round W → Result (Unit {0}) × Servers W
end_round (result, s) = (result, s.servers)

unfoldable pub has_changes :
    NamedtupleMapDiff DeploymentAndLocation → List DeploymentAndLocation → Bool
has_changes diff upload_locations = not (
    is_empty diff.to_add
    && is_empty diff.to_update
    && is_empty diff.to_remove
    && is_empty upload_locations)

module _ (r : Runtime) where
  unfoldable pub difference_from :
      {W : Type 0} → Entries → Servers W → NamedtupleMapDiff DeploymentAndLocation
  unfolding diff_serializable_namedtuple_map
  difference_from desired_entries s =
      diff_serializable_namedtuple_map r.create_snapshot_id desired_entries s.actual_entries []

  unfoldable pub to_update_keys :
      NamedtupleMapDiff DeploymentAndLocation → List DeploymentAndLocation
  to_update_keys diff = r.iterate (union diff.to_add diff.to_update)

module _ {W : Type 0} (b : Backend W) (r : Runtime) (defer_job_snapshots : Bool) where
  -- the loops, from the difference on
  unfoldable pub apply_difference :
      Entries → NamedtupleMapDiff DeploymentAndLocation → Exec (Round W) (Unit {0})
  apply_difference desired_entries diff = do
    for_each (to_update_keys r diff) (prepare_multipex b desired_entries)
    created ← gets (λ s. s.new_multipex)
    for_each created (await_multipex b)
    for_each (to_update_keys r diff) (start_server b desired_entries)
    for_each (to_update_keys r diff) (publish_server b defer_job_snapshots desired_entries)
    for_each (to_update_keys r diff) (clean_up b desired_entries)
    for_each (r.iterate diff.to_remove) (remove_location b)
    remaining ← gets (λ s. s.uploads)
    for_each (r.iterate remaining) (upload_remaining b defer_job_snapshots)

  -- the texts of the log message, then the loops
  unfoldable pub log_and_apply :
      Entries → NamedtupleMapDiff DeploymentAndLocation → Exec (Round W) (Unit {0})
  log_and_apply desired_entries diff = do
    deployments_and_locations_to_string (keys desired_entries) desired_entries
    deployments_and_locations_to_string diff.to_add desired_entries
    deployments_and_locations_to_string diff.to_update desired_entries
    actual_entries ← gets (λ s. s.servers.actual_entries)
    deployments_and_locations_to_string diff.to_remove actual_entries
    upload_locations ← gets (λ s. s.uploads)
    deployments_and_locations_to_string upload_locations desired_entries
    apply_difference desired_entries diff

  -- _reconcile
  unfoldable pub reconcile_entries :
      Entries → List DeploymentAndLocation → Exec (Servers W) (Unit {0})
  reconcile_entries desired_entries upload_locations s =
      let diff = difference_from r desired_entries s in
      if has_changes diff upload_locations
      then end_round (log_and_apply desired_entries diff (begin_round s upload_locations))
      else pure tt s

-- The launcher: the state under the metadata lock, the servers, and the count of rounds.
pub record Launcher (W : Type 0) : Type 0 where
  pub metadata : Metadata
  pub servers : Servers W
  pub reconcile_count : ℕ

module _ {W : Type 0} (b : Backend W) (r : Runtime) (defer_job_snapshots : Bool) where
  abbrev pub finish : Launcher W → Result (Unit {0}) × Servers W → Result (Unit {0}) × Launcher W
  finish l (Result.ok done, s) =
      (Result.ok done, record l { servers = s; reconcile_count = l.reconcile_count + 1 })
  finish l (Result.err e, s) = (Result.err e, record l { servers = s })

  -- reconcile, with no other thread between its critical section and its end
  unfoldable pub reconcile : Exec (Launcher W) (Unit {0})
  reconcile l =
      let (snapshot, rest) = take_snapshot l.metadata in
      finish (record l { metadata = rest })
        (reconcile_entries b r defer_job_snapshots snapshot.desired_entries
          snapshot.upload_locations l.servers)
