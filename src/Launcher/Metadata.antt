-- ===== src/Launcher/Metadata.antt =====
-- The desired entries and the locations to upload, which `_metadata_lock` guards: each function is
-- one critical section.
pub mod Uploads
pub mod Calls
use dagster_cloud.Prelude.{
  ◌≡◌, Bool, true, false, Option, none, some, List, [], ◌∷◌, arith, contains, union, difference,
  contains-union, contains-difference, string_eq, pair_eq,
}
use dagster_cloud.Exec.{Exec, pure, modify, ◌>>=◌, key_error, Result, ok, err}
use dagster_cloud.Dict.{Dict, keys, lookup, put, has}
use dagster_cloud.Launcher.Types.{DeploymentAndLocation, UserCodeLauncherEntry}
use dagster_cloud.Launcher.Backend.{Runtime}

abbrev pub Entries : Type 0
Entries = Dict DeploymentAndLocation UserCodeLauncherEntry

pub record Metadata : Type 0 where
  pub desired_entries : Entries
  pub upload_locations : List DeploymentAndLocation

abbrev pub init : Metadata
init = record { desired_entries = []; upload_locations = [] }

-- {key_to_keep: self._desired_entries[key_to_keep] for key_to_keep in keys_to_keep}
unfoldable pub pick : Entries → List DeploymentAndLocation → Result Entries
pick desired [] = ok []
pick desired (k ∷ ks) = elim (lookup k desired) [
  | none ↦ err key_error
  | some entry ↦ elim (pick desired ks) [ ok rest ↦ ok ((k, entry) ∷ rest) | err e ↦ err e ]
]

module _ (r : Runtime) where
  unfoldable pub add_upload_metadata : Entries → Metadata → Metadata
  add_upload_metadata upload_metadata m = record {
    desired_entries = r.merge_dicts m.desired_entries upload_metadata;
    upload_locations = union m.upload_locations (keys upload_metadata);
  }

  abbrev set_desired : Result Entries → Entries → Exec Metadata (Unit {0})
  set_desired (err e) desired_metadata m = (err e, m)
  set_desired (ok metadata_to_keep) desired_metadata m =
      (ok tt, record m { desired_entries = r.merge_dicts metadata_to_keep desired_metadata })

  unfoldable pub update_grpc_metadata : Entries → Exec Metadata (Unit {0})
  unfolding pick
  update_grpc_metadata desired_metadata m =
      let keys_to_keep = r.iterate (difference m.upload_locations (keys desired_metadata)) in
      set_desired (pick m.desired_entries keys_to_keep) desired_metadata m

-- The first critical section of `reconcile`: a copy of the desired entries and of the locations
-- to upload, which are cleared.
unfoldable pub take_snapshot : Metadata → Metadata × Metadata
take_snapshot m = (m, record m { upload_locations = [] })
