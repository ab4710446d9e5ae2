-- ===== src/Launcher/Reconcile/Whole.antt =====
-- `reconcile`: the snapshot under the metadata lock and the round that works on it.
use dagster_cloud.Prelude.{◌+◌, [], ◌≡◌, refl, Bool, true, false, IsDistinct, string_eq, pair_eq}
use dagster_cloud.Exec.{Result}
use dagster_cloud.Exec.Triple.{Post}
use dagster_cloud.Dict.{keys, lookup, has}
use dagster_cloud.Launcher.Types.{DeploymentAndLocation, Servers}
use dagster_cloud.Launcher.Backend.{Backend, Runtime}
use dagster_cloud.Launcher.Metadata.{take_snapshot}
use dagster_cloud.Launcher.Metadata.Uploads.{IsUploadable}
use dagster_cloud.Launcher.Reconcile.{Launcher, finish, reconcile}
use dagster_cloud.Launcher.Reconcile.Outside.{IsSafe}
use dagster_cloud.Launcher.Reconcile.Preparation.{is_plain}
use dagster_cloud.Launcher.Reconcile.Difference.{Sound, Converged}
use dagster_cloud.Launcher.Reconcile.Convergence.{reconcile_entries-Converged}

-- The dictionaries of a launcher fit together, and fit its desired entries.
pub record Ready {W : Type 0} (l : Launcher W) : Type 0 where
  pub uploadable : IsUploadable l.metadata
  pub distinct : IsDistinct (keys l.servers.actual_entries)
  pub published :
      (k : DeploymentAndLocation)
      → has k l.servers.actual_entries ≡ true
      → has k l.servers.grpc_servers ≡ true
  pub plain :
      (k : DeploymentAndLocation)
      → is_plain (lookup k l.metadata.desired_entries) ≡ true
      → has k l.servers.multipex_servers ≡ false

-- The launcher after a reconciliation of `l`.
pub record Reconciled {W : Type 0} (r : Runtime) (l l' : Launcher W) : Type 0 where
  pub converged : Converged r l.metadata.desired_entries l'.servers
  pub counted : l'.reconcile_count ≡ l.reconcile_count + 1
  pub same_entries : l'.metadata.desired_entries ≡ l.metadata.desired_entries
  pub uploaded : l'.metadata.upload_locations ≡ []

Ready-Sound :
    {W : Type 0} (l : Launcher W)
    → Ready l
    → Sound l.metadata.desired_entries l.metadata.upload_locations l.servers
Ready-Sound l ready = record {
  distinct = ready.distinct;
  published = ready.published;
  asked = ready.uploadable.wanted;
  plain = ready.plain;
}

module _ {W : Type 0} (b : Backend W) (r : Runtime) (defer_job_snapshots : Bool) where
  finish_lem :
      (l : Launcher W) (round : Result (Unit {0}) × Servers W)
      → Post (λ _ t. Converged r l.metadata.desired_entries t) (λ _ _. ⊥) round
      → Post
          (λ _. Reconciled r l)
          (λ _ _. ⊥)
          (finish b r defer_job_snapshots
            (record l { metadata = (take_snapshot l.metadata).1 })
            round)
  unfolding take_snapshot
  finish_lem l (Result.ok done, t) h = record {
    converged = h;
    counted = refl;
    same_entries = refl;
    uploaded = refl;
  }
  finish_lem l (Result.err e, t) h = h

  -- If every location that waits for its upload has a desired entry, every location that is in the
  -- actual entries has a server, no location without pex metadata has a multipex server, and the
  -- search for multipex handles never raises, then `reconcile`, with no other thread in between,
  -- does not raise: it makes the actual entries agree with the desired ones, which it keeps, it
  -- counts the round, and no location waits for its upload any more.
  pub reconcile-Reconciled :
      ((k : DeploymentAndLocation) → IsSafe (b.get_multipex_handles k))
      → (l : Launcher W) → Ready l
      → Post (λ _. Reconciled r l) (λ _ _. ⊥) (reconcile b r defer_job_snapshots l)
  unfolding reconcile take_snapshot
  reconcile-Reconciled safe l ready = finish_lem l _ (
      reconcile_entries-Converged b r defer_job_snapshots safe l.metadata.desired_entries
        l.metadata.upload_locations l.servers (Ready-Sound l ready))
