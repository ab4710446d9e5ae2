-- ===== src/Launcher/Reconcile/Rounds.antt =====
-- Reconciliations one after the other.
use dagster_cloud.Prelude.{ℕ, zero, suc, ◌+◌, List, [], ◌≡◌, refl, ap, ◌∙◌, Bool, arith}
use dagster_cloud.Exec.{Result, ok, err, Exec, pure, continue, ◌>>=◌, ◌>>◌}
use dagster_cloud.Exec.Triple.{Post}
use dagster_cloud.Launcher.Types.{DeploymentAndLocation, Servers}
use dagster_cloud.Launcher.Backend.{Backend, Runtime}
use dagster_cloud.Launcher.Metadata.{Entries, take_snapshot}
use dagster_cloud.Launcher.Reconcile.{Launcher, reconcile}
use dagster_cloud.Launcher.Reconcile.Outside.{IsSafe}
use dagster_cloud.Launcher.Reconcile.Difference.{Converged}
use dagster_cloud.Launcher.Reconcile.Convergence.{reconcile_entries-settled}
use dagster_cloud.Launcher.Reconcile.Whole.{Ready, Reconciled, reconcile-Reconciled}

module _ {W : Type 0} (b : Backend W) (r : Runtime) (defer_job_snapshots : Bool) where
  -- so many reconciliations after the first
  abbrev pub reconcile_again : ℕ → Exec (Launcher W) (Unit {0})
  reconcile_again zero = pure tt
  reconcile_again (suc n) = do reconcile b r defer_job_snapshots; reconcile_again n

  abbrev counted : ℕ → Launcher W → Launcher W
  counted n l = record l { reconcile_count = l.reconcile_count + n }

  settled_lem :
      (desired : Entries) (requested : List DeploymentAndLocation) (s : Servers W) (n : ℕ)
      → Converged r desired s
      → requested ≡ []
      → reconcile b r defer_job_snapshots (record {
        metadata = record { desired_entries = desired; upload_locations = requested };
        servers = s;
        reconcile_count = n;
      })
        ≡ (
          ok tt,
          record {
            metadata = record { desired_entries = desired; upload_locations = requested };
            servers = s;
            reconcile_count = n + 1;
          },
        )
  unfolding reconcile take_snapshot
  settled_lem desired requested s n converged uploaded =
      rw (uploaded, reconcile_entries-settled b r defer_job_snapshots desired s converged) refl

  reconcile_again-settled :
      (n : ℕ) (l : Launcher W)
      → Converged r l.metadata.desired_entries l.servers
      → l.metadata.upload_locations ≡ []
      → reconcile_again n l ≡ (ok tt, counted n l)
  unfolding pure ◌>>=◌
  reconcile_again-settled zero l converged uploaded =
      ap (λ m. (ok tt, record l { reconcile_count = m })) (omega arith)
  reconcile_again-settled (suc n) l converged uploaded =
      ap (λ x. continue x (λ _. reconcile_again n))
        (settled_lem l.metadata.desired_entries l.metadata.upload_locations l.servers
          l.reconcile_count converged uploaded)
      ∙ reconcile_again-settled n (counted 1 l) converged uploaded
      ∙ ap (λ m. (ok tt, record l { reconcile_count = m })) (omega arith)

  -- The first round, and what `n` more leave.
  abbrev pub Rounds : ℕ → Launcher W → Type 0
  Rounds n l =
      (l' : Launcher W) × (reconcile b r defer_job_snapshots l ≡ (ok tt, l'))
      × Reconciled r l l'
      × (reconcile_again (suc n) l
          ≡ (ok tt, record l' { reconcile_count = l.reconcile_count + suc n }))

  rounds_lem :
      (n : ℕ) (l : Launcher W) (x : Result (Unit {0}) × Launcher W)
      → reconcile b r defer_job_snapshots l ≡ x
      → Post (λ _. Reconciled r l) (λ _ _. ⊥) x
      → Rounds n l
  unfolding ◌>>=◌
  rounds_lem n l (ok tt, l') h done = (
    l',
    h,
    done,
    ap (λ x. continue x (λ _. reconcile_again n)) h
        ∙ reconcile_again-settled n l' (rw done.same_entries done.converged) done.uploaded
        ∙ ap (λ m. (ok tt, record l' { reconcile_count = m }))
            (ap (λ m. m + n) done.counted ∙ omega arith),
  )
  rounds_lem n l (err e, l') h done = absurd done

  -- If every location that waits for its upload has a desired entry, every location that is in the
  -- actual entries has a server, no location without pex metadata has a multipex server, and the
  -- search for multipex handles never raises, then, with no other thread in between, any number of
  -- calls of `reconcile` do not raise. The first makes the actual entries agree with the desired
  -- ones, which it keeps, with a server or an error for each, and leaves no upload waiting; the
  -- others only count, and call no operation of the backend.
  pub reconcile_again-Reconciled :
      ((k : DeploymentAndLocation) → IsSafe (b.get_multipex_handles k))
      → (n : ℕ) (l : Launcher W) → Ready l
      → Rounds n l
  reconcile_again-Reconciled safe n l ready =
      rounds_lem n l _ refl (reconcile-Reconciled b r defer_job_snapshots safe l ready)
