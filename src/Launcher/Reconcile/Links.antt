-- ===== src/Launcher/Reconcile/Links.antt =====
-- Between the loops of `_reconcile`: the invariant that one loop ends with gives that of the next.
use dagster_cloud.Prelude.{
  ◌≡◌, ◌∙◌, sym, refl, ap, Bool, true, false, Option, none, some, List, [], arith, contains,
  IsDistinct, string_eq, pair_eq, Bool-cases, inl, inr,
}
use dagster_cloud.Dict.{keys, lookup, has, contains-keys}
use dagster_cloud.Launcher.Types.{
  UserCodeLauncherEntry, DeploymentAndLocation, DagsterCloudGrpcServer, Servers,
}
use dagster_cloud.Launcher.Backend.{Backend}
use dagster_cloud.Launcher.Metadata.{Entries}
use dagster_cloud.Launcher.Round.{Round}
use dagster_cloud.Launcher.Reconcile.Preparation.{is_plain, Prepared}
use dagster_cloud.Launcher.Reconcile.AwaitLoop.{Awaited}
use dagster_cloud.Launcher.Reconcile.StartLoop.{stops, Started}
use dagster_cloud.Launcher.Reconcile.PublishLoop.{Published}
use dagster_cloud.Launcher.Reconcile.CleanUpLoop.{Cleaned}
use dagster_cloud.Launcher.Reconcile.RemoveLoop.{Removed, Remaining}

nothing_to_stop :
    (entry : Option UserCodeLauncherEntry) (server : Option DagsterCloudGrpcServer)
    → stops entry server none ≡ true
nothing_to_stop none server = refl
nothing_to_stop (some entry) server = refl

-- What the keys of a round have to do with the dictionaries it starts from.
pub record Planned (W : Type 0) (desired : Entries) (start : Servers W)
    (requested updating removing : List DeploymentAndLocation) : Type 0 where
  pub known : (k : DeploymentAndLocation) → contains k updating ≡ true → has k desired ≡ true
  pub stale :
      (k : DeploymentAndLocation)
      → contains k removing ≡ true
      → (has k desired ≡ false) × (has k start.actual_entries ≡ true)
  pub fresh :
      (k : DeploymentAndLocation)
      → has k desired ≡ true
      → contains k updating ≡ false
      → has k start.actual_entries ≡ true
  pub asked : (k : DeploymentAndLocation) → contains k requested ≡ true → has k desired ≡ true
  pub published :
      (k : DeploymentAndLocation)
      → has k start.actual_entries ≡ true
      → has k start.grpc_servers ≡ true
  pub distinct : IsDistinct (keys start.actual_entries)
  pub once : IsDistinct removing
  pub plain :
      (k : DeploymentAndLocation)
      → is_plain (lookup k desired) ≡ true
      → has k start.multipex_servers ≡ false

module _ {W : Type 0} (b : Backend W) (defer_job_snapshots : Bool) (desired : Entries)
    (start : Servers W) (requested updating removing : List DeploymentAndLocation) where
  pub Prepared-Awaited :
      (s : Round W)
      → Prepared desired start requested updating [] s
      → Awaited b desired start requested updating s.new_multipex s
  unfolding contains
  Prepared-Awaited s p = record {
    unpublished = p.unpublished;
    distinct = p.distinct;
    alive = λ k h. p.created k (sym (contains-keys k s.new_multipex) ∙ h);
    plain = p.plain;
    hosts = λ k u. p.hosts k u refl;
  }

  pub Awaited-Started :
      (s : Round W)
      → Awaited b desired start requested updating [] s
      → Started b desired start requested updating updating s
  unfolding lookup
  Awaited-Started s p = record {
    same_actual = p.unpublished.same_actual;
    same_grpc = p.unpublished.same_grpc;
    same_uploads = p.unpublished.same_uploads;
    hosts = p.hosts;
    stoppable = λ k. rw p.unpublished.no_pex (nothing_to_stop _ _);
    planned = λ k u n. cc;
  }

  pub Started-Published :
      (s : Round W)
      → Started b desired start requested updating [] s
      → Published b defer_job_snapshots desired start requested updating updating updating s
  unfolding contains
  Started-Published s p = record {
    same_actual = p.same_actual;
    stoppable = p.stoppable;
    planned = λ k u. p.planned k u refl;
    old_grpc = λ k o. rw p.same_grpc o;
    new_grpc = λ k u n. cc;
    asked = λ k a. rw (← p.same_uploads) a;
    uploaded = λ k u n. cc;
  }

  pub Published-Cleaned :
      IsDistinct (keys start.actual_entries)
      → (s : Round W) → Published b defer_job_snapshots desired start requested updating [] [] s
      → Cleaned b desired start requested updating updating s
  unfolding contains
  Published-Cleaned distinct s p = record {
    stoppable = p.stoppable;
    old_grpc = p.old_grpc;
    new_grpc = λ k u. p.new_grpc k u refl;
    asked = λ k a. (p.asked k a, ground (arith, p.uploaded k, a));
    distinct = rw p.same_actual distinct;
    settled = λ k u n. cc;
    kept = λ k u. ap (lookup k) p.same_actual;
  }

  pub Cleaned-Removed :
      Planned W desired start requested updating removing
      → (s : Round W) → Cleaned b desired start requested updating [] s
      → Removed b desired start updating removing removing s
  unfolding contains
  Cleaned-Removed plan s p = record {
    once = plan.once;
    present = λ k r.
        let h = not_updating k r in
        (rw (p.kept k h) (plan.stale k r).1, p.old_grpc k (plan.published k (plan.stale k r).1), r);
    published = λ k a. elim (Bool-cases (contains k updating)) [
      | inl u ↦ p.new_grpc k u
      | inr n ↦ p.old_grpc k (plan.published k (rw (← p.kept k n) a))
    ];
    distinct = p.distinct;
    settled = λ k u n. p.settled k u refl;
    kept = λ k u n. p.kept k u;
    gone = λ k r n. ground (arith, r, n);
    asked = λ k a.
        let (q, n) = p.asked k a in
        (
          rw (p.kept k n) (plan.fresh k (plan.asked k q) n),
          ground (arith, plan.stale k, plan.asked k q),
        );
  }
    where
      not_updating :
          (k : DeploymentAndLocation) → contains k removing ≡ true → contains k updating ≡ false
      not_updating k r = ground (arith, plan.known k, plan.stale k r)

  pub Removed-Remaining :
      (todo : List DeploymentAndLocation) (s : Round W)
      → ((k : DeploymentAndLocation) → contains k todo ≡ contains k s.uploads)
      → Removed b desired start updating removing [] s
      → Remaining b desired start updating removing todo s
  Removed-Remaining todo s same p = record {
    removed = p;
    pending = λ k c. let here = (p.asked k (sym (same k) ∙ c)).0 in (p.published k here, here);
  }
