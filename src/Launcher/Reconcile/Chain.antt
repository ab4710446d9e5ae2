-- ===== src/Launcher/Reconcile/Chain.antt =====
-- The loops of `_reconcile` in their order.
use dagster_cloud.Prelude.{
  ◌≡◌, sym, refl, Bool, true, some, List, [], ◌∷◌, arith, contains, string_eq, pair_eq, beq_refl,
  subst,
}
use dagster_cloud.Exec.{Exec, gets, ◌>>=◌, for_each}
use dagster_cloud.Exec.Triple.{
  Triple, Triple-pure, Triple-bind, Triple-gets, Triple-from, Triple-for_each, Triple-conseq,
}
use dagster_cloud.Dict.{lookup}
use dagster_cloud.Util.Diff.{NamedtupleMapDiff}
use dagster_cloud.Launcher.Types.{UserCodeLauncherEntry, DeploymentAndLocation, Servers}
use dagster_cloud.Launcher.Backend.{Backend, Runtime}
use dagster_cloud.Launcher.Metadata.{Entries}
use dagster_cloud.Launcher.Round.{
  Round, begin_round, prepare_multipex, start_server, publish_server,
}
use dagster_cloud.Launcher.CleanUp.{clean_up, remove_location, upload_remaining}
use dagster_cloud.Launcher.Reconcile.{to_update_keys, apply_difference}
use dagster_cloud.Launcher.Reconcile.Outside.{Never, IsSafe}
use dagster_cloud.Launcher.Reconcile.Preparation.{Prepared}
use dagster_cloud.Launcher.Reconcile.MultipexLoops.{prepare_multipex-Triple}
use dagster_cloud.Launcher.Reconcile.AwaitLoop.{Awaited, await_multipex-Triple}
use dagster_cloud.Launcher.Reconcile.StartLoop.{Started, start_server-Triple}
use dagster_cloud.Launcher.Reconcile.PublishLoop.{Published, publish_server-Triple}
use dagster_cloud.Launcher.Reconcile.CleanUpLoop.{Cleaned, clean_up-Triple}
use dagster_cloud.Launcher.Reconcile.RemoveLoop.{
  the_some, Removed, remove_location-Triple, Remaining, upload_remaining-Triple,
}
use dagster_cloud.Launcher.Reconcile.Links.{
  Planned, Prepared-Awaited, Awaited-Started, Started-Published, Published-Cleaned, Cleaned-Removed,
  Removed-Remaining,
}

-- A loop over keys that all have a property.
each_of :
    {W : Type 0} (I : List DeploymentAndLocation → Round W → Type 0)
    (Fit : DeploymentAndLocation → Type 0)
    (body : DeploymentAndLocation → Exec (Round W) (Unit {0}))
    → ((x : DeploymentAndLocation) (rest : List DeploymentAndLocation)
        → Fit x
        → Triple (I (x ∷ rest)) (body x) (λ _. I rest) Never)
    → (xs : List DeploymentAndLocation)
    → ((k : DeploymentAndLocation) → contains k xs ≡ true → Fit k)
    → Triple (I xs) (for_each xs body) (λ _. I []) Never
unfolding for_each contains
each_of I Fit body step [] fit = Triple-pure tt (λ s h. h)
each_of I Fit body step (x ∷ xs) fit =
    Triple-bind (body x) (λ _. for_each xs body) (step x xs (fit x (ground (arith, beq_refl x))))
      (λ _. each_of I Fit body step xs (λ k c. fit k (ground (arith, c))))

-- All loops of a round.
module _ {W : Type 0} (b : Backend W) (r : Runtime) (defer_job_snapshots : Bool)
    (safe : (k : DeploymentAndLocation) → IsSafe (b.get_multipex_handles k)) (desired : Entries)
    (start : Servers W) (requested : List DeploymentAndLocation)
    (diff : NamedtupleMapDiff DeploymentAndLocation)
    (plan : Planned W desired start requested
      (to_update_keys r diff)
      (r.iterate diff.to_remove)) where
  abbrev updating : List DeploymentAndLocation
  updating = to_update_keys r diff

  abbrev removing : List DeploymentAndLocation
  removing = r.iterate diff.to_remove

  begin_round-Prepared :
      Prepared desired start requested updating updating (begin_round start requested)
  unfolding lookup
  begin_round-Prepared = record {
    unpublished = record {
      same_actual = refl;
      same_grpc = refl;
      same_uploads = refl;
      no_pex = refl;
    };
    distinct = tt;
    created = λ k h. cc;
    plain = plan.plain;
    hosts = λ k u n. cc;
  }

  prepare_loop-Triple :
      Triple
        (λ s. s ≡ begin_round start requested)
        (for_each updating (prepare_multipex b desired))
        (λ _. Prepared desired start requested updating [])
        Never
  prepare_loop-Triple =
      Triple-from
        (λ s e.
          subst (Prepared desired start requested updating updating) (sym e) begin_round-Prepared)
        (each_of (Prepared desired start requested updating) (λ k. contains k updating ≡ true) _
          (λ x rest u.
            prepare_multipex-Triple b desired start requested updating x rest (plan.known x u)
              (safe x))
          updating (λ k u. u))

  start_one :
      (x : DeploymentAndLocation) (rest : List DeploymentAndLocation)
      → contains x updating ≡ true
      → (entry : UserCodeLauncherEntry) × (lookup x desired ≡ some entry)
      → Triple
          (Started b desired start requested updating (x ∷ rest))
          (start_server b desired x)
          (λ _. Started b desired start requested updating rest)
          Never
  start_one x rest u (entry, known) =
      start_server-Triple b desired start requested updating x rest entry known u

  start_loop-Triple :
      Triple
        (Awaited b desired start requested updating [])
        (for_each updating (start_server b desired))
        (λ _. Started b desired start requested updating [])
        Never
  start_loop-Triple =
      Triple-from (Awaited-Started b defer_job_snapshots desired start requested updating removing)
        (each_of (Started b desired start requested updating) (λ k. contains k updating ≡ true) _
          (λ x rest u. start_one x rest u (the_some _ (plan.known x u))) updating (λ k u. u))

  publish_loop-Triple :
      Triple
        (Started b desired start requested updating [])
        (for_each updating (publish_server b defer_job_snapshots desired))
        (λ _. Published b defer_job_snapshots desired start requested updating [] [])
        Never
  publish_loop-Triple =
      Triple-from
        (Started-Published b defer_job_snapshots desired start requested updating removing)
        (each_of
          (λ todo. Published b defer_job_snapshots desired start requested updating todo todo)
          (λ k. contains k updating ≡ true) _
          (λ x rest u.
            publish_server-Triple b defer_job_snapshots desired start requested updating x rest
              (plan.known x u) u)
          updating (λ k u. u))

  clean_up_loop-Triple :
      Triple
        (Published b defer_job_snapshots desired start requested updating [] [])
        (for_each updating (clean_up b desired))
        (λ _. Cleaned b desired start requested updating [])
        Never
  clean_up_loop-Triple =
      Triple-from
        (Published-Cleaned b defer_job_snapshots desired start requested updating removing
          plan.distinct)
        (each_of (Cleaned b desired start requested updating) (λ k. contains k updating ≡ true) _
          (λ x rest u. clean_up-Triple b desired start requested updating x rest (plan.known x u) u)
          updating (λ k u. u))

  remove_loop-Triple :
      Triple
        (Cleaned b desired start requested updating [])
        (for_each removing (remove_location b))
        (λ _. Removed b desired start updating removing [])
        Never
  remove_loop-Triple =
      Triple-from
        (Cleaned-Removed b defer_job_snapshots desired start requested updating removing plan)
        (Triple-for_each (Removed b desired start updating removing) _
          (remove_location-Triple b desired start updating removing) removing)

  upload_loop-Triple :
      Triple
        (Removed b desired start updating removing [])
        (do
          remaining ← gets (λ s. s.uploads)
          for_each (r.iterate remaining) (upload_remaining b defer_job_snapshots))
        (λ _. Removed b desired start updating removing [])
        Never
  upload_loop-Triple =
      Triple-bind {R = λ u s. Remaining b desired start updating removing (r.iterate u) s} _ _
        (Triple-gets _ (λ s.
          Removed-Remaining b defer_job_snapshots desired start requested updating removing _ s
            (λ k. r.contains-iterate k s.uploads)))
        (λ u.
          Triple-conseq
            (Triple-for_each (Remaining b desired start updating removing) _
              (upload_remaining-Triple b desired start updating removing defer_job_snapshots)
              (r.iterate u))
            (λ _ s p. p.removed) (λ _ _ p. p))

  pub apply_difference-Triple :
      Triple
        (λ s. s ≡ begin_round start requested)
        (apply_difference b r defer_job_snapshots desired diff)
        (λ _. Removed b desired start updating removing [])
        Never
  unfolding apply_difference
  apply_difference-Triple = Triple-bind _ _ prepare_loop-Triple (λ _.
      Triple-bind {R = λ created s. Awaited b desired start requested updating created s} _ _
        (Triple-gets _
          (Prepared-Awaited b defer_job_snapshots desired start requested updating removing))
        (λ created.
          Triple-bind {R = λ _. Awaited b desired start requested updating []} _ _
            (Triple-for_each (Awaited b desired start requested updating) _
              (λ (x, server) rest.
                await_multipex-Triple b desired start requested updating x server rest)
              created)
            (λ _. Triple-bind _ _ start_loop-Triple (λ _. Triple-bind _ _ publish_loop-Triple (λ _.
              Triple-bind _ _ clean_up_loop-Triple
                (λ _. Triple-bind _ _ remove_loop-Triple (λ _. upload_loop-Triple)))))))
