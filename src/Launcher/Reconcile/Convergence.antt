-- ===== src/Launcher/Reconcile/Convergence.antt =====
-- A whole round of `_reconcile`, and the round after it.
use dagster_cloud.Prelude.{
  ◌≡◌, ◌∙◌, sym, refl, ap, Bool, true, List, [], arith, contains, string_eq, pair_eq, Bool-cases,
  inl, inr, subst,
}
use dagster_cloud.Exec.{pure, Result}
use dagster_cloud.Exec.Triple.{
  Post, Triple, Triple-pure, Triple-if, Triple-bind, Triple-gets, Triple-assume, Triple-conseq,
}
use dagster_cloud.Dict.{has, contains-keys}
use dagster_cloud.Launcher.Types.{DeploymentAndLocation, Servers}
use dagster_cloud.Launcher.Backend.{Backend, Runtime}
use dagster_cloud.Launcher.Metadata.{Entries}
use dagster_cloud.Launcher.Round.{Round, begin_round}
use dagster_cloud.Launcher.Reconcile.{
  all_in, deployments_and_locations_to_string, end_round, has_changes, difference_from,
  apply_difference, log_and_apply, reconcile_entries,
}
use dagster_cloud.Launcher.Reconcile.Outside.{Never, IsSafe}
use dagster_cloud.Launcher.Reconcile.Chain.{apply_difference-Triple}
use dagster_cloud.Launcher.Reconcile.Difference.{
  Sound, Converged, all_in_lem, added_lem, removed_lem, updated_lem, make_plan, kept-Converged,
  Removed-Converged, Converged-has_changes,
}

strings-Triple :
    {W : Type 0} {P : Round W → Type 0} (ks : List DeploymentAndLocation) (entries : Entries)
    → ((k : DeploymentAndLocation) → contains k ks ≡ true → has k entries ≡ true)
    → Triple P (deployments_and_locations_to_string {S = Round W} ks entries) (λ _. P) Never
unfolding deployments_and_locations_to_string
strings-Triple ks entries h =
    Triple-if (all_in ks entries) _ _ (λ _. Triple-pure tt (λ s p. p))
      (λ missing. record { at = λ s p. ground (arith, missing, all_in_lem ks entries h) })

end_lem :
    {W : Type 0} (Q : Servers W → Type 0) (result : Result (Unit {0}) × Round W)
    → Post (λ _ t. Q t.servers) Never result
    → Post (λ _. Q) (λ _ _. ⊥) (end_round result)
end_lem Q (Result.ok a, t) h = h
end_lem Q (Result.err e, t) h = h

module _ {W : Type 0} (b : Backend W) (r : Runtime) (defer_job_snapshots : Bool)
    (safe : (k : DeploymentAndLocation) → IsSafe (b.get_multipex_handles k)) (desired : Entries)
    (requested : List DeploymentAndLocation) (s : Servers W)
    (sound : Sound desired requested s) where
  log_and_apply-Triple :
      Triple
        (λ t. t ≡ begin_round s requested)
        (log_and_apply b r defer_job_snapshots desired (difference_from r desired s))
        (λ _ t. Converged r desired t.servers)
        Never
  unfolding log_and_apply
  log_and_apply-Triple =
      Triple-bind _ _ (strings-Triple _ desired (λ k c. sym (contains-keys k desired) ∙ c)) (λ _.
        Triple-bind _ _
          (strings-Triple _ desired (λ k c. ground (arith, c, added_lem r desired s k)))
          (λ _.
            Triple-bind _ _
              (strings-Triple _ desired (λ k c. ground (arith, c, updated_lem r desired s k)))
              (λ _.
                Triple-bind
                  {R = λ actual t. (t ≡ begin_round s requested) × (actual ≡ s.actual_entries)} _ _
                  (Triple-gets _ (λ t e. (e, ap (λ t. t.servers.actual_entries) e)))
                  (λ actual. Triple-assume (λ same.
                    Triple-bind _ _
                      (strings-Triple _ actual
                        (λ k c. rw same (ground (arith, c, removed_lem r desired s k))))
                      (λ _.
                        Triple-bind
                          {R = λ uploads t. (t ≡ begin_round s requested) × (uploads ≡ requested)} _
                          _ (Triple-gets _ (λ t e. (e, ap (λ t. t.uploads) e)))
                          (λ uploads. Triple-assume (λ same_uploads.
                            Triple-bind _ _
                              (strings-Triple _ desired (λ k c.
                                sound.asked k (subst (λ l. contains k l ≡ true) same_uploads c)))
                              (λ _. apply_all)))))))))
    where
      apply_all :
          Triple
            (λ t. t ≡ begin_round s requested)
            (apply_difference b r defer_job_snapshots desired (difference_from r desired s))
            (λ _ t. Converged r desired t.servers)
            Never
      apply_all =
          Triple-conseq
            (apply_difference-Triple b r defer_job_snapshots safe desired s requested _
              (make_plan r desired s requested sound))
            (λ _ t p. Removed-Converged r desired s b t p) (λ _ _ p. p)

  -- If every location that is in the actual entries has a server, the requested uploads are of
  -- desired locations, no location without pex metadata has a multipex server, and the search for
  -- multipex handles never raises, then a round of `_reconcile` does not raise, whatever the other
  -- operations of the backend do, and ends with the desired entries as the actual ones, up to
  -- their snapshots, and a server or an error for each.
  pub reconcile_entries-Converged :
      Post
        (λ _ t. Converged r desired t)
        (λ _ _. ⊥)
        (reconcile_entries b r defer_job_snapshots desired requested s)
  unfolding reconcile_entries pure
  reconcile_entries-Converged =
      elim (Bool-cases (has_changes (difference_from r desired s) requested)) [
        | inl changes ↦
            rw changes (end_lem (Converged r desired) _ (log_and_apply-Triple.at _ refl))
        | inr none_left ↦ rw none_left (kept-Converged r desired s requested sound none_left)
      ]

-- After a round that converged, a round without requested uploads changes nothing: it calls no
-- operation of the backend.
pub reconcile_entries-settled :
    {W : Type 0} (b : Backend W) (r : Runtime) (defer_job_snapshots : Bool) (desired : Entries)
    (s : Servers W)
    → Converged r desired s
    → reconcile_entries b r defer_job_snapshots desired [] s ≡ (Result.ok tt, s)
unfolding reconcile_entries pure
reconcile_entries-settled b r defer_job_snapshots desired s c =
    rw (Converged-has_changes r desired s c) refl
