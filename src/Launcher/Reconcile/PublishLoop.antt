-- ===== src/Launcher/Reconcile/PublishLoop.antt =====
-- The fourth loop of `_reconcile`: every location to update is published, and uploaded if that was
-- requested.
use dagster_cloud.Prelude.{
  ◌≡◌, ◌∙◌, sym, refl, ap, Bool, true, false, List, ◌∷◌, arith, contains, string_eq, pair_eq,
  pair_beq, pair_beq_iff, is_some, Bool-cases, inl, inr, subst, discard, contains-discard,
}
use dagster_cloud.Exec.{Exec, zoom}
use dagster_cloud.Exec.Keeps.{Keeps}
use dagster_cloud.Exec.Triple.{
  Triple, Triple-pure, Triple-if, Triple-Keeps, Triple-bind, Triple-gets, Triple-modify,
  Triple-catch, Triple-assume,
}
use dagster_cloud.Dict.{lookup, put, has, lookup-put}
use dagster_cloud.Launcher.Types.{
  DeploymentAndLocation, CodeDeploymentMetadata, ServerOrError, running, failed, Servers,
}
use dagster_cloud.Launcher.Backend.{Backend}
use dagster_cloud.Launcher.Metadata.{Entries}
use dagster_cloud.Launcher.Multipex.{on_world}
use dagster_cloud.Launcher.Upload.{update_location_data}
use dagster_cloud.Launcher.Upload.Frame.{SameServers, on_world-Keeps, update_location_data_lem}
use dagster_cloud.Launcher.Round.{
  Round, on_servers, wait_until_ready, upload_if_requested, publish_server,
}
use dagster_cloud.Launcher.Reconcile.Outside.{Never, get_item-Triple, servers-Keeps}
use dagster_cloud.Launcher.Reconcile.StartLoop.{stops}

module _ {W : Type 0} (b : Backend W) (defer_job_snapshots : Bool) (desired : Entries)
    (start : Servers W) (requested updating : List DeploymentAndLocation) where
  -- The invariant of the fourth loop: `todo` are the locations that are still to be published,
  -- `waiting` those whose upload may still come in this loop.
  pub record Published (todo waiting : List DeploymentAndLocation) (s : Round W) : Type 0 where
    pub same_actual : s.servers.actual_entries ≡ start.actual_entries
    pub stoppable :
        (k : DeploymentAndLocation)
        → stops (lookup k desired) (lookup k s.servers.multipex_servers) (lookup k s.existing_pex)
          ≡ true
    pub planned :
        (k : DeploymentAndLocation) → contains k updating ≡ true → has k s.new_servers ≡ true
    pub old_grpc :
        (k : DeploymentAndLocation)
        → has k start.grpc_servers ≡ true
        → has k s.servers.grpc_servers ≡ true
    pub new_grpc :
        (k : DeploymentAndLocation)
        → contains k updating ≡ true
        → contains k todo ≡ false
        → has k s.servers.grpc_servers ≡ true
    pub asked :
        (k : DeploymentAndLocation) → contains k s.uploads ≡ true → contains k requested ≡ true
    pub uploaded :
        (k : DeploymentAndLocation)
        → contains k updating ≡ true
        → contains k waiting ≡ false
        → contains k s.uploads ≡ false

  same-Published :
      (todo waiting : List DeploymentAndLocation) (s : Round W) (t : Servers W)
      → Published todo waiting s
      → SameServers s.servers t
      → Published todo waiting (record s { servers = t })
  same-Published todo waiting s t p h = record {
    same_actual = h.same_actual ∙ p.same_actual;
    stoppable = λ k. rw h.same_multipex (p.stoppable k);
    planned = p.planned;
    old_grpc = λ k o. rw h.same_grpc (p.old_grpc k o);
    new_grpc = λ k u n. rw h.same_grpc (p.new_grpc k u n);
    asked = p.asked;
    uploaded = p.uploaded;
  }

  outside-Published :
      {A : Type 0} (todo waiting : List DeploymentAndLocation) (m : Exec W A)
      → Keeps (Published todo waiting) (on_servers (on_world m))
  outside-Published todo waiting m =
      servers-Keeps (on_world m) (same-Published todo waiting) (λ u. on_world-Keeps u m)

  wait_until_ready-Triple :
      (x : DeploymentAndLocation) (m : CodeDeploymentMetadata)
      (todo waiting : List DeploymentAndLocation) (value : ServerOrError)
      → Triple
          (Published todo waiting)
          (wait_until_ready b x m value)
          (λ _. Published todo waiting)
          Never
  unfolding wait_until_ready
  wait_until_ready-Triple x m todo waiting (failed e) = Triple-pure _ (λ s p. p)
  wait_until_ready-Triple x m todo waiting (running server) =
      Triple-catch {R = λ _. Published todo waiting} _ _
        (Triple-bind _ _ (Triple-Keeps (outside-Published todo waiting _))
          (λ _. Triple-pure _ (λ s p. p)))
        (λ e. Triple-pure _ (λ s p. p))

  put_grpc :
      (x : DeploymentAndLocation) (todo waiting : List DeploymentAndLocation)
      (value : ServerOrError) (s : Round W)
      → Published (x ∷ todo) waiting s
      → Published todo waiting (record s {
        servers = record s.servers { grpc_servers = put x value s.servers.grpc_servers };
      })
  unfolding contains
  put_grpc x todo waiting value s p = record {
    same_actual = p.same_actual;
    stoppable = p.stoppable;
    planned = p.planned;
    old_grpc = λ k o. ground (arith, p.old_grpc k o, lookup-put k x value s.servers.grpc_servers);
    new_grpc =
        λ k u n. ground (arith, p.new_grpc k u, n, lookup-put k x value s.servers.grpc_servers);
    asked = p.asked;
    uploaded = p.uploaded;
  }

  not_requested :
      (x : DeploymentAndLocation) (todo waiting : List DeploymentAndLocation) (s : Round W)
      → contains x s.uploads ≡ false
      → Published todo (x ∷ waiting) s
      → Published todo waiting s
  unfolding contains
  not_requested x todo waiting s h p = record {
    same_actual = p.same_actual;
    stoppable = p.stoppable;
    planned = p.planned;
    old_grpc = p.old_grpc;
    new_grpc = p.new_grpc;
    asked = p.asked;
    uploaded = λ k u n. elim (Bool-cases (pair_beq x k)) [
      | inl same ↦ subst (λ j. contains j s.uploads ≡ false) ((pair_beq_iff x k).0 same) h
      | inr other ↦ p.uploaded k u (ground (arith, n, other))
    ];
  }

  take_upload :
      (x : DeploymentAndLocation) (todo waiting : List DeploymentAndLocation) (s : Round W)
      → Published todo (x ∷ waiting) s
      → Published todo waiting (record s { uploads = discard x s.uploads })
  unfolding contains
  take_upload x todo waiting s p = record {
    same_actual = p.same_actual;
    stoppable = p.stoppable;
    planned = p.planned;
    old_grpc = p.old_grpc;
    new_grpc = p.new_grpc;
    asked = λ k h. ground (arith, p.asked k, h, contains-discard k x s.uploads);
    uploaded = λ k u n. ground (arith, p.uploaded k u, n, contains-discard k x s.uploads);
  }

  upload-Triple :
      (x : DeploymentAndLocation) (m : CodeDeploymentMetadata)
      (todo waiting : List DeploymentAndLocation) (value : ServerOrError)
      → Triple
          (Published todo waiting)
          (on_servers (update_location_data b defer_job_snapshots x value m))
          (λ _. Published todo waiting)
          Never
  unfolding on_servers zoom
  upload-Triple x m todo waiting value = record {
    at = λ s p.
        let (t, e, same) = update_location_data_lem b defer_job_snapshots s.servers x value m in
        rw e (same-Published todo waiting s t p same);
  }

  upload_if_requested-Triple :
      (x : DeploymentAndLocation) (m : CodeDeploymentMetadata)
      (todo waiting : List DeploymentAndLocation) (value : ServerOrError)
      → Triple
          (Published todo (x ∷ waiting))
          (upload_if_requested b defer_job_snapshots x m value)
          (λ _. Published todo waiting)
          Never
  unfolding upload_if_requested
  upload_if_requested-Triple x m todo waiting value =
      Triple-bind {R = λ a s. Published todo (x ∷ waiting) s × (a ≡ s.uploads)} _ _
        (Triple-gets _ (λ s p. (p, refl)))
        (λ a.
          Triple-if _ _ _
            (λ h.
              Triple-bind {R = λ _. Published todo waiting} _ _
                (Triple-modify _ (λ s (p, e). take_upload x todo waiting s p))
                (λ _. upload-Triple x m todo waiting value))
            (λ h.
              Triple-pure _
                (λ s (p, e). not_requested x todo waiting s (ap (contains x) (sym e) ∙ h) p)))

  pub publish_server-Triple :
      (x : DeploymentAndLocation) (todo : List DeploymentAndLocation)
      → has x desired ≡ true
      → contains x updating ≡ true
      → Triple
          (Published (x ∷ todo) (x ∷ todo))
          (publish_server b defer_job_snapshots desired x)
          (λ _. Published todo todo)
          Never
  unfolding publish_server
  publish_server-Triple x todo there u = Triple-bind _ _ (get_item-Triple _ there) (λ entry.
      Triple-assume (λ known.
        Triple-bind {R = λ o s. Published (x ∷ todo) (x ∷ todo) s × (is_some o ≡ true)} _ _
          (Triple-gets _ (λ s p. (p, p.planned x u)))
          (λ o. Triple-assume (λ h. Triple-bind _ _ (get_item-Triple o h) (λ value.
            Triple-assume (λ _.
              Triple-bind _ _ (wait_until_ready-Triple x _ (x ∷ todo) (x ∷ todo) value) (λ ready.
                Triple-bind {R = λ _. Published todo (x ∷ todo)} _ _
                  (Triple-modify _ (λ s p. put_grpc x todo (x ∷ todo) ready s p))
                  (λ _. upload_if_requested-Triple x _ todo todo ready))))))))
