-- ===== src/Launcher/Reconcile/RemoveLoop.antt =====
-- The last two loops of `_reconcile`: removed locations are forgotten, and the remaining uploads
-- are made.
use dagster_cloud.Prelude.{
  ◌≡◌, refl, Bool, true, false, Option, none, some, List, [], ◌∷◌, arith, contains, IsDistinct,
  string_eq, pair_eq, pair_beq_iff, is_some, beq_refl,
}
use dagster_cloud.Exec.{pure, gets, modify, ◌>>=◌, ◌>>◌, zoom}
use dagster_cloud.Exec.Triple.{
  Post, Triple, Triple-pure, Triple-Keeps, Triple-bind, Triple-gets, Triple-catch, Triple-assume,
}
use dagster_cloud.Dict.{keys, lookup, remove, has, lookup-remove, remove-IsDistinct}
use dagster_cloud.Launcher.Types.{
  DeploymentAndLocation, UserCodeLauncherEntry, CodeDeploymentMetadata, ServerOrError, Servers,
}
use dagster_cloud.Launcher.Backend.{Backend}
use dagster_cloud.Launcher.Metadata.{Entries}
use dagster_cloud.Launcher.Multipex.{get_item}
use dagster_cloud.Launcher.Multipex.Frame.{remove_server-Keeps}
use dagster_cloud.Launcher.Upload.{update_location_data}
use dagster_cloud.Launcher.Upload.Frame.{SameServers, update_location_data_lem}
use dagster_cloud.Launcher.Round.{Round, on_servers}
use dagster_cloud.Launcher.CleanUp.{
  forget_grpc_server, forget_actual_entry, remove_location, upload_remaining,
}
use dagster_cloud.Launcher.Reconcile.Outside.{Never, get_item-Triple, servers-Keeps}

pub the_some : {A : Type 0} (o : Option A) → is_some o ≡ true → (a : A) × (o ≡ some a)
the_some none h = cc
the_some (some a) h = (a, refl)

module _ {W : Type 0} (b : Backend W) (desired : Entries) (start : Servers W)
    (updating removing : List DeploymentAndLocation) where
  -- The invariant of the sixth loop; `todo` are the locations that are still to be removed.
  pub record Removed (todo : List DeploymentAndLocation) (s : Round W) : Type 0 where
    pub once : IsDistinct todo
    pub present :
        (k : DeploymentAndLocation)
        → contains k todo ≡ true
        → (has k s.servers.actual_entries ≡ true)
          × (has k s.servers.grpc_servers ≡ true)
          × (contains k removing ≡ true)
    pub published :
        (k : DeploymentAndLocation)
        → has k s.servers.actual_entries ≡ true
        → has k s.servers.grpc_servers ≡ true
    pub distinct : IsDistinct (keys s.servers.actual_entries)
    pub settled :
        (k : DeploymentAndLocation)
        → contains k updating ≡ true
        → contains k removing ≡ false
        → lookup k s.servers.actual_entries ≡ lookup k desired
    pub kept :
        (k : DeploymentAndLocation)
        → contains k updating ≡ false
        → contains k removing ≡ false
        → lookup k s.servers.actual_entries ≡ lookup k start.actual_entries
    pub gone :
        (k : DeploymentAndLocation)
        → contains k removing ≡ true
        → contains k todo ≡ false
        → has k s.servers.actual_entries ≡ false
    pub asked :
        (k : DeploymentAndLocation)
        → contains k s.uploads ≡ true
        → (has k s.servers.actual_entries ≡ true) × (contains k removing ≡ false)

  same-Removed :
      (todo : List DeploymentAndLocation) (s : Round W) (t : Servers W)
      → Removed todo s
      → SameServers s.servers t
      → Removed todo (record s { servers = t })
  same-Removed todo s t p h = record {
    once = p.once;
    present = λ k c. rw (h.same_actual, h.same_grpc) (p.present k c);
    published = λ k a. rw h.same_grpc (p.published k (rw (← h.same_actual) a));
    distinct = rw h.same_actual p.distinct;
    settled = λ k u n. rw h.same_actual (p.settled k u n);
    kept = λ k u n. rw h.same_actual (p.kept k u n);
    gone = λ k r n. rw h.same_actual (p.gone k r n);
    asked = λ k a. rw h.same_actual (p.asked k a);
  }

  forget :
      (x : DeploymentAndLocation) (todo : List DeploymentAndLocation) (s : Round W)
      → Removed (x ∷ todo) s
      → Removed todo (record s {
        servers = record s.servers {
          grpc_servers = remove x s.servers.grpc_servers;
          actual_entries = remove x s.servers.actual_entries;
        };
      })
  unfolding contains
  forget x todo s p =
      let at_grpc = λ (k : DeploymentAndLocation). lookup-remove k x s.servers.grpc_servers in
      let at_actual = λ (k : DeploymentAndLocation). lookup-remove k x s.servers.actual_entries in
      let here : contains x removing ≡ true = (p.present x (ground (arith, beq_refl x))).2 in
      record {
        once = p.once.1;
        present = λ k c. (
          ground (arith, p.present k, c, p.once.0, pair_beq_iff x k, at_actual k),
          ground (arith, p.present k, c, p.once.0, pair_beq_iff x k, at_grpc k),
          ground (arith, p.present k, c),
        );
        published = λ k a. ground (arith, p.published k, a, at_grpc k, at_actual k);
        distinct = remove-IsDistinct x s.servers.actual_entries p.distinct;
        settled = λ k u n. ground (arith, p.settled k u n, n, here, pair_beq_iff x k, at_actual k);
        kept = λ k u n. ground (arith, p.kept k u n, n, here, pair_beq_iff x k, at_actual k);
        gone = λ k r n. ground (arith, p.gone k r, n, at_actual k);
        asked = λ k a. ground (arith, p.asked k a, here, pair_beq_iff x k, at_actual k);
      }

  found_grpc :
      (x : DeploymentAndLocation) (todo : List DeploymentAndLocation) (s : Round W)
      → Removed (x ∷ todo) s
      → (found : ServerOrError) × (lookup x s.servers.grpc_servers ≡ some found)
  unfolding contains
  found_grpc x todo s p = the_some _ (p.present x (ground (arith, beq_refl x))).1

  found_actual :
      (x : DeploymentAndLocation) (todo : List DeploymentAndLocation) (s : Round W)
      → Removed (x ∷ todo) s
      → (entry : UserCodeLauncherEntry) × (lookup x s.servers.actual_entries ≡ some entry)
  unfolding contains
  found_actual x todo s p = the_some _ (p.present x (ground (arith, beq_refl x))).0

  forget_at :
      (x : DeploymentAndLocation) (todo : List DeploymentAndLocation) (s : Round W)
      → Removed (x ∷ todo) s
      → (found : ServerOrError) × (lookup x s.servers.grpc_servers ≡ some found)
      → (entry : UserCodeLauncherEntry) × (lookup x s.servers.actual_entries ≡ some entry)
      → Post (λ _. Removed todo) Never ((forget_grpc_server x >>= (λ _. forget_actual_entry x)) s)
  unfolding forget_grpc_server forget_actual_entry modify gets ◌>>=◌ get_item pure
  forget_at x todo s p (found, there) (entry, held) = rw (there, held) (forget x todo s p)

  forget-Triple :
      (x : DeploymentAndLocation) (todo : List DeploymentAndLocation)
      → Triple
          (Removed (x ∷ todo))
          (do forget_grpc_server x; forget_actual_entry x)
          (λ _. Removed todo)
          Never
  forget-Triple x todo = record {
    at = λ s p. forget_at x todo s p (found_grpc x todo s p) (found_actual x todo s p);
  }

  pub remove_location-Triple :
      (x : DeploymentAndLocation) (todo : List DeploymentAndLocation)
      → Triple (Removed (x ∷ todo)) (remove_location b x) (λ _. Removed todo) Never
  unfolding remove_location
  remove_location-Triple x todo =
      Triple-bind {R = λ _. Removed (x ∷ todo)} _ _
        (Triple-catch {R = λ _. Removed (x ∷ todo)} _ _
          (Triple-Keeps
            (servers-Keeps _ (same-Removed (x ∷ todo)) (λ u. remove_server-Keeps b u x)))
          (λ e. Triple-pure _ (λ s p. p)))
        (λ _. forget-Triple x todo)

  -- The invariant of the last loop; `todo` are the uploads that are still to be made.
  pub record Remaining (todo : List DeploymentAndLocation) (s : Round W) : Type 0 where
    pub removed : Removed [] s
    pub pending :
        (k : DeploymentAndLocation)
        → contains k todo ≡ true
        → (has k s.servers.grpc_servers ≡ true) × (has k s.servers.actual_entries ≡ true)

  same-Remaining :
      (x : DeploymentAndLocation) (todo : List DeploymentAndLocation) (s : Round W) (t : Servers W)
      → Remaining (x ∷ todo) s
      → SameServers s.servers t
      → Remaining todo (record s { servers = t })
  unfolding contains
  same-Remaining x todo s t p h = record {
    removed = same-Removed [] s t p.removed h;
    pending = λ k c. rw (h.same_actual, h.same_grpc) (p.pending k (ground (arith, c)));
  }

  head_pending :
      (x : DeploymentAndLocation) (todo : List DeploymentAndLocation) (s : Round W)
      → Remaining (x ∷ todo) s
      → (has x s.servers.grpc_servers ≡ true) × (has x s.servers.actual_entries ≡ true)
  unfolding contains
  head_pending x todo s p = p.pending x (ground (arith, beq_refl x))

  upload-Triple :
      (defer_job_snapshots : Bool) (x : DeploymentAndLocation) (m : CodeDeploymentMetadata)
      (todo : List DeploymentAndLocation) (value : ServerOrError)
      → Triple
          (Remaining (x ∷ todo))
          (on_servers (update_location_data b defer_job_snapshots x value m))
          (λ _. Remaining todo)
          Never
  unfolding on_servers zoom
  upload-Triple defer_job_snapshots x m todo value = record {
    at = λ s p.
        let (t, e, same) = update_location_data_lem b defer_job_snapshots s.servers x value m in
        rw e (same-Remaining x todo s t p same);
  }

  pub upload_remaining-Triple :
      (defer_job_snapshots : Bool) (x : DeploymentAndLocation) (todo : List DeploymentAndLocation)
      → Triple
          (Remaining (x ∷ todo))
          (upload_remaining b defer_job_snapshots x)
          (λ _. Remaining todo)
          Never
  unfolding upload_remaining
  upload_remaining-Triple defer_job_snapshots x todo =
      Triple-bind {R = λ o s. Remaining (x ∷ todo) s × (is_some o ≡ true)} _ _
        (Triple-gets _ (λ s p. (p, (head_pending x todo s p).0)))
        (λ o. Triple-assume (λ h. Triple-bind _ _ (get_item-Triple o h) (λ value.
          Triple-assume (λ _.
            Triple-bind {R = λ o s. Remaining (x ∷ todo) s × (is_some o ≡ true)} _ _
              (Triple-gets _ (λ s p. (p, (head_pending x todo s p).1)))
              (λ a. Triple-assume (λ held. Triple-bind _ _ (get_item-Triple a held) (λ entry.
                Triple-assume (λ _. upload-Triple defer_job_snapshots x _ todo value))))))))
