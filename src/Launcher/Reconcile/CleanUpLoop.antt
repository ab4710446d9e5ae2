-- ===== src/Launcher/Reconcile/CleanUpLoop.antt =====
-- The fifth loop of `_reconcile`: old servers are removed, and the actual entries updated.
use dagster_cloud.Prelude.{
  ℕ, ◌≡◌, refl, true, false, ◌||◌, Option, none, some, List, [], ◌∷◌, arith, contains, IsDistinct,
  string_eq, pair_eq, pair_beq_iff, is_some,
}
use dagster_cloud.Exec.{Exec, for_each}
use dagster_cloud.Exec.Keeps.{Keeps}
use dagster_cloud.Exec.Triple.{
  Triple, Triple-pure, Triple-if, Triple-Keeps, Triple-bind, Triple-gets, Triple-modify,
  Triple-catch, Triple-assume, Triple-for_each,
}
use dagster_cloud.Dict.{keys, lookup, put, has, lookup-put, put-IsDistinct}
use dagster_cloud.Launcher.Types.{
  DeploymentAndLocation, UserCodeLauncherEntry, DagsterCloudGrpcServer, PexServerHandle,
  ServerEndpoint, Servers,
}
use dagster_cloud.Launcher.Backend.{Backend}
use dagster_cloud.Launcher.Metadata.{Entries}
use dagster_cloud.Launcher.Multipex.{assert_some, get_multipex_server, on_world}
use dagster_cloud.Launcher.Upload.Frame.{SameServers, on_world-Keeps}
use dagster_cloud.Launcher.Round.{Round, on_servers, list_or_empty}
use dagster_cloud.Launcher.CleanUp.{
  try_remove, try_remove_other, try_shutdown_pex, shutdown_pex_servers, clean_up,
}
use dagster_cloud.Launcher.Reconcile.{is_empty}
use dagster_cloud.Launcher.Reconcile.Outside.{Never, get_item-Triple, servers-Keeps}
use dagster_cloud.Launcher.Reconcile.StartLoop.{stops}

-- Actions whose exceptions are caught.
module _ {W : Type 0} (b : Backend W) (P : Round W → Type 0)
    (same : (s : Round W) (t : Servers W)
      → P s
      → SameServers s.servers t
      → P (record s { servers = t })) where
  quiet_lem : {A : Type 0} (m : Exec W A) → Keeps P (on_servers (on_world m))
  quiet_lem m = servers-Keeps (on_world m) same (λ u. on_world-Keeps u m)

  try_remove-Triple : (h : ℕ) → Triple P (try_remove b h) (λ _. P) Never
  unfolding try_remove
  try_remove-Triple h =
      Triple-catch {R = λ _. P} _ _ (Triple-Keeps (quiet_lem _)) (λ e. Triple-pure _ (λ s p. p))

  try_remove_other-Triple :
      (o : Option DagsterCloudGrpcServer) (h : ℕ) → Triple P (try_remove_other b o h) (λ _. P) Never
  unfolding try_remove_other
  try_remove_other-Triple o h =
      Triple-if _ _ _ (λ _. try_remove-Triple h) (λ _. Triple-pure _ (λ s p. p))

  try_shutdown_pex-Triple :
      (p : ServerEndpoint) (h : PexServerHandle) → Triple P (try_shutdown_pex b p h) (λ _. P) Never
  unfolding try_shutdown_pex
  try_shutdown_pex-Triple p h =
      Triple-catch {R = λ _. P} _ _ (Triple-Keeps (quiet_lem _)) (λ e. Triple-pure _ (λ s q. q))

  each_quiet :
      {A : Type 0} (body : A → Exec (Round W) (Unit {0}))
      → ((x : A) → Triple P (body x) (λ _. P) Never)
      → (xs : List A) → Triple P (for_each xs body) (λ _. P) Never
  each_quiet body h xs = Triple-for_each (λ _. P) body (λ x rest. h x) xs

  shutdown-Triple :
      (o : Option DagsterCloudGrpcServer) (handles : List PexServerHandle)
      → (is_empty handles || is_some o) ≡ true
      → Triple P (shutdown_pex_servers b o handles) (λ _. P) Never
  unfolding shutdown_pex_servers assert_some
  shutdown-Triple o [] h = Triple-pure _ (λ s p. p)
  shutdown-Triple none (x ∷ xs) h = record { at = λ s p. cc }
  shutdown-Triple (some server) (x ∷ xs) h =
      Triple-bind _ _ (Triple-pure server (λ s p. p))
        (λ server'. each_quiet _ (try_shutdown_pex-Triple _) (x ∷ xs))

module _ {W : Type 0} (b : Backend W) (desired : Entries) (start : Servers W)
    (requested updating : List DeploymentAndLocation) where
  -- The invariant of the fifth loop; `todo` are the locations that are still to come.
  pub record Cleaned (todo : List DeploymentAndLocation) (s : Round W) : Type 0 where
    pub stoppable :
        (k : DeploymentAndLocation)
        → stops (lookup k desired) (lookup k s.servers.multipex_servers) (lookup k s.existing_pex)
          ≡ true
    pub old_grpc :
        (k : DeploymentAndLocation)
        → has k start.grpc_servers ≡ true
        → has k s.servers.grpc_servers ≡ true
    pub new_grpc :
        (k : DeploymentAndLocation)
        → contains k updating ≡ true
        → has k s.servers.grpc_servers ≡ true
    pub asked :
        (k : DeploymentAndLocation)
        → contains k s.uploads ≡ true
        → (contains k requested ≡ true) × (contains k updating ≡ false)
    pub distinct : IsDistinct (keys s.servers.actual_entries)
    pub settled :
        (k : DeploymentAndLocation)
        → contains k updating ≡ true
        → contains k todo ≡ false
        → lookup k s.servers.actual_entries ≡ lookup k desired
    pub kept :
        (k : DeploymentAndLocation)
        → contains k updating ≡ false
        → lookup k s.servers.actual_entries ≡ lookup k start.actual_entries

  same-Cleaned :
      (todo : List DeploymentAndLocation) (s : Round W) (t : Servers W)
      → Cleaned todo s
      → SameServers s.servers t
      → Cleaned todo (record s { servers = t })
  same-Cleaned todo s t p h = record {
    stoppable = λ k. rw h.same_multipex (p.stoppable k);
    old_grpc = λ k o. rw h.same_grpc (p.old_grpc k o);
    new_grpc = λ k u. rw h.same_grpc (p.new_grpc k u);
    asked = p.asked;
    distinct = rw h.same_actual p.distinct;
    settled = λ k u n. rw h.same_actual (p.settled k u n);
    kept = λ k u. rw h.same_actual (p.kept k u);
  }

  module _ (x : DeploymentAndLocation) (todo : List DeploymentAndLocation)
      (entry : UserCodeLauncherEntry) (u : contains x updating ≡ true)
      (known : lookup x desired ≡ some entry) where
    -- `current` is the multipex server of the location.
    abbrev Current : Option DagsterCloudGrpcServer → Round W → Type 0
    Current current s =
        Cleaned (x ∷ todo) s
        × (current
            ≡ get_multipex_server s.servers.multipex_servers x entry.code_deployment_metadata)

    same-Current :
        (current : Option DagsterCloudGrpcServer) (s : Round W) (t : Servers W)
        → Current current s
        → SameServers s.servers t
        → Current current (record s { servers = t })
    same-Current current s t (p, e) h = (same-Cleaned (x ∷ todo) s t p h, rw h.same_multipex e)

    can_stop :
        (current : Option DagsterCloudGrpcServer) (s : Round W)
        → Current current s
        → (is_empty (list_or_empty (lookup x s.existing_pex)) || is_some current) ≡ true
    unfolding get_multipex_server
    can_stop current s (p, e) = ground (arith, p.stoppable x, known, e)

    put_actual :
        (s : Round W)
        → Cleaned (x ∷ todo) s
        → Cleaned todo (record s {
          servers = record s.servers { actual_entries = put x entry s.servers.actual_entries };
        })
    unfolding contains
    put_actual s p = record {
      stoppable = p.stoppable;
      old_grpc = p.old_grpc;
      new_grpc = p.new_grpc;
      asked = p.asked;
      distinct = put-IsDistinct x entry s.servers.actual_entries p.distinct;
      settled = λ k v n. ground (
        arith,
        p.settled k v,
        n,
        known,
        pair_beq_iff x k,
        lookup-put k x entry s.servers.actual_entries,
      );
      kept = λ k v. ground (
        arith,
        p.kept k v,
        u,
        v,
        pair_beq_iff x k,
        lookup-put k x entry s.servers.actual_entries,
      );
    }

  pub clean_up-Triple :
      (x : DeploymentAndLocation) (todo : List DeploymentAndLocation)
      → has x desired ≡ true
      → contains x updating ≡ true
      → Triple (Cleaned (x ∷ todo)) (clean_up b desired x) (λ _. Cleaned todo) Never
  unfolding clean_up
  clean_up-Triple x todo there u =
      let quiet = same-Cleaned (x ∷ todo) in
      Triple-bind {R = λ _. Cleaned (x ∷ todo)} _ _ (Triple-gets _ (λ s p. p)) (λ standalone.
        Triple-bind _ _
          (each_quiet b (Cleaned (x ∷ todo)) quiet _
            (try_remove-Triple b (Cleaned (x ∷ todo)) quiet) standalone)
          (λ _.
            Triple-bind {R = λ _. Cleaned (x ∷ todo)} _ _ (Triple-gets _ (λ s p. p)) (λ multipex.
              Triple-bind _ _ (get_item-Triple _ there) (λ entry. Triple-assume (λ known.
                Triple-bind {R = λ o. Current x todo entry u known o} _ _
                  (Triple-gets _ (λ s p. (p, refl)))
                  (λ current.
                    let Now = Current x todo entry u known current in
                    let still = same-Current x todo entry u known current in
                    Triple-bind _ _
                      (each_quiet b Now still _ (try_remove_other-Triple b Now still current)
                        multipex)
                      (λ _.
                        Triple-bind
                          {R = λ pex s. Now s × ((is_empty pex || is_some current) ≡ true)} _ _
                          (Triple-gets _ (λ s p. (p, can_stop x todo entry u known current s p)))
                          (λ pex. Triple-assume (λ stops.
                            Triple-bind _ _ (shutdown-Triple b Now still current pex stops) (λ _.
                              Triple-modify _
                                (λ s p. put_actual x todo entry u known s p.0)))))))))))
