-- ===== src/Launcher/Reconcile/StartLoop.antt =====
-- The third loop of `_reconcile`: every location to update has a server or an error planned.
use dagster_cloud.Prelude.{
  ℕ, ◌≡◌, ◌∙◌, sym, refl, ap, Bool, true, false, not, ◌&&◌, ◌||◌, Option, none, some, List, [], ◌∷◌,
  arith, contains, string_eq, pair_eq, pair_beq, pair_beq_iff, is_some, beq_refl, if◌then◌else◌,
  Bool-cases, inl, inr, subst,
}
use dagster_cloud.Exec.{Result, ok, err, Exec, pure, ◌>>=◌, zoom, put_back}
use dagster_cloud.Exec.Keeps.{Keeps}
use dagster_cloud.Exec.Triple.{
  Post, Triple, Triple-pure, Triple-if, Triple-Keeps, Triple-from, Triple-bind, Triple-gets,
  Triple-modify, Triple-catch, Triple-assume, Triple-conseq,
}
use dagster_cloud.Dict.{lookup, put, has, lookup-put}
use dagster_cloud.Launcher.Types.{
  DeploymentAndLocation, UserCodeLauncherEntry, DagsterCloudGrpcServer, ServerOrError, running,
  failed, PexServerHandle, Servers, has_pex, is_error,
}
use dagster_cloud.Launcher.Backend.{Backend}
use dagster_cloud.Launcher.Metadata.{Entries}
use dagster_cloud.Launcher.Multipex.{candidate, on_world, get_existing_pex_servers}
use dagster_cloud.Launcher.Multipex.Frame.{check_for_image-Keeps, start_new_dagster_server-Keeps}
use dagster_cloud.Launcher.Upload.Frame.{SameServers, on_world-Keeps}
use dagster_cloud.Launcher.Round.{
  Round, on_servers, list_or_empty, set_new_server, spin_up, start_server,
}
use dagster_cloud.Launcher.Reconcile.{is_empty}
use dagster_cloud.Launcher.Reconcile.Outside.{Never, get_item-Triple, servers-Keeps}
use dagster_cloud.Launcher.Reconcile.Preparation.{hosted}

-- The pex servers to shut down have a multipex server to be asked.
abbrev pub stops :
    Option UserCodeLauncherEntry
    → Option DagsterCloudGrpcServer
    → Option (List PexServerHandle)
    → Bool
stops none server pex = true
stops (some entry) server pex =
    is_empty (list_or_empty pex)
    || (has_pex entry.code_deployment_metadata
        && is_some (candidate entry.code_deployment_metadata server))

module _ {W : Type 0} (b : Backend W) (desired : Entries) (start : Servers W)
    (requested updating : List DeploymentAndLocation) where
  -- The invariant of the third loop; `todo` are the locations that are still to come.
  pub record Started (todo : List DeploymentAndLocation) (s : Round W) : Type 0 where
    pub same_actual : s.servers.actual_entries ≡ start.actual_entries
    pub same_grpc : s.servers.grpc_servers ≡ start.grpc_servers
    pub same_uploads : s.uploads ≡ requested
    pub hosts :
        (k : DeploymentAndLocation)
        → contains k updating ≡ true
        → hosted (lookup k desired) (lookup k s.servers.multipex_servers) (lookup k s.new_servers)
          ≡ true
    pub stoppable :
        (k : DeploymentAndLocation)
        → stops (lookup k desired) (lookup k s.servers.multipex_servers) (lookup k s.existing_pex)
          ≡ true
    pub planned :
        (k : DeploymentAndLocation)
        → contains k updating ≡ true
        → contains k todo ≡ false
        → has k s.new_servers ≡ true

  pub same-Started :
      (todo : List DeploymentAndLocation) (s : Round W) (t : Servers W)
      → Started todo s
      → SameServers s.servers t
      → Started todo (record s { servers = t })
  same-Started todo s t p h = record {
    same_actual = h.same_actual ∙ p.same_actual;
    same_grpc = h.same_grpc ∙ p.same_grpc;
    same_uploads = p.same_uploads;
    hosts = λ k u. rw h.same_multipex (p.hosts k u);
    stoppable = λ k. rw h.same_multipex (p.stoppable k);
    planned = p.planned;
  }

  module _ (x : DeploymentAndLocation) (todo : List DeploymentAndLocation)
      (entry : UserCodeLauncherEntry) (known : lookup x desired ≡ some entry) where
    -- The location has the multipex server that it needs, or none where it needs none.
    abbrev able : Option DagsterCloudGrpcServer → Bool
    able server =
        if has_pex entry.code_deployment_metadata
        then is_some (candidate entry.code_deployment_metadata server)
        else not (is_some server)

    abbrev Ready : Round W → Type 0
    Ready s = Started (x ∷ todo) s × (able (lookup x s.servers.multipex_servers) ≡ true)

    same-Ready :
        (s : Round W) (t : Servers W)
        → Ready s
        → SameServers s.servers t
        → Ready (record s { servers = t })
    same-Ready s t (p, a) h = (same-Started (x ∷ todo) s t p h, rw h.same_multipex a)

    outside-Ready : {A : Type 0} (m : Exec W A) → Keeps Ready (on_servers (on_world m))
    outside-Ready m = servers-Keeps (on_world m) same-Ready (λ u. on_world-Keeps u m)

    put_pex :
        (pex : List PexServerHandle) (s : Round W)
        → (is_empty pex || is_some (lookup x s.servers.multipex_servers)) ≡ true
        → Ready s
        → Ready (record s { existing_pex = put x pex s.existing_pex })
    put_pex pex s h (p, a) = (
      record {
        same_actual = p.same_actual;
        same_grpc = p.same_grpc;
        same_uploads = p.same_uploads;
        hosts = p.hosts;
        stoppable = λ k. elim (Bool-cases (pair_beq x k)) [
          | inl same ↦
              subst
                (λ j.
                  stops (lookup j desired) (lookup j s.servers.multipex_servers)
                    (lookup j (put x pex s.existing_pex))
                  ≡ true)
                ((pair_beq_iff x k).0 same)
                (ground (arith, known, a, h, beq_refl x, lookup-put x x pex s.existing_pex))
          | inr other ↦ ground (arith, p.stoppable k, other, lookup-put k x pex s.existing_pex)
        ];
        planned = p.planned;
      },
      a,
    )

    standalone-Ready :
        (handles : List ℕ) (s : Round W)
        → Ready s
        → Ready (record s { existing_standalone = put x handles s.existing_standalone })
    standalone-Ready handles s (p, a) = (
      record {
        same_actual = p.same_actual;
        same_grpc = p.same_grpc;
        same_uploads = p.same_uploads;
        hosts = p.hosts;
        stoppable = p.stoppable;
        planned = p.planned;
      },
      a,
    )

    abbrev Listed : List PexServerHandle → Round W → Type 0
    Listed pex s =
        Ready s × ((is_empty pex || is_some (lookup x s.servers.multipex_servers)) ≡ true)

    asked_lem :
        (s : Round W) (found : DagsterCloudGrpcServer) (r : Result (List PexServerHandle) × W)
        → lookup x s.servers.multipex_servers ≡ some found
        → Ready s
        → Post Listed
            (λ _. Ready)
            (put_back
              (put_back r (λ w. record s.servers { world = w }))
              (λ t. record s { servers = t }))
    asked_lem s found (ok pex, w) e p = (
      same-Ready s (record s.servers { world = w }) p
          (record { same_grpc = refl; same_multipex = refl; same_actual = refl }),
      ground (arith, e),
    )
    asked_lem s found (err x', w) e p =
        same-Ready s (record s.servers { world = w }) p
          (record { same_grpc = refl; same_multipex = refl; same_actual = refl })

    existing_lem :
        (s : Round W) (o : Option DagsterCloudGrpcServer)
        → lookup x s.servers.multipex_servers ≡ o
        → Ready s
        → Post Listed
            (λ _. Ready)
            (put_back
              (elim o as (λ _. Exec (Servers W) (List PexServerHandle)) [
                | none ↦ pure []
                | some found ↦ on_world (b.get_pex_servers found.server_endpoint x)
              ]
                s.servers)
              (λ t. record s { servers = t }))
    unfolding on_world zoom pure
    existing_lem s none e p = (p, refl)
    existing_lem s (some found) e p =
        asked_lem s found (b.get_pex_servers found.server_endpoint x s.servers.world) e p

    existing-Triple : Triple Ready (on_servers (get_existing_pex_servers b x)) Listed (λ _. Ready)
    unfolding on_servers zoom get_existing_pex_servers ◌>>=◌
    existing-Triple = record {
      at = λ s p. existing_lem s (lookup x s.servers.multipex_servers) refl p;
    }

    set_new_server-Started :
        (value : ServerOrError) (s : Round W)
        → Ready s
        → Started todo (record s { new_servers = put x value s.new_servers })
    unfolding contains
    set_new_server-Started value s (p, a) = record {
      same_actual = p.same_actual;
      same_grpc = p.same_grpc;
      same_uploads = p.same_uploads;
      hosts = λ k u. elim (Bool-cases (pair_beq x k)) [
        | inl same ↦
            subst
              (λ j.
                hosted (lookup j desired) (lookup j s.servers.multipex_servers)
                  (lookup j (put x value s.new_servers))
                ≡ true)
              ((pair_beq_iff x k).0 same) (ground (arith, known, a))
        | inr other ↦ ground (arith, p.hosts k u, other, lookup-put k x value s.new_servers)
      ];
      stoppable = p.stoppable;
      planned = λ k u n. ground (arith, p.planned k u, n, lookup-put k x value s.new_servers);
    }

    spin_up-Triple : Triple Ready (spin_up b desired x) (λ _. Started todo) (λ _. Ready)
    unfolding spin_up set_new_server
    spin_up-Triple =
        Triple-bind _ _
          (Triple-conseq (get_item-Triple (lookup x desired) (ap is_some known)) (λ _ _ h. h)
            (λ _ _ h. absurd h))
          (λ entry'. Triple-assume (λ known'.
            Triple-bind _ _ (Triple-Keeps (outside-Ready _)) (λ standalone.
              Triple-bind {R = λ _. Ready} _ _
                (Triple-modify _ (λ s p. standalone-Ready standalone s p))
                (λ _. Triple-bind _ _ existing-Triple (λ pex.
                  Triple-bind {R = λ _. Ready} _ _ (Triple-modify _ (λ s (p, h). put_pex pex s h p))
                    (λ _.
                      Triple-bind _ _
                        (Triple-Keeps
                          (servers-Keeps _ same-Ready (λ u. check_for_image-Keeps b u _)))
                        (λ _.
                          Triple-bind _ _
                            (Triple-Keeps (
                              servers-Keeps _ same-Ready
                                (λ u. start_new_dagster_server-Keeps b u x entry')))
                            (λ server.
                              Triple-modify _
                                (λ s p. set_new_server-Started (running server) s p)))))))))

    failed_already :
        (s : Round W)
        → is_error (lookup x s.new_servers) ≡ true
        → Started (x ∷ todo) s
        → Started todo s
    unfolding contains
    failed_already s h p = record {
      same_actual = p.same_actual;
      same_grpc = p.same_grpc;
      same_uploads = p.same_uploads;
      hosts = p.hosts;
      stoppable = p.stoppable;
      planned = λ k u n. elim (Bool-cases (pair_beq x k)) [
        | inl same ↦
            subst (λ j. has j s.new_servers ≡ true) ((pair_beq_iff x k).0 same) (ground (arith, h))
        | inr other ↦ ground (arith, p.planned k u, n, other)
      ];
    }

    not_failed :
        (s : Round W)
        → contains x updating ≡ true
        → is_error (lookup x s.new_servers) ≡ false
        → Started (x ∷ todo) s
        → Ready s
    not_failed s u h p = (p, ground (arith, p.hosts x u, known, h))

    pub start_server-Triple :
        contains x updating ≡ true
        → Triple (Started (x ∷ todo)) (start_server b desired x) (λ _. Started todo) Never
    unfolding start_server set_new_server
    start_server-Triple u =
        Triple-bind {R = λ planned s. Started (x ∷ todo) s × (planned ≡ lookup x s.new_servers)} _ _
          (Triple-gets _ (λ s p. (p, refl)))
          (λ planned.
            Triple-if _ _ _
              (λ h. Triple-pure _ (λ s (p, e). failed_already s (ap is_error (sym e) ∙ h) p))
              (λ h.
                Triple-from (λ s (p, e). not_failed s u (ap is_error (sym e) ∙ h) p)
                  (Triple-catch {R = λ _. Ready} _ _ spin_up-Triple
                    (λ e. Triple-modify _ (λ s p. set_new_server-Started (failed e) s p)))))
