-- ===== src/Launcher/Reconcile/MultipexLoops.antt =====
-- The first two loops of `_reconcile` keep the invariant of `Preparation`.
use dagster_cloud.Launcher.Reconcile.Outside.{Never, IsSafe, outside-Triple, get_item-Triple}
use dagster_cloud.Prelude.{
  ℕ, ◌≡◌, refl, sym, ap, true, Option, none, some, List, ◌∷◌, arith, contains, string_eq, pair_eq,
  is_some, beq_refl,
}
use dagster_cloud.Exec.{
  Error, Result, ok, err, Exec, pure, modify, catch, ◌>>=◌, ◌>>◌, zoom, put_back, continue,
}
use dagster_cloud.Exec.Keeps.{Keeps}
use dagster_cloud.Exec.Triple.{
  Post, Triple-from, Triple, Triple-Keeps, Triple-pure, Triple-raise, Triple-if, Triple-bind,
  Triple-gets, Triple-modify, Triple-assume, Triple-conseq, Triple-catch,
}
use dagster_cloud.Dict.{lookup, put, has, lookup-put}
use dagster_cloud.Launcher.Types.{
  DeploymentAndLocation, UserCodeLauncherEntry, DagsterCloudGrpcServer, failed, Servers, has_pex,
}
use dagster_cloud.Launcher.Backend.{Backend}
use dagster_cloud.Launcher.Metadata.{Entries}
use dagster_cloud.Launcher.Multipex.{
  get_multipex_server, create_multipex_server, assert_some, on_world,
}
use dagster_cloud.Launcher.Round.{
  Round, on_servers, set_new_server, find_running_multipex, ensure_multipex, prepare_multipex,
}
use dagster_cloud.Launcher.Reconcile.Preparation.{
  Hosted, Prepared, Prepared-put, Prepared-created, Prepared-failed, Prepared-done,
  outside-Prepared,
}

module _ {W : Type 0} (b : Backend W) (desired : Entries) (start : Servers W)
    (requested updating : List DeploymentAndLocation) where
  abbrev Inv : List DeploymentAndLocation → Round W → Type 0
  Inv todo s = Prepared desired start requested updating todo s

  abbrev HasHost : Round W → DeploymentAndLocation → Type 0
  HasHost s k = Hosted desired start requested updating s k

  module _ (x : DeploymentAndLocation) (todo : List DeploymentAndLocation)
      (entry : UserCodeLauncherEntry) (here : contains x todo ≡ true)
      (known : lookup x desired ≡ some entry)
      (pex : has_pex entry.code_deployment_metadata ≡ true) where
    -- The multipex server of the location can host its code.
    abbrev CanHost : Round W → Type 0
    CanHost s =
        is_some (get_multipex_server s.servers.multipex_servers x entry.code_deployment_metadata)
        ≡ true

    CanHost-Hosted : (s : Round W) → CanHost s → HasHost s x
    unfolding get_multipex_server
    CanHost-Hosted s h = ground (arith, known, pex)

    ping_lem :
        {A : Type 0} (m : Exec W A) → Keeps (λ s. Inv todo s × CanHost s) (on_servers (on_world m))
    unfolding on_servers on_world zoom
    ping_lem m = record {
      at = λ s (p, h). ((outside-Prepared desired start requested updating todo m).at s p, h);
    }

    abbrev Found : Option DagsterCloudGrpcServer → Round W → Type 0
    Found o s = Inv todo s × (is_some o ≡ true → CanHost s)

    after_find :
        (found : Option DagsterCloudGrpcServer)
        → Triple
            (λ s.
              Inv todo s
              × (found
                  ≡ get_multipex_server s.servers.multipex_servers x
                      entry.code_deployment_metadata))
            (elim found [
              | none ↦ pure none
              | some server ↦
                  catch
                    (do on_servers (on_world (b.ping server.server_endpoint)); pure (some server))
                    (λ _. pure none)
            ])
            Found
            (λ _. Inv todo)
    after_find none = Triple-pure none (λ s (p, _). (p, λ e. cc))
    after_find (some server) =
        Triple-catch {R = λ _ s. Inv todo s × CanHost s} _ _
          (Triple-bind {R = λ _ s. Inv todo s × CanHost s} _ _
            (record {
              at = λ s (p, e).
                  (Triple-Keeps (ping_lem (b.ping server.server_endpoint))).at s
                    (p, ap is_some (sym e));
            })
            (λ _. Triple-pure _ (λ s (p, h). (p, λ _. h))))
          (λ _. Triple-pure none (λ s (p, _). (p, λ e. cc)))

    find_running_multipex-Triple :
        Triple
          (Inv todo)
          (find_running_multipex b x entry.code_deployment_metadata)
          Found
          (λ _. Inv todo)
    unfolding find_running_multipex
    find_running_multipex-Triple = Triple-bind _ _ (Triple-gets _ (λ s p. (p, refl))) after_find

    created_lem :
        (s : Round W) (r : Result DagsterCloudGrpcServer × W)
        → Inv todo s
        → Post
            (λ _ t. Inv todo t × (has x t.servers.multipex_servers ≡ true))
            (λ _. Inv todo)
            (put_back
              (continue (put_back r (λ w. record s.servers { world = w })) (λ server. do
                modify (λ t. record t { multipex_servers = put x server t.multipex_servers })
                pure server))
              (λ t. record s { servers = t }))
    unfolding ◌>>=◌ modify on_servers on_world zoom
    created_lem s (ok server, w) p = (
      Prepared-put desired start requested updating x todo server
          (record s { servers = record s.servers { world = w } }) here (ground (arith, known, pex))
          ((outside-Prepared desired start requested updating todo (λ _. (ok tt, w))).at s p),
      ground (arith, lookup-put x x server s.servers.multipex_servers, beq_refl x),
    )
    created_lem s (err e, w) p =
        (outside-Prepared desired start requested updating todo (λ _. (ok tt, w))).at s p

    create-Triple :
        Triple
          (Inv todo)
          (on_servers (create_multipex_server b x entry.code_deployment_metadata))
          (λ _ t. Inv todo t × (has x t.servers.multipex_servers ≡ true))
          (λ _. Inv todo)
    unfolding on_servers on_world zoom create_multipex_server ◌>>=◌ modify
    create-Triple = record {
      at = λ s p.
          created_lem s (b.start_new_server_spinup x entry.code_deployment_metadata s.servers.world)
            p;
    }

    some_host :
        (found : Option DagsterCloudGrpcServer)
        → Triple
            (λ s.
              Inv todo s
              × (has x s.servers.multipex_servers ≡ true)
              × (found
                  ≡ get_multipex_server s.servers.multipex_servers x
                      entry.code_deployment_metadata))
            (assert_some found)
            (λ _ s. Inv todo s × (has x s.servers.multipex_servers ≡ true) × CanHost s)
            (λ _. Inv todo)
    unfolding assert_some
    some_host none = Triple-raise _ (λ s (p, _, _). p)
    some_host (some server) = Triple-pure _ (λ s (p, h, e). (p, h, ap is_some (sym e)))

    ensure_multipex-Triple :
        (o : Option DagsterCloudGrpcServer)
        → Triple
            (Found o)
            (ensure_multipex b x entry.code_deployment_metadata o)
            (λ _ s. Inv todo s × HasHost s x)
            (λ _. Inv todo)
    unfolding ensure_multipex
    ensure_multipex-Triple (some server) =
        Triple-pure _ (λ s (p, h). (p, CanHost-Hosted s (h refl)))
    ensure_multipex-Triple none =
        Triple-from (λ s h. h.0)
          (Triple-bind _ _ create-Triple (λ server.
            Triple-bind _ _ (Triple-gets _ (λ s (p, h). (p, h, refl))) (λ found.
              Triple-bind _ _ (some_host found) (λ _. Triple-modify _ (λ s (p, h, c). (
                Prepared-created desired start requested updating x todo server s h p,
                CanHost-Hosted s c,
              ))))))

    set_failed-Triple :
        {E : Error → Round W → Type 0} (e : Error)
        → Triple
            (Inv todo)
            (set_new_server {W = W} x (failed e))
            (λ _ s. Inv todo s × HasHost s x)
            E
    unfolding set_new_server
    set_failed-Triple e =
        Triple-modify _ (λ s p. Prepared-failed desired start requested updating x todo e s p)

    -- A location with pex metadata gets its server, or an error.
    set_up-Triple :
        {E : Error → Round W → Type 0}
        → Triple
            (Inv todo)
            (catch
              (do
                server ← find_running_multipex b x entry.code_deployment_metadata
                ensure_multipex b x entry.code_deployment_metadata server)
              (λ e. set_new_server x (failed e)))
            (λ _ s. Inv todo s × HasHost s x)
            E
    set_up-Triple =
        Triple-catch {R = λ _. Inv todo} _ _
          (Triple-bind _ _ find_running_multipex-Triple ensure_multipex-Triple) set_failed-Triple

  here :
      (x : DeploymentAndLocation) (todo : List DeploymentAndLocation) → contains x (x ∷ todo) ≡ true
  unfolding contains
  here x todo = ground (arith, beq_refl x)

  existing_multipex-Prepared :
      (x : DeploymentAndLocation) (todo : List DeploymentAndLocation) (handles : List ℕ)
      (s : Round W)
      → Inv todo s
      → Inv todo (record s { existing_multipex = put x handles s.existing_multipex })
  existing_multipex-Prepared x todo handles s p = record {
    unpublished = record {
      same_actual = p.unpublished.same_actual;
      same_grpc = p.unpublished.same_grpc;
      same_uploads = p.unpublished.same_uploads;
      no_pex = p.unpublished.no_pex;
    };
    distinct = p.distinct;
    created = p.created;
    plain = p.plain;
    hosts = p.hosts;
  }

  pub prepare_multipex-Triple :
      (x : DeploymentAndLocation) (todo : List DeploymentAndLocation)
      → has x desired ≡ true
      → IsSafe (b.get_multipex_handles x)
      → Triple (Inv (x ∷ todo)) (prepare_multipex b desired x) (λ _. Inv todo) Never
  unfolding prepare_multipex
  prepare_multipex-Triple x todo there safe = Triple-bind _ _ (get_item-Triple _ there) (λ entry.
      Triple-assume (λ known.
        Triple-bind _ _
          (outside-Triple _ (outside-Prepared desired start requested updating (x ∷ todo) _) safe)
          (λ handles.
            Triple-bind _ _
              (Triple-modify _ (λ s p. existing_multipex-Prepared x (x ∷ todo) handles s p))
              (λ _.
                Triple-if _ _ _
                  (λ pex.
                    Triple-conseq (set_up-Triple x (x ∷ todo) entry (here x todo) known pex)
                      (λ _ s (p, h). Prepared-done desired start requested updating x todo s p h)
                      (λ _ _ h. h))
                  (λ plain. Triple-pure _ (λ s p.
                    Prepared-done desired start requested updating x todo s p
                      (ground (arith, known, plain, p.plain x))))))))
