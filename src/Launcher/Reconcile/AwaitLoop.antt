-- ===== src/Launcher/Reconcile/AwaitLoop.antt =====
-- The second loop of `_reconcile`: new multipex servers that do not come up are given up.
use dagster_cloud.Prelude.{
  ◌≡◌, true, false, some, List, ◌∷◌, arith, contains, IsDistinct, string_eq, pair_eq, pair_beq_iff,
  beq_refl,
}
use dagster_cloud.Exec.{Error, Exec, modify, ◌>>=◌, zoom}
use dagster_cloud.Exec.Keeps.{Keeps}
use dagster_cloud.Exec.Triple.{Post, Triple, Triple-Keeps, Triple-catch, Triple-conseq}
use dagster_cloud.Dict.{Dict, keys, lookup, put, remove, has, lookup-put, lookup-remove}
use dagster_cloud.Launcher.Types.{DeploymentAndLocation, DagsterCloudGrpcServer, failed, Servers}
use dagster_cloud.Launcher.Backend.{Backend}
use dagster_cloud.Launcher.Metadata.{Entries}
use dagster_cloud.Launcher.Multipex.{get_item, on_world}
use dagster_cloud.Launcher.Round.{
  Round, on_servers, set_new_server, forget_multipex, await_multipex,
}
use dagster_cloud.Launcher.Reconcile.Outside.{Never}
use dagster_cloud.Launcher.Reconcile.Preparation.{Hosted, is_plain, Unpublished}

module _ {W : Type 0} (b : Backend W) (desired : Entries) (start : Servers W)
    (requested updating : List DeploymentAndLocation) where
  -- The invariant of the second loop; `todo` are the new servers that are still to be awaited.
  pub record Awaited (todo : Dict DeploymentAndLocation DagsterCloudGrpcServer) (s : Round W)
      : Type 0 where
    pub unpublished : Unpublished desired start requested updating s
    pub distinct : IsDistinct (keys todo)
    pub alive :
        (k : DeploymentAndLocation)
        → contains k (keys todo) ≡ true
        → has k s.servers.multipex_servers ≡ true
    pub plain :
        (k : DeploymentAndLocation)
        → is_plain (lookup k desired) ≡ true
        → has k s.servers.multipex_servers ≡ false
    pub hosts :
        (k : DeploymentAndLocation)
        → contains k updating ≡ true
        → Hosted desired start requested updating s k

  outside-Awaited :
      {A : Type 0} (todo : Dict DeploymentAndLocation DagsterCloudGrpcServer) (m : Exec W A)
      → Keeps (Awaited todo) (on_servers (on_world m))
  unfolding on_servers on_world zoom
  outside-Awaited todo m = record {
    at = λ s p. record {
      unpublished = record {
        same_actual = p.unpublished.same_actual;
        same_grpc = p.unpublished.same_grpc;
        same_uploads = p.unpublished.same_uploads;
        no_pex = p.unpublished.no_pex;
      };
      distinct = p.distinct;
      alive = p.alive;
      plain = p.plain;
      hosts = p.hosts;
    };
  }

  Awaited-tail :
      (x : DeploymentAndLocation) (server : DagsterCloudGrpcServer)
      (todo : Dict DeploymentAndLocation DagsterCloudGrpcServer) (s : Round W)
      → Awaited ((x, server) ∷ todo) s
      → Awaited todo s
  unfolding contains
  Awaited-tail x server todo s p = record {
    unpublished = p.unpublished;
    distinct = p.distinct.1;
    alive = λ k h. ground (arith, p.alive k, h);
    plain = p.plain;
    hosts = p.hosts;
  }

  -- A server that is given up leaves an error.
  give_up :
      (x : DeploymentAndLocation) (server : DagsterCloudGrpcServer) (e : Error)
      (todo : Dict DeploymentAndLocation DagsterCloudGrpcServer) (s : Round W)
      → Awaited ((x, server) ∷ todo) s
      → Awaited todo (record s {
        new_servers = put x (failed e) s.new_servers;
        servers = record s.servers { multipex_servers = remove x s.servers.multipex_servers };
      })
  unfolding contains
  give_up x server e todo s p = record {
    unpublished = record {
      same_actual = p.unpublished.same_actual;
      same_grpc = p.unpublished.same_grpc;
      same_uploads = p.unpublished.same_uploads;
      no_pex = p.unpublished.no_pex;
    };
    distinct = p.distinct.1;
    alive = λ k h. ground (
      arith,
      p.alive k,
      h,
      p.distinct.0,
      pair_beq_iff x k,
      lookup-remove k x s.servers.multipex_servers,
    );
    plain = λ k h. ground (arith, p.plain k h, lookup-remove k x s.servers.multipex_servers);
    hosts = λ k u. ground (
      arith,
      p.hosts k u,
      lookup-put k x (failed e) s.new_servers,
      lookup-remove k x s.servers.multipex_servers,
    );
  }

  forget_lem :
      (x : DeploymentAndLocation) (server : DagsterCloudGrpcServer) (e : Error)
      (todo : Dict DeploymentAndLocation DagsterCloudGrpcServer) (s : Round W)
      → Awaited ((x, server) ∷ todo) s
      → (found : DagsterCloudGrpcServer) × (lookup x s.servers.multipex_servers ≡ some found)
  unfolding contains
  forget_lem x server e todo s p = ground (arith, p.alive x, beq_refl x)

  pub await_multipex-Triple :
      (x : DeploymentAndLocation) (server : DagsterCloudGrpcServer)
      (todo : Dict DeploymentAndLocation DagsterCloudGrpcServer)
      → Triple
          (Awaited ((x, server) ∷ todo))
          (await_multipex b (x, server))
          (λ _. Awaited todo)
          Never
  unfolding await_multipex
  await_multipex-Triple x server todo =
      Triple-catch {R = λ _. Awaited ((x, server) ∷ todo)} _ _
        (Triple-conseq (Triple-Keeps (outside-Awaited ((x, server) ∷ todo) _))
          (λ _ s. Awaited-tail x server todo s) (λ _ s p. p))
        (λ e. record { at = λ s p. give_up_at e s p (forget_lem x server e todo s p) })
    where
      give_up_at :
          (e : Error) (s : Round W)
          → Awaited ((x, server) ∷ todo) s
          → (found : DagsterCloudGrpcServer) × (lookup x s.servers.multipex_servers ≡ some found)
          → Post
              (λ _. Awaited todo)
              Never
              ((set_new_server x (failed e) >>= (λ _. forget_multipex x)) s)
      give_up_at e s p (found, there) =
          unfold set_new_server forget_multipex modify ◌>>=◌ get_item in
          rw (there, get_item) (give_up x server e todo s p)
