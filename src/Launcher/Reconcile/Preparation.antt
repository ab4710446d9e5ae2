-- ===== src/Launcher/Reconcile/Preparation.antt =====
-- The first two loops of `_reconcile`: every location to update gets a running multipex server, if
-- it needs one, or an error.
use dagster_cloud.Prelude.{
  ◌≡◌, subst, Bool, true, false, not, ◌||◌, Option, none, some, List, [], ◌∷◌, arith, contains,
  IsDistinct, string_eq, pair_eq, pair_beq_iff, is_some, if◌then◌else◌, beq_refl, pair_beq,
  Bool-cases, inl, inr,
}
use dagster_cloud.Exec.{Error, Exec, zoom}
use dagster_cloud.Exec.Keeps.{Keeps}
use dagster_cloud.Dict.{keys, lookup, put, has, lookup-put, put-IsDistinct}
use dagster_cloud.Launcher.Types.{
  DeploymentAndLocation, UserCodeLauncherEntry, DagsterCloudGrpcServer, ServerOrError, failed,
  Servers, has_pex, is_error,
}
use dagster_cloud.Launcher.Metadata.{Entries}
use dagster_cloud.Launcher.Multipex.{candidate, on_world}
use dagster_cloud.Launcher.Round.{Round, on_servers}

-- A location has what it needs to start, or an error.
abbrev pub hosted :
    Option UserCodeLauncherEntry → Option DagsterCloudGrpcServer → Option ServerOrError → Bool
hosted none server planned = true
hosted (some entry) server planned =
    is_error planned
    || (if has_pex entry.code_deployment_metadata
        then is_some (candidate entry.code_deployment_metadata server)
        else not (is_some server))

abbrev pub is_plain : Option UserCodeLauncherEntry → Bool
is_plain none = false
is_plain (some entry) = not (has_pex entry.code_deployment_metadata)

module _ {W : Type 0} (desired : Entries) (start : Servers W)
    (requested updating : List DeploymentAndLocation) where
  abbrev pub Hosted : Round W → DeploymentAndLocation → Type 0
  Hosted s k =
      hosted (lookup k desired) (lookup k s.servers.multipex_servers) (lookup k s.new_servers)
      ≡ true

  -- Nothing is published or removed so far.
  pub record Unpublished (s : Round W) : Type 0 where
    pub same_actual : s.servers.actual_entries ≡ start.actual_entries
    pub same_grpc : s.servers.grpc_servers ≡ start.grpc_servers
    pub same_uploads : s.uploads ≡ requested
    pub no_pex : s.existing_pex ≡ []

  -- The invariant of the first loop; `todo` are the locations that are still to come.
  pub record Prepared (todo : List DeploymentAndLocation) (s : Round W) : Type 0 where
    pub unpublished : Unpublished s
    pub distinct : IsDistinct (keys s.new_multipex)
    pub created :
        (k : DeploymentAndLocation)
        → has k s.new_multipex ≡ true
        → has k s.servers.multipex_servers ≡ true
    pub plain :
        (k : DeploymentAndLocation)
        → is_plain (lookup k desired) ≡ true
        → has k s.servers.multipex_servers ≡ false
    pub hosts :
        (k : DeploymentAndLocation)
        → contains k updating ≡ true
        → contains k todo ≡ false
        → Hosted s k

  -- A change of one location that is still to come, and has pex metadata.
  pub Prepared-put :
      (x : DeploymentAndLocation) (todo : List DeploymentAndLocation)
      (server : DagsterCloudGrpcServer) (s : Round W)
      → contains x todo ≡ true
      → is_plain (lookup x desired) ≡ false
      → Prepared todo s
      → Prepared todo (record s {
        servers = record s.servers { multipex_servers = put x server s.servers.multipex_servers };
      })
  Prepared-put x todo server s here pex p = record {
    unpublished = record {
      same_actual = p.unpublished.same_actual;
      same_grpc = p.unpublished.same_grpc;
      same_uploads = p.unpublished.same_uploads;
      no_pex = p.unpublished.no_pex;
    };
    distinct = p.distinct;
    created =
        λ k h. ground (arith, p.created k h, lookup-put k x server s.servers.multipex_servers);
    plain = λ k h. ground (
      arith,
      p.plain k h,
      h,
      pex,
      pair_beq_iff x k,
      lookup-put k x server s.servers.multipex_servers,
    );
    hosts = λ k u h. ground (
      arith,
      p.hosts k u h,
      h,
      here,
      pair_beq_iff x k,
      lookup-put k x server s.servers.multipex_servers,
    );
  }

  pub Prepared-created :
      (x : DeploymentAndLocation) (todo : List DeploymentAndLocation)
      (server : DagsterCloudGrpcServer) (s : Round W)
      → has x s.servers.multipex_servers ≡ true
      → Prepared todo s
      → Prepared todo (record s { new_multipex = put x server s.new_multipex })
  Prepared-created x todo server s alive p = record {
    unpublished = record {
      same_actual = p.unpublished.same_actual;
      same_grpc = p.unpublished.same_grpc;
      same_uploads = p.unpublished.same_uploads;
      no_pex = p.unpublished.no_pex;
    };
    distinct = put-IsDistinct x server s.new_multipex p.distinct;
    created = λ k h.
        ground
          (arith, p.created k, h, alive, pair_beq_iff x k, lookup-put k x server s.new_multipex);
    plain = p.plain;
    hosts = p.hosts;
  }

  -- An error hosts the location.
  pub Prepared-failed :
      (x : DeploymentAndLocation) (todo : List DeploymentAndLocation) (e : Error) (s : Round W)
      → Prepared todo s
      → Prepared todo (record s { new_servers = put x (failed e) s.new_servers })
        × Hosted (record s { new_servers = put x (failed e) s.new_servers }) x
  Prepared-failed x todo e s p = (
    record {
      unpublished = record {
        same_actual = p.unpublished.same_actual;
        same_grpc = p.unpublished.same_grpc;
        same_uploads = p.unpublished.same_uploads;
        no_pex = p.unpublished.no_pex;
      };
      distinct = p.distinct;
      created = p.created;
      plain = p.plain;
      hosts = λ k u h. ground (arith, p.hosts k u h, lookup-put k x (failed e) s.new_servers);
    },
    ground (arith, beq_refl x, lookup-put x x (failed e) s.new_servers),
  )

  -- The location that was worked on is done.
  pub Prepared-done :
      (x : DeploymentAndLocation) (todo : List DeploymentAndLocation) (s : Round W)
      → Prepared (x ∷ todo) s
      → Hosted s x
      → Prepared todo s
  unfolding contains
  Prepared-done x todo s p h = record {
    unpublished = p.unpublished;
    distinct = p.distinct;
    created = p.created;
    plain = p.plain;
    hosts = λ k u n. elim (Bool-cases (pair_beq x k)) [
      | inl same ↦ subst (Hosted s) ((pair_beq_iff x k).0 same) h
      | inr other ↦ p.hosts k u (ground (arith, other, n))
    ];
  }

  -- What happens outside does not matter.
  pub outside-Prepared :
      {A : Type 0} (todo : List DeploymentAndLocation) (m : Exec W A)
      → Keeps (Prepared todo) (on_servers (on_world m))
  unfolding on_servers on_world zoom
  outside-Prepared todo m = record {
    at = λ s p. record {
      unpublished = record {
        same_actual = p.unpublished.same_actual;
        same_grpc = p.unpublished.same_grpc;
        same_uploads = p.unpublished.same_uploads;
        no_pex = p.unpublished.no_pex;
      };
      distinct = p.distinct;
      created = p.created;
      plain = p.plain;
      hosts = p.hosts;
    };
  }
