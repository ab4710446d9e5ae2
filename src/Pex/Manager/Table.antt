-- ===== src/Pex/Manager/Table.antt =====
-- What the operations of the manager do to its table of pex servers.
use dagster_cloud.Prelude.{String, ◌≡◌, refl, ap, sym, Option, none, some, string_eq}
use dagster_cloud.Exec.{
  Error, raised, key_error, assertion_error, check_error, user_code_unreachable, Result, ok, err,
  Exec, zoom, put_back, ◌>>=◌,
}
use dagster_cloud.Exec.Keeps.{Keeps, keeps_rules}
use dagster_cloud.Exec.Triple.{
  Post, Triple, Triple-pure, Triple-raise, Triple-bind, Triple-gets, Triple-modify, Triple-Keeps,
  Triple-assume,
}
use dagster_cloud.Dict.{Dict, put, remove}
use dagster_cloud.Launcher.Types.{PexServerHandle, CodeDeploymentMetadata}
use dagster_cloud.Pex.Registry.{PexExecutable}
use dagster_cloud.Pex.Manager.{
  PexProcessEntry, Manager, Processes, on_world, not_none, pass_unreachable, create_pex_server,
  try_shutdown, stop, shutdown_pex_server,
}

abbrev pub Table : Type 0
Table = Dict String PexProcessEntry

module _ {W : Type 0} where
  abbrev pub HasTable : Table → Manager W → Type 0
  HasTable t s = s.pex_servers ≡ t

  on_world-HasTable : {A : Type 0} (t : Table) (m : Exec W A) → Keeps (HasTable t) (on_world m)
  unfolding on_world zoom
  on_world-HasTable t m = record { at = λ s h. h }

  not_none-HasTable : (t : Table) (o : Option String) → Keeps (HasTable t) (not_none {W = W} o)
  not_none-HasTable t none = search keeps_rules
  not_none-HasTable t (some tag) = search keeps_rules

  pass_unreachable-HasTable :
      (t : Table) (e : Error) → Keeps (HasTable t) (pass_unreachable {W = W} e)
  pass_unreachable-HasTable t (raised message) = search keeps_rules
  pass_unreachable-HasTable t key_error = search keeps_rules
  pass_unreachable-HasTable t assertion_error = search keeps_rules
  pass_unreachable-HasTable t check_error = search keeps_rules
  pass_unreachable-HasTable t user_code_unreachable = search keeps_rules

module _ {W : Type 0} (t : Table) where
  abbrev pub IsAt : W → Manager W → Type 0
  IsAt u s = HasTable t s × (s.world ≡ u)

  not_none-Triple :
      (u : W) (o : Option String)
      → Triple (IsAt u) (not_none o) (λ tag s. IsAt u s × (o ≡ some tag)) (λ _. HasTable t)
  not_none-Triple u none = Triple-raise _ (λ s h. h.0)
  not_none-Triple u (some tag) = Triple-pure _ (λ s h. (h, refl))

  called_lem :
      {A : Type 0} (m : Exec W A) (s : Manager W) (r : Result A × W)
      → HasTable t s
      → m s.world ≡ r
      → Post
          (λ a s'. HasTable t s' × (m s.world ≡ (ok a, s'.world)))
          (λ _. HasTable t)
          (put_back r (λ w. record s { world = w }))
  called_lem m s (ok a, w) h e = (h, e)
  called_lem m s (err x, w) h e = h

  -- What is done after a call of the outside knows what the call returned.
  Triple-call :
      {A B : Type 0} {Q : B → Manager W → Type 0} (m : Exec W A) (f : A → Exec (Manager W) B)
      (u : W)
      → ((a : A) (w : W) → m u ≡ (ok a, w) → Triple (IsAt w) (f a) Q (λ _. HasTable t))
      → Triple (IsAt u) (on_world m >>= f) Q (λ _. HasTable t)
  unfolding on_world zoom
  Triple-call m f u next =
      Triple-bind {R = λ a s. HasTable t s × (m u ≡ (ok a, s.world))} _ _
        (record { at = λ s (h, e). rw (sym e) (called_lem m s (m s.world) h refl) })
        (λ a. record { at = λ s (h, e). (next a s.world e).at s (h, refl) })

module _ {W : Type 0} (p : Processes W) where
  -- Between the worlds `u` and `w` the process, the client and the heartbeats of the server were
  -- started for the pex of the metadata.
  pub record IsStarted (m : CodeDeploymentMetadata) (server : PexProcessEntry) (u w : W)
      : Type 0 where
    pub pex_tag : String
    pub executable : PexExecutable
    pub found_at : W
    pub started_at : W
    pub tagged : m.pex_metadata ≡ some pex_tag
    pub found : p.get_pex_executable pex_tag u ≡ (ok executable, found_at)
    pub started :
        p.start_server executable m found_at
        ≡ (ok (server.grpc_server_process, server.grpc_client), started_at)
    pub beating : p.start_heartbeat server.grpc_client started_at ≡ (ok server.heartbeat_thread, w)

  -- The table with a server for the handle.
  abbrev pub Created : Table → PexServerHandle → CodeDeploymentMetadata → W → Manager W → Type 0
  Created t h m u s =
      (server : PexProcessEntry) × (s.pex_servers ≡ put (p.get_id h) server t)
      × (server.pex_server_handle ≡ h)
      × IsStarted m server u s.world

  pub create_pex_server-Triple :
      (t : Table) (h : PexServerHandle) (m : CodeDeploymentMetadata) (u : W)
      → Triple (IsAt t u) (create_pex_server p h m) (λ _. Created t h m u) (λ _. HasTable t)
  unfolding create_pex_server
  create_pex_server-Triple t h m u = Triple-bind _ _ (not_none-Triple t u m.pex_metadata) (λ tag.
      Triple-assume (λ tagged. Triple-call t _ _ u (λ executable v found.
        Triple-call t _ _ v (λ (process, client) w started. Triple-call t _ _ w (λ thread x beating.
          Triple-modify _ (λ s (e, now). (
            record {
              pex_server_handle = h;
              grpc_server_process = process;
              grpc_client = client;
              heartbeat_thread = thread;
            },
            ap (put (p.get_id h) _) e,
            refl,
            record {
              pex_tag = tag;
              executable = executable;
              found_at = v;
              started_at = w;
              tagged = tagged;
              found = found;
              started = started;
              beating = rw now beating;
            },
          )))))))

  stop-HasTable : (t : Table) (o : Option PexProcessEntry) → Keeps (HasTable t) (stop p o)
  unfolding stop try_shutdown
  stop-HasTable t none = search keeps_rules
  stop-HasTable t (some server) =
      search (keeps_rules, on_world-HasTable, pass_unreachable-HasTable) depth 9

  -- A handle that is shut down has no server any more, also where the shutdown raises.
  pub shutdown_pex_server-Triple :
      (t : Table) (h : PexServerHandle)
      → Triple
          (HasTable t)
          (shutdown_pex_server p h)
          (λ _. HasTable (remove (p.get_id h) t))
          (λ _. HasTable (remove (p.get_id h) t))
  unfolding shutdown_pex_server
  shutdown_pex_server-Triple t h =
      Triple-bind {R = λ _. HasTable t} _ _ (Triple-gets _ (λ s e. e)) (λ server.
        Triple-bind {R = λ _. HasTable (remove (p.get_id h) t)} _ _
          (Triple-modify _ (λ s e. ap (remove (p.get_id h)) e))
          (λ _. Triple-Keeps (stop-HasTable _ server)))
