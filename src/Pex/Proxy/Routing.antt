-- ===== src/Pex/Proxy/Routing.antt =====
-- Which pex server a request reaches, after any requests that create and shut down pex servers.
use dagster_cloud.Prelude.{
  String, ◌≡◌, refl, subst, false, ◌&&◌, some, List, [], ◌∷◌, ◌==◌, arith, string_eq, IsDistinct,
  Bool-cases, inl, inr, contains, beq_refl,
}
use dagster_cloud.Exec.{Error, Exec}
use dagster_cloud.Exec.Triple.{
  Post, Triple, Triple-pure, Triple-bind, Triple-gets, Triple-conseq, Triple-catch,
}
use dagster_cloud.Dict.{
  keys, lookup, put, remove, lookup-put, lookup-remove, put-IsDistinct, remove-IsDistinct,
  contains-keys,
}
use dagster_cloud.Launcher.Types.{PexServerHandle, CodeDeploymentMetadata}
use dagster_cloud.Launcher.Upload.{attempt}
use dagster_cloud.Pex.Manager.{
  PexProcessEntry, Manager, Processes, servers_of, get_pex_servers, create_pex_server,
  shutdown_pex_server,
}
use dagster_cloud.Pex.Manager.Table.{Table, create_pex_server-Triple, shutdown_pex_server-Triple}
use dagster_cloud.Pex.Proxy.{ApiRequest, create, list_servers, shutdown, serve, serve_all}

module _ {W : Type 0} (p : Processes W) where
  -- Every server stands under the identifier of its handle.
  pub record IsKeyed (t : Table) : Type 0 where
    pub distinct : IsDistinct (keys t)
    pub keyed :
        (id : String) (server : PexProcessEntry)
        → lookup id t ≡ some server
        → id ≡ p.get_id server.pex_server_handle

  put-IsKeyed :
      (t : Table) (server : PexProcessEntry)
      → IsKeyed t
      → IsKeyed (put (p.get_id server.pex_server_handle) server t)
  put-IsKeyed t server h = record {
    distinct = put-IsDistinct _ server t h.distinct;
    keyed = λ id other found.
        let id' = p.get_id server.pex_server_handle in
        elim (Bool-cases (id' == id)) [
          | inl same ↦
              ground (arith, found, same, lookup-put id id' server t, string_eq.beq_iff id' id)
          | inr differ ↦
              h.keyed id other (ground (arith, found, differ, lookup-put id id' server t))
        ];
  }

  remove-IsKeyed : (t : Table) (id : String) → IsKeyed t → IsKeyed (remove id t)
  remove-IsKeyed t id h = record {
    distinct = remove-IsDistinct id t h.distinct;
    keyed = λ j other found. h.keyed j other (ground (arith, found, lookup-remove j id t));
  }

  abbrev Keyed : Manager W → Type 0
  Keyed s = IsKeyed s.pex_servers

  create-Keyed :
      (h : PexServerHandle) (m : CodeDeploymentMetadata)
      → Triple Keyed (create_pex_server p h m) (λ _. Keyed) (λ _. Keyed)
  create-Keyed h m = record {
    at = λ s k.
        (Triple-conseq (create_pex_server-Triple p s.pex_servers h m s.world)
            (λ _ s' (server, e, same, started). rw e (
              subst (λ x. IsKeyed (put (p.get_id x) server s.pex_servers)) same
                (put-IsKeyed _ server k)))
            (λ _ s' e. rw e k)).at
          s (refl, refl);
  }

  shutdown-Keyed :
      (h : PexServerHandle) → Triple Keyed (shutdown_pex_server p h) (λ _. Keyed) (λ _. Keyed)
  shutdown-Keyed h = record {
    at = λ s k.
        (Triple-conseq (shutdown_pex_server-Triple p s.pex_servers h)
            (λ _ s' e. rw e (remove-IsKeyed _ _ k)) (λ _ s' e. rw e (remove-IsKeyed _ _ k))).at
          s refl;
  }

  abbrev Quiet : Error → Manager W → Type 0
  Quiet e s = ⊥

  attempt-Keyed :
      {A : Type 0} (m : Exec (Manager W) A)
      → Triple Keyed m (λ _. Keyed) (λ _. Keyed)
      → Triple Keyed (attempt m) (λ _. Keyed) Quiet
  unfolding attempt
  attempt-Keyed m t =
      Triple-catch {R = λ _. Keyed} _ _ (Triple-bind _ _ t (λ a. Triple-pure _ (λ s k. k)))
        (λ e. Triple-pure _ (λ s k. k))

  serve-Keyed : (request : ApiRequest) → Triple Keyed (serve p request) (λ _. Keyed) Quiet
  unfolding serve get_pex_servers
  serve-Keyed (create h m) =
      Triple-bind _ _ (attempt-Keyed _ (create-Keyed h m)) (λ _. Triple-pure _ (λ s k. k))
  serve-Keyed (list_servers d l) =
      Triple-bind _ _ (attempt-Keyed _ (Triple-gets _ (λ s k. k))) (λ _. Triple-pure _ (λ s k. k))
  serve-Keyed (shutdown h) =
      Triple-bind _ _ (attempt-Keyed _ (shutdown-Keyed h)) (λ _. Triple-pure _ (λ s k. k))

  serve_all-Keyed :
      (requests : List ApiRequest) → Triple Keyed (serve_all p requests) (λ _. Keyed) Quiet
  unfolding serve_all
  serve_all-Keyed [] = Triple-pure _ (λ s k. k)
  serve_all-Keyed (request ∷ requests) =
      Triple-bind _ _ (serve-Keyed request)
        (λ reply. Triple-bind _ _ (serve_all-Keyed requests) (λ replies. Triple-pure _ (λ s k. k)))

  -- The server of a handle is found, and it is a server of the location.
  abbrev pub IsRouted : String → String → Table → PexServerHandle → Type 0
  IsRouted d l t h =
      (server : PexProcessEntry) × (lookup (p.get_id h) t ≡ some server)
      × (server.pex_server_handle ≡ h)
      × (h.deployment_name ≡ d)
      × (h.location_name ≡ l)

  abbrev pub AllRouted : String → String → Table → List PexServerHandle → Type 0
  AllRouted d l t [] = Unit
  AllRouted d l t (h ∷ hs) = IsRouted d l t h × AllRouted d l t hs

  AllRouted-cons :
      (d l id : String) (server : PexProcessEntry) (t : Table) (hs : List PexServerHandle)
      → contains id (keys t) ≡ false
      → AllRouted d l t hs
      → AllRouted d l ((id, server) ∷ t) hs
  unfolding lookup
  AllRouted-cons d l id server t [] n h = tt
  AllRouted-cons d l id server t (x ∷ hs) n ((found, e, same, at_d, at_l), more) = (
    (
      found,
      ground (arith, e, n, contains-keys (p.get_id x) t, string_eq.beq_iff id (p.get_id x)),
      same,
      at_d,
      at_l,
    ),
    AllRouted-cons d l id server t hs n more,
  )

  tail-IsKeyed :
      (id : String) (server : PexProcessEntry) (t : Table) → IsKeyed ((id, server) ∷ t) → IsKeyed t
  unfolding lookup contains
  tail-IsKeyed id server t h = record {
    distinct = h.distinct.1;
    keyed = λ j other found.
        h.keyed j other
          (ground (arith, found, h.distinct.0, contains-keys j t, string_eq.beq_iff id j));
  }

  servers_of-AllRouted : (d l : String) (t : Table) → IsKeyed t → AllRouted d l t (servers_of d l t)
  unfolding lookup contains
  servers_of-AllRouted d l [] h = tt
  servers_of-AllRouted d l ((id, server) ∷ t) h =
      let handle = server.pex_server_handle in
      let more : AllRouted d l ((id, server) ∷ t) (servers_of d l t) =
        AllRouted-cons d l id server t _ h.distinct.0
          (servers_of-AllRouted d l t (tail-IsKeyed id server t h)) in
      let own : id ≡ p.get_id handle = h.keyed id server (ground (arith, beq_refl id)) in
      elim (Bool-cases (handle.deployment_name == d && handle.location_name == l)) [
        | inl at_location ↦ rw at_location (
          (
            server,
            ground (arith, own, string_eq.beq_iff id (p.get_id handle)),
            refl,
            ground (arith, at_location, string_eq.beq_iff handle.deployment_name d),
            ground (arith, at_location, string_eq.beq_iff handle.location_name l),
          ),
          more,
        )
        | inr elsewhere ↦ rw elsewhere more
      ]

  -- A fresh multipex server answers every sequence of requests without raising, whatever its
  -- processes do; afterwards each pex server that it lists for a location belongs to the location,
  -- and is found under its handle.
  pub serve_all-AllRouted :
      (requests : List ApiRequest) (w : W) (d l : String)
      → Post
          (λ _ s. AllRouted d l s.pex_servers (servers_of d l s.pex_servers))
          (λ _ _. ⊥)
          (serve_all p requests (record { pex_servers = []; world = w }))
  unfolding lookup
  serve_all-AllRouted requests w d l =
      (Triple-conseq (serve_all-Keyed requests) (λ _ s k. servers_of-AllRouted d l s.pex_servers k)
          (λ _ _ x. x)).at
        (record { pex_servers = []; world = w })
        (record { distinct = tt; keyed = λ id server found. cc })
