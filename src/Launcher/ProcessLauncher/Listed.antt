-- ===== src/Launcher/ProcessLauncher/Listed.antt =====
-- What the operations of the process launcher do to its tables, and the agreement between them.
use dagster_cloud.Prelude.{
  ℕ, ◌≡◌, refl, ap, subst, Bool, true, false, not, ◌&&◌, ◌||◌, Option, none, some, List, [], ◌∷◌,
  ◌==◌, arith, string_eq, pair_eq, nat_eq, nat_beq_iff, if◌then◌else◌, IsDistinct, Bool-cases, inl,
  inr, contains, add, contains-add, contains-discard, beq_refl,
}
use dagster_cloud.Exec.{Exec, zoom}
use dagster_cloud.Exec.Keeps.{Keeps, keeps_rules}
use dagster_cloud.Exec.Triple.{
  Triple, Triple-pure, Triple-if, Triple-bind, Triple-gets, Triple-modify, Triple-Keeps,
}
use dagster_cloud.Dict.{
  keys, lookup, put, has, lookup-put, lookup-remove, put-IsDistinct, remove-IsDistinct,
}
use dagster_cloud.Launcher.Types.{
  DeploymentAndLocation, CodeDeploymentMetadata, DagsterCloudGrpcServer, has_pex,
}
use dagster_cloud.Launcher.ProcessLauncher.{
  ProcessEntry, user_code_entry, multipex_entry, Pids, ProcessLauncher, System, pids_of, add_pid,
  remove_pid_from, on_world, store_user_code, store_multipex, forget_pid, start_multipex,
  start_user_code, start_new_server_spinup, stop_process, remove_pid,
}

-- Some location lists the pid.
unfoldable pub is_listed : ℕ → Pids → Bool
is_listed pid [] = false
is_listed pid ((key, pids) ∷ d) = contains pid pids || is_listed pid d

is_listed-put :
    (pid p : ℕ) (key : DeploymentAndLocation) (pids : List ℕ) (d : Pids)
    → contains pid pids ≡ (p == pid || contains pid (pids_of (lookup key d)))
    → is_listed pid (put key pids d) ≡ (p == pid || is_listed pid d)
unfolding is_listed put lookup contains
is_listed-put pid p key pids [] h = ground (arith, h)
is_listed-put pid p key pids ((k, others) ∷ d) h = ground (arith, h, is_listed-put pid p key pids d)

pub is_listed-add_pid :
    (pid p : ℕ) (key : DeploymentAndLocation) (d : Pids)
    → is_listed pid (add_pid key p d) ≡ (p == pid || is_listed pid d)
unfolding add_pid
is_listed-add_pid pid p key d =
    is_listed-put pid p key _ d (contains-add pid p (pids_of (lookup key d)))

pub is_listed-remove_pid_from :
    (pid p : ℕ) (d : Pids)
    → is_listed pid (remove_pid_from p d) ≡ (not (p == pid) && is_listed pid d)
unfolding is_listed remove_pid_from
is_listed-remove_pid_from pid p [] = ground arith
is_listed-remove_pid_from pid p ((key, pids) ∷ d) =
    ground (arith, contains-discard pid p pids, is_listed-remove_pid_from pid p d)

pub contains-add_pid :
    (p : ℕ) (key : DeploymentAndLocation) (d : Pids)
    → contains p (pids_of (lookup key (add_pid key p d))) ≡ true
unfolding add_pid
contains-add_pid p key d =
    rw (lookup-put key key (add p (pids_of (lookup key d))) d, beq_refl key)
      (ground (arith, contains-add p p (pids_of (lookup key d)), nat_beq_iff p p))

module _ {W : Type 0} where
  -- A pid has an entry exactly if some location lists it.
  pub record IsActive (s : ProcessLauncher W) : Type 0 where
    pub distinct : IsDistinct (keys s.process_entries)
    pub listed :
        (pid : ℕ)
        → has pid s.process_entries
          ≡ (is_listed pid s.active_pids || is_listed pid s.active_multipex_pids)

  store_user_code-IsActive :
      (key : DeploymentAndLocation) (pid : ℕ) (entry : ProcessEntry) (s : ProcessLauncher W)
      → IsActive s
      → IsActive (store_user_code key pid entry s)
  unfolding store_user_code
  store_user_code-IsActive key pid entry s h = record {
    distinct = put-IsDistinct pid entry s.process_entries h.distinct;
    listed = λ q. ground (
      arith,
      h.listed q,
      lookup-put q pid entry s.process_entries,
      is_listed-add_pid q pid key s.active_pids,
    );
  }

  store_multipex-IsActive :
      (key : DeploymentAndLocation) (pid : ℕ) (entry : ProcessEntry) (s : ProcessLauncher W)
      → IsActive s
      → IsActive (store_multipex key pid entry s)
  unfolding store_multipex
  store_multipex-IsActive key pid entry s h = record {
    distinct = put-IsDistinct pid entry s.process_entries h.distinct;
    listed = λ q. ground (
      arith,
      h.listed q,
      lookup-put q pid entry s.process_entries,
      is_listed-add_pid q pid key s.active_multipex_pids,
    );
  }

  pub forget_pid-IsActive :
      (pid : ℕ) (s : ProcessLauncher W) → IsActive s → IsActive (forget_pid pid s)
  unfolding forget_pid
  forget_pid-IsActive pid s h = record {
    distinct = remove-IsDistinct pid s.process_entries h.distinct;
    listed = λ q. ground (
      arith,
      h.listed q,
      lookup-remove q pid s.process_entries,
      is_listed-remove_pid_from q pid s.active_pids,
      is_listed-remove_pid_from q pid s.active_multipex_pids,
    );
  }

  -- The tables are those of `t`, the world is any.
  abbrev pub Same : ProcessLauncher W → ProcessLauncher W → Type 0
  Same t s = (w : W) × (s ≡ record t { world = w })

  abbrev with_world : W → ProcessLauncher W → ProcessLauncher W
  with_world w s = record s { world = w }

  pub on_world-Same :
      {A : Type 0} (t : ProcessLauncher W) (m : Exec W A) → Keeps (Same t) (on_world m)
  unfolding on_world zoom
  on_world-Same t m = record { at = λ s h. ((m s.world).1, ap (with_world (m s.world).1) h.1) }

  pub Same-IsActive : (t s : ProcessLauncher W) → IsActive t → Same t s → IsActive s
  Same-IsActive t s h (w, e) = rw e (record { distinct = h.distinct; listed = h.listed })

module _ {W : Type 0} (system : System W) where
  stop_process-Same :
      (t : ProcessLauncher W) (o : Option ProcessEntry) → Keeps (Same t) (stop_process system o)
  unfolding stop_process
  stop_process-Same t none = search keeps_rules
  stop_process-Same t (some (user_code_entry process client thread)) = on_world-Same t _
  stop_process-Same t (some (multipex_entry process client)) = on_world-Same t _

  pub remove_pid-Triple :
      (pid : ℕ) (t : ProcessLauncher W)
      → Triple (Same t) (remove_pid system pid) (λ _. Same (forget_pid pid t)) (λ _. Same t)
  unfolding remove_pid forget_pid
  remove_pid-Triple pid t = Triple-bind {R = λ _. Same t} _ _ (Triple-gets _ (λ s h. h)) (λ entry.
      Triple-bind _ _ (Triple-Keeps (stop_process-Same t entry))
        (λ _. Triple-modify _ (λ s (w, e). (w, ap (forget_pid pid) e))))

  -- The tables with the new server in them.
  abbrev pub Started :
      DeploymentAndLocation
      → CodeDeploymentMetadata
      → ProcessLauncher W
      → DagsterCloudGrpcServer
      → ProcessLauncher W
      → Type 0
  Started key metadata t server s =
      (entry : ProcessEntry) × (server.code_deployment_metadata ≡ metadata)
      × Same
          (if has_pex metadata
            then store_multipex key server.server_handle entry t
            else store_user_code key server.server_handle entry t)
          s

  start_multipex-Triple :
      (key : DeploymentAndLocation) (metadata : CodeDeploymentMetadata) (t : ProcessLauncher W)
      → has_pex metadata ≡ true
      → Triple (Same t) (start_multipex system key metadata) (Started key metadata t) (λ _. Same t)
  unfolding start_multipex store_multipex
  start_multipex-Triple key metadata t pex =
      Triple-bind _ _ (Triple-Keeps (on_world-Same t _)) (λ (pid, client).
        Triple-bind {R = λ _. Same (store_multipex key pid (multipex_entry pid client) t)} _ _
          (Triple-modify _
            (λ s (w, e). (w, ap (store_multipex key pid (multipex_entry pid client)) e)))
          (λ _. Triple-pure _ (λ s h. (multipex_entry pid client, refl, rw pex h))))

  start_user_code-Triple :
      (key : DeploymentAndLocation) (metadata : CodeDeploymentMetadata) (t : ProcessLauncher W)
      → has_pex metadata ≡ false
      → Triple (Same t) (start_user_code system key metadata) (Started key metadata t) (λ _. Same t)
  unfolding start_user_code store_user_code
  start_user_code-Triple key metadata t plain =
      Triple-bind _ _ (Triple-Keeps (on_world-Same t _)) (λ (pid, client).
        Triple-bind _ _ (Triple-Keeps (on_world-Same t _)) (λ thread.
          Triple-bind
            {R = λ _. Same (store_user_code key pid (user_code_entry pid client thread) t)} _ _
            (Triple-modify _
              (λ s (w, e). (w, ap (store_user_code key pid (user_code_entry pid client thread)) e)))
            (λ _. Triple-pure _ (λ s h. (user_code_entry pid client thread, refl, rw plain h)))))

  pub start_new_server_spinup-Triple :
      (key : DeploymentAndLocation) (metadata : CodeDeploymentMetadata) (t : ProcessLauncher W)
      → Triple
          (Same t)
          (start_new_server_spinup system key metadata)
          (Started key metadata t)
          (λ _. Same t)
  unfolding start_new_server_spinup
  start_new_server_spinup-Triple key metadata t =
      Triple-if (has_pex metadata) _ _ (start_multipex-Triple key metadata t)
        (start_user_code-Triple key metadata t)

  pub Started-IsActive :
      (key : DeploymentAndLocation) (metadata : CodeDeploymentMetadata) (t : ProcessLauncher W)
      (server : DagsterCloudGrpcServer) (s : ProcessLauncher W)
      → IsActive t
      → Started key metadata t server s
      → IsActive s
  Started-IsActive key metadata t server s h (entry, _, same) =
      let pid = server.server_handle in
      let tables : Bool → ProcessLauncher W =
        λ pex. if pex then store_multipex key pid entry t else store_user_code key pid entry t in
      elim (Bool-cases (has_pex metadata)) [
        | inl pex ↦
            Same-IsActive _ s (store_multipex-IsActive key pid entry t h)
              (subst (λ b. Same (tables b) s) pex same)
        | inr plain ↦
            Same-IsActive _ s (store_user_code-IsActive key pid entry t h)
              (subst (λ b. Same (tables b) s) plain same)
      ]
