-- ===== src/Launcher/ProcessLauncher/Lifetime.antt =====
-- Which servers the process launcher finds for a location, and the backend it is.
use dagster_cloud.Prelude.{
  ℕ, ◌≡◌, refl, ap, ◌∙◌, Bool, true, false, not, ◌&&◌, List, [], ◌∷◌, ◌==◌, arith, string_eq,
  pair_eq, nat_eq, nat_beq_iff, if◌then◌else◌, Bool-cases, inl, inr, contains, discard, keep,
  contains-discard,
}
use dagster_cloud.Exec.{Exec, pure, catch, ◌>>◌, for_each}
use dagster_cloud.Exec.Triple.{
  Post, Triple, Triple-pure, Triple-bind, Triple-catch, Triple-conseq, Triple-for_each,
}
use dagster_cloud.Dict.{lookup, has, lookup-put, lookup-remove}
use dagster_cloud.Launcher.Types.{DeploymentAndLocation, CodeDeploymentMetadata, has_pex}
use dagster_cloud.Launcher.Backend.{Backend}
use dagster_cloud.Launcher.ProcessLauncher.{
  ProcessEntry, Pids, ProcessLauncher, System, pids_of, remove_pid_from, on_world, store_user_code,
  store_multipex, forget_pid, get_standalone_handles, get_multipex_handles, start_new_server_spinup,
  remove_server_handle,
}
use dagster_cloud.Launcher.ProcessLauncher.Listed.{
  IsActive, Same, is_listed, contains-add_pid, forget_pid-IsActive, Same-IsActive, Started-IsActive,
  remove_pid-Triple, start_new_server_spinup-Triple,
}

-- The pids that `_get_multipex_server_handles_for_location` and
-- `_get_standalone_dagster_server_handles_for_location` find.
abbrev pub pids_at : {W : Type 0} → Bool → DeploymentAndLocation → ProcessLauncher W → List ℕ
pids_at pex key s = pids_of (lookup key (if pex then s.active_multipex_pids else s.active_pids))

lookup-remove_pid_from :
    (key : DeploymentAndLocation) (p : ℕ) (d : Pids)
    → pids_of (lookup key (remove_pid_from p d)) ≡ discard p (pids_of (lookup key d))
unfolding lookup remove_pid_from discard keep
lookup-remove_pid_from key p [] = refl
lookup-remove_pid_from key p ((k, pids) ∷ d) = elim (Bool-cases (k == key)) [
  | inl same ↦ rw same refl
  | inr other ↦ rw other (lookup-remove_pid_from key p d)
]

contains-remove_pid_from :
    (key : DeploymentAndLocation) (pid p : ℕ) (d : Pids)
    → contains pid (pids_of (lookup key (remove_pid_from p d)))
      ≡ (not (p == pid) && contains pid (pids_of (lookup key d)))
contains-remove_pid_from key pid p d =
    ap (contains pid) (lookup-remove_pid_from key p d) ∙ contains-discard pid p _

-- A call of an abstract method.
pub data Operation : Type 0 where
  start : DeploymentAndLocation → CodeDeploymentMetadata → Operation
  stop : ℕ → Operation

module _ {W : Type 0} (system : System W) where
  -- The callers in `_reconcile` catch what is raised.
  abbrev pub run_operation : Operation → Exec (ProcessLauncher W) (Unit {0})
  run_operation (start key metadata) =
      catch (do start_new_server_spinup system key metadata; pure tt) (λ e. pure tt)
  run_operation (stop pid) = catch (remove_server_handle system pid) (λ e. pure tt)

  run_operation-Triple :
      (operation : Operation) → Triple IsActive (run_operation operation) (λ _. IsActive) (λ _ _. ⊥)
  unfolding remove_server_handle
  run_operation-Triple (start key metadata) = record {
    at = λ t h.
        (Triple-catch {R = λ _. IsActive} _ _
            (Triple-bind {R = λ _. IsActive} _ _
              (Triple-conseq (start_new_server_spinup-Triple system key metadata t)
                (λ server s started. Started-IsActive system key metadata t server s h started)
                (λ e s same. Same-IsActive t s h same))
              (λ server. Triple-pure tt (λ s p. p)))
            (λ e. Triple-pure tt (λ s p. p))).at
          t (t.world, refl);
  }
  run_operation-Triple (stop pid) = record {
    at = λ t h.
        (Triple-catch {R = λ _. IsActive} _ _
            (Triple-conseq (remove_pid-Triple system pid t)
              (λ _ s same. Same-IsActive _ s (forget_pid-IsActive pid t h) same)
              (λ e s same. Same-IsActive t s h same))
            (λ e. Triple-pure tt (λ s p. p))).at
          t (t.world, refl);
  }

  -- Whatever servers are started and removed, and whatever the processes do, the process launcher
  -- has an entry for exactly the pids that it lists for some location.
  pub run_operations-IsActive :
      (operations : List Operation) (w : W)
      → Post
          (λ _. IsActive)
          (λ _ _. ⊥)
          (for_each operations (run_operation) (record {
            process_entries = [];
            active_pids = [];
            active_multipex_pids = [];
            world = w;
          }))
  unfolding lookup is_listed
  run_operations-IsActive operations w =
      (Triple-for_each (λ _. IsActive) run_operation
          (λ operation rest. run_operation-Triple operation) operations).at
        _ (record { distinct = tt; listed = λ pid. refl })

  stored_lem :
      (pex : Bool) (key : DeploymentAndLocation) (pid : ℕ) (entry : ProcessEntry)
      (s s' : ProcessLauncher W)
      → Same (if pex then store_multipex key pid entry s else store_user_code key pid entry s) s'
      → (contains pid (pids_at pex key s') ≡ true) × (has pid s'.process_entries ≡ true)
  unfolding store_multipex store_user_code
  stored_lem true key pid entry s s' (w, e) = (
    rw e (contains-add_pid pid key s.active_multipex_pids),
    rw e (ground (arith, lookup-put pid pid entry s.process_entries, nat_beq_iff pid pid)),
  )
  stored_lem false key pid entry s s' (w, e) = (
    rw e (contains-add_pid pid key s.active_pids),
    rw e (ground (arith, lookup-put pid pid entry s.process_entries, nat_beq_iff pid pid)),
  )

  -- A server that was started is found for its location, among the multipex servers if its
  -- metadata is of a pex, and has an entry. When the start raises, the tables are as before.
  pub start_new_server_spinup_lem :
      (key : DeploymentAndLocation) (metadata : CodeDeploymentMetadata) (s : ProcessLauncher W)
      → Post
          (λ server s'.
            (contains server.server_handle (pids_at (has_pex metadata) key s') ≡ true)
            × (has server.server_handle s'.process_entries ≡ true)
            × (server.code_deployment_metadata ≡ metadata))
          (λ _. Same s)
          (start_new_server_spinup system key metadata s)
  start_new_server_spinup_lem key metadata s =
      (Triple-conseq (start_new_server_spinup-Triple system key metadata s)
          (λ server s' (entry, about, same).
            let (found, kept) =
              stored_lem (has_pex metadata) key server.server_handle entry s s' same in
            (found, kept, about))
          (λ _ s' same. same)).at
        s (s.world, refl)

  -- A server that was removed is found for no location and has no entry; the others are as before.
  -- When the removal raises, all are.
  pub remove_server_handle_lem :
      (handle : ℕ) (s : ProcessLauncher W)
      → Post
          (λ _ s'.
            (pid : ℕ)
            → (has pid s'.process_entries ≡ (not (handle == pid) && has pid s.process_entries))
              × ((pex : Bool) (key : DeploymentAndLocation)
                  → contains pid (pids_at pex key s')
                    ≡ (not (handle == pid) && contains pid (pids_at pex key s))))
          (λ _. Same s)
          (remove_server_handle system handle s)
  unfolding remove_server_handle forget_pid
  remove_server_handle_lem handle s =
      (Triple-conseq (remove_pid-Triple system handle s)
          (λ _ s' (w, e) pid. (
            rw e (ground (arith, lookup-remove pid handle s.process_entries)),
            λ pex key. rw e (pids_lem pex key pid),
          ))
          (λ _ s' same. same)).at
        s (s.world, refl)
    where
      pids_lem :
          (pex : Bool) (key : DeploymentAndLocation) (pid : ℕ)
          → contains pid (pids_at pex key (forget_pid handle s))
            ≡ (not (handle == pid) && contains pid (pids_at pex key s))
      pids_lem true key pid = contains-remove_pid_from key pid handle s.active_multipex_pids
      pids_lem false key pid = contains-remove_pid_from key pid handle s.active_pids

-- The process launcher as the backend of the reconciliation; `clients` are the operations that it
-- does not implement, and its wait for a new server, which does not touch the tables.
unfoldable pub process_backend : {W : Type 0} → System W → Backend W → Backend (ProcessLauncher W)
process_backend system clients = record {
  requires_images = false;
  get_standalone_handles = get_standalone_handles;
  get_multipex_handles = get_multipex_handles;
  start_new_server_spinup = start_new_server_spinup system;
  wait_for_new_multipex_server = λ k e. on_world (clients.wait_for_new_multipex_server k e);
  wait_for_new_server_ready = λ k m h e. on_world (clients.wait_for_new_server_ready k m h e);
  remove_server_handle = remove_server_handle system;
  ping = λ e. on_world (clients.ping e);
  get_pex_servers = λ e k. on_world (clients.get_pex_servers e k);
  create_pex_server = λ e h m. on_world (clients.create_pex_server e h m);
  shutdown_pex_server = λ e h. on_world (clients.shutdown_pex_server e h);
  list_repositories = λ e. on_world (clients.list_repositories e);
  streaming_external_repository =
      λ e x y z. on_world (clients.streaming_external_repository e x y z);
  get_current_image = λ e. on_world (clients.get_current_image e);
  external_job = λ e j. on_world (clients.external_job e j);
  post_workspace_entry = λ d u. on_world (clients.post_workspace_entry d u);
  post_job_snapshot = λ d j. on_world (clients.post_job_snapshot d j);
}
