-- ===== src/Launcher/ProcessLauncher/Shutdown.antt =====
-- How `_cleanup_servers` ends.
use dagster_cloud.Prelude.{
  ℕ, zero, suc, ◌<◌, ◌≤◌, ◌≡◌, refl, sym, ap, subst, ◌∙◌, Bool, true, false, Option, none, some, [],
  ◌∷◌, arith, string_eq, pair_eq, nat_eq, nat_beq_iff, length,
}
use dagster_cloud.Exec.{
  Error, raised, key_error, assertion_error, check_error, user_code_unreachable, Result, ok, err,
  Exec, put_back, pure, ◌>>◌, zoom,
}
use dagster_cloud.Exec.Triple.{
  Post, Triple, Triple-pure, Triple-if, Triple-bind, Triple-gets, Triple-modify, Triple-catch,
  Triple-conseq, Triple-assume,
}
use dagster_cloud.Dict.{Dict, lookup, remove, has}
use dagster_cloud.Launcher.Reconcile.Outside.{IsSafe}
use dagster_cloud.Pex.Manager.{GrpcClient}
use dagster_cloud.Launcher.ProcessLauncher.{
  ProcessEntry, user_code_entry, multipex_entry, ProcessLauncher, System, on_world, forget_pid,
  stop_process, remove_pid, pass_unreachable, wait_multipex, wait_for_entry, clean_up_entry,
  cleanup_servers,
}
use dagster_cloud.Launcher.ProcessLauncher.Listed.{
  IsActive, Same, is_listed, forget_pid-IsActive, Same-IsActive,
}

-- Threads and processes can be stopped and waited for. A client may find its server gone.
pub record Works {W : Type 0} (system : System W) : Type 0 where
  pub stop_heartbeat : (thread : ℕ) → IsSafe (system.stop_heartbeat thread)
  pub terminate : (pid : ℕ) → IsSafe (system.terminate pid)
  pub wait : (pid : ℕ) → IsSafe (system.wait pid)
  pub poll : (pid : ℕ) → IsSafe (system.poll pid)
  pub wait_for_process : (pid : ℕ) → IsSafe (system.wait_for_process pid)
  pub shutdown_server :
      (client : GrpcClient) (w : W)
      → Post (λ _ _. Unit {0}) (λ e _. e ≡ user_code_unreachable) (system.shutdown_server client w)

module _ {W : Type 0} where
  abbrev Never : Error → ProcessLauncher W → Type 0
  Never e s = ⊥

  -- no pid has an entry or is listed for a location
  abbrev pub IsEmptied : ProcessLauncher W → Type 0
  IsEmptied s =
      (s.process_entries ≡ [])
      × ((pid : ℕ)
          → (is_listed pid s.active_pids ≡ false) × (is_listed pid s.active_multipex_pids ≡ false))

  outside_lem :
      {A : Type 0} (E : Error → W → Type 0) (t s : ProcessLauncher W) (r : Result A × W)
      → Post (λ _ _. Unit {0}) E r
      → Same t s
      → Post
          (λ _. Same t)
          (λ e s'. Same t s' × E e s'.world)
          (put_back r (λ w. record s { world = w }))
  outside_lem E t s (ok a, w) safe (w', e) = (w, rw e refl)
  outside_lem E t s (err x, w) safe (w', e) = ((w, rw e refl), safe)

  outside-Triple :
      {A : Type 0} (E : Error → W → Type 0) (t : ProcessLauncher W) (m : Exec W A)
      → ((w : W) → Post (λ _ _. Unit {0}) E (m w))
      → Triple (Same t) (on_world m) (λ _. Same t) (λ e s. Same t s × E e s.world)
  unfolding on_world zoom
  outside-Triple E t m h = record { at = λ s same. outside_lem E t s (m s.world) (h s.world) same }

  safe-Triple :
      {A : Type 0} (t : ProcessLauncher W) (m : Exec W A)
      → IsSafe m
      → Triple (Same t) (on_world m) (λ _. Same t) Never
  safe-Triple t m h =
      Triple-conseq (outside-Triple (λ _ _. ⊥) t m h) (λ _ s same. same) (λ e s (same, x). x)

length-remove-le : (pid : ℕ) (d : Dict ℕ ProcessEntry) → length (remove pid d) ≤ length d
unfolding remove
length-remove-le pid [] = omega arith
length-remove-le pid ((j, entry) ∷ d) = ground (arith, length-remove-le pid d)

module _ {W : Type 0} (system : System W) (works : Works system) where
  stop_process-Triple :
      (t : ProcessLauncher W) (o : Option ProcessEntry)
      → Triple (Same t) (stop_process system o) (λ _. Same t) Never
  unfolding stop_process
  stop_process-Triple t none = Triple-pure tt (λ s h. h)
  stop_process-Triple t (some (user_code_entry process client thread)) =
      safe-Triple t _ (works.stop_heartbeat thread)
  stop_process-Triple t (some (multipex_entry process client)) =
      safe-Triple t _ (works.terminate process)

  remove_pid-Triple :
      (pid : ℕ) (t : ProcessLauncher W)
      → Triple (Same t) (remove_pid system pid) (λ _. Same (forget_pid pid t)) Never
  unfolding remove_pid forget_pid
  remove_pid-Triple pid t = Triple-bind {R = λ _. Same t} _ _ (Triple-gets _ (λ s h. h)) (λ entry.
      Triple-bind _ _ (stop_process-Triple t entry)
        (λ _. Triple-modify _ (λ s (w, e). (w, ap (forget_pid pid) e))))

  pass_unreachable-Triple :
      (t : ProcessLauncher W) (e : Error)
      → Triple
          (λ s. Same t s × (e ≡ user_code_unreachable))
          (pass_unreachable system e)
          (λ _. Same t)
          Never
  pass_unreachable-Triple t user_code_unreachable = Triple-pure tt (λ s h. h.0)
  pass_unreachable-Triple t (raised message) = Triple-assume (λ same. cc)
  pass_unreachable-Triple t key_error = Triple-assume (λ same. cc)
  pass_unreachable-Triple t assertion_error = Triple-assume (λ same. cc)
  pass_unreachable-Triple t check_error = Triple-assume (λ same. cc)

  exit_code-Triple :
      (t : ProcessLauncher W) (process : ℕ) (exit_code : Option ℕ)
      → Triple
          (Same t)
          (elim exit_code [
            | none ↦ on_world (system.wait_for_process process)
            | some code ↦ pure tt
          ])
          (λ _. Same t)
          Never
  exit_code-Triple t process none = safe-Triple t _ (works.wait_for_process process)
  exit_code-Triple t process (some code) = Triple-pure tt (λ s h. h)

  wait_for_entry-Triple :
      (t : ProcessLauncher W) (entry : ProcessEntry)
      → Triple (Same t) (wait_for_entry system entry) (λ _. Same t) Never
  unfolding wait_for_entry wait_multipex
  wait_for_entry-Triple t (user_code_entry process client thread) =
      Triple-bind _ _
        (Triple-catch _ _
          (outside-Triple (λ e _. e ≡ user_code_unreachable) t _ (works.shutdown_server client))
          (pass_unreachable-Triple t))
        (λ _. safe-Triple t _ (works.wait process))
  wait_for_entry-Triple t (multipex_entry process client) =
      Triple-bind _ _ (safe-Triple t _ (works.terminate process))
        (λ _. Triple-bind _ _ (safe-Triple t _ (works.poll process)) (exit_code-Triple t process))

  module _ (wait_for_processes : Bool) where
    clean_up_entry-Triple :
        (t : ProcessLauncher W) (pid : ℕ) (entry : ProcessEntry)
        → Triple
            (Same t)
            (clean_up_entry system wait_for_processes (pid, entry))
            (λ _. Same (forget_pid pid t))
            Never
    unfolding clean_up_entry
    clean_up_entry-Triple t pid entry = Triple-bind _ _ (remove_pid-Triple pid t) (λ _.
        Triple-if wait_for_processes _ _ (λ _. wait_for_entry-Triple (forget_pid pid t) entry)
          (λ _. Triple-pure tt (λ s h. h)))

    Active-IsEmptied : (s : ProcessLauncher W) → IsActive s → s.process_entries ≡ [] → IsEmptied s
    unfolding lookup
    Active-IsEmptied s h e = (e, λ pid. ground (arith, h.listed pid, gone pid))
      where
        gone : (pid : ℕ) → has pid s.process_entries ≡ false
        gone pid = rw e refl

    abbrev Over : Bool → ProcessLauncher W → Type 0
    Over over s = (over ≡ true) × IsEmptied s

    abbrev Ends : ℕ → Type 0
    Ends fuel =
        (t : ProcessLauncher W)
        → IsActive t
        → length t.process_entries < fuel
        → Triple (Same t) (cleanup_servers system wait_for_processes fuel) Over Never

    fewer_lem :
        (pid : ℕ) (entry : ProcessEntry) (rest entries : Dict ℕ ProcessEntry)
        → (pid, entry) ∷ rest ≡ entries
        → length (remove pid entries) < length entries
    unfolding remove
    fewer_lem pid entry rest entries e =
        subst (λ d. length (remove pid d) < length d) e
          (ground (arith, length-remove-le pid rest, nat_beq_iff pid pid))

    step-Triple :
        (fuel : ℕ) (t : ProcessLauncher W) (entries : Dict ℕ ProcessEntry)
        → Ends fuel
        → IsActive t
        → length t.process_entries < suc fuel
        → entries ≡ t.process_entries
        → Triple
            (Same t)
            (elim entries [
              | [] ↦ pure true
              | first ∷ rest ↦ (do
                clean_up_entry system wait_for_processes first
                cleanup_servers system wait_for_processes fuel)
            ])
            Over
            Never
    unfolding forget_pid
    step-Triple fuel t [] again h n e = Triple-pure true (λ s same. (
      refl,
      Active-IsEmptied s (Same-IsActive t s h same) (ap (λ s. s.process_entries) same.1 ∙ sym e),
    ))
    step-Triple fuel t ((pid, entry) ∷ rest) again h n e =
        Triple-bind _ _ (clean_up_entry-Triple t pid entry) (λ _.
          again (forget_pid pid t) (forget_pid-IsActive pid t h)
            (omega (arith, n, fewer_lem pid entry rest t.process_entries e)))

    cleanup_servers-Triple : (fuel : ℕ) → Ends fuel
    unfolding cleanup_servers
    cleanup_servers-Triple zero t h n = absurd (omega (arith, n))
    cleanup_servers-Triple (suc fuel) t h n =
        Triple-bind {R = λ entries s. Same t s × (entries ≡ t.process_entries)} _ _
          (Triple-gets _ (λ s same. (same, ap (λ s. s.process_entries) same.1)))
          (λ entries.
            Triple-assume (λ e. step-Triple fuel t entries (cleanup_servers-Triple fuel) h n e))

    -- If threads and processes can be stopped and waited for, and a client raises at most that its
    -- server is gone, the clean-up of the servers does not raise, ends within as many rounds as
    -- there are entries and one more, and leaves no entry and no listed pid.
    pub cleanup_servers-IsEmptied :
        (fuel : ℕ) (s : ProcessLauncher W)
        → IsActive s
        → length s.process_entries < fuel
        → Post
            (λ over s'. (over ≡ true) × IsEmptied s')
            (λ _ _. ⊥)
            (cleanup_servers system wait_for_processes fuel s)
    cleanup_servers-IsEmptied fuel s h n = (cleanup_servers-Triple fuel s h n).at s (s.world, refl)
