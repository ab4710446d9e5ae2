-- ===== src/Launcher/ProcessLauncher/Removal.antt =====
-- `_remove_server` of the user code launcher with the process launcher as its backend.
use dagster_cloud.Prelude.{
  ℕ, ◌≡◌, refl, sym, Bool, true, false, not, ◌&&◌, ◌||◌, List, [], ◌∷◌, ◌==◌, arith, string_eq,
  pair_eq, nat_eq, contains, Bool-cases, inl, inr, beq_refl,
}
use dagster_cloud.Exec.{Result, ok, err, gets, for_each, zoom, put_back}
use dagster_cloud.Exec.Triple.{Post, Triple, Triple-pure, Triple-bind, Triple-conseq, Triple-assume}
use dagster_cloud.Dict.{has}
use dagster_cloud.Launcher.Types.{DeploymentAndLocation, Servers}
use dagster_cloud.Launcher.Backend.{Backend}
use dagster_cloud.Launcher.Multipex.{on_world, remove_server}
use dagster_cloud.Launcher.ProcessLauncher.{
  ProcessLauncher, System, get_standalone_handles, get_multipex_handles, remove_server_handle,
}
use dagster_cloud.Launcher.ProcessLauncher.Listed.{Same}
use dagster_cloud.Launcher.ProcessLauncher.Lifetime.{
  pids_at, remove_server_handle_lem, process_backend,
}

-- The processes with these pids are gone from all the tables, and the others are as before.
pub record Without {W : Type 0} (gone : ℕ → Bool) (s s' : ProcessLauncher W) : Type 0 where
  pub entries :
      (pid : ℕ) → has pid s'.process_entries ≡ (not (gone pid) && has pid s.process_entries)
  pub pids :
      (pex : Bool) (key : DeploymentAndLocation) (pid : ℕ)
      → contains pid (pids_at pex key s') ≡ (not (gone pid) && contains pid (pids_at pex key s))

-- Some of the processes that are asked for.
abbrev pub Partly : {W : Type 0} → (ℕ → Bool) → ProcessLauncher W → ProcessLauncher W → Type 0
Partly asked s s' =
    (gone : ℕ → Bool) × Without gone s s' × ((pid : ℕ) → (gone pid && not (asked pid)) ≡ false)

module _ {W : Type 0} (system : System W) (s : ProcessLauncher W) (asked : ℕ → Bool) where
  -- A part of what is asked for is gone.
  abbrev Gone : (ℕ → Bool) → Servers (ProcessLauncher W) → Type 0
  Gone gone t = Without gone s t.world × ((pid : ℕ) → (gone pid && not (asked pid)) ≡ false)

  removed_lem :
      (gone : ℕ → Bool) (h : ℕ) (t : Servers (ProcessLauncher W))
      (x : Result (Unit {0}) × ProcessLauncher W)
      → asked h ≡ true
      → Gone gone t
      → Post
          (λ _ u.
            (pid : ℕ)
            → (has pid u.process_entries ≡ (not (h == pid) && has pid t.world.process_entries))
              × ((pex : Bool) (key : DeploymentAndLocation)
                  → contains pid (pids_at pex key u)
                    ≡ (not (h == pid) && contains pid (pids_at pex key t.world))))
          (λ _. Same t.world)
          x
      → Post
          (λ _. Gone (λ pid. gone pid || h == pid))
          (λ _ t'. Partly asked s t'.world)
          (put_back x (λ w. record t { world = w }))
  removed_lem gone h t (ok tt, u) a (g, inside) k = (
    record {
      entries = λ pid. ground (arith, (k pid).0, g.entries pid);
      pids = λ pex key pid. ground (arith, (k pid).1 pex key, g.pids pex key pid);
    },
    λ pid. elim (Bool-cases (h == pid)) [
      | inl same ↦
          let same_pid : h ≡ pid = (nat_eq.beq_iff h pid).0 same in
          let known : asked pid ≡ true = rw (sym same_pid) a in ground (arith, known)
      | inr other ↦ rw other (ground (arith, inside pid))
    ],
  )
  removed_lem gone h t (err e, u) a (g, inside) (w, k) =
      (gone, rw k (record { entries = g.entries; pids = g.pids }), inside)

  remove-Triple :
      (gone : ℕ → Bool) (h : ℕ)
      → asked h ≡ true
      → Triple
          (Gone gone)
          (on_world (remove_server_handle system h))
          (λ _. Gone (λ pid. gone pid || h == pid))
          (λ _ t. Partly asked s t.world)
  unfolding on_world zoom
  remove-Triple gone h a = record {
    at = λ t g. removed_lem gone h t _ a g (remove_server_handle_lem system h t.world);
  }

  -- What the searches for handles find when some processes are gone.
  abbrev Finds : Bool → DeploymentAndLocation → (ℕ → Bool) → List ℕ → Type 0
  Finds pex key gone hs =
      (pid : ℕ) → contains pid hs ≡ (not (gone pid) && contains pid (pids_at pex key s))

  standalone-Triple :
      (gone : ℕ → Bool) (key : DeploymentAndLocation)
      → Triple
          (Gone gone)
          (on_world (get_standalone_handles key))
          (λ hs t. Gone gone t × Finds false key gone hs)
          (λ _ t. Partly asked s t.world)
  unfolding on_world zoom get_standalone_handles gets
  standalone-Triple gone key = record { at = λ t g. (g, λ pid. g.0.pids false key pid) }

  multipex-Triple :
      (gone : ℕ → Bool) (key : DeploymentAndLocation)
      → Triple
          (Gone gone)
          (on_world (get_multipex_handles key))
          (λ hs t. Gone gone t × Finds true key gone hs)
          (λ _ t. Partly asked s t.world)
  unfolding on_world zoom get_multipex_handles gets
  multipex-Triple gone key = record { at = λ t g. (g, λ pid. g.0.pids true key pid) }

  -- Members that are gone may be named in another way.
  Gone-same :
      (f g : ℕ → Bool) (t : Servers (ProcessLauncher W))
      → ((pid : ℕ) → g pid ≡ f pid)
      → Gone f t
      → Gone g t
  Gone-same f g t same (h, inside) = (
    record {
      entries = λ pid. rw (same pid) (h.entries pid);
      pids = λ pex key pid. rw (same pid) (h.pids pex key pid);
    },
    λ pid. rw (same pid) (inside pid),
  )

  remove_all-Triple :
      (hs : List ℕ) (gone : ℕ → Bool)
      → ((pid : ℕ) → contains pid hs ≡ true → asked pid ≡ true)
      → Triple
          (Gone gone)
          (for_each hs (λ h. on_world (remove_server_handle system h)))
          (λ _. Gone (λ pid. gone pid || contains pid hs))
          (λ _ t. Partly asked s t.world)
  unfolding for_each contains
  remove_all-Triple [] gone known = Triple-pure _ (λ t. Gone-same gone _ t (λ pid. ground (arith)))
  remove_all-Triple (h ∷ hs) gone known =
      Triple-bind {R = λ _. Gone (λ pid. gone pid || h == pid)} _ _
        (remove-Triple gone h (known h (ground (arith, beq_refl h))))
        (λ _.
          Triple-conseq
            (remove_all-Triple hs (λ pid. gone pid || h == pid)
              (λ pid c. known pid (ground (arith, c))))
            (λ _ t. Gone-same _ _ t (λ pid. ground (arith))) (λ e t p. p))

module _ {W : Type 0} (system : System W) (clients : Backend W) where
  -- The location lists the process, as a server of its own or as a multipex server.
  abbrev pub listed_at : DeploymentAndLocation → ProcessLauncher W → ℕ → Bool
  listed_at key s pid = contains pid (pids_at false key s) || contains pid (pids_at true key s)

  remove_server-Triple :
      (key : DeploymentAndLocation) (s : ProcessLauncher W)
      → Triple
          (Gone system s (listed_at key s) (λ pid. false))
          (remove_server (process_backend system clients) key)
          (λ _ t. Without (listed_at key s) s t.world)
          (λ _ t. Partly (listed_at key s) s t.world)
  unfolding remove_server process_backend
  remove_server-Triple key s =
      let asked = listed_at key s in
      Triple-bind _ _ (standalone-Triple system s asked (λ pid. false) key) (λ hs.
        Triple-assume (λ found.
          Triple-bind _ _
            (remove_all-Triple system s asked hs (λ pid. false)
              (λ pid c. ground (arith, c, found pid)))
            (λ _.
              Triple-bind _ _ (multipex-Triple system s asked (λ pid. false || contains pid hs) key)
                (λ hs'. Triple-assume (λ found'.
                  Triple-conseq
                    (remove_all-Triple system s asked hs' (λ pid. false || contains pid hs)
                      (λ pid c. ground (arith, c, found' pid)))
                    (λ _ t g.
                      (Gone-same system s asked _ asked t
                        (λ pid. ground (arith, found pid, found' pid)) g).0)
                    (λ e t p. p))))))

  -- With the process launcher as its backend, `_remove_server` removes exactly the processes that
  -- the location lists, the standalone and the multipex ones: they are in no table any more, and
  -- the others are in the tables as before. When a removal raises, only some of these processes are
  -- gone.
  pub remove_server-Without :
      (key : DeploymentAndLocation) (s : Servers (ProcessLauncher W))
      → Post
          (λ _ s'. Without (listed_at key s.world) s.world s'.world)
          (λ _ s'. Partly (listed_at key s.world) s.world s'.world)
          (remove_server (process_backend system clients) key s)
  remove_server-Without key s =
      (remove_server-Triple key s.world).at s
        (record { entries = λ pid. refl; pids = λ pex k pid. refl }, λ pid. refl)
