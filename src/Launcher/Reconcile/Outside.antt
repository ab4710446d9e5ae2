-- ===== src/Launcher/Reconcile/Outside.antt =====
-- Steps of `_reconcile` that no handler guards: they must not raise.
use dagster_cloud.Prelude.{◌≡◌, refl, true, Option, none, some, is_some}
use dagster_cloud.Exec.{Error, Result, ok, err, Exec, put_back, zoom}
use dagster_cloud.Exec.Keeps.{Keeps}
use dagster_cloud.Exec.Triple.{Post, Triple, Triple-pure}
use dagster_cloud.Launcher.Types.{Servers}
use dagster_cloud.Launcher.Multipex.{get_item, on_world}
use dagster_cloud.Launcher.Round.{Round, on_servers}
use dagster_cloud.Launcher.Upload.Frame.{SameServers}

-- The call never raises.
abbrev pub IsSafe : {W A : Type 0} → Exec W A → Type 0
IsSafe {W} m = (w : W) → Post (λ _ _. Unit {0}) (λ _ _. ⊥) (m w)

module _ {W : Type 0} where
  abbrev pub Never : Error → Round W → Type 0
  Never e s = ⊥

  outside_lem :
      {A : Type 0} (P : Round W → Type 0) (s : Round W) (r : Result A × W)
      → Post (λ _ _. Unit {0}) (λ _ _. ⊥) r
      → P
          (put_back
            (put_back r (λ w. record s.servers { world = w }))
            (λ t. record s { servers = t })).1
      → Post
          (λ _. P)
          Never
          (put_back
            (put_back r (λ w. record s.servers { world = w }))
            (λ t. record s { servers = t }))
  outside_lem P s (ok a, w) safe p = p
  outside_lem P s (err e, w) safe p = safe

  pub outside-Triple :
      {A : Type 0} {P : Round W → Type 0} (m : Exec W A)
      → Keeps P (on_servers (on_world m))
      → IsSafe m
      → Triple P (on_servers (on_world m)) (λ _. P) Never
  unfolding on_servers on_world zoom
  outside-Triple {P} m k safe = record {
    at = λ s p. outside_lem P s (m s.servers.world) (safe s.servers.world) (k.at s p);
  }

  pub get_item-Triple :
      {A : Type 0} {P : Round W → Type 0} (o : Option A)
      → is_some o ≡ true
      → Triple P (get_item {S = Round W} o) (λ a s. P s × (o ≡ some a)) Never
  unfolding get_item
  get_item-Triple none h = cc
  get_item-Triple (some a) h = Triple-pure _ (λ s p. (p, refl))

  -- What holds of the launcher's dictionaries stays when an action leaves them alone.
  pub servers-Keeps :
      {A : Type 0} {P : Round W → Type 0} (m : Exec (Servers W) A)
      → ((s : Round W) (t : Servers W)
          → P s
          → SameServers s.servers t
          → P (record s { servers = t }))
      → ((u : Servers W) → Keeps (SameServers u) m)
      → Keeps P (on_servers m)
  unfolding on_servers zoom
  servers-Keeps m same keeps = record {
    at = λ s p. same s (m s.servers).1 p (
        (keeps s.servers).at s.servers
          (record { same_grpc = refl; same_multipex = refl; same_actual = refl }));
  }
