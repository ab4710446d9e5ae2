-- ===== src/Launcher/Reconcile/Difference.antt =====
-- What the difference of desired and actual entries has to do with the state that a round leaves.
use dagster_cloud.Prelude.{
  ◌≡◌, ◌∙◌, sym, refl, true, false, not, ◌&&◌, ◌||◌, Option, none, some, List, [], ◌∷◌, arith,
  contains, IsDistinct, string_eq, pair_eq, beq_refl, Bool-cases, inl, inr, contains-union,
  keep-IsDistinct, difference,
}
use dagster_cloud.Dict.{keys, lookup, has}
use dagster_cloud.Util.Diff.{
  NamedtupleMapDiff, differs, contains-to_add, contains-to_remove, contains-to_update,
  diff_serializable_namedtuple_map,
}
use dagster_cloud.Launcher.Types.{UserCodeLauncherEntry, DeploymentAndLocation, Servers}
use dagster_cloud.Launcher.Backend.{Backend, Runtime}
use dagster_cloud.Launcher.Metadata.{Entries}
use dagster_cloud.Launcher.Round.{Round}
use dagster_cloud.Launcher.Reconcile.{
  is_empty, all_in, has_changes, difference_from, to_update_keys,
}
use dagster_cloud.Launcher.Reconcile.Preparation.{is_plain}
use dagster_cloud.Launcher.Reconcile.RemoveLoop.{Removed}
use dagster_cloud.Launcher.Reconcile.Links.{Planned}

-- What a round relies on of the launcher: its two dictionaries of locations fit together, and a
-- location without pex metadata has no multipex server.
pub record Sound {W : Type 0} (desired : Entries) (requested : List DeploymentAndLocation)
    (s : Servers W) : Type 0 where
  pub distinct : IsDistinct (keys s.actual_entries)
  pub published :
      (k : DeploymentAndLocation) → has k s.actual_entries ≡ true → has k s.grpc_servers ≡ true
  pub asked : (k : DeploymentAndLocation) → contains k requested ≡ true → has k desired ≡ true
  pub plain :
      (k : DeploymentAndLocation)
      → is_plain (lookup k desired) ≡ true
      → has k s.multipex_servers ≡ false

-- The actual entries are the desired ones, as far as their snapshots tell, and each has a server
-- or the error of its server.
pub record Converged {W : Type 0} (r : Runtime) (desired : Entries) (s : Servers W) : Type 0 where
  pub distinct : IsDistinct (keys s.actual_entries)
  pub same_keys : (k : DeploymentAndLocation) → has k s.actual_entries ≡ has k desired
  pub same_entries :
      (k : DeploymentAndLocation)
      → differs r.create_snapshot_id (lookup k desired) (lookup k s.actual_entries) ≡ false
  pub published : (k : DeploymentAndLocation) → has k desired ≡ true → has k s.grpc_servers ≡ true

empty_lem :
    (l : List DeploymentAndLocation)
    → is_empty l ≡ true
    → (k : DeploymentAndLocation) → contains k l ≡ false
unfolding contains
empty_lem [] h k = refl
empty_lem (x ∷ l) h k = cc

is_empty_lem :
    (l : List DeploymentAndLocation)
    → ((k : DeploymentAndLocation) → contains k l ≡ false)
    → is_empty l ≡ true
unfolding contains
is_empty_lem [] h = refl
is_empty_lem (x ∷ l) h = ground (arith, h x, beq_refl x)

pub all_in_lem :
    (l : List DeploymentAndLocation) (entries : Entries)
    → ((k : DeploymentAndLocation) → contains k l ≡ true → has k entries ≡ true)
    → all_in l entries ≡ true
unfolding contains
all_in_lem [] entries h = refl
all_in_lem (x ∷ l) entries h =
    ground (arith, h x, beq_refl x, all_in_lem l entries (λ k c. h k (ground (arith, c))))

pub same_snapshot :
    (r : Runtime) (o : Option UserCodeLauncherEntry) → differs r.create_snapshot_id o o ≡ false
unfolding differs
same_snapshot r none = refl
same_snapshot r (some entry) = ground (arith, beq_refl (r.create_snapshot_id entry))

module _ {W : Type 0} (r : Runtime) (desired : Entries) (s : Servers W) where
  abbrev diff : NamedtupleMapDiff DeploymentAndLocation
  diff = difference_from r desired s

  in_updating :
      (k : DeploymentAndLocation)
      → contains k (to_update_keys r diff) ≡ (contains k diff.to_add || contains k diff.to_update)
  unfolding to_update_keys
  in_updating k = r.contains-iterate k _ ∙ contains-union k _ _

  pub added_lem :
      (k : DeploymentAndLocation)
      → contains k diff.to_add ≡ (not (has k s.actual_entries) && has k desired)
  unfolding difference_from
  added_lem = contains-to_add r.create_snapshot_id desired s.actual_entries []

  pub removed_lem :
      (k : DeploymentAndLocation)
      → contains k diff.to_remove ≡ (not (has k desired) && has k s.actual_entries)
  unfolding difference_from
  removed_lem = contains-to_remove r.create_snapshot_id desired s.actual_entries []

  pub updated_lem :
      (k : DeploymentAndLocation)
      → contains k diff.to_update ≡ (
          differs r.create_snapshot_id (lookup k desired) (lookup k s.actual_entries)
          && (has k desired && has k s.actual_entries))
  unfolding difference_from contains
  updated_lem k =
      contains-to_update r.create_snapshot_id desired s.actual_entries [] k ∙ ground (arith)

  removed-IsDistinct : IsDistinct (keys s.actual_entries) → IsDistinct diff.to_remove
  unfolding difference_from diff_serializable_namedtuple_map difference
  removed-IsDistinct h = keep-IsDistinct _ (keys s.actual_entries) h

  differs_lem :
      (k : DeploymentAndLocation)
      → (differs r.create_snapshot_id (lookup k desired) (lookup k s.actual_entries)
          && (has k desired && has k s.actual_entries))
        ≡ false
      → differs r.create_snapshot_id (lookup k desired) (lookup k s.actual_entries) ≡ false
  unfolding differs
  differs_lem k h = ground (arith, h)

  pub make_plan :
      (requested : List DeploymentAndLocation)
      → Sound desired requested s
      → Planned W desired s requested (to_update_keys r diff) (r.iterate diff.to_remove)
  make_plan requested sound = record {
    known = λ k u. ground (arith, u, in_updating k, added_lem k, updated_lem k);
    stale = λ k u. (
      ground (arith, u, r.contains-iterate k diff.to_remove, removed_lem k),
      ground (arith, u, r.contains-iterate k diff.to_remove, removed_lem k),
    );
    fresh = λ k h n. ground (arith, h, n, in_updating k, added_lem k);
    asked = sound.asked;
    published = sound.published;
    distinct = sound.distinct;
    once = r.iterate-IsDistinct _ (removed-IsDistinct sound.distinct);
    plain = sound.plain;
  }

  -- A location that the difference does not name has its entry already.
  agree_lem :
      (k : DeploymentAndLocation)
      → contains k (to_update_keys r diff) ≡ false
      → contains k diff.to_remove ≡ false
      → (has k s.actual_entries ≡ has k desired)
        × (differs r.create_snapshot_id (lookup k desired) (lookup k s.actual_entries) ≡ false)
  agree_lem k n m = (
    ground (arith, n, m, in_updating k, added_lem k, removed_lem k),
    differs_lem k (ground (arith, n, in_updating k, updated_lem k)),
  )

  pub kept-Converged :
      (requested : List DeploymentAndLocation)
      → Sound desired requested s
      → has_changes diff requested ≡ false
      → Converged r desired s
  unfolding has_changes contains
  kept-Converged requested sound h =
      let add = empty_lem diff.to_add (ground (arith, h)) in
      let update = empty_lem diff.to_update (ground (arith, h)) in
      let remove = empty_lem diff.to_remove (ground (arith, h)) in
      let agree = λ (k : DeploymentAndLocation).
        agree_lem k (ground (arith, in_updating k, add k, update k)) (remove k) in
      record {
        distinct = sound.distinct;
        same_keys = λ k. (agree k).0;
        same_entries = λ k. (agree k).1;
        published = λ k there. sound.published k (rw (agree k).0 there);
      }

  module _ (b : Backend W) (t : Round W)
      (p : Removed b desired s (to_update_keys r diff) (r.iterate diff.to_remove) [] t) where
    Removed-agree :
        (k : DeploymentAndLocation)
        → (has k t.servers.actual_entries ≡ has k desired)
          × (differs r.create_snapshot_id (lookup k desired) (lookup k t.servers.actual_entries)
              ≡ false)
    unfolding contains differs
    Removed-agree k = elim (Bool-cases (contains k (r.iterate diff.to_remove))) [
      | inl gone ↦ (
        ground
            (arith, p.gone k gone refl, gone, r.contains-iterate k diff.to_remove, removed_lem k),
        ground (arith, p.gone k gone refl),
      )
      | inr stays ↦ elim (Bool-cases (contains k (to_update_keys r diff))) [
        | inl updated ↦ rw (p.settled k updated stays) (refl, same_snapshot r (lookup k desired))
        | inr same ↦
            rw (p.kept k same stays)
              (agree_lem k same (sym (r.contains-iterate k diff.to_remove) ∙ stays))
      ]
    ]

    pub Removed-Converged : Converged r desired t.servers
    Removed-Converged = record {
      distinct = p.distinct;
      same_keys = λ k. (Removed-agree k).0;
      same_entries = λ k. (Removed-agree k).1;
      published = λ k there. p.published k (rw (Removed-agree k).0 there);
    }

module _ {W : Type 0} (r : Runtime) (desired : Entries) (s : Servers W) where
  pub Converged-has_changes :
      Converged r desired s → has_changes (difference_from r desired s) [] ≡ false
  unfolding has_changes
  Converged-has_changes c =
      rw (is_empty_lem _ no_add, is_empty_lem _ no_update, is_empty_lem _ no_remove) refl
    where
      no_add : (k : DeploymentAndLocation) → contains k (difference_from r desired s).to_add ≡ false
      no_add k = ground (arith, added_lem r desired s k, c.same_keys k)

      no_update :
          (k : DeploymentAndLocation) → contains k (difference_from r desired s).to_update ≡ false
      no_update k = ground (arith, updated_lem r desired s k, c.same_entries k)

      no_remove :
          (k : DeploymentAndLocation) → contains k (difference_from r desired s).to_remove ≡ false
      no_remove k = ground (arith, removed_lem r desired s k, c.same_keys k)
