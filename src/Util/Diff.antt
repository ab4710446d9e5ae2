-- ===== src/Util/Diff.antt =====
-- The difference of a desired and an actual map, by the snapshot identifiers of their values.
-- `create_snapshot_id`, of dagster, is a parameter.
use dagster_cloud.Prelude.{
  String, ◌≡◌, ◌∙◌, Bool, false, not, ◌&&◌, ◌||◌, Option, some, List, arith, Eq, ◌==◌, contains,
  keep, difference, intersection, contains-difference, contains-intersection, contains-keep,
  string_eq,
}
use dagster_cloud.Dict.{Dict, keys, lookup, has, contains-keys}

pub record NamedtupleMapDiff {ℓ} (K : Type ℓ) : Type ℓ where
  pub to_add : List K
  pub to_update : List K
  pub to_remove : List K

module _ {V : Type 0} (create_snapshot_id : V → String) where
  -- desired_map[k] and actual_map[k] are there for the keys of the intersection
  unfoldable pub differs : Option V → Option V → Bool
  differs (some v) (some w) = not (create_snapshot_id v == create_snapshot_id w)
  differs _ _ = false

module _ {ℓ} {K : Type ℓ} {V : Type 0} ⦃e : Eq K⦄ (create_snapshot_id : V → String) where
  unfoldable pub diff_serializable_namedtuple_map :
      Dict K V → Dict K V → List K → NamedtupleMapDiff K
  diff_serializable_namedtuple_map desired_map actual_map force_update_keys = record {
    to_add = difference (keys desired_map) (keys actual_map);
    to_update =
        keep
          (λ k.
            differs create_snapshot_id (lookup k desired_map) (lookup k actual_map)
            || contains k force_update_keys)
          (intersection (keys actual_map) (keys desired_map));
    to_remove = difference (keys actual_map) (keys desired_map);
  }

  module _ (desired actual : Dict K V) (force : List K) (k : K) where
    pub contains-to_add :
        contains k (diff_serializable_namedtuple_map desired actual force).to_add
        ≡ (not (has k actual) && has k desired)
    unfolding diff_serializable_namedtuple_map
    contains-to_add = ground (
      arith,
      contains-difference k (keys desired) (keys actual),
      contains-keys k desired,
      contains-keys k actual,
    )

    pub contains-to_remove :
        contains k (diff_serializable_namedtuple_map desired actual force).to_remove
        ≡ (not (has k desired) && has k actual)
    unfolding diff_serializable_namedtuple_map
    contains-to_remove = ground (
      arith,
      contains-difference k (keys actual) (keys desired),
      contains-keys k desired,
      contains-keys k actual,
    )

    pub contains-to_update :
        contains k (diff_serializable_namedtuple_map desired actual force).to_update ≡ (
          (differs create_snapshot_id (lookup k desired) (lookup k actual) || contains k force)
          && (has k desired && has k actual))
    unfolding diff_serializable_namedtuple_map
    contains-to_update =
        contains-keep k _ _
        ∙ ground (
          arith,
          contains-intersection k (keys actual) (keys desired),
          contains-keys k desired,
          contains-keys k actual,
        )

    -- A key is to be added when it is only in the desired map, to be removed when it is only in the
    -- actual map, and to be updated when it is in both and its values have different snapshots or
    -- its update is forced.
    pub contains-diff :
        (contains k (diff_serializable_namedtuple_map desired actual force).to_add
          ≡ (not (has k actual) && has k desired))
        × (contains k (diff_serializable_namedtuple_map desired actual force).to_update ≡ (
            (differs create_snapshot_id (lookup k desired) (lookup k actual) || contains k force)
            && (has k desired && has k actual)))
        × (contains k (diff_serializable_namedtuple_map desired actual force).to_remove
            ≡ (not (has k desired) && has k actual))
    contains-diff = (contains-to_add, contains-to_update, contains-to_remove)
