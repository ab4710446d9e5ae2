-- ===== src/Launcher/Metadata/Uploads.antt =====
-- `add_upload_metadata` and `update_grpc_metadata`: the entries of the locations to upload.
use dagster_cloud.Prelude.{
  ◌≡◌, refl, true, none, List, [], ◌∷◌, arith, contains, difference, contains-union,
  contains-difference, string_eq, pair_eq, if◌then◌else◌, Option-cases, beq_refl, pair_beq_iff, inl,
  inr,
}
use dagster_cloud.Exec.{ok}
use dagster_cloud.Dict.{keys, lookup, has, contains-keys}
use dagster_cloud.Launcher.Types.{DeploymentAndLocation}
use dagster_cloud.Launcher.Backend.{Runtime}
use dagster_cloud.Launcher.Metadata.{
  Entries, Metadata, pick, add_upload_metadata, update_grpc_metadata,
}

-- Every location to upload has a desired entry.
pub record IsUploadable (m : Metadata) : Type 0 where
  pub wanted :
      (k : DeploymentAndLocation)
      → contains k m.upload_locations ≡ true
      → has k m.desired_entries ≡ true

-- `d` is the part of `desired` at the keys `ks`.
abbrev IsPart : Entries → List DeploymentAndLocation → Entries → Type 0
IsPart desired ks d =
    (k : DeploymentAndLocation) → lookup k d ≡ (if contains k ks then lookup k desired else none)

pick_lem :
    (desired : Entries) (ks : List DeploymentAndLocation)
    → ((k : DeploymentAndLocation) → contains k ks ≡ true → has k desired ≡ true)
    → (d : Entries) × (pick desired ks ≡ ok d) × IsPart desired ks d
unfolding pick contains lookup
pick_lem desired [] h = ([], refl, λ k. refl)
pick_lem desired (x ∷ xs) h =
    let (rest, e, part) = pick_lem desired xs (λ k m. h k (ground (arith, m))) in
    elim (Option-cases (lookup x desired)) [
      | inl missing ↦ absurd (ground (arith, h x, beq_refl x))
      | inr (entry, found) ↦ (
        (x, entry) ∷ rest,
        rw (found, e, pick),
        λ k. ground (arith, part k, found, pair_beq_iff x k),
      )
    ]

module _ (r : Runtime) where
  open r use {lookup-merge_dicts, contains-iterate}

  pub add_upload_metadata-IsUploadable :
      (uploads : Entries) (m : Metadata)
      → IsUploadable m
      → IsUploadable (add_upload_metadata r uploads m)
  unfolding add_upload_metadata
  add_upload_metadata-IsUploadable uploads m v = record {
    wanted = λ k h. ground (
      arith,
      v.wanted k,
      contains-union k m.upload_locations (keys uploads),
      contains-keys k uploads,
      lookup-merge_dicts k m.desired_entries uploads,
    );
  }

  -- What the update returns and leaves behind: the new entries, and the old ones of the locations
  -- that wait for their upload.
  pub update_grpc_metadata_lem :
      (desired : Entries) (m : Metadata)
      → IsUploadable m
      → (m' : Metadata) × (update_grpc_metadata r desired m ≡ (ok tt, m'))
        × (m'.upload_locations ≡ m.upload_locations)
        × ((k : DeploymentAndLocation)
            → lookup k m'.desired_entries ≡ (
                if has k desired
                then lookup k desired
                else if contains k m.upload_locations
                then lookup k m.desired_entries
                else none))
  unfolding update_grpc_metadata
  update_grpc_metadata_lem desired m v =
      let waiting = difference m.upload_locations (keys desired) in
      let (d, e, part) = pick_lem m.desired_entries (r.iterate waiting) (λ k h. ground (
        arith,
        v.wanted k,
        contains-iterate k waiting,
        contains-difference k m.upload_locations (keys desired),
      )) in
      (
        record m { desired_entries = r.merge_dicts d desired },
        rw e,
        refl,
        λ k. ground (
          arith,
          lookup-merge_dicts k d desired,
          part k,
          contains-iterate k waiting,
          contains-difference k m.upload_locations (keys desired),
          contains-keys k desired,
        ),
      )
