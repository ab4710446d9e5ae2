-- ===== src/Launcher/Metadata/Calls.antt =====
-- The critical sections of `_metadata_lock` in any order: the agent's threads add uploads and
-- update the desired entries, and the reconciliation thread takes its snapshots.
use dagster_cloud.Prelude.{
  ◌≡◌, refl, Bool, true, false, ◌||◌, List, [], ◌∷◌, arith, contains, contains-union, string_eq,
  pair_eq,
}
use dagster_cloud.Exec.{Exec, ok, pure, modify, ◌>>=◌, ◌>>◌}
use dagster_cloud.Dict.{keys, has, contains-keys}
use dagster_cloud.Launcher.Types.{DeploymentAndLocation}
use dagster_cloud.Launcher.Backend.{Runtime}
use dagster_cloud.Launcher.Metadata.{
  Entries, Metadata, init, add_upload_metadata, update_grpc_metadata, take_snapshot,
}
use dagster_cloud.Launcher.Metadata.Uploads.{
  IsUploadable, add_upload_metadata-IsUploadable, update_grpc_metadata_lem,
}

pub data Call : Type 0 where
  adds updates : Entries → Call
  snapshots : Call

abbrev pub is_snapshot : Call → Bool
is_snapshot snapshots = true
is_snapshot _ = false

abbrev pub any_snapshot : List Call → Bool
any_snapshot [] = false
any_snapshot (c ∷ cs) = is_snapshot c || any_snapshot cs

module _ (r : Runtime) where
  unfoldable pub call : Call → Exec Metadata (Unit {0})
  unfolding modify update_grpc_metadata
  call (adds uploads) = modify (add_upload_metadata r uploads)
  call (updates desired) = update_grpc_metadata r desired
  call snapshots = modify (λ m. (take_snapshot m).1)

  unfoldable pub run_calls : List Call → Exec Metadata (Unit {0})
  unfolding pure ◌>>=◌ call
  run_calls [] = pure tt
  run_calls (c ∷ cs) = do call c; run_calls cs

  -- What one call does for a location that waits for its upload.
  call_lem :
      (c : Call) (m : Metadata)
      → IsUploadable m
      → (m' : Metadata) × (call c m ≡ (ok tt, m'))
        × IsUploadable m'
        × ((k : DeploymentAndLocation)
            → is_snapshot c ≡ false
            → contains k m.upload_locations ≡ true
            → contains k m'.upload_locations ≡ true)
  unfolding call modify add_upload_metadata take_snapshot contains
  call_lem (adds uploads) m v = (
    add_upload_metadata r uploads m,
    refl,
    add_upload_metadata-IsUploadable r uploads m v,
    λ k _ h. ground (arith, contains-union k m.upload_locations (keys uploads)),
  )
  call_lem (updates desired) m v =
      let (m', e, same, entries) = update_grpc_metadata_lem r desired m v in
      (
        m',
        e,
        record { wanted = λ k h. ground (arith, same, entries k, v.wanted k) },
        λ k _ h. ground (arith, same),
      )
  call_lem snapshots m v = (
    record m { upload_locations = [] },
    refl,
    record { wanted = λ k h. ground (arith, h) },
    λ k h _. ground (arith, h),
  )

  run_calls_lem :
      (cs : List Call) (m : Metadata)
      → IsUploadable m
      → (m' : Metadata) × (run_calls cs m ≡ (ok tt, m'))
        × IsUploadable m'
        × ((k : DeploymentAndLocation)
            → any_snapshot cs ≡ false
            → contains k m.upload_locations ≡ true
            → contains k m'.upload_locations ≡ true)
  unfolding run_calls ◌>>=◌ pure
  run_calls_lem [] m v = (m, refl, v, λ k _ h. h)
  run_calls_lem (c ∷ cs) m v =
      let (m₁, e₁, v₁, keep₁) = call_lem c m v in
      let (m₂, e₂, v₂, keep₂) = run_calls_lem cs m₁ v₁ in
      (m₂, rw e₁ e₂, v₂, λ k h w. ground (arith, keep₁ k, keep₂ k))

  -- Whatever the order of the critical sections, from the start of the launcher, none of them
  -- raises (no KeyError on the entry of a location that waits for its upload), and every location
  -- that waits for its upload has a desired entry.
  pub run_calls-IsUploadable :
      (cs : List Call) → (m' : Metadata) × (run_calls cs init ≡ (ok tt, m')) × IsUploadable m'
  unfolding contains
  run_calls-IsUploadable cs =
      let (m', e, v, _) = run_calls_lem cs init (record { wanted = λ k h. ground (arith, h) }) in
      (m', e, v)

  -- A location whose upload was requested is in the next snapshot, with its entry, whatever
  -- requests and updates of the desired entries come in between.
  pub upload_survives :
      (cs : List Call) (uploads : Entries) (m : Metadata) (k : DeploymentAndLocation)
      → IsUploadable m
      → any_snapshot cs ≡ false
      → has k uploads ≡ true
      → (m' : Metadata) × (run_calls (adds uploads ∷ cs) m ≡ (ok tt, m'))
        × (contains k (take_snapshot m').0.upload_locations ≡ true)
        × (has k (take_snapshot m').0.desired_entries ≡ true)
  unfolding run_calls call modify ◌>>=◌ take_snapshot add_upload_metadata
  upload_survives cs uploads m k v quiet h =
      let m₁ = add_upload_metadata r uploads m in
      let (m', e, v', keep) =
        run_calls_lem cs m₁ (add_upload_metadata-IsUploadable r uploads m v) in
      let waits : contains k m'.upload_locations ≡ true = keep k quiet (
        ground
          (arith, contains-union k m.upload_locations (keys uploads), contains-keys k uploads)) in
      (m', e, waits, v'.wanted k waits)
