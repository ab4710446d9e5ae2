-- ===== src/Ecs/Services/Deletion.antt =====
-- The wait for a deregistration in the deletion of a service.
use dagster_cloud.Prelude.{ℕ, zero, suc, String, ◌≡◌, refl, false, none, ◌==◌, string_eq}
use dagster_cloud.Exec.{ok, pure, ◌>>=◌}
use dagster_cloud.Ecs.Services.{Control, wait_for_operation}

module _ {W : Type 0} (control : Control W) (operation_id : String) where
  -- The wait for a deregistration has no timeout: as long as its status is neither success nor
  -- failure, no number of rounds is enough.
  pub wait_for_operation_endless :
      (status : String)
      → (status == "FAIL") ≡ false
      → (status == "SUCCESS") ≡ false
      → ((w : W) → (w' : W) × (control.get_operation operation_id w ≡ (ok status, w')))
      → ((w : W) → (w' : W) × (control.sleep w ≡ (ok tt, w')))
      → (fuel : ℕ) (w : W)
      → (w' : W) × (wait_for_operation control fuel operation_id w ≡ (ok none, w'))
  unfolding wait_for_operation ◌>>=◌ pure
  wait_for_operation_endless status f s pending slept zero w = (w, refl)
  wait_for_operation_endless status f s pending slept (suc fuel) w =
      let (w₁, e₁) = pending w in
      let (w₂, e₂) = slept w₁ in
      let (w₃, e₃) = wait_for_operation_endless status f s pending slept fuel w₂ in
      (w₃, rw (e₁, f, e₂, s) e₃)
