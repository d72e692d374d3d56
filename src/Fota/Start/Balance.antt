-- ===== src/Fota/Start/Balance.antt =====
-- The start of an update, the initialisation and the confirmation keep no request block.
use thingsboard_sdk.Base.{ℕ, ◌+◌, ◌≡◌, Option-cases, inl, inr, arith}
use thingsboard_sdk.Types.{FirmwareInfo}
use thingsboard_sdk.Platform.{Env}
use thingsboard_sdk.World.{World}
use thingsboard_sdk.World.Keeps.{Keeps}
use thingsboard_sdk.Requests.{request_alloc, request_free, send_coap}
use thingsboard_sdk.Requests.Balance.{SlabIsBounded, same, received, spent, Balanced}
use thingsboard_sdk.Telemetry.Balance.{send_telemetry-Balanced}
use thingsboard_sdk.Telemetry.{send_telemetry}
use thingsboard_sdk.Types.{Telemetry}
use thingsboard_sdk.Requests.Traffic.{Quiet→Balanced, Balanced-transitive}
use thingsboard_sdk.Fota.Start.Keeps.{
  fota_init-Keeps, fota_confirm_update-Keeps, fota_on_attributes-Keeps,
}
use thingsboard_sdk.Fota.Start.{
  prepare_image, fw_request_image, fota_on_attributes, fota_init, fota_confirm_update,
}

module _ (e : Env) (k : ℕ) where
  prepare_image-spent :
      (r : ℕ) (w : World)
      → received k (prepare_image e r w).0.history + spent k w.history + same r k
        ≡ received k w.history + spent k (prepare_image e r w).0.history
  unfolding prepare_image request_free send_coap
  prepare_image-spent r w = ground arith

  -- `client_fw_request_image` gives each block away as often as it gets it.
  pub fw_request_image-Balanced : Keeps (Balanced k) (fw_request_image e)
  unfolding fw_request_image request_alloc
  fw_request_image-Balanced w = elim (Option-cases (e.mem_slab_alloc w.history)) [
    | inl p ↦ rw (p, fw_request_image, request_alloc) (omega arith)
    | inr (r, p) ↦ rw (p, fw_request_image, request_alloc) (omega (arith, prepare_image-spent r))
  ]

module _ (e : Env) (bounded : SlabIsBounded e) (k : ℕ) where
  sent-Balanced : (t : Telemetry) → Keeps (Balanced k) (send_telemetry e t)
  sent-Balanced t w = send_telemetry-Balanced e k t w bounded

  pub fota_on_attributes-Balanced : Keeps (Balanced k) (fota_on_attributes e)
  fota_on_attributes-Balanced =
      fota_on_attributes-Keeps e (Balanced k) (Quiet→Balanced k) (Balanced-transitive k)
        sent-Balanced (fw_request_image-Balanced e k)

  pub fota_init-Balanced : (fw : FirmwareInfo) → Keeps (Balanced k) (fota_init e fw)
  fota_init-Balanced =
      fota_init-Keeps e (Balanced k) (Quiet→Balanced k) (Balanced-transitive k) sent-Balanced

  pub fota_confirm_update-Balanced : Keeps (Balanced k) (fota_confirm_update e)
  fota_confirm_update-Balanced =
      fota_confirm_update-Keeps e (Balanced k) (Quiet→Balanced k) (Balanced-transitive k)
        sent-Balanced
