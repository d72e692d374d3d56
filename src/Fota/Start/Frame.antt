-- ===== src/Fota/Start/Frame.antt =====
-- The start of an update and its initialisation change no state of the client.
use thingsboard_sdk.Base.{ℕ, none, some, Option, Option-cases, inl, inr, arith, false}
use thingsboard_sdk.Types.{FirmwareInfo, downloading, idle}
use thingsboard_sdk.Platform.{Env, dfu_done, dfu_set_buf, dfu_init}
use thingsboard_sdk.World.{World, ask, modify_fota}
use thingsboard_sdk.World.Keeps.{Keeps}
use thingsboard_sdk.Requests.{after_alloc, request_alloc, request_free, send_coap}
use thingsboard_sdk.Requests.Frame.{Still}
use thingsboard_sdk.Telemetry.Frame.{send_telemetry-Still}
use thingsboard_sdk.Fota.{set_fw}
use thingsboard_sdk.Fota.Frame.{set_fw_state-Still}
use thingsboard_sdk.Fota.{set_fw_state}
use thingsboard_sdk.Fota.Start.{
  prepare_image, fw_request_image, continue_at_offset, init_target, open_target, update_ctx,
  begin_update, start_fw_update, fota_on_attributes, firmware_telemetry, fota_init, report_update,
  confirm, fota_confirm_update,
}

module _ (e : Env) where
  prepare_image-Still : (r : ℕ) (w : World) → Still w (prepare_image e r w).0
  unfolding prepare_image request_free send_coap
  prepare_image-Still r w = ground arith

  pub fw_request_image-Still : Keeps Still (fw_request_image e)
  unfolding fw_request_image request_alloc
  fw_request_image-Still w = elim (Option-cases (e.mem_slab_alloc w.history)) [
    | inl p ↦ rw (p, fw_request_image, request_alloc) (ground arith)
    | inr (r, p) ↦ rw (p, fw_request_image, request_alloc) (prepare_image-Still r (after_alloc r w))
  ]

  continue_at_offset-Still : Keeps Still (continue_at_offset e)
  unfolding continue_at_offset
  continue_at_offset-Still w = grind (arith, fw_request_image-Still)

  init_target-Still : Keeps Still (init_target e)
  unfolding init_target
  init_target-Still w =
      ground (arith, continue_at_offset-Still (ask (λ h. e.init_result h w.fota.size) dfu_init w).0)

  open_target-Still : Keeps Still (open_target e)
  unfolding open_target
  open_target-Still w = ground (
    arith,
    init_target-Still (ask e.set_buf_result dfu_set_buf w).0,
    init_target-Still (ask (λ h. e.done_result h false) (dfu_done false) w).0,
  )

module _ (e : Env) where
  begin_update-Still : Keeps Still (begin_update e)
  unfolding begin_update
  begin_update-Still w =
      let v = (modify_fota (update_ctx e w.client.shared_attributes) w).0 in
      ground (
        arith,
        set_fw_state-Still e downloading v,
        open_target-Still e (set_fw_state e downloading v).0,
      )

  pub fota_on_attributes-Still : Keeps Still (fota_on_attributes e)
  unfolding fota_on_attributes start_fw_update
  fota_on_attributes-Still w = ground (arith, begin_update-Still w)

  pub fota_init-Still : (fw : FirmwareInfo) → Keeps Still (fota_init e fw)
  unfolding fota_init
  fota_init-Still fw w =
      send_telemetry-Still e (firmware_telemetry e none fw)
        (set_fw idle (record w { current_firmware = some fw })).0

  report_update-Still : (fw : Option FirmwareInfo) → Keeps Still (report_update e fw)
  unfolding report_update
  report_update-Still none w = ground arith
  report_update-Still (some fw) w = send_telemetry-Still e _ w

  pub fota_confirm_update-Still : Keeps Still (fota_confirm_update e)
  unfolding fota_confirm_update confirm
  fota_confirm_update-Still w = grind (arith, report_update-Still)
