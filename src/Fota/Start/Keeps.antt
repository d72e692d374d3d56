-- ===== src/Fota/Start/Keeps.antt =====
-- What the start of an update, the initialisation and the confirmation keep: any relation that
-- allows what passes no request, and the functions that pass one.
use thingsboard_sdk.Base.{ℕ, refl, Option, some, none, inl, inr, arith, false, ascii}
use thingsboard_sdk.Types.{FirmwareInfo, Telemetry, downloading, idle}
use thingsboard_sdk.Types.Cases.{Result-cases}
use thingsboard_sdk.Platform.{
  Env, dfu_done, dfu_set_buf, dfu_init, dfu_offset_get, boot_is_img_confirmed,
  boot_write_img_confirmed,
}
use thingsboard_sdk.World.{World, ask, modify_fota}
use thingsboard_sdk.World.Keeps.{Keeps}
use thingsboard_sdk.Requests.Traffic.{Quiet}
use thingsboard_sdk.Telemetry.{send_telemetry}
use thingsboard_sdk.Fota.{set_fw, set_fw_state}
use thingsboard_sdk.Fota.Keeps.{set_fw_state-Keeps}
use thingsboard_sdk.Fota.Start.{
  fw_request_image, continue_at_offset, init_target, open_target, update_ctx, begin_update,
  start_fw_update, fota_on_attributes, firmware_telemetry, fota_init, report_update, confirm,
  fota_confirm_update,
}

module _ (e : Env) (R : World → World → Type 0) (quiet : (v w : World) → Quiet v w → R v w)
    (transitive : (u v w : World) → R u v → R v w → R u w)
    (sent : (t : Telemetry) → Keeps R (send_telemetry e t)) where
  pub fota_init-Keeps : (fw : FirmwareInfo) → Keeps R (fota_init e fw)
  unfolding fota_init
  fota_init-Keeps fw w =
      let v = (set_fw idle (record w { current_firmware = some fw })).0 in
      transitive w v (fota_init e fw w).0 (quiet w v refl) (sent (firmware_telemetry e none fw) v)

  report_update-Keeps : (fw : Option FirmwareInfo) → Keeps R (report_update e fw)
  unfolding report_update
  report_update-Keeps none w = quiet w w refl
  report_update-Keeps (some fw) w = sent (firmware_telemetry e (some (ascii "UPDATED")) fw) w

  confirm-Keeps : Keeps R (confirm e)
  unfolding confirm
  confirm-Keeps w =
      let v = (ask e.write_confirmed_result boot_write_img_confirmed w).0 in
      transitive w v (confirm e w).0 (quiet w v refl) (report_update-Keeps w.current_firmware v)

  pub fota_confirm_update-Keeps : Keeps R (fota_confirm_update e)
  unfolding fota_confirm_update
  fota_confirm_update-Keeps w =
      let v = (ask e.img_confirmed boot_is_img_confirmed w).0 in
      ground
        (arith, transitive w v (confirm e v).0 (quiet w v refl) (confirm-Keeps v), quiet w v refl)

  module _ (fetched : Keeps R (fw_request_image e)) where
    fetched-after :
        (n : ℕ) (w v : World)
        → Quiet w v
        → R w (fw_request_image e (modify_fota (λ f. record f { offset = n }) v).0).0
    fetched-after n w v q =
        let u = (modify_fota (λ f. record f { offset = n }) v).0 in
        transitive w u (fw_request_image e u).0 (quiet w u q) (fetched u)

    continue_at_offset-Keeps : Keeps R (continue_at_offset e)
    unfolding continue_at_offset
    continue_at_offset-Keeps w =
        let v = (ask e.offset_get_result dfu_offset_get w).0 in
        elim (Result-cases (e.offset_get_result w.history)) [
          | inl (n, p) ↦ ground (arith, p, fetched-after n w v refl)
          | inr (x, p) ↦ ground (arith, p, quiet w v refl)
        ]

    init_target-Keeps : Keeps R (init_target e)
    unfolding init_target
    init_target-Keeps w =
        let v = (ask (λ h. e.init_result h w.fota.size) dfu_init w).0 in
        ground (
          arith,
          transitive w v (continue_at_offset e v).0 (quiet w v refl) (continue_at_offset-Keeps v),
          quiet w v refl,
        )

    first_target-Keeps : (w : World) (v : World) → Quiet w v → R w (init_target e v).0
    first_target-Keeps w v q =
        transitive w v (init_target e v).0 (quiet w v q) (init_target-Keeps v)

    open_target-Keeps : Keeps R (open_target e)
    unfolding open_target
    open_target-Keeps w =
        let v = (ask e.set_buf_result dfu_set_buf w).0 in
        let u = (ask (λ h. e.done_result h false) (dfu_done false) w).0 in
        ground (arith, first_target-Keeps w v refl, first_target-Keeps w u refl, quiet w v refl)

    begin_update-Keeps : Keeps R (begin_update e)
    unfolding begin_update
    begin_update-Keeps w =
        let v = (modify_fota (update_ctx e w.client.shared_attributes) w).0 in
        let s = (set_fw_state e downloading v).0 in
        transitive w v (begin_update e w).0 (quiet w v refl) (
          transitive v s (open_target e s).0
            (set_fw_state-Keeps e R quiet transitive sent downloading v) (open_target-Keeps s))

    pub fota_on_attributes-Keeps : Keeps R (fota_on_attributes e)
    unfolding fota_on_attributes start_fw_update
    fota_on_attributes-Keeps w = ground (arith, begin_update-Keeps w, quiet w w refl)
