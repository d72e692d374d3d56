-- ===== src/Fota/Start/Laws.antt =====
-- A change of the attributes starts an update at most once.
use thingsboard_sdk.Base.{◌≡◌, ℕ, Option-cases, inl, inr, arith, false}
use thingsboard_sdk.Types.{downloading}
use thingsboard_sdk.Platform.{Env, dfu_done, dfu_set_buf, dfu_init}
use thingsboard_sdk.World.{World, ask, modify_fota}
use thingsboard_sdk.World.Keeps.{Keeps}
use thingsboard_sdk.Requests.{after_alloc, request_alloc, request_free, send_coap}
use thingsboard_sdk.Fota.Chunks.{set_fw_state-lem}
use thingsboard_sdk.Fota.{set_fw_state}
use thingsboard_sdk.Fota.Start.{
  prepare_image, fw_request_image, continue_at_offset, init_target, open_target, update_ctx,
  begin_update, start_fw_update, fota_on_attributes,
}

-- The state of the update, and what its start is decided on, are as before.
abbrev Stays : World → World → Type 0
Stays v w =
    (w.fota.fw_state ≡ v.fota.fw_state)
    × (w.client.shared_attributes ≡ v.client.shared_attributes)
    × (w.current_firmware ≡ v.current_firmware)

module _ (e : Env) where
  prepare_image-Stays : (r : ℕ) (w : World) → Stays w (prepare_image e r w).0
  unfolding prepare_image request_free send_coap
  prepare_image-Stays r w = ground arith

  pub fw_request_image-Stays : Keeps Stays (fw_request_image e)
  unfolding fw_request_image request_alloc
  fw_request_image-Stays w = elim (Option-cases (e.mem_slab_alloc w.history)) [
    | inl p ↦ rw (p, fw_request_image, request_alloc) (ground arith)
    | inr (r, p) ↦ rw (p, fw_request_image, request_alloc) (prepare_image-Stays r (after_alloc r w))
  ]

  continue_at_offset-Stays : Keeps Stays (continue_at_offset e)
  unfolding continue_at_offset
  continue_at_offset-Stays w = grind (arith, fw_request_image-Stays)

  init_target-Stays : Keeps Stays (init_target e)
  unfolding init_target
  init_target-Stays w =
      ground (arith, continue_at_offset-Stays (ask (λ h. e.init_result h w.fota.size) dfu_init w).0)

  open_target-Stays : Keeps Stays (open_target e)
  unfolding open_target
  open_target-Stays w = ground (
    arith,
    init_target-Stays (ask e.set_buf_result dfu_set_buf w).0,
    init_target-Stays (ask (λ h. e.done_result h false) (dfu_done false) w).0,
  )

  fota_on_attributes-busy :
      (w : World) → w.fota.fw_state ≡ downloading → fota_on_attributes e w ≡ (w, tt)
  unfolding fota_on_attributes start_fw_update
  fota_on_attributes-busy w h = ground arith

  begin_update-downloading : (w : World) → (begin_update e w).0.fota.fw_state ≡ downloading
  unfolding begin_update
  begin_update-downloading w =
      let v = (modify_fota (update_ctx e w.client.shared_attributes) w).0 in
      ground (
        arith,
        set_fw_state-lem e downloading v,
        open_target-Stays (set_fw_state e downloading v).0,
      )

  -- Of two calls of thingsboard_fota_on_attributes directly behind one another the second does
  -- nothing, also when the start of an update in the first has failed on the way.
  pub fota_on_attributes-twice :
      (w : World)
      → fota_on_attributes e (fota_on_attributes e w).0 ≡ ((fota_on_attributes e w).0, tt)
  unfolding fota_on_attributes start_fw_update
  fota_on_attributes-twice w =
      ground (arith, begin_update-downloading w, fota_on_attributes-busy (begin_update e w).0)
