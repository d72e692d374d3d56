-- ===== src/Fota/Keeps.antt =====
-- What the handling of the image's blocks keeps: any relation that allows what passes no request, and
-- the sending of telemetry.
use thingsboard_sdk.Base.{true, refl, Bytes, Bool-cases, inl, inr, none, some, arith, ◌==◌}
use thingsboard_sdk.Types.{
  FwState, Telemetry, downloading, downloaded, verified, updating, updated, failed, idle,
}
use thingsboard_sdk.Platform.{Env, Delivery, dfu_done}
use thingsboard_sdk.World.{World, ask}
use thingsboard_sdk.World.Keeps.{Keeps}
use thingsboard_sdk.Requests.Traffic.{Quiet}
use thingsboard_sdk.Telemetry.{send_telemetry}
use thingsboard_sdk.Fota.{
  fw_number, set_fw, state_str, report_state, set_fw_state, install, fw_apply, advance, write_chunk,
  reject_image, first_chunk, fw_chunk_process, chunk_state, react,
}

module _ (e : Env) where
  write_chunk-Quiet : (buf : Bytes) → Keeps Quiet (write_chunk e buf)
  unfolding write_chunk advance
  write_chunk-Quiet buf w = ground arith

  first_chunk-Quiet : (buf : Bytes) → Keeps Quiet (first_chunk e buf)
  unfolding first_chunk reject_image
  first_chunk-Quiet buf w = grind (arith, write_chunk-Quiet)

  -- The part of `client_handle_fw_chunk` in front of `out` passes no request.
  chunk_state-Quiet : (d : Delivery) → Keeps Quiet (chunk_state e d)
  unfolding chunk_state fw_chunk_process
  chunk_state-Quiet d w =
      ground (arith, first_chunk-Quiet d.payload w, write_chunk-Quiet d.payload w)

module _ (e : Env) (R : World → World → Type 0) (quiet : (v w : World) → Quiet v w → R v w)
    (transitive : (u v w : World) → R u v → R v w → R u w)
    (sent : (t : Telemetry) → Keeps R (send_telemetry e t)) where
  pub set_fw_state-Keeps : (s : FwState) → Keeps R (set_fw_state e s)
  unfolding set_fw_state report_state
  set_fw_state-Keeps s w = elim (Bool-cases (fw_number w.fota.fw_state == fw_number s)) [
    | inl p ↦ rw (p, set_fw_state) (quiet w w refl)
    | inr p ↦
        let v = (set_fw s w).0 in
        let t : Telemetry = record {
          fw_state = some (state_str s);
          current_fw_title = none;
          current_fw_version = none;
        } in
        rw (p, set_fw_state) (transitive w v (send_telemetry e t v).0 (quiet w v refl) (sent t v))
  ]

  install-Keeps : Keeps R (install e)
  unfolding install
  install-Keeps w =
      let v = (set_fw_state e updating w).0 in
      transitive w v (install e w).0 (set_fw_state-Keeps updating w) (quiet v (install e w).0 refl)

  fw_apply-Keeps : Keeps R (fw_apply e)
  unfolding fw_apply
  fw_apply-Keeps w =
      let v = (ask (λ h. e.done_result h true) (dfu_done true) w).0 in
      ground
        (arith, transitive w v (install e v).0 (quiet w v refl) (install-Keeps v), quiet w v refl)

  react-Keeps : (s : FwState) → Keeps R (react e s)
  unfolding react
  react-Keeps downloading w = quiet w w refl
  react-Keeps downloaded w = fw_apply-Keeps w
  react-Keeps failed w = quiet w (react e failed w).0 refl
  react-Keeps verified w = quiet w w refl
  react-Keeps updating w = quiet w w refl
  react-Keeps updated w = quiet w w refl
  react-Keeps idle w = quiet w w refl

  -- `client_handle_fw_chunk` in front of the freeing of its block.
  pub process_chunk-Keeps :
      (d : Delivery) (w : World)
      → R w
          (react e
            (chunk_state e d w).1
            (set_fw_state e (chunk_state e d w).1 (chunk_state e d w).0).0).0
  process_chunk-Keeps d w =
      let c = chunk_state e d w in
      let s = set_fw_state e c.1 c.0 in
      transitive w c.0 (react e c.1 s.0).0 (quiet w c.0 (chunk_state-Quiet e d w))
        (transitive c.0 s.0 (react e c.1 s.0).0 (set_fw_state-Keeps c.1 c.0) (react-Keeps c.1 s.0))
